-- ===== src/Planner/Sourcing.antt =====
-- `ApplyActions` and the log: what the planner holds is what a replay of its events gives.
use agentsdk.Prelude.{
  ℕ, suc, String, Bool, false, Option, none, List, [], ◌∷◌, map, ◌≡◌, refl, ap, ◌∙◌, ◌⊎◌, inl, inr,
  arith, length, Option-cases,
}
use agentsdk.Prelude.Result.{Result-cases, ok, err}
use agentsdk.Planner.{PlanError, no_actions, runtime_required}
use agentsdk.Planner.Replay.{Event, Draft, apply_event_to, apply_event, replay}
use agentsdk.Planner.Actions.{Action, build_action_event}
use agentsdk.Planner.Apply.{
  dispatch_event, Runtime, Planner, draft_actions, apply_events, refused, applied, commit,
  apply_actions,
}

pub replay-nil : (d : Draft) → replay d [] ≡ ok d
unfolding replay
replay-nil d = refl

pub replay-cons :
    (d n : Draft) (e : Event) (events : List Event) {last : Draft}
    → apply_event_to d e ≡ ok n
    → replay n events ≡ ok last
    → replay d (e ∷ events) ≡ ok last
unfolding replay
replay-cons d n e events h k = rw h k

-- The draft is the replay of the events that the actions become.
pub draft_actions-replay :
    (gen : ℕ → Option String) (i : ℕ) (d last : Draft) (actions : List Action) (events : List Event)
    → draft_actions gen i d actions ≡ ok (last, events)
    → replay d events ≡ ok last
unfolding draft_actions
draft_actions-replay gen i d last [] events h = ground (arith, replay-nil d)
draft_actions-replay gen i d last (a ∷ actions) events h =
    elim (Result-cases (build_action_event (gen i) d a)) [
      | inl (e, bad) ↦ absurd (ground (arith, bad))
      | inr (event, built) ↦ elim (Result-cases (apply_event_to d event)) [
        | inl (e, bad) ↦ absurd (ground (arith, built, bad))
        | inr (n, done) ↦ elim (Result-cases (draft_actions gen (suc i) n actions)) [
          | inl (e, bad) ↦ absurd (ground (arith, built, done, bad))
          | inr ((end, rest), drafted) ↦ ground (
            arith,
            built,
            done,
            drafted,
            replay-cons d n event rest done
                (draft_actions-replay gen (suc i) n end actions rest drafted),
          )
        ]
      ]
    ]

-- While the context reports no error, the planner takes the events that replay.
apply_events-replay :
    (ctx_err : ℕ → Bool) (i : ℕ) (d last : Draft) (events : List Event)
    → ((j : ℕ) → ctx_err j ≡ false)
    → replay d events ≡ ok last
    → apply_events ctx_err i d events ≡ (last, none)
unfolding apply_events apply_event replay
apply_events-replay ctx_err i d last [] live h = ground arith
apply_events-replay ctx_err i d last (e ∷ events) live h =
    elim (Result-cases (apply_event_to d e)) [
      | inl (x, bad) ↦ absurd (ground (arith, bad))
      | inr (n, done) ↦
          ground (arith, done, live i, apply_events-replay ctx_err (suc i) n last events live)
    ]

commit_cases :
    (ctx_err : ℕ → Bool) (p : Planner) (r : Runtime) (n : ℕ) (events : List Event)
    → ((e : PlanError) × (commit ctx_err p r n events ≡ refused p e))
      ⊎ (commit ctx_err p r n events
          ≡ applied p
              (map (dispatch_event p.spec) events)
              n
              (apply_events ctx_err 0 p.state events))
commit_cases ctx_err p r n events =
    elim (Option-cases (r.append (map (dispatch_event p.spec) events))) [
      | inl taken ↦ inr (rw (taken, commit))
      | inr (e, refusal) ↦ inl (e, rw (refusal, commit))
    ]

-- How a call ends: refused, or logged and then applied as far as the context allows.
pub apply_actions_cases :
    (gen : ℕ → Option String) (ctx_err : ℕ → Bool) (p : Planner) (actions : List Action)
    → ((e : PlanError) × (apply_actions gen ctx_err p actions ≡ refused p e))
      ⊎ ((events : List Event) × (last : Draft) × (draft_actions gen 0 p.state actions
            ≡ ok (last, events))
          × (apply_actions gen ctx_err p actions
              ≡ applied p
                  (map (dispatch_event p.spec) events)
                  (length actions)
                  (apply_events ctx_err 0 p.state events)))
unfolding apply_actions
apply_actions_cases gen ctx_err p [] = inl (no_actions, refl)
apply_actions_cases gen ctx_err p (a ∷ actions) = elim (Option-cases p.runtime) [
  | inl missing ↦ inl (runtime_required, rw (missing, apply_actions))
  | inr (r, there) ↦ elim (Result-cases (draft_actions gen 0 p.state (a ∷ actions))) [
    | inl (e, bad) ↦ inl (e, rw (there, apply_actions) (rw bad))
    | inr ((last, events), drafted) ↦
        elim (commit_cases ctx_err p r (length (a ∷ actions)) events) [
          | inl (e, refusal) ↦ inl (e, rw (there, apply_actions) (rw drafted refusal))
          | inr done ↦ inr (events, last, drafted, rw (there, apply_actions) (rw drafted done))
        ]
  ]
]

-- While the context reports no error, `ApplyActions` is all or nothing: an error leaves the planner
-- as it was and no event that the runtime took, and success leaves the events of all the actions in the log and
-- the planner at what these events replay to, which is the plan returned.
pub apply_actions_atomic :
    (gen : ℕ → Option String) (ctx_err : ℕ → Bool) (p : Planner) (actions : List Action)
    → ((j : ℕ) → ctx_err j ≡ false)
    → let o = apply_actions gen ctx_err p actions in
      ((e : PlanError) × (o.result ≡ err e) × (o.state ≡ p.state) × (o.logged ≡ []))
      ⊎ ((events : List Event) × (draft_actions gen 0 p.state actions ≡ ok (o.state, events))
          × (replay p.state events ≡ ok o.state)
          × (o.logged ≡ map (dispatch_event p.spec) events)
          × (o.result ≡ ok (record { count = length actions; plan = o.state.plan })))
apply_actions_atomic gen ctx_err p actions live = elim (apply_actions_cases gen ctx_err p actions) [
  | inl (e, refusal) ↦ inl (e, rw refusal, rw refusal, rw refusal)
  | inr (events, last, drafted, done) ↦
      let replayed = draft_actions-replay gen 0 p.state last actions events drafted in
      let e =
        done
        ∙ ap (applied p (map (dispatch_event p.spec) events) (length actions))
            (apply_events-replay ctx_err 0 p.state last events live replayed) in
      inr (events, rw e drafted, rw e replayed, rw e, rw e)
]
