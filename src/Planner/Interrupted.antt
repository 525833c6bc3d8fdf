-- ===== src/Planner/Interrupted.antt =====
-- `ApplyActions` under a context that may be cancelled at any time: the planner and the log.
use agentsdk.Prelude.{
  ℕ, zero, suc, ◌+◌, ◌<◌, String, Bool, true, false, Option, none, some, List, [], ◌∷◌, ◌++◌, map,
  ◌≡◌, refl, ap, sym, subst, ◌∙◌, ◌⊎◌, inl, inr, arith, length, Bool-cases,
}
use agentsdk.Prelude.Result.{Result-cases, ok, err}
use agentsdk.Planner.{PlanError, cancelled}
use agentsdk.Planner.Replay.{Event, Draft, apply_event_to, apply_event, replay}
use agentsdk.Planner.Actions.{Action}
use agentsdk.Planner.Apply.{
  dispatch_event, Planner, draft_actions, apply_events, DispatchedEvent, Outcome, applied,
  apply_actions,
}
use agentsdk.Planner.Sourcing.{replay-nil, replay-cons, draft_actions-replay, apply_actions_cases}

-- The context reports no error before the n-th event.
abbrev pub IsLive : (ℕ → Bool) → ℕ → Type 0
IsLive ctx_err n = (j : ℕ) → j < n → ctx_err j ≡ false

-- A run over events is at the end, or stands before one at which the context reports an error.
abbrev pub Stops : (ctx_err : Bool) (left : List Event) → Option PlanError → Type 0
Stops ctx_err [] e = e ≡ none
Stops ctx_err (event ∷ left) e = (ctx_err ≡ true) × (e ≡ some cancelled)

record Cut (ctx_err : ℕ → Bool) (i : ℕ) (d : Draft) (events : List Event) : Type 0 where
  taken : List Event
  left : List Event
  all : events ≡ taken ++ left
  live : (j : ℕ) → j < length taken → ctx_err (i + j) ≡ false
  replayed : replay d taken ≡ ok (apply_events ctx_err i d events).0
  stops : Stops (ctx_err (i + length taken)) left (apply_events ctx_err i d events).1

events_stopped :
    (ctx_err : ℕ → Bool) (i : ℕ) (d : Draft) (e : Event) (events : List Event)
    → ctx_err i ≡ true
    → apply_events ctx_err i d (e ∷ events) ≡ (d, some cancelled)
unfolding apply_events apply_event
events_stopped ctx_err i d e events h = ground (arith, h)

events_taken :
    (ctx_err : ℕ → Bool) (i : ℕ) (d n : Draft) (e : Event) (events : List Event)
    → ctx_err i ≡ false
    → apply_event_to d e ≡ ok n
    → apply_events ctx_err i d (e ∷ events) ≡ apply_events ctx_err (suc i) n events
unfolding apply_events apply_event
events_taken ctx_err i d n e events h done = ground (arith, h, done)

live_cons :
    (ctx_err : ℕ → Bool) (i n j : ℕ)
    → ctx_err i ≡ false
    → ((k : ℕ) → k < n → ctx_err (suc i + k) ≡ false)
    → j < suc n
    → ctx_err (i + j) ≡ false
live_cons ctx_err i n zero live rest b = ap ctx_err (omega arith) ∙ live
live_cons ctx_err i n (suc j) live rest b = ap ctx_err (omega arith) ∙ rest j (omega (arith, b))

apply_events-Cut :
    (ctx_err : ℕ → Bool) (i : ℕ) (d last : Draft) (events : List Event)
    → replay d events ≡ ok last
    → Cut ctx_err i d events
unfolding apply_events replay
apply_events-Cut ctx_err i d last [] h = record {
  taken = [];
  left = [];
  all = refl;
  live = λ j b. absurd (omega (arith, b));
  replayed = refl;
  stops = refl;
}
apply_events-Cut ctx_err i d last (e ∷ events) h = elim (Bool-cases (ctx_err i)) [
  | inl stopped ↦ record {
    taken = [];
    left = e ∷ events;
    all = refl;
    live = λ j b. absurd (omega (arith, b));
    replayed =
        replay-nil d
        ∙ sym (
            ap (λ (x : Draft × Option PlanError). ok x.0)
              (events_stopped ctx_err i d e events stopped));
    stops = (
      ap ctx_err (omega arith) ∙ stopped,
      ap (λ (x : Draft × Option PlanError). x.1) (events_stopped ctx_err i d e events stopped),
    );
  }
  | inr live ↦ elim (Result-cases (apply_event_to d e)) [
    | inl (x, bad) ↦ absurd (ground (arith, h, bad))
    | inr (n, done) ↦
        let c = apply_events-Cut ctx_err (suc i) n last events (ground (arith, h, done)) in
        let run = sym (events_taken ctx_err i d n e events live done) in
        record {
          taken = e ∷ c.taken;
          left = c.left;
          all = ap (λ l. e ∷ l) c.all;
          live = λ j b. live_cons ctx_err i (length c.taken) j live c.live b;
          replayed =
              replay-cons d n e c.taken done c.replayed
              ∙ ap (λ (x : Draft × Option PlanError). ok x.0) run;
          stops =
              subst (λ x. Stops (ctx_err (i + suc (length c.taken))) c.left x)
                (ap (λ (x : Draft × Option PlanError). x.1) run)
                (subst (λ k. Stops (ctx_err k) c.left (apply_events ctx_err (suc i) n events).1)
                  (omega arith) c.stops);
        }
  ]
]

-- With no event left the call succeeds; else the context reported an error, which the call returns.
abbrev pub Answers : Bool → List Event → ℕ → Outcome → Type 0
Answers ctx_err [] n o = o.result ≡ ok (record { count = n; plan = o.state.plan })
Answers ctx_err (e ∷ left) n o = (ctx_err ≡ true) × (o.result ≡ err cancelled)

applied-Answers :
    (c : Bool) (left : List Event) (p : Planner) (logged : List DispatchedEvent) (n : ℕ)
    (run : Draft × Option PlanError)
    → Stops c left run.1
    → Answers c left n (applied p logged n run)
applied-Answers c [] p logged n (d, none) h = refl
applied-Answers c [] p logged n (d, some e) h = absurd (cc)
applied-Answers c (e ∷ left) p logged n (d, none) h = absurd (cc (h.1))
applied-Answers c (e ∷ left) p logged n (d, some x) h = (h.0, cc (h.1))

applied-kept :
    (p : Planner) (logged : List DispatchedEvent) (n : ℕ) (run : Draft × Option PlanError)
    → ((applied p logged n run).logged ≡ logged) × ((applied p logged n run).state ≡ run.0)
applied-kept p logged n (d, none) = (refl, refl)
applied-kept p logged n (d, some e) = (refl, refl)

-- Whenever the context is cancelled, a call of `ApplyActions` either fails and leaves the planner as
-- it was and no event that the runtime took, or the events of all the actions are in the log and
-- replay, and the planner is at the replay of a first part of them: all of them, and the call
-- succeeds with the plan, or those before the first at which the context reports an error, and the
-- call returns that error though the log holds the rest as well.
pub apply_actions_interrupted :
    (gen : ℕ → Option String) (ctx_err : ℕ → Bool) (p : Planner) (actions : List Action)
    → let o = apply_actions gen ctx_err p actions in
      ((e : PlanError) × (o.result ≡ err e) × (o.state ≡ p.state) × (o.logged ≡ []))
      ⊎ ((taken : List Event) × (left : List Event) × (last : Draft) × (draft_actions gen 0 p.state
              actions
            ≡ ok (last, taken ++ left))
          × (replay p.state (taken ++ left) ≡ ok last)
          × (o.logged ≡ map (dispatch_event p.spec) (taken ++ left))
          × (replay p.state taken ≡ ok o.state)
          × IsLive ctx_err (length taken)
          × Answers (ctx_err (length taken)) left (length actions) o)
apply_actions_interrupted gen ctx_err p actions = elim (apply_actions_cases gen ctx_err p actions) [
  | inl (e, refusal) ↦ inl (e, rw refusal, rw refusal, rw refusal)
  | inr (events, last, drafted, done) ↦
      let replayed = draft_actions-replay gen 0 p.state last actions events drafted in
      let c = apply_events-Cut ctx_err 0 p.state last events replayed in
      let run = apply_events ctx_err 0 p.state events in
      let logged = map (dispatch_event p.spec) events in
      let kept = applied-kept p logged (length actions) run in
      inr (
        c.taken,
        c.left,
        last,
        rw c.all at drafted,
        rw c.all at replayed,
        rw done (kept.0 ∙ ap (map (dispatch_event p.spec)) c.all),
        rw done (c.replayed ∙ sym (ap (λ d. ok d) kept.1)),
        λ j b. ap ctx_err (omega arith) ∙ c.live j b,
        rw done (
            applied-Answers (ctx_err (length c.taken)) c.left p logged (length actions) run
              (subst (λ k. Stops (ctx_err k) c.left run.1) (omega arith) c.stops)),
      )
]
