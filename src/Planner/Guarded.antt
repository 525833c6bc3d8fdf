-- ===== src/Planner/Guarded.antt =====
-- `ApplyActions` keeps the invariant of the plan on every path.
use agentsdk.Prelude.{
  ℕ, suc, String, Bool, true, false, Option, none, some, List, [], ◌∷◌, ◌==◌, if◌then◌else◌, ◌≡◌,
  refl, subst, arith, inl, inr, Bool-cases, Option-cases,
}
use agentsdk.Prelude.Text.{trim_space}
use agentsdk.Prelude.Result.{guard-eq-ok, Result-cases, ok}
use agentsdk.Planner.{Step, PlanError, has_no_plan, new_step_id}
use agentsdk.Planner.Replay.{Event, step_removed, Draft, apply_event_to, apply_event}
use agentsdk.Planner.Actions.{
  Action, Built, is_plan_action, require_step_id, or_drawn, set_id, check_deps, build_step,
  build_create, build_add, build_remove, build_title, build_status, build_depends_on, build_parent,
  build_current, build_on_plan, build_action_event,
}
use agentsdk.Planner.Apply.{Planner, draft_actions, apply_events, applied, apply_actions}
use agentsdk.Planner.Apply.{DispatchedEvent}
use agentsdk.Planner.Sourcing.{apply_actions_cases}
use agentsdk.Planner.Valid.{IsValid, Allowed, apply_event_to-IsValid}

build_step-Allowed : (d : Draft) (s : Step) (e : Event) → build_step d.plan s ≡ ok e → Allowed d e
unfolding build_step check_deps
build_step-Allowed d s (step_removed id) h = absurd (ground arith)
build_step-Allowed d s _ h = tt

build_add-Allowed :
    (gen : Option String) (d : Draft) (a : Action) (e : Event)
    → build_add gen d.plan a ≡ ok e
    → Allowed d e
unfolding build_add
build_add-Allowed gen d a e h = elim (Option-cases a.step) [
  | inl missing ↦ absurd (ground (arith, missing))
  | inr (s, there) ↦ elim (Result-cases (or_drawn new_step_id gen s.id)) [
    | inl (x, bad) ↦ absurd (ground (arith, there, bad))
    | inr (id, drawn) ↦ build_step-Allowed d (set_id s id) e (ground (arith, there, drawn))
  ]
]

build_create-Allowed :
    (gen : Option String) (d : Draft) (a : Action) (e : Event)
    → build_create gen d a ≡ ok e
    → Allowed d e
unfolding build_create
build_create-Allowed gen d a (step_removed id) h = absurd (ground arith)
build_create-Allowed gen d a _ h = tt

build_remove-Allowed :
    (d : Draft) (id : String) (e : Event) → build_remove d.plan id ≡ ok e → Allowed d e
unfolding build_remove
build_remove-Allowed d id (step_removed x) h = ground arith
build_remove-Allowed d id _ h = tt

build_title-Allowed :
    (d : Draft) (id title : String) (e : Event) → build_title d.plan id title ≡ ok e → Allowed d e
unfolding build_title
build_title-Allowed d id title (step_removed x) h = absurd (ground arith)
build_title-Allowed d id title _ h = tt

build_status-Allowed :
    (d : Draft) (id status : String) (e : Event)
    → build_status d.plan id status ≡ ok e
    → Allowed d e
unfolding build_status
build_status-Allowed d id status (step_removed x) h = absurd (ground arith)
build_status-Allowed d id status _ h = tt

build_depends_on-Allowed :
    (d : Draft) (id : String) (deps : List String) (e : Event)
    → build_depends_on d.plan id deps ≡ ok e
    → Allowed d e
unfolding build_depends_on
build_depends_on-Allowed d id deps (step_removed x) h = absurd (ground arith)
build_depends_on-Allowed d id deps _ h = tt

build_parent-Allowed :
    (d : Draft) (id parent : String) (e : Event)
    → build_parent d.plan id parent ≡ ok e
    → Allowed d e
unfolding build_parent
build_parent-Allowed d id parent (step_removed x) h = absurd (ground arith)
build_parent-Allowed d id parent _ h = tt

build_current-Allowed :
    (d : Draft) (id : String) (e : Event) → build_current d.plan id ≡ ok e → Allowed d e
unfolding build_current
build_current-Allowed d id (step_removed x) h = absurd (ground arith)
build_current-Allowed d id _ h = tt

if-Allowed :
    (d : Draft) (e : Event) (b : Bool) (x y : Built)
    → (x ≡ ok e → Allowed d e)
    → (y ≡ ok e → Allowed d e)
    → (if b then x else y) ≡ ok e
    → Allowed d e
if-Allowed d e true x y f g h = f h
if-Allowed d e false x y f g h = g h

build_on_plan-Allowed :
    (gen : Option String) (d : Draft) (name : String) (a : Action) (e : Event)
    → build_on_plan gen d.plan name a ≡ ok e
    → Allowed d e
unfolding build_on_plan
build_on_plan-Allowed gen d name a e =
    let id = require_step_id a in
    if-Allowed d e (name == "add_step") _ _ (build_add-Allowed gen d a e) (
      if-Allowed d e (name == "remove_step") _ _ (build_remove-Allowed d id e) (
        if-Allowed d e (name == "set_step_title") _ _ (build_title-Allowed d id a.title e) (
          if-Allowed d e (name == "set_step_status") _ _ (build_status-Allowed d id a.status e) (
            if-Allowed d e (name == "set_step_depends_on") _ _
              (build_depends_on-Allowed d id a.depends_on e)
              (if-Allowed d e (name == "set_step_parent") _ _
                (build_parent-Allowed d id a.parent_id e) (build_current-Allowed d a.step_id e))))))

-- What `buildActionEvent` lets through may be applied.
build_action_event-Allowed :
    (gen : Option String) (d : Draft) (a : Action) (e : Event)
    → build_action_event gen d a ≡ ok e
    → Allowed d e
unfolding build_action_event
build_action_event-Allowed gen d a e =
    let name = trim_space a.action in
    if-Allowed d e (name == "create_plan") _ _ (build_create-Allowed gen d a e) (
      if-Allowed d e (is_plan_action name) _ _
        (λ h. build_on_plan-Allowed gen d name a e (guard-eq-ok d.created has_no_plan _ h).1)
        (λ h. cc))

-- Each event may be applied when its turn comes.
abbrev AllowedRun : Draft → List Event → Type 0
AllowedRun d [] = Unit
AllowedRun d (e ∷ events) =
    Allowed d e × ((n : Draft) → apply_event_to d e ≡ ok n → AllowedRun n events)

draft_actions-AllowedRun :
    (gen : ℕ → Option String) (i : ℕ) (d last : Draft) (actions : List Action) (events : List Event)
    → draft_actions gen i d actions ≡ ok (last, events)
    → AllowedRun d events
unfolding draft_actions
draft_actions-AllowedRun gen i d last [] events h =
    let empty : ◌≡◌ {A = List Event} [] events = ground arith in subst (AllowedRun d) empty tt
draft_actions-AllowedRun gen i d last (a ∷ actions) events h =
    elim (Result-cases (build_action_event (gen i) d a)) [
      | inl (e, bad) ↦ absurd (ground (arith, bad))
      | inr (event, built) ↦ elim (Result-cases (apply_event_to d event)) [
        | inl (e, bad) ↦ absurd (ground (arith, built, bad))
        | inr (n, done) ↦ elim (Result-cases (draft_actions gen (suc i) n actions)) [
          | inl (e, bad) ↦ absurd (ground (arith, built, done, bad))
          | inr ((end, rest), drafted) ↦
              let split : event ∷ rest ≡ events = ground (arith, built, done, drafted) in
              let later = draft_actions-AllowedRun gen (suc i) n end actions rest drafted in
              subst (AllowedRun d) split (
                build_action_event-Allowed (gen i) d a event built,
                λ m k.
                    let same : n ≡ m = ground (arith, k, done) in
                    subst (λ x. AllowedRun x rest) same later,
              )
        ]
      ]
    ]

apply_events-IsValid :
    (ctx_err : ℕ → Bool) (i : ℕ) (d : Draft) (events : List Event)
    → AllowedRun d events
    → IsValid d
    → IsValid (apply_events ctx_err i d events).0
unfolding apply_events apply_event
apply_events-IsValid ctx_err i d [] a v = v
apply_events-IsValid ctx_err i d (e ∷ events) a v = elim (Bool-cases (ctx_err i)) [
  | inl stopped ↦ rw (stopped, apply_events) v
  | inr live ↦ elim (Result-cases (apply_event_to d e)) [
    | inl (x, bad) ↦ rw (live, apply_events) (rw bad v)
    | inr (n, done) ↦
        rw (live, apply_events)
          (rw done (
            apply_events-IsValid ctx_err (suc i) n events (a.1 n done)
              (apply_event_to-IsValid d n e a.0 v done)))
  ]
]

applied-state :
    (p : Planner) (logged : List DispatchedEvent) (n : ℕ) (run : Draft × Option PlanError)
    → (applied p logged n run).state ≡ run.0
applied-state p logged n (d, none) = refl
applied-state p logged n (d, some e) = refl

-- From a valid plan, `ApplyActions` leaves a valid plan, whatever the actions, the drawn ids, the
-- runtime and the context do, and whether it succeeds or not.
pub apply_actions-IsValid :
    (gen : ℕ → Option String) (ctx_err : ℕ → Bool) (p : Planner) (actions : List Action)
    → IsValid p.state
    → IsValid (apply_actions gen ctx_err p actions).state
apply_actions-IsValid gen ctx_err p actions v = elim (apply_actions_cases gen ctx_err p actions) [
  | inl (e, refusal) ↦ rw refusal v
  | inr (events, last, drafted, done) ↦ rw done (
      rw applied-state (
        apply_events-IsValid ctx_err 0 p.state events
          (draft_actions-AllowedRun gen 0 p.state last actions events drafted) v))
]
