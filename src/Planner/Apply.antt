-- ===== src/Planner/Apply.antt =====
-- `Planner.ApplyActions` of capabilities/planner/actions.go, with `New` of planner.go and
-- `DispatchEvent` of capability/events.go. The runtime is an interface: `append` is what its
-- `AppendEvents` answers, `none` for success; what a runtime that fails has written is its own
-- matter. `ctx_err i` is whether `ctx.Err()` reports an error
-- when the i-th event is applied. `gen i` is what `gonanoid.New` returns for the i-th action.
use agentsdk.Prelude.{
  ℕ, suc, String, Bool, false, Option, none, some, List, [], ◌∷◌, map, ◌==◌, if◌then◌else◌, length,
}
use agentsdk.Prelude.Result.{Result, ok, err, ◌>>=◌}
use agentsdk.Planner.{Plan, PlanError, empty_plan, no_actions, runtime_required}
use agentsdk.Planner.Replay.{Event, Draft, apply_event_to, apply_event}
use agentsdk.Planner.Actions.{Action, build_action_event}

-- `capability.AttachSpec` without its configuration, which the planner does not read
pub record AttachSpec : Type 0 where
  pub thread_id : String
  pub branch_id : String
  pub capability_name : String
  pub instance_id : String

-- The `thread.Event` that carries a state event: its payload names the capability and the instance.
pub record DispatchedEvent : Type 0 where
  pub thread_id : String
  pub branch_id : String
  pub capability_name : String
  pub instance_id : String
  pub event : Event

unfoldable pub dispatch_event : AttachSpec → Event → DispatchedEvent
dispatch_event spec event = record {
  thread_id = spec.thread_id;
  branch_id = spec.branch_id;
  capability_name = spec.capability_name;
  instance_id = spec.instance_id;
  event = event;
}

pub record Runtime : Type 0 where
  pub append : List DispatchedEvent → Option PlanError

pub record Planner : Type 0 where
  pub spec : AttachSpec
  pub runtime : Option Runtime
  pub state : Draft

unfoldable pub new_planner : AttachSpec → Option Runtime → Planner
new_planner spec runtime = record {
  spec = (if spec.capability_name == "" then record spec { capability_name = "planner" } else spec);
  runtime = runtime;
  state = record { plan = empty_plan; created = false };
}

-- The first loop: builds each action's event on the draft, and applies it to the draft.
unfoldable pub draft_actions :
    (ℕ → Option String) → ℕ → Draft → List Action → Result PlanError (Draft × List Event)
draft_actions gen i d [] = ok (d, [])
draft_actions gen i d (a ∷ actions) = build_action_event (gen i) d a >>= λ event.
    apply_event_to d event >>= λ d'.
    draft_actions gen (suc i) d' actions >>= λ (last, events). ok (last, event ∷ events)

-- The last loop: the events on the planner itself, up to the first that fails.
unfoldable pub apply_events : (ℕ → Bool) → ℕ → Draft → List Event → Draft × Option PlanError
apply_events ctx_err i d [] = (d, none)
apply_events ctx_err i d (event ∷ events) = elim (apply_event (ctx_err i) d event) [
  | err e ↦ (d, some e)
  | ok d' ↦ apply_events ctx_err (suc i) d' events
]

pub record ActionsResult : Type 0 where
  pub count : ℕ
  pub plan : Plan

-- What a call leaves behind: the planner, the events that `AppendEvents` took without an error, and
-- the answer.
pub record Outcome : Type 0 where
  pub state : Draft
  pub logged : List DispatchedEvent
  pub result : Result PlanError ActionsResult

abbrev pub refused : Planner → PlanError → Outcome
refused p e = record { state = p.state; logged = []; result = err e }

abbrev pub applied : Planner → List DispatchedEvent → ℕ → Draft × Option PlanError → Outcome
applied p logged n (d, some e) = record { state = d; logged = logged; result = err e }
applied p logged n (d, none) = record {
  state = d;
  logged = logged;
  result = ok (record { count = n; plan = d.plan });
}

abbrev pub commit : (ℕ → Bool) → Planner → Runtime → ℕ → List Event → Outcome
commit ctx_err p r n events =
    let logged = map (dispatch_event p.spec) events in
    elim (r.append logged) [
      | some e ↦ refused p e
      | none ↦ applied p logged n (apply_events ctx_err 0 p.state events)
    ]

unfoldable pub apply_actions : (ℕ → Option String) → (ℕ → Bool) → Planner → List Action → Outcome
apply_actions gen ctx_err p [] = refused p no_actions
apply_actions gen ctx_err p (a ∷ actions) = elim p.runtime [
  | none ↦ refused p runtime_required
  | some r ↦ elim (draft_actions gen 0 p.state (a ∷ actions)) [
    | err e ↦ refused p e
    | ok (_, events) ↦ commit ctx_err p r (length (a ∷ actions)) events
  ]
]
