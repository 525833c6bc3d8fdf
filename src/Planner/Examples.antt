-- ===== src/Planner/Examples.antt =====
-- The planner on small plans.
use agentsdk.Planner.Wiping.{removed_parent-wipes}
use agentsdk.Prelude.{
  ℕ, String, Bool, true, false, Option, none, some, List, [], ◌∷◌, map, ◌≡◌, refl, ◌⊎◌, arith, ltb,
  length, ◌++◌, if◌then◌else◌, ◌==◌, eq_iff, eq_refl,
}
use agentsdk.Prelude.Dict.{lookup, lookup_or, insert, erase}
use agentsdk.Prelude.Text.{trim_space}
use agentsdk.Prelude.Result.{ok, err}
use agentsdk.Planner.{
  Step, PlanError, empty_plan, cycle_detected, dependency_not_found, plan_already_created,
  cancelled, find_step, update_at, remove_at, filter_string,
}
use agentsdk.Planner.Topo.{topo_sort}
use agentsdk.Planner.Topo.Correct.{IsOrdered, SameSteps, topo_sort-IsOrdered}
use agentsdk.Planner.Topo.Complete.{IsSortable, topo_sort_total}
use agentsdk.Planner.Replay.{
  Event, plan_created, step_removed, Draft, add_step, remove_step, apply_to_created, apply_event_to,
  apply_event, replay,
}
use agentsdk.Planner.Actions.{
  Action, require_step_id, check_deps, has_child, build_step, build_create, build_add, build_remove,
  build_title, build_status, build_depends_on, build_parent, build_current, build_on_plan,
  build_action_event,
}
use agentsdk.Planner.Apply.{
  AttachSpec, dispatch_event, Runtime, Planner, new_planner, draft_actions, apply_events,
  apply_actions,
}
use agentsdk.Planner.Sourcing.{apply_actions_atomic}
use agentsdk.Planner.Interrupted.{IsLive, Answers, apply_actions_interrupted}
use agentsdk.Planner.Valid.{IsValid, apply_event_to-IsValid}
use agentsdk.Planner.Wiping.{removed_parent-wipes}
use agentsdk.Planner.Guarded.{apply_actions-IsValid}

abbrev step : String → List String → Step
step id deps = record {
  id = id;
  parent_id = "";
  depends_on = deps;
  title = "t";
  status = "pending";
}

program : Unit {0}
unfolding topo_sort lookup lookup_or insert erase find_step update_at remove_at filter_string
    add_step remove_step apply_to_created apply_event_to apply_event replay require_step_id
    check_deps has_child build_step build_create build_add build_remove build_title build_status
    build_depends_on build_parent build_current build_on_plan build_action_event dispatch_event
    new_planner draft_actions apply_events apply_actions trim_space
program = tt

abbrev unsorted : List Step
unsorted = step "c" ("a" ∷ "b" ∷ []) ∷ step "b" ("a" ∷ "a" ∷ []) ∷ step "a" [] ∷ []

abbrev sorted : List Step
sorted = step "a" [] ∷ step "b" ("a" ∷ "a" ∷ []) ∷ step "c" ("a" ∷ "b" ∷ []) ∷ []

sorts : topo_sort unsorted ≡ ok sorted
unfolding program
sorts = refl

cyclic :
    topo_sort (step "c" [] ∷ step "b" ("a" ∷ []) ∷ step "a" ("b" ∷ []) ∷ []) ≡ err cycle_detected
unfolding program
cyclic = refl

dangling : topo_sort (step "c" ("x" ∷ []) ∷ []) ≡ err (dependency_not_found "x")
unfolding program
dangling = refl

smallest_first : topo_sort (step "b" [] ∷ step "a" [] ∷ []) ≡ ok (step "a" [] ∷ step "b" [] ∷ [])
unfolding program
smallest_first = refl

topo_sort-IsOrdered_example : IsOrdered sorted × SameSteps unsorted sorted
topo_sort-IsOrdered_example = topo_sort-IsOrdered unsorted sorted sorts

abbrev action : String → Action
action name = record {
  action = name;
  plan = none;
  step = none;
  step_id = "";
  status = "";
  title = "";
  depends_on = [];
  parent_id = "";
}

abbrev create : Action
create = record (action " create_plan") { plan = some (record { id = "p"; title = "plan" }) }

abbrev add : Step → Action
add s = record (action "add_step") { step = some s }

abbrev script : List Action
script = create ∷ add (step "b" []) ∷ add (step "" ("b" ∷ [])) ∷ []

abbrev gen : ℕ → Option String
gen i = some "aa"

abbrev live : ℕ → Bool
live i = false

abbrev spec : AttachSpec
spec = record { thread_id = "t"; branch_id = "main"; capability_name = ""; instance_id = "i" }

abbrev taking : Runtime
taking = record { append = λ events. none }

abbrev planner : Planner
planner = record {
  spec = spec;
  runtime = some taking;
  state = record { plan = empty_plan; created = false };
}

abbrev planned : Draft
planned = record {
  plan = record {
    id = "p";
    title = "plan";
    current_step_id = "";
    steps = step "b" [] ∷ step "step_aa" ("b" ∷ []) ∷ [];
  };
  created = true;
}

runs : (apply_actions gen live planner script).state ≡ planned
unfolding program
runs = refl

created_twice :
    (apply_actions gen live planner (create ∷ create ∷ [])).result ≡ err (plan_already_created "p")
unfolding program
created_twice = refl

apply_actions_atomic_example :
    let o = apply_actions gen live planner (create ∷ create ∷ []) in
    ((e : PlanError) × (o.result ≡ err e) × (o.state ≡ planner.state) × (o.logged ≡ []))
    ⊎ ((events : List Event) × (draft_actions gen 0 planner.state (create ∷ create ∷ [])
          ≡ ok (o.state, events))
        × (replay planner.state events ≡ ok o.state)
        × (o.logged ≡ map (dispatch_event planner.spec) events)
        × (o.result ≡ ok (record { count = 2; plan = o.state.plan })))
apply_actions_atomic_example =
    apply_actions_atomic gen live planner (create ∷ create ∷ []) (λ j. refl)

-- The context is cancelled after the first event.
abbrev one_event : ℕ → Bool
one_event j = ltb 0 j

log_ahead :
    ((apply_actions gen one_event planner script).result ≡ err cancelled)
    × ((apply_actions gen one_event planner script).state.plan.steps ≡ [])
    × (length (apply_actions gen one_event planner script).logged ≡ 3)
unfolding program
log_ahead = (refl, refl, refl)

apply_actions_interrupted_example :
    let o = apply_actions gen one_event planner script in
    ((e : PlanError) × (o.result ≡ err e) × (o.state ≡ planner.state) × (o.logged ≡ []))
    ⊎ ((taken : List Event) × (left : List Event) × (last : Draft) × (draft_actions gen 0
            planner.state script
          ≡ ok (last, taken ++ left))
        × (replay planner.state (taken ++ left) ≡ ok last)
        × (o.logged ≡ map (dispatch_event planner.spec) (taken ++ left))
        × (replay planner.state taken ≡ ok o.state)
        × IsLive one_event (length taken)
        × Answers (one_event (length taken)) left 3 o)
apply_actions_interrupted_example = apply_actions_interrupted gen one_event planner script

start-IsValid : IsValid planner.state
start-IsValid = record {
  ordered = record { unique = λ x. omega arith; before = tt; parents = tt };
  each = tt;
  current = λ named. absurd (ground (arith, eq_refl ""));
}

apply_actions-IsValid_example : IsValid (apply_actions gen live planner script).state
apply_actions-IsValid_example = apply_actions-IsValid gen live planner script start-IsValid

apply_event_to-IsValid_example :
    IsValid (record { plan = record empty_plan { id = "p"; title = "plan" }; created = true })
apply_event_to-IsValid_example =
    apply_event_to-IsValid planner.state
      (record { plan = record empty_plan { id = "p"; title = "plan" }; created = true })
      (plan_created "p" "plan") tt start-IsValid (unfold program in refl)

abbrev rank : String → ℕ
rank x = if x == "a" then 0 else 1

abbrev pair : List Step
pair = step "b" ("a" ∷ []) ∷ step "a" [] ∷ []

pair-IsSortable : IsSortable rank pair
pair-IsSortable = record {
  unique = λ x. ground (arith, eq_iff x "a", eq_iff x "b", eq_iff "a" "b");
  falls = (λ d p. ground (arith, eq_iff d "a"), ((λ d p. absurd (omega arith)), tt));
  parents = (
    (λ named. absurd (ground (arith, eq_refl ""))),
    ((λ named. absurd (ground (arith, eq_refl ""))), tt),
  );
}

topo_sort_total_example : (out : List Step) × (topo_sort pair ≡ ok out)
topo_sort_total_example = topo_sort_total rank pair pair-IsSortable

-- A log that removes a step with a sub-task, which no action does, leaves no steps at all.
abbrev nested : Draft
nested = record {
  plan = record {
    id = "p";
    title = "plan";
    current_step_id = "";
    steps = step "a" [] ∷ record (step "b" []) { parent_id = "a" } ∷ step "c" [] ∷ [];
  };
  created = true;
}

removal_wipes :
    apply_event_to nested (step_removed "a")
    ≡ ok (record { plan = record (nested.plan) { steps = [] }; created = true })
unfolding program
removal_wipes = refl

-- Parents are not checked for a cycle: two steps may be the parents of each other.
parents_in_a_ring :
    topo_sort
      (record (step "a" []) { parent_id = "b" } ∷ record (step "b" []) { parent_id = "a" } ∷ [])
    ≡ ok (record (step "a" []) { parent_id = "b" } ∷ record (step "b" []) { parent_id = "a" } ∷ [])
unfolding program
parents_in_a_ring = refl

nested-IsOrdered : IsOrdered nested.plan.steps
unfolding program
nested-IsOrdered = (topo_sort-IsOrdered nested.plan.steps nested.plan.steps refl).0

removed_parent-wipes_example :
    (d : Draft) × (apply_event_to nested (step_removed "a") ≡ ok d) × (d.plan.steps ≡ [])
unfolding program
removed_parent-wipes_example =
    removed_parent-wipes nested "a" 0 refl refl nested-IsOrdered refl refl
