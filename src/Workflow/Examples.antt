-- ===== src/Workflow/Examples.antt =====
-- A workflow of three steps, with the actions of workflow/workflow.go as functions on numbers.
use agentsdk.Prelude.{
  ℕ, ◌+◌, String, true, false, Option, none, some, List, [], ◌∷◌, ◌==◌, ◌≡◌, ◌≢◌, refl, arith,
  if◌then◌else◌, All, nat_eq, eq_iff, eq_iff,
}
use agentsdk.Prelude.Dict.{lookup, lookup_or, insert, erase}
use agentsdk.Prelude.Result.{ok, err}
use agentsdk.Workflow.{Condition, Step, Definition, step_error_fail}
use agentsdk.Workflow.Order.{
  cycle, unknown_dependency, out_of_fuel, check_steps, enter, leave, visit_deps, visit, visit_steps,
  validate_and_order,
}
use agentsdk.Workflow.Order.Placing.{placed, IsDepsFirst}
use agentsdk.Workflow.Order.Checked.{step_with, IsNamed, IsUniquelyNamed}
use agentsdk.Workflow.Order.Correct.{validate_and_order-IsDepsFirst}
use agentsdk.Workflow.Order.Fuel.{validate_and_order_ends}
use agentsdk.Workflow.Order.Acyclic.{IsAcyclic, validate_and_order_total}
use agentsdk.Workflow.Run.{
  Event, RunState, inline_value, no_metadata, started, failed, update, put_attempt, state_for,
  apply_event, apply_all, project_run,
}
use agentsdk.Workflow.Run.Own.{own_events, project_run-own_events}
use agentsdk.Workflow.Run.Last.{is_plain}
use agentsdk.Workflow.Host.{no_runnable, out_of_fuel as rounds_used, Host, Executor, Trail}
use agentsdk.Workflow.Batch.{deps_done, ready_steps, collect}
use agentsdk.Workflow.Execute.{
  condition_matches, attempts_from, execute_step, sequential_from, run_batch, parallel_from,
  execute_steps, execute,
}
use agentsdk.Workflow.Execute.Ending.{execute_steps_ends}
use agentsdk.Workflow.Execute.Timeouts.{execute_step-timeout}
use agentsdk.Workflow.Execute.Plain.{RunsPlain}
use agentsdk.Workflow.Store.{append, append_all, recorded, state}
use agentsdk.Workflow.Store.Recorded.{state_of_log, append_all-state, append-execute}
use agentsdk.Workflow.Execute.Reported.{IsReported, Reports, execute-IsReported}

program : Unit {0}
unfolding check_steps enter leave visit_deps visit visit_steps validate_and_order placed step_with
    lookup lookup_or insert erase update put_attempt state_for apply_event apply_all project_run
    own_events is_plain deps_done ready_steps collect condition_matches attempts_from execute_step
    sequential_from run_batch parallel_from execute_steps execute
program = tt

abbrev always : Condition ℕ
always = record { step_id = ""; equals = none; exists = false; negated = false }

abbrev step_of : String → List String → ℕ → ℕ → Step ℕ
step_of id deps timeout attempts = record {
  id = id;
  action = record { name = "double"; version = "" };
  input = none;
  input_map = none;
  input_template = none;
  depends_on = deps;
  when = always;
  retry = record { max_attempts = attempts; backoff = 0 };
  timeout = timeout;
  error_policy = step_error_fail;
  idempotency_key = "";
}

-- The steps stand in another order than they run in.
abbrev three : List (Step ℕ)
three = step_of "c" ("a" ∷ "b" ∷ []) 0 0 ∷ step_of "a" [] 0 0 ∷ step_of "b" ("a" ∷ []) 0 2 ∷ []

abbrev in_order : List (Step ℕ)
in_order = step_of "a" [] 0 0 ∷ step_of "b" ("a" ∷ []) 0 2 ∷ step_of "c" ("a" ∷ "b" ∷ []) 0 0 ∷ []

ordered_three : validate_and_order three ≡ ok in_order
unfolding program
ordered_three = refl

abbrev ring : List (Step ℕ)
ring = step_of "a" ("b" ∷ []) 0 0 ∷ step_of "b" ("a" ∷ []) 0 0 ∷ []

ring_refused : validate_and_order ring ≡ err (cycle "a")
unfolding program
ring_refused = refl

unknown_refused :
    validate_and_order (step_of "a" ("x" ∷ []) 0 0 ∷ []) ≡ err (unknown_dependency "a" "x")
unfolding program
unknown_refused = refl

validate_and_order-IsDepsFirst_example :
    IsDepsFirst ℕ (λ x. step_with x three) in_order
    × ((x : String) → placed x in_order ≡ placed x three)
validate_and_order-IsDepsFirst_example = validate_and_order-IsDepsFirst three in_order ordered_three

validate_and_order_ends_example : validate_and_order ring ≢ err out_of_fuel
validate_and_order_ends_example = validate_and_order_ends ring

abbrev rank_three : String → ℕ
rank_three x = if x == "a" then 0 else if x == "b" then 1 else 2

three-IsNamed : All IsNamed three
unfolding program
three-IsNamed = (
  (λ h. ground (arith, h, eq_iff "c" ""), λ h. ground (arith, h, eq_iff "double" "")),
  (
    (λ h. ground (arith, h, eq_iff "a" ""), λ h. ground (arith, h, eq_iff "double" "")),
    ((λ h. ground (arith, h, eq_iff "b" ""), λ h. ground (arith, h, eq_iff "double" "")), tt),
  ),
)

three_unique : IsUniquelyNamed three
unfolding program
three_unique = (refl, (refl, (refl, tt)))

three-IsAcyclic : IsAcyclic rank_three three
unfolding program
three-IsAcyclic =
    (((refl, omega arith), ((refl, omega arith), tt)), (tt, (((refl, omega arith), tt), tt)))

validate_and_order_total_example :
    (ordered : List (Step ℕ)) × (validate_and_order three ≡ ok ordered)
validate_and_order_total_example =
    validate_and_order_total rank_three three three-IsNamed three_unique three-IsAcyclic

-- The world is the clock. The action doubles its input; it never fails.
abbrev host : Host ℕ ℕ ℕ
host = record {
  ctx_err = λ w. none;
  now = λ w. w;
  on_event = λ e w. w + 1;
  has_resolver = true;
  resolve = λ ref w. some 0;
  check_input = λ a v. none;
  check_output = λ a v. none;
  run_action = λ a v timeout w.
      (record { status_error = false; value = doubled v; error = none; events = [] }, w + 1);
  canceled_text = λ w. "context canceled";
  wait = λ n w. (false, w + n);
  deep_equal = λ a b. nat_eq a b;
  as_value_ref = λ v. none;
  step_input = λ step initial results. initial;
  text_of = λ x. "run";
  step_text = λ x. "step";
  definition_hash = λ def. "hash";
}
  where
    doubled : Option ℕ → Option ℕ
    doubled none = none
    doubled (some n) = some (n + n)

abbrev workflow : Definition ℕ
workflow = record { name = "w"; description = ""; version = "1"; steps = three }

abbrev executor : ℕ → Executor ℕ
executor n = record {
  run_id = "run";
  metadata = no_metadata;
  input = inline_value none;
  definition_hash = "";
  definition_version = "";
  max_concurrency = n;
}

abbrev blank : Trail ℕ ℕ
blank = record { world = 0; events = [] }

execute_steps_ends_example :
    ((execute_steps host (executor 2) workflow in_order (some 4) blank).0.error ≢ some no_runnable)
    × ((execute_steps host (executor 2) workflow in_order (some 4) blank).0.error
        ≢ some rounds_used)
execute_steps_ends_example =
    execute_steps_ends host (executor 2) workflow in_order (some 4) blank ordered_three

runs_plain : RunsPlain host
unfolding program
runs_plain a v timeout w = refl

execute-IsReported_example :
    IsReported host (executor 2) (execute host (executor 2) workflow (some 4) 0).0
execute-IsReported_example = execute-IsReported host (executor 2) workflow (some 4) 0 runs_plain

succeeded : (execute host (executor 2) workflow (some 4) 0).0.error ≡ none
unfolding program
succeeded = refl

abbrev skipped_step : Step ℕ
skipped_step = record (step_of "a" [] 5 0) {
  when = record { step_id = "z"; equals = none; exists = false; negated = false };
}

execute_step-timeout_example :
    (execute_step host "run" workflow skipped_step (some 4) [] blank).0.skipped ≡ true
unfolding program
execute_step-timeout_example =
    execute_step-timeout host "run" workflow skipped_step (some 4) [] blank (omega arith) refl

-- The action is done at once, and the step fails.
timed_out : (execute_step host "run" workflow (step_of "a" [] 5 0) (some 4) [] blank).0.error ≢ none
unfolding program
timed_out h = cc

abbrev opening : String → Event ℕ
opening run = started (record {
  run_id = run;
  workflow_name = "w";
  metadata = no_metadata;
  input = inline_value none;
  definition_hash = "";
  definition_version = "";
  at = 3;
})

abbrev closing : String → Event ℕ
closing run = failed (record { run_id = run; workflow_name = "w"; at = 9 }) "broken"

abbrev log : List (Event ℕ)
log = opening "x" ∷ opening "y" ∷ closing "y" ∷ []

abbrev state_of : Option (RunState ℕ)
unfolding program
state_of = elim (project_run log "x") [ ok state ↦ state | err e ↦ none ]

project_run-own_events_example : project_run (own_events "x" log) "x" ≡ ok state_of
unfolding program
project_run-own_events_example = project_run-own_events "x" log state_of refl

append_all-state_example :
    state none (append_all [] (("x", log) ∷ ("y", log) ∷ [])) "x"
    ≡ state_of_log "x" (recorded "x" (("x", log) ∷ ("y", log) ∷ []))
append_all-state_example = append_all-state (("x", log) ∷ ("y", log) ∷ []) "x"

append-execute_example :
    (st : RunState ℕ) × (state none
        (append none [] "run" (execute host (executor 1) workflow (some 4) 0).0.events).0
        "run"
      ≡ ok (some st))
    × Reports host
        (execute host (executor 1) workflow (some 4) 0).0.error
        (execute host (executor 1) workflow (some 4) 0).0.outcome
        st
unfolding program
append-execute_example = append-execute host (executor 1) workflow (some 4) 0 [] runs_plain refl
