-- ===== src/Workflow/Host.antt =====
-- The types of the executor in workflow/workflow.go, and what the executor calls: the actions, the
-- clock, the context and the event handler, which act on a world `W`. `stepInput` and
-- `validateActionValue` stand with them: of these two only the value counts here.
use agentsdk.Prelude.{ℕ, String, Bool, false, Option, none, List, []}
use agentsdk.Prelude.Dict.{Dict}
use agentsdk.Workflow.{ActionRef, Step, Definition}
use agentsdk.Workflow.Order.{OrderError}
use agentsdk.Workflow.Run.{ValueRef, RunMetadata, Event}

pub data StepError : Type 0 where
  canceled_error action_error output_invalid : String → StepError
  action_not_found : String → StepError
  input_invalid attempts_failed : String → StepError → StepError

-- `status_error` is the status "error"; the executor does not read it.
pub record ActionResult (V : Type 0) : Type 0 where
  pub status_error : Bool
  pub value : Option V
  pub error : Option StepError
  pub events : List (Event V)

abbrev pub no_result : {V : Type 0} → ActionResult V
no_result = record { status_error = false; value = none; error = none; events = [] }

pub data RunError : Type 0 where
  step_error : StepError → RunError
  order_error : OrderError → RunError
  context_error : String → RunError
  no_resolver no_runnable out_of_fuel : RunError

-- What the executor calls. `A` holds the actions. `canceled_text` is the error of a context that has
-- been canceled.
pub record Host (W V A : Type 0) : Type 0 where
  pub ctx_err : W → Option String
  pub now : W → ℕ
  pub on_event : Event V → W → W
  pub has_resolver : Bool
  pub resolve : ActionRef → W → Option A
  pub check_input : A → Option V → Option StepError
  pub check_output : A → Option V → Option StepError
  pub run_action : A → Option V → ℕ → W → ActionResult V × W
  pub canceled_text : W → String
  pub wait : ℕ → W → Bool × W
  pub deep_equal : V → V → Bool
  pub as_value_ref : V → Option (ValueRef V)
  pub step_input : Step V → Option V → Dict (ActionResult V) → Option V
  pub text_of : RunError → String
  pub step_text : StepError → String
  pub definition_hash : Definition V → String

-- The fields of `Executor` that the calls do not cover.
pub record Executor (V : Type 0) : Type 0 where
  pub run_id : String
  pub metadata : RunMetadata
  pub input : ValueRef V
  pub definition_hash : String
  pub definition_version : String
  pub max_concurrency : ℕ

-- The world, and the events that `Execute` gathers.
pub record Trail (W V : Type 0) : Type 0 where
  pub world : W
  pub events : List (Event V)

pub record StepOutcome (V : Type 0) : Type 0 where
  pub result : ActionResult V
  pub skipped : Bool
  pub error : Option StepError

pub record LoopOutcome (V : Type 0) : Type 0 where
  pub results : Dict (ActionResult V)
  pub last : Option V
  pub error : Option RunError

pub record Progress (V : Type 0) : Type 0 where
  pub results : Dict (ActionResult V)
  pub done : Dict Bool
  pub last : Option V
  pub error : Option RunError

pub record RunOutcome (V : Type 0) : Type 0 where
  pub outcome : Option (LoopOutcome V)
  pub error : Option RunError
  pub events : List (Event V)
