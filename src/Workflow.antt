-- ===== src/Workflow.antt =====
-- workflow/workflow.go: workflows, their steps and their events.
pub mod Order
pub mod Run
pub mod Host
pub mod Batch
pub mod Execute
pub mod Store
mod Examples
use agentsdk.Prelude.{ℕ, String, Bool, Option, List}
use agentsdk.Prelude.Dict.{Dict}

pub record ActionRef : Type 0 where
  pub name : String
  pub version : String

-- `V` is Go's `any`; nil is `none`.
pub record Condition (V : Type 0) : Type 0 where
  pub step_id : String
  pub equals : Option V
  pub exists : Bool
  pub negated : Bool

-- An attempt count that is negative stands as 0.
pub record RetryPolicy : Type 0 where
  pub max_attempts : ℕ
  pub backoff : ℕ

pub data StepErrorPolicy : Type 0 where
  step_error_fail step_error_continue : StepErrorPolicy

pub record Step (V : Type 0) : Type 0 where
  pub id : String
  pub action : ActionRef
  pub input : Option V
  pub input_map : Option (Dict String)
  pub input_template : Option V
  pub depends_on : List String
  pub when : Condition V
  pub retry : RetryPolicy
  pub timeout : ℕ
  pub error_policy : StepErrorPolicy
  pub idempotency_key : String

pub record Definition (V : Type 0) : Type 0 where
  pub name : String
  pub description : String
  pub version : String
  pub steps : List (Step V)
