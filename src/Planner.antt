-- ===== src/Planner.antt =====
-- capabilities/planner/planner.go and ids.go: the plan and its steps. A status is the text that the
-- program stores, as an unknown one can come in from outside. The child modules hold the
-- ordering of the steps, the events, the actions and `ApplyActions`.
pub mod Topo
pub mod Replay
pub mod Actions
pub mod Apply
pub mod Steps
pub mod Removal
pub mod Valid
pub mod Guarded
pub mod Interrupted
pub mod Sourcing
pub mod Wiping
mod Examples
use Prim.Native.String.{◌++◌ as join}
use agentsdk.Prelude.{
  ℕ, zero, suc, String, Bool, true, false, ◌||◌, Option, none, some, List, [], ◌∷◌, ◌==◌,
  if◌then◌else◌,
}

abbrev pub step_pending : String
step_pending = "pending"

abbrev pub step_in_progress : String
step_in_progress = "in_progress"

abbrev pub step_completed : String
step_completed = "completed"

pub record Step : Type 0 where
  pub id : String
  pub parent_id : String
  pub depends_on : List String
  pub title : String
  pub status : String

-- Go's zero value
abbrev pub zero_step : Step
zero_step = record { id = ""; parent_id = ""; depends_on = []; title = ""; status = "" }

pub record Plan : Type 0 where
  pub id : String
  pub title : String
  pub current_step_id : String
  pub steps : List Step

abbrev pub empty_plan : Plan
empty_plan = record { id = ""; title = ""; current_step_id = ""; steps = [] }

-- The texts of the errors, with what they quote.
pub data PlanError : Type 0 where
  no_actions runtime_required plan_required step_required title_required step_title_required :
      PlanError
  own_parent own_dependency has_no_plan plan_id_missing step_id_missing id_failed : PlanError
  cancelled append_failed cycle_detected : PlanError
  plan_already_created invalid_status step_exists step_not_found parent_not_found :
      String → PlanError
  dependency_not_found has_sub_tasks unsupported decode_failed : String → PlanError

abbrev pub valid_status : String → Bool
valid_status status =
    status == step_pending || (status == step_in_progress || status == step_completed)

-- The index of the first step with this id.
unfoldable pub find_step : List Step → String → Option ℕ
find_step [] id = none
find_step (s ∷ steps) id =
    let rest = find_step steps id in
    if s.id == id then some 0 else elim rest [ none ↦ none | some i ↦ some (suc i) ]

-- `steps[i] = f(steps[i])`
unfoldable pub update_at : ℕ → (Step → Step) → List Step → List Step
update_at i f [] = []
update_at zero f (s ∷ steps) = f s ∷ steps
update_at (suc i) f (s ∷ steps) = s ∷ update_at i f steps

-- `append(steps[:i], steps[i+1:]...)`
unfoldable pub remove_at : ℕ → List Step → List Step
remove_at i [] = []
remove_at zero (s ∷ steps) = steps
remove_at (suc i) (s ∷ steps) = s ∷ remove_at i steps

unfoldable pub filter_string : List String → String → List String
filter_string [] exclude = []
filter_string (s ∷ ss) exclude =
    let rest = filter_string ss exclude in if s == exclude then rest else s ∷ rest

abbrev pub new_plan_id : String → String
new_plan_id id = join "plan_" id

abbrev pub new_step_id : String → String
new_step_id id = join "step_" id
