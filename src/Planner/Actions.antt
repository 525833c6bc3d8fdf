-- ===== src/Planner/Actions.antt =====
-- capabilities/planner/actions.go: what an action asks for, `buildActionEvent` and its checks.
-- `gonanoid.New` is not part of the repository: `gen` is what it returns, or `none` for its error.
use agentsdk.Prelude.{
  ℕ, String, Bool, true, false, not, ◌||◌, Option, none, some, List, [], ◌∷◌, ◌++◌, ◌==◌,
  if◌then◌else◌, is_some,
}
use agentsdk.Prelude.Text.{trim_space}
use agentsdk.Prelude.Result.{Result, ok, err, guard, ◌>>=◌, ◌>>◌}
use agentsdk.Planner.{
  Step, Plan, PlanError, valid_status, find_step, update_at, new_plan_id, new_step_id, has_no_plan,
  plan_already_created, plan_required, step_required, step_title_required, title_required,
  invalid_status, step_exists, step_not_found, own_parent, own_dependency, parent_not_found,
  dependency_not_found, has_sub_tasks, unsupported, id_failed,
}
use agentsdk.Planner.Topo.{topo_sort}
use agentsdk.Planner.Replay.{
  Event, plan_created, step_added, step_removed, step_title_changed, step_status_changed,
  step_depends_on_changed, step_parent_changed, current_step_changed, Draft, or_pending,
}

pub record PlanPatch : Type 0 where
  pub id : String
  pub title : String

-- A `StepPatch` has the fields of a step.
pub record Action : Type 0 where
  pub action : String
  pub plan : Option PlanPatch
  pub step : Option Step
  pub step_id : String
  pub status : String
  pub title : String
  pub depends_on : List String
  pub parent_id : String

unfoldable pub require_step_id : Action → String
require_step_id a =
    if not (a.step_id == "") then a.step_id else elim a.step [ none ↦ "" | some s ↦ s.id ]

abbrev pub Built : Type 0
Built = Result PlanError Event

abbrev pub known_step : Plan → String → Bool
known_step p id = is_some (find_step p.steps id)

-- The loop over the dependencies.
unfoldable pub check_deps : Plan → String → List String → Result PlanError (Unit {0})
check_deps p id [] = ok tt
check_deps p id (dep ∷ deps) =
    let rest = check_deps p id deps in
    if dep == id
    then err own_dependency
    else guard (known_step p dep) (dependency_not_found dep) >> rest

unfoldable pub has_child : String → List Step → Bool
has_child id [] = false
has_child id (s ∷ steps) = s.parent_id == id || has_child id steps

abbrev pub check_parent : Plan → String → String → Result PlanError (Unit {0})
check_parent p id parent = do
  guard (not (parent == id)) own_parent
  guard (if parent == "" then true else known_step p parent) (parent_not_found parent)

-- `id` if it is given, or a drawn one
abbrev pub or_drawn : (String → String) → Option String → String → Result PlanError String
or_drawn make gen id =
    if id == "" then elim gen [ none ↦ err id_failed | some drawn ↦ ok (make drawn) ] else ok id

abbrev pub set_id : Step → String → Step
set_id s id = record s { id = id }

unfoldable pub build_step : Plan → Step → Built
unfolding check_deps
build_step p s = do
  guard (not (s.title == "")) step_title_required
  guard (valid_status (or_pending s).status) (invalid_status (or_pending s).status)
  guard (not (known_step p s.id)) (step_exists s.id)
  check_parent p s.id s.parent_id
  check_deps p s.id s.depends_on
  topo_sort (p.steps ++ or_pending s ∷ []) >>= λ _. ok (step_added (or_pending s))

unfoldable pub build_create : Option String → Draft → Action → Built
build_create gen d a = guard (not d.created) (plan_already_created d.plan.id) >> elim a.plan [
  | none ↦ err plan_required
  | some patch ↦ or_drawn new_plan_id gen patch.id >>= λ id. ok (plan_created id patch.title)
]

unfoldable pub build_add : Option String → Plan → Action → Built
build_add gen p a = elim a.step [
  | none ↦ err step_required
  | some s ↦ or_drawn new_step_id gen s.id >>= λ id. build_step p (set_id s id)
]

-- `findStep` and its error
abbrev pub found_step : Plan → String → (ℕ → Built) → Built
found_step p id k = elim (find_step p.steps id) [ none ↦ err (step_not_found id) | some i ↦ k i ]

unfoldable pub build_remove : Plan → String → Built
unfolding has_child
build_remove p id =
    found_step p id
      λ _. guard (not (has_child id p.steps)) (has_sub_tasks id) >> ok (step_removed id)

unfoldable pub build_title : Plan → String → String → Built
build_title p id title =
    found_step p id
      λ _. guard (not (title == "")) title_required >> ok (step_title_changed id title)

unfoldable pub build_status : Plan → String → String → Built
build_status p id status =
    found_step p id
      λ _. guard (valid_status status) (invalid_status status) >> ok (step_status_changed id status)

unfoldable pub build_depends_on : Plan → String → List String → Built
unfolding check_deps
build_depends_on p id deps = found_step p id λ i.
    check_deps p id deps
    >> (topo_sort (update_at i (λ s. record s { depends_on = deps }) p.steps) >>= λ _.
        ok (step_depends_on_changed id deps))

unfoldable pub build_parent : Plan → String → String → Built
build_parent p id parent = found_step p id λ i.
    check_parent p id parent
    >> (topo_sort (update_at i (λ s. record s { parent_id = parent }) p.steps) >>= λ _.
        ok (step_parent_changed id parent))

unfoldable pub build_current : Plan → String → Built
build_current p id =
    guard (if id == "" then true else known_step p id) (step_not_found id)
    >> ok (current_step_changed id)

-- The cases of the switch for a plan that is there; all but two take the id of `requireStepID`.
unfoldable pub build_on_plan : Option String → Plan → String → Action → Built
build_on_plan gen p name a =
    let id = require_step_id a in
    if name == "add_step"
    then build_add gen p a
    else if name == "remove_step"
    then build_remove p id
    else if name == "set_step_title"
    then build_title p id a.title
    else if name == "set_step_status"
    then build_status p id a.status
    else if name == "set_step_depends_on"
    then build_depends_on p id a.depends_on
    else if name == "set_step_parent"
    then build_parent p id a.parent_id
    else build_current p a.step_id

abbrev pub is_plan_action : String → Bool
is_plan_action name =
    name == "add_step"
    || (name == "remove_step"
        || (name == "set_step_title"
            || (name == "set_step_status"
                || (name == "set_step_depends_on"
                    || (name == "set_step_parent" || name == "set_current_step")))))

-- `buildActionEvent`, which gives one event when it succeeds.
unfoldable pub build_action_event : Option String → Draft → Action → Built
build_action_event gen d a =
    let name = trim_space a.action in
    if name == "create_plan"
    then build_create gen d a
    else if is_plan_action name
    then guard d.created has_no_plan >> build_on_plan gen d.plan name a
    else err (unsupported a.action)
