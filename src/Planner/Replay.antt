-- ===== src/Planner/Replay.antt =====
-- capabilities/planner/replay.go and events.go: the planner's events and what each does to a plan.
-- `json.Marshal` and `json.Unmarshal` give back what they are given on the payloads, so an event is
-- its decoded payload; `foreign` is an event of an unknown name, or with a body that does not decode.
use agentsdk.Prelude.{
  ℕ, String, Bool, true, not, ◌||◌, none, some, List, [], ◌∷◌, ◌++◌, map, ◌==◌, if◌then◌else◌,
  is_some,
}
use agentsdk.Prelude.Result.{Result, ok, err, guard, ◌>>=◌, ◌>>◌}
use agentsdk.Planner.{
  Step, Plan, PlanError, empty_plan, step_pending, valid_status, find_step, update_at, remove_at,
  filter_string, has_no_plan, plan_id_missing, step_id_missing, invalid_status, step_exists,
  step_not_found, unsupported, decode_failed, cancelled,
}
use agentsdk.Planner.Topo.{topo_sort}

pub data Event : Type 0 where
  plan_created : (plan_id title : String) → Event
  step_added : Step → Event
  step_removed : (step_id : String) → Event
  step_title_changed : (step_id title : String) → Event
  step_status_changed : (step_id status : String) → Event
  step_depends_on_changed : (step_id : String) (depends_on : List String) → Event
  step_parent_changed : (step_id parent_id : String) → Event
  current_step_changed : (step_id : String) → Event
  foreign : (name : String) → Event

-- The pair of `plan` and `created` that the program passes by pointers.
pub record Draft : Type 0 where
  pub plan : Plan
  pub created : Bool

abbrev pub Applied : Type 0
Applied = Result PlanError Draft

abbrev is_step_event : String → Bool
is_step_event name =
    name == "step_added"
    || (name == "step_removed"
        || (name == "step_title_changed"
            || (name == "step_status_changed"
                || (name == "step_depends_on_changed"
                    || (name == "step_parent_changed" || name == "current_step_changed")))))

abbrev pub with_steps : Draft → List Step → Draft
with_steps d steps = record { plan = record (d.plan) { steps = steps }; created = d.created }

-- `findStep` and its error
abbrev pub at_step : Draft → String → (ℕ → Applied) → Applied
at_step d id k = elim (find_step d.plan.steps id) [ none ↦ err (step_not_found id) | some i ↦ k i ]

abbrev pub sorted_into : Draft → List Step → Applied
sorted_into d steps = topo_sort steps >>= λ sorted. ok (with_steps d sorted)

abbrev pub or_pending : Step → Step
or_pending s = if s.status == "" then record s { status = step_pending } else s

unfoldable pub add_step : Draft → Step → Applied
add_step d s = do
  guard (not (s.id == "")) step_id_missing
  guard (valid_status (or_pending s).status) (invalid_status (or_pending s).status)
  guard (not (is_some (find_step d.plan.steps s.id))) (step_exists s.id)
  sorted_into d (d.plan.steps ++ or_pending s ∷ [])

-- The steps without the one at the index, and without the dependencies on it.
abbrev pub without_step : ℕ → String → List Step → List Step
without_step i id steps =
    map {A = Step} (λ s. record s { depends_on = filter_string s.depends_on id })
      (remove_at i steps)

-- `plan.Steps, _ = topoSortSteps(plan.Steps)`: an error leaves no steps.
abbrev pub sorted_or_none : List Step → List Step
sorted_or_none steps = elim (topo_sort steps) [ ok sorted ↦ sorted | err _ ↦ [] ]

unfoldable pub remove_step : Draft → String → Applied
remove_step d id = at_step d id λ i. ok (record {
  plan = record (d.plan) {
    current_step_id = if d.plan.current_step_id == id then "" else d.plan.current_step_id;
    steps = sorted_or_none (without_step i id d.plan.steps);
  };
  created = d.created;
})

unfoldable pub apply_to_created : Draft → Event → Applied
unfolding add_step remove_step
apply_to_created d (plan_created plan_id title) = ok d
apply_to_created d (step_added s) = add_step d s
apply_to_created d (step_removed id) = remove_step d id
apply_to_created d (step_title_changed id title) =
    at_step d id λ i. ok (with_steps d (update_at i (λ s. record s { title = title }) d.plan.steps))
apply_to_created d (step_status_changed id status) =
    guard (valid_status status) (invalid_status status)
    >> at_step d id
        λ i. ok (with_steps d (update_at i (λ s. record s { status = status }) d.plan.steps))
apply_to_created d (step_depends_on_changed id deps) =
    at_step d id λ i. sorted_into d (update_at i (λ s. record s { depends_on = deps }) d.plan.steps)
apply_to_created d (step_parent_changed id parent) =
    at_step d id
      λ i. sorted_into d (update_at i (λ s. record s { parent_id = parent }) d.plan.steps)
apply_to_created d (current_step_changed id) =
    guard (if id == "" then true else is_some (find_step d.plan.steps id)) (step_not_found id)
    >> ok (record { plan = record (d.plan) { current_step_id = id }; created = d.created })
apply_to_created d (foreign name) = err (decode_failed name)

-- `applyEventTo`: every event but `plan_created` asks first for a plan.
unfoldable pub apply_event_to : Draft → Event → Applied
apply_event_to d (plan_created plan_id title) =
    guard (not (plan_id == "")) plan_id_missing
    >> ok (record { plan = record empty_plan { id = plan_id; title = title }; created = true })
apply_event_to d (foreign name) =
    if name == "plan_created"
    then err (decode_failed name)
    else if is_step_event name
    then guard d.created has_no_plan >> apply_to_created d (foreign name)
    else err (unsupported name)
apply_event_to d event = guard d.created has_no_plan >> apply_to_created d event

-- The events one after the other, as the log is replayed.
unfoldable pub replay : Draft → List Event → Applied
replay d [] = ok d
replay d (e ∷ events) = apply_event_to d e >>= λ d'. replay d' events

-- `Planner.ApplyEvent`, with `ctx.Err()`: on an error the planner keeps what it had.
unfoldable pub apply_event : Bool → Draft → Event → Applied
apply_event ctx_err d event = guard (not ctx_err) cancelled >> apply_event_to d event
