-- ===== src/Planner/Valid.antt =====
-- The invariant of a plan: it holds after every event, whatever comes from the log, with one
-- exception, and after every call of `ApplyActions`.

use agentsdk.Prelude.{
  ℕ, ◌<◌, String, true, false, some, List, [], ◌∷◌, ◌++◌, ◌==◌, eq_refl, if◌then◌else◌, ◌≡◌, refl,
  arith, All, All-map, All-append, inl, inr, Option-cases, Bool-cases,
}
use agentsdk.Prelude.Result.{Result-cases, guard-eq-ok, ok}
use agentsdk.Planner.{
  Step, empty_plan, valid_status, invalid_status, find_step, update_at, remove_at,
}
use agentsdk.Planner.Topo.{topo_sort}
use agentsdk.Planner.Replay.{
  Event, plan_created, step_added, step_removed, step_title_changed, step_status_changed,
  step_depends_on_changed, step_parent_changed, current_step_changed, foreign, Draft, Applied,
  with_steps, at_step, sorted_into, or_pending, add_step, without_step, remove_step,
  apply_to_created, apply_event_to,
}
use agentsdk.Planner.Actions.{has_child}
use agentsdk.Planner.Topo.Count.{count}
use agentsdk.Planner.Topo.Degrees.{ids}
use agentsdk.Planner.Topo.Correct.{HasParent, IsOrdered, SameSteps, topo_sort-IsOrdered}
use agentsdk.Planner.Steps.{
  find_step-counted, ids-update_at, All-update_at, IsBefore-update_at, All-remove_at, All-SameSteps,
}
use agentsdk.Planner.Removal.{All-drop_dep, count-without, removal_sorts}

-- An id, and a status that is known.
pub record IsStep (s : Step) : Type 0 where
  pub named : (s.id == "") ≡ false
  pub status_known : valid_status s.status ≡ true

abbrev pub HasCurrent : String → List Step → Type 0
HasCurrent current steps = (current == "") ≡ false → 0 < count current (ids steps)

pub record IsValid (d : Draft) : Type 0 where
  pub ordered : IsOrdered d.plan.steps
  pub each : All IsStep d.plan.steps
  pub current : HasCurrent d.plan.current_step_id d.plan.steps

nil-IsOrdered : IsOrdered []
nil-IsOrdered = record { unique = λ x. omega arith; before = tt; parents = tt }

-- Steps that are all proper, after a sort that succeeds.
sorted_into-IsValid :
    (d d' : Draft) (steps : List Step)
    → All IsStep steps
    → HasCurrent d.plan.current_step_id steps
    → sorted_into d steps ≡ ok d'
    → IsValid d'
sorted_into-IsValid d d' steps each current h = elim (Result-cases (topo_sort steps)) [
  | inl (e, bad) ↦ absurd (ground (arith, bad))
  | inr (out, sorted) ↦
      let (ordered, same) = topo_sort-IsOrdered steps out sorted in
      let e : d' ≡ with_steps d out = ground (arith, sorted) in
      rw e (record {
        ordered = ordered;
        each = All-SameSteps IsStep steps out same each;
        current = λ named. omega (arith, current named, same.same_ids d.plan.current_step_id);
      })
]

at_step-cases :
    (d d' : Draft) (id : String) (k : ℕ → Applied)
    → at_step d id k ≡ ok d'
    → (i : ℕ) × (find_step d.plan.steps id ≡ some i) × (k i ≡ ok d')
at_step-cases d d' id k h = elim (Option-cases (find_step d.plan.steps id)) [
  | inl missing ↦ absurd (ground (arith, missing))
  | inr (i, found) ↦ (i, found, rw (found, at_step) at h)
]

-- A step that keeps its id, its dependencies and its parent.
kept-IsValid :
    (d : Draft) (i : ℕ) (f : Step → Step)
    → ((s : Step) → (f s).id ≡ s.id)
    → ((s : Step) → (f s).depends_on ≡ s.depends_on)
    → ((s : Step) → (f s).parent_id ≡ s.parent_id)
    → ((s : Step) → IsStep s → IsStep (f s))
    → IsValid d
    → IsValid (with_steps d (update_at i f d.plan.steps))
kept-IsValid d i f id deps parent each v =
    let same = ids-update_at i f d.plan.steps id in
    record {
      ordered = record {
        unique = λ x. rw same (v.ordered.unique x);
        before = IsBefore-update_at [] i f d.plan.steps id deps v.ordered.before;
        parents = rw same (
            All-update_at (HasParent (ids d.plan.steps)) i f d.plan.steps
              (λ s h named. rw parent (h (rw parent at named))) v.ordered.parents);
      };
      each = All-update_at IsStep i f d.plan.steps each v.each;
      current = rw same v.current;
    }

-- A step whose dependencies or parent change, before the sort.
changed-IsValid :
    (d d' : Draft) (i : ℕ) (f : Step → Step)
    → ((s : Step) → (f s).id ≡ s.id)
    → ((s : Step) → IsStep s → IsStep (f s))
    → IsValid d
    → sorted_into d (update_at i f d.plan.steps) ≡ ok d'
    → IsValid d'
changed-IsValid d d' i f id each v h =
    sorted_into-IsValid d d' (update_at i f d.plan.steps)
      (All-update_at IsStep i f d.plan.steps each v.each)
      (rw (ids-update_at i f d.plan.steps id) v.current) h

snoc-counted :
    (x : String) (steps : List Step) (s : Step)
    → 0 < count x (ids steps)
    → 0 < count x (ids (steps ++ s ∷ []))
snoc-counted x [] s h = absurd (omega arith)
snoc-counted x (t ∷ steps) s h = ground (arith, snoc-counted x steps s)

add_step-IsValid : (d d' : Draft) (s : Step) → IsValid d → add_step d s ≡ ok d' → IsValid d'
unfolding add_step
add_step-IsValid d d' s v h =
    let good : IsStep (or_pending s) = record {
      named = ground arith;
      status_known = ground arith;
    } in
    sorted_into-IsValid d d' (d.plan.steps ++ or_pending s ∷ [])
      (All-append IsStep d.plan.steps (or_pending s ∷ []) v.each (good, tt))
      (λ named. snoc-counted d.plan.current_step_id d.plan.steps (or_pending s) (v.current named))
      (ground arith)

-- The one event that may not come as it likes: a step with sub-tasks is not removed.
abbrev pub Allowed : Draft → Event → Type 0
Allowed d (step_removed id) = has_child id d.plan.steps ≡ false
Allowed d _ = Unit

current-without :
    (d : Draft) (id : String) (i : ℕ) (out : List Step)
    → IsValid d
    → find_step d.plan.steps id ≡ some i
    → has_child id d.plan.steps ≡ false
    → SameSteps (without_step i id d.plan.steps) out
    → HasCurrent (if d.plan.current_step_id == id then "" else d.plan.current_step_id) out
current-without d id i out v found childless same named =
    let c = d.plan.current_step_id in
    elim (Bool-cases (c == id)) [
      | inl removed ↦ absurd (ground (arith, rw removed at named, eq_refl ""))
      | inr other ↦ rw other (
          omega (
            arith,
            same.same_ids c,
            v.current (rw other at named),
            rw other at (count-without d.plan.steps id i v.ordered found childless c),
          ))
    ]

remove_step-IsValid :
    (d d' : Draft) (id : String)
    → has_child id d.plan.steps ≡ false
    → IsValid d
    → remove_step d id ≡ ok d'
    → IsValid d'
unfolding remove_step
remove_step-IsValid d d' id childless v h =
    let (i, found, k) = at_step-cases d d' id _ h in
    let (out, sorted, ordered, same) = removal_sorts d.plan.steps id i v.ordered found childless in
    let c = d.plan.current_step_id in
    let e : d' ≡ record {
      plan = record (d.plan) { current_step_id = if c == id then "" else c; steps = out };
      created = d.created;
    } =
      ground (arith, k, sorted) in
    rw e (record {
      ordered = ordered;
      each = All-SameSteps IsStep (without_step i id d.plan.steps) out same (
          All-drop_dep IsStep id (remove_at i d.plan.steps) (
            All-map {P = IsStep} (λ s p. record { named = p.named; status_known = p.status_known })
              (remove_at i d.plan.steps) (All-remove_at IsStep i d.plan.steps v.each)));
      current = current-without d id i out v found childless same;
    })

apply_to_created-IsValid :
    (d d' : Draft) (event : Event)
    → Allowed d event
    → IsValid d
    → apply_to_created d event ≡ ok d'
    → IsValid d'
unfolding apply_to_created
apply_to_created-IsValid d d' (plan_created id title) a v h =
    let e : d' ≡ d = ground arith in rw e v
apply_to_created-IsValid d d' (step_added s) a v h = add_step-IsValid d d' s v h
apply_to_created-IsValid d d' (step_removed id) a v h = remove_step-IsValid d d' id a v h
apply_to_created-IsValid d d' (step_title_changed id title) a v h =
    let (i, found, k) = at_step-cases d d' id _ h in
    let f : Step → Step = λ s. record s { title = title } in
    let e : d' ≡ with_steps d (update_at i f d.plan.steps) = ground (arith, k) in
    rw e (
      kept-IsValid d i f (λ s. refl) (λ s. refl) (λ s. refl)
        (λ s p. record { named = p.named; status_known = p.status_known }) v)
apply_to_created-IsValid d d' (step_status_changed id status) a v h =
    let (good, h') = guard-eq-ok (valid_status status) (invalid_status status) _ h in
    let (i, found, k) = at_step-cases d d' id _ h' in
    let f : Step → Step = λ s. record s { status = status } in
    let e : d' ≡ with_steps d (update_at i f d.plan.steps) = ground (arith, k) in
    rw e (
      kept-IsValid d i f (λ s. refl) (λ s. refl) (λ s. refl)
        (λ s p. record { named = p.named; status_known = good }) v)
apply_to_created-IsValid d d' (step_depends_on_changed id deps) a v h =
    let (i, found, k) = at_step-cases d d' id _ h in
    changed-IsValid d d' i (λ s. record s { depends_on = deps }) (λ s. refl)
      (λ s p. record { named = p.named; status_known = p.status_known }) v k
apply_to_created-IsValid d d' (step_parent_changed id parent) a v h =
    let (i, found, k) = at_step-cases d d' id _ h in
    changed-IsValid d d' i (λ s. record s { parent_id = parent }) (λ s. refl)
      (λ s p. record { named = p.named; status_known = p.status_known }) v k
apply_to_created-IsValid d d' (current_step_changed id) a v h =
    let e : d' ≡ record { plan = record (d.plan) { current_step_id = id }; created = d.created } =
      ground arith in
    rw e (record {
      ordered = v.ordered;
      each = v.each;
      current = λ named. find_step-counted d.plan.steps id (ground arith);
    })
apply_to_created-IsValid d d' (foreign name) a v h = absurd (cc)

new_plan-IsValid :
    (id title : String)
    → IsValid (record { plan = record empty_plan { id = id; title = title }; created = true })
new_plan-IsValid id title = record {
  ordered = nil-IsOrdered;
  each = tt;
  current = λ named. absurd (ground (arith, eq_refl ""));
}

-- Every event that is applied to a valid plan leaves a valid plan, whatever it says, except the
-- removal of a step with sub-tasks: ids are unique and not empty, statuses are known, parents and the current
-- step are steps, and every step stands behind its dependencies.
pub apply_event_to-IsValid :
    (d d' : Draft) (event : Event)
    → Allowed d event
    → IsValid d
    → apply_event_to d event ≡ ok d'
    → IsValid d'
unfolding apply_event_to
apply_event_to-IsValid d d' (plan_created id title) a v h =
    let e : d' ≡ record { plan = record empty_plan { id = id; title = title }; created = true } =
      ground arith in
    rw e (new_plan-IsValid id title)
apply_event_to-IsValid d d' (foreign name) a v h =
    apply_to_created-IsValid d d' (foreign name) tt v (ground arith)
apply_event_to-IsValid d d' event a v h = apply_to_created-IsValid d d' event a v (ground arith)
