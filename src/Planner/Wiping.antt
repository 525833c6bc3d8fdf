-- ===== src/Planner/Wiping.antt =====
-- What capabilities/planner/replay.go makes of a step_removed event for a step with sub-tasks.
use agentsdk.Prelude.{
  ℕ, ◌<◌, String, true, false, some, List, [], ◌∷◌, ◌==◌, ◌||◌, eq_iff, eq_refl, ◌≡◌, refl, ap, sym,
  subst, ◌∙◌, inl, inr, arith, Bool-cases, All, All-map, map,
}
use agentsdk.Prelude.Result.{Result-cases, ok}
use agentsdk.Planner.{Step, find_step, remove_at, filter_string}
use agentsdk.Planner.Replay.{
  step_removed, Draft, at_step, without_step, sorted_or_none, remove_step, apply_to_created,
  apply_event_to,
}
use agentsdk.Planner.Actions.{has_child}
use agentsdk.Planner.Topo.{topo_sort, by_id, known_parent}
use agentsdk.Planner.Topo.Count.{count}
use agentsdk.Planner.Topo.Degrees.{ids}
use agentsdk.Planner.Topo.Order.{start-Inv}
use agentsdk.Planner.Topo.Correct.{HasParent, IsOrdered, topo_sort-cases, known-counted}
use agentsdk.Planner.Steps.{count-remove_at}
use agentsdk.Planner.Removal.{ids-without}

topo_sort-HasParent :
    (steps out : List Step) → topo_sort steps ≡ ok out → All (HasParent (ids steps)) steps
topo_sort-HasParent steps out h = elim (topo_sort-cases steps out h) [
  | inl (empty, e) ↦ rw empty tt
  | inr (g, built, k) ↦
      All-map {P = λ s. known_parent (by_id steps []) s.parent_id ≡ true}
        (λ s known named. known-counted steps g built s.parent_id (ground (arith, known, named)))
        steps (start-Inv steps g built).parents
]

child-HasParent :
    (all : List String) (id : String) (steps : List Step)
    → (id == "") ≡ false
    → has_child id steps ≡ true
    → All (HasParent all) steps
    → 0 < count id all
unfolding has_child
child-HasParent all id [] n h p = absurd (cc)
child-HasParent all id (s ∷ steps) n h p = elim (Bool-cases (s.parent_id == id)) [
  | inr other ↦ child-HasParent all id steps n (ground (arith, h, other)) p.1
  | inl same ↦
      let e : s.parent_id ≡ id = ground (arith, same, eq_iff s.parent_id id) in
      subst (λ x. 0 < count x all) e (p.0 (subst (λ x. (x == "") ≡ false) (sym e) n))
]

has_child-without :
    (id x : String) (steps : List Step)
    → has_child x
        (map {A = Step} (λ s. record s { depends_on = filter_string s.depends_on id }) steps)
      ≡ has_child x steps
unfolding has_child
has_child-without id x [] = refl
has_child-without id x (s ∷ steps) = ap (λ b. s.parent_id == x || b) (has_child-without id x steps)

-- In a plan that is created and in order, the event that removes a step which another step names as
-- its parent applies without an error and leaves a plan without any steps, whatever they were.
pub removed_parent-wipes :
    (d : Draft) (id : String) (i : ℕ)
    → d.created ≡ true
    → (id == "") ≡ false
    → IsOrdered d.plan.steps
    → find_step d.plan.steps id ≡ some i
    → has_child id (remove_at i d.plan.steps) ≡ true
    → (d' : Draft) × (apply_event_to d (step_removed id) ≡ ok d') × (d'.plan.steps ≡ [])
unfolding apply_event_to apply_to_created remove_step
removed_parent-wipes d id i created named ordered found child =
    let rest = without_step i id d.plan.steps in
    elim (Result-cases (topo_sort rest)) [
      | inl (e, bad) ↦ rw created (rw (found, at_step) (_, refl, rw (bad, sorted_or_none) refl))
      | inr (out, sorted) ↦
          let k =
            child-HasParent (ids rest) id rest named
              (has_child-without id id (remove_at i d.plan.steps) ∙ child)
              (topo_sort-HasParent rest out sorted) in
          let c = count-remove_at d.plan.steps id i id found in
          absurd (
            ground (
              arith,
              k,
              ap (count id) (ids-without id (remove_at i d.plan.steps)),
              c,
              eq_refl id,
              ordered.unique id,
            ))
    ]
