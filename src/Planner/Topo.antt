-- ===== src/Planner/Topo.antt =====
-- `topoSortSteps` of capabilities/planner/planner.go: Kahn's algorithm over the dependencies, the
-- smallest ready id first. `inDegree` is read by one test only, whether it reaches zero when it is
-- decremented, which is whether it was one; so a number that stops at zero serves for Go's `int`.
pub mod Count
pub mod Degrees
pub mod Emit
pub mod Order
pub mod Correct
pub mod Complete
use Prim.Native.Nat.{Ordering}
use Prim.Native.String.{compare}
use agentsdk.Prelude.{
  ℕ, zero, suc, ◌+◌, ◌-◌, String, Bool, true, false, Option, none, some, List, [], ◌∷◌, ◌++◌, ◌==◌,
  if◌then◌else◌, is_some, nat_eq, length, map,
}
use agentsdk.Prelude.Dict.{Dict, lookup, lookup_or, insert}
use agentsdk.Prelude.Result.{Result, ok, err, ◌>>=◌}
use agentsdk.Planner.{
  Step, PlanError, zero_step, dependency_not_found, parent_not_found, cycle_detected,
}

-- sort.Strings
unfoldable pub insert_sorted : String → List String → List String
insert_sorted a [] = a ∷ []
insert_sorted a (b ∷ bs) =
    let rest = insert_sorted a bs in elim (compare a b) [ Ordering.gt ↦ b ∷ rest | _ ↦ a ∷ b ∷ bs ]

unfoldable pub sort_strings : List String → List String
unfolding insert_sorted
sort_strings [] = []
sort_strings (a ∷ rest) = insert_sorted a (sort_strings rest)

-- `byID`; a later step of the same id replaces the earlier.
unfoldable pub by_id : List Step → Dict Step → Dict Step
by_id [] m = m
by_id (s ∷ steps) m = by_id steps (insert s.id s m)

unfoldable pub zero_degrees : Dict Step → Dict ℕ
zero_degrees [] = []
zero_degrees ((id, _) ∷ m) = (id, 0) ∷ zero_degrees m

-- `adj` and `inDegree`
pub record Graph : Type 0 where
  pub adj : Dict (List String)
  pub degree : Dict ℕ

abbrev pub add_edge : Graph → String → String → Graph
add_edge g dep id = record {
  adj = insert dep (lookup_or [] dep g.adj ++ id ∷ []) g.adj;
  degree = insert id (lookup_or 0 id g.degree + 1) g.degree;
}

-- The loop over one step's dependencies.
unfoldable pub add_edges : Dict Step → String → List String → Graph → Result PlanError Graph
add_edges m id [] g = ok g
add_edges m id (dep ∷ deps) g =
    let rest = add_edges m id deps (add_edge g dep id) in
    if is_some (lookup dep m) then rest else err (dependency_not_found dep)

abbrev pub known_parent : Dict Step → String → Bool
known_parent m parent = if parent == "" then true else is_some (lookup parent m)

unfoldable pub build_graph : Dict Step → List Step → Graph → Result PlanError Graph
unfolding add_edges
build_graph m [] g = ok g
build_graph m (s ∷ steps) g = elim (add_edges m s.id s.depends_on g) [
  | err e ↦ err e
  | ok g' ↦
      let rest = build_graph m steps g' in
      if known_parent m s.parent_id then rest else err (parent_not_found s.parent_id)
]

-- The ids of degree zero, in the order of the map.
unfoldable pub zero_ids : Dict ℕ → List String
zero_ids [] = []
zero_ids ((id, degree) ∷ m) = let rest = zero_ids m in if nat_eq degree 0 then id ∷ rest else rest

-- The loop over `adj[id]`.
unfoldable pub relax : List String → Dict ℕ → List String → Dict ℕ × List String
relax [] degree ready = (degree, ready)
relax (next ∷ nexts) degree ready =
    let d = lookup_or 0 next degree in
    relax nexts (insert next (d - 1) degree) (if nat_eq d 1 then ready ++ next ∷ [] else ready)

-- The loop over `ready`: the ids in the order of `ordered`. A round emits one id, and none twice,
-- so the number of steps is fuel enough.
unfoldable pub kahn : ℕ → Dict (List String) → Dict ℕ → List String → List String
unfolding relax sort_strings
kahn zero adj degree ready = []
kahn (suc fuel) adj degree ready = elim (sort_strings ready) [
  | [] ↦ []
  | id ∷ rest ↦
      let next = relax (lookup_or [] id adj) degree rest in id ∷ kahn fuel adj next.0 next.1
]

abbrev pub emitted : ℕ → Graph → List String
emitted fuel g = kahn fuel g.adj g.degree (sort_strings (zero_ids g.degree))

abbrev pub start_graph : Dict Step → Graph
start_graph m = record { adj = []; degree = zero_degrees m }

abbrev pub order_steps : List Step → Dict Step → Graph → Result PlanError (List Step)
order_steps steps m g =
    let ordered = map (λ id. lookup_or zero_step id m) (emitted (length steps) g) in
    if nat_eq (length ordered) (length steps) then ok ordered else err cycle_detected

unfoldable pub topo_sort : List Step → Result PlanError (List Step)
unfolding by_id zero_degrees build_graph zero_ids kahn
topo_sort [] = ok []
topo_sort (s ∷ steps) =
    let m = by_id (s ∷ steps) [] in
    build_graph m (s ∷ steps) (start_graph m) >>= order_steps (s ∷ steps) m
