-- ===== src/Planner/Topo/Complete.antt =====
-- `topoSortSteps` succeeds on every set of steps that can be sorted at all.
use agentsdk.Prelude.{
  ℕ, zero, suc, ◌≤◌, ◌<◌, String, true, List, [], ◌∷◌, eq_iff, eq_refl, length, length-map, ◌≡◌,
  refl, arith, map, All, All-map, ap,
}
use agentsdk.Prelude.Dict.{Dict, lookup, lookup_or}
use agentsdk.Prelude.Result.{ok}
use agentsdk.Planner.{Step, zero_step}
use agentsdk.Planner.Topo.{
  Graph, by_id, known_parent, add_edge, add_edges, build_graph, start_graph, emitted, topo_sort,
}
use agentsdk.Planner.Topo.Count.{count, count-append, length-le_of_count}
use agentsdk.Planner.Topo.Degrees.{ids, all_deps, is_known, by_id-known, ids-known}
use agentsdk.Planner.Topo.Emit.{open_count}
use agentsdk.Planner.Topo.Order.{emitted-Finished, deps_of}
use agentsdk.Planner.Topo.Correct.{HasParent}

-- The dependencies are steps of a lower rank, the parents are steps, and no two steps have one id.
pub record IsSortable (rank : String → ℕ) (steps : List Step) : Type 0 where
  pub unique : (x : String) → count x (ids steps) ≤ 1
  pub falls :
      All
        (λ s.
          (d : String)
          → 0 < count d s.depends_on
          → (0 < count d (ids steps)) × (rank d < rank s.id))
        steps
  pub parents : All (HasParent (ids steps)) steps

counted-known :
    (m : Dict Step) (x : String) (steps : List Step)
    → All (λ s. is_known m s.id ≡ true) steps
    → 0 < count x (ids steps)
    → is_known m x ≡ true
counted-known m x [] k h = absurd (omega arith)
counted-known m x (s ∷ steps) k h = ground (arith, eq_iff x s.id, k.0, counted-known m x steps k.1)

add_edges_total :
    (m : Dict Step) (id : String) (deps : List String) (g : Graph)
    → ((d : String) → 0 < count d deps → is_known m d ≡ true)
    → (g' : Graph) × (add_edges m id deps g ≡ ok g')
unfolding add_edges
add_edges_total m id [] g k = (g, refl)
add_edges_total m id (dep ∷ deps) g k =
    let (g', e) = add_edges_total m id deps (add_edge g dep id) (λ d p. k d (ground arith)) in
    (g', ground (arith, e, k dep, eq_refl dep))

build_graph_total :
    (m : Dict Step) (steps : List Step) (g : Graph)
    → All (λ s. (d : String) → 0 < count d s.depends_on → is_known m d ≡ true) steps
    → All (λ s. known_parent m s.parent_id ≡ true) steps
    → (g' : Graph) × (build_graph m steps g ≡ ok g')
unfolding build_graph
build_graph_total m [] g k p = (g, refl)
build_graph_total m (s ∷ steps) g k p =
    let (n, e) = add_edges_total m s.id s.depends_on g k.0 in
    let (g', f) = build_graph_total m steps n k.1 p.1 in (g', ground (arith, e, f, p.0))

open_count-closed :
    (done ds : List String)
    → ((d : String) → 0 < count d ds → 0 < count d done)
    → open_count done ds ≡ 0
open_count-closed done [] k = refl
open_count-closed done (d ∷ ds) k =
    ground (arith, k d, eq_refl d, open_count-closed done ds (λ x p. k x (ground arith)))

all_deps-falls :
    (rank : String → ℕ) (all : List String) (steps : List Step) (x d : String)
    → All
        (λ s. (d : String) → 0 < count d s.depends_on → (0 < count d all) × (rank d < rank s.id))
        steps
    → 0 < count d (all_deps x steps)
    → (0 < count d all) × (rank d < rank x)
all_deps-falls rank all [] x d f h = absurd (omega arith)
all_deps-falls rank all (s ∷ steps) x d f h = ground (
  arith,
  f.0 d,
  all_deps-falls rank all steps x d f.1,
  count-append d s.depends_on (all_deps x steps),
  eq_iff x s.id,
  rank_eq,
)
  where
    rank_eq : x ≡ s.id → rank x ≡ rank s.id
    rank_eq e = ap rank e

module _ (rank : String → ℕ) (steps : List Step) (sortable : IsSortable rank steps) where
  abbrev m : Dict Step
  m = by_id steps []

  known : (x : String) → 0 < count x (ids steps) → is_known m x ≡ true
  known x h = counted-known m x steps (ids-known steps []) h

  abbrev Falls : Step → Type 0
  Falls t =
      (d : String) → 0 < count d t.depends_on → (0 < count d (ids steps)) × (rank d < rank t.id)

  abbrev DepsKnown : Step → Type 0
  DepsKnown t = (d : String) → 0 < count d t.depends_on → is_known m d ≡ true

  deps-known : (t : Step) → Falls t → DepsKnown t
  deps-known t f d p = known d (f d p).0

  parent-known : (t : Step) → HasParent (ids steps) t → known_parent m t.parent_id ≡ true
  parent-known t h = ground (arith, h, known t.parent_id)

  built_total : (g : Graph) × (build_graph m steps (start_graph m) ≡ ok g)
  built_total =
      build_graph_total m steps (start_graph m)
        (All-map {P = Falls} {Q = DepsKnown} deps-known steps sortable.falls)
        (All-map {P = HasParent (ids steps)} {Q = λ t. known_parent m t.parent_id ≡ true}
          parent-known steps sortable.parents)

  module _ (g : Graph) (built : build_graph m steps (start_graph m) ≡ ok g) where
    abbrev done : List String
    done = emitted (length steps) g

    -- An id of the lowest rank with an open dependency has none.
    all_closed :
        (bound : ℕ) (x : String)
        → rank x < bound
        → is_known m x ≡ true
        → open_count done (deps_of steps g built x) ≡ 0
    all_closed zero x h k = absurd (omega arith)
    all_closed (suc bound) x h k = open_count-closed done (deps_of steps g built x) λ d p.
        let (there, lower) = all_deps-falls rank (ids steps) steps x d sortable.falls p in
        ground (
          arith,
          emitted-Finished steps g built d,
          known d there,
          all_closed bound d (omega arith) (known d there),
        )

    all_emitted : (x : String) → count x (ids steps) ≤ count x done
    all_emitted x = ground (
      arith,
      sortable.unique x,
      known x,
      emitted-Finished steps g built x,
      all_closed (suc (rank x)) x (omega arith),
    )

    none_twice : (x : String) → count x done ≤ count x (ids steps)
    unfolding lookup
    none_twice x = ground (arith, emitted-Finished steps g built x, by_id-known steps [] x)

    complete : length done ≡ length steps
    complete = omega (
      arith,
      length-le_of_count done (ids steps) none_twice,
      length-le_of_count (ids steps) done all_emitted,
      length-map steps (λ (s : Step). s.id),
    )

-- Steps whose dependencies and parents are among them, with different ids and no cycle of
-- dependencies (that is, with a rank that falls along them), are sorted without an error.
pub topo_sort_total :
    (rank : String → ℕ) (steps : List Step)
    → IsSortable rank steps
    → (out : List Step) × (topo_sort steps ≡ ok out)
unfolding topo_sort
topo_sort_total rank [] s = ([], refl)
topo_sort_total rank (t ∷ steps) s =
    let all = t ∷ steps in
    let (g, built) = built_total rank all s in
    let out =
      map (λ (id : String). lookup_or zero_step id (by_id all [])) (emitted (length all) g) in
    (
      out,
      rw built (
          ground (
            arith,
            complete rank all s g built,
            length-map (emitted (length all) g)
                (λ (id : String). lookup_or zero_step id (by_id all [])),
          )),
    )
