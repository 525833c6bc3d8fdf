-- ===== src/Planner/Topo/Correct.antt =====
-- `topoSortSteps` is a topological sort.
use mathlib.Core.List.{Memᴰ}
use agentsdk.Prelude.{
  ◌≤◌, ◌<◌, String, true, false, List, [], ◌∷◌, ◌++◌, ◌==◌, eq_refl, if◌then◌else◌, length, ◌≡◌,
  refl, arith, inl, inr, ◌⊎◌, map, All, All-map, All-Memᴰ, length-map, Option-cases,
}
use agentsdk.Prelude.Dict.{Dict, lookup, lookup_or}
use agentsdk.Prelude.Result.{Result-cases, ok}
use agentsdk.Planner.{Step, zero_step}
use agentsdk.Planner.Topo.{
  Graph, by_id, known_parent, build_graph, start_graph, emitted, order_steps, topo_sort,
}
use agentsdk.Planner.Topo.Count.{count, count-eq_of_length}
use agentsdk.Planner.Topo.Degrees.{ids, is_known, by_id-known}
use agentsdk.Planner.Topo.Emit.{Emits}
use agentsdk.Planner.Topo.Order.{
  IsFrom, by_id-IsFrom, start-Inv, emitted-Emits, emitted-Finished, deps_of,
}

-- Each step's dependencies are among `seen` and the steps before it.
abbrev pub IsBefore : List String → List Step → Type 0
IsBefore seen [] = Unit
IsBefore seen (s ∷ steps) =
    ((d : String) → 0 < count d s.depends_on → 0 < count d seen)
    × IsBefore (seen ++ s.id ∷ []) steps

abbrev pub HasParent : List String → Step → Type 0
HasParent all s = (s.parent_id == "") ≡ false → 0 < count s.parent_id all

-- The order that a plan's steps are kept in.
pub record IsOrdered (steps : List Step) : Type 0 where
  pub unique : (x : String) → count x (ids steps) ≤ 1
  pub before : IsBefore [] steps
  pub parents : All (HasParent (ids steps)) steps

-- `out` holds the steps of `steps`, each as often.
pub record SameSteps (steps out : List Step) : Type 0 where
  pub same_ids : (x : String) → count x (ids out) ≡ count x (ids steps)
  pub given : All (λ s. Memᴰ s steps) out

module _ (steps : List Step) (g : Graph)
    (built : build_graph (by_id steps []) steps (start_graph (by_id steps [])) ≡ ok g) where
  abbrev m : Dict Step
  m = by_id steps []

  abbrev found : String → Step
  found x = lookup_or zero_step x m

  abbrev out_ids : List String
  out_ids = emitted (length steps) g

  count-le_known : (x : String) → count x out_ids ≤ (if is_known m x then 1 else 0)
  count-le_known x = ground (arith, emitted-Finished steps g built x)

  pub known-counted : (x : String) → is_known m x ≡ true → 0 < count x (ids steps)
  unfolding lookup
  known-counted x h = ground (arith, by_id-known steps [] x h)

  count-le_ids : (x : String) → count x out_ids ≤ count x (ids steps)
  unfolding lookup
  count-le_ids x = ground (arith, count-le_known x, by_id-known steps [] x)

  found-IsFrom : (x : String) → is_known m x ≡ true → IsFrom steps x (found x)
  unfolding lookup lookup_or
  found-IsFrom x h = elim (Option-cases (lookup x m)) [
    | inl missing ↦ absurd (ground arith)
    | inr (s, e) ↦ elim (by_id-IsFrom steps [] x s e) [
      | inl f ↦ rw (e, lookup_or) f
      | inr bad ↦ absurd (ground arith)
    ]
  ]

  -- Lists of emitted ids, whose steps are therefore in the map.
  ids-found :
      (l : List String)
      → ((x : String) → 0 < count x l → is_known m x ≡ true)
      → ids (map found l) ≡ l
  ids-found [] k = refl
  ids-found (x ∷ l) k = cc (
    (found-IsFrom x (k x (ground (arith, eq_refl x)))).named,
    ids-found l (λ y p. k y (ground arith)),
  )

  given-found :
      (l : List String)
      → ((x : String) → 0 < count x l → is_known m x ≡ true)
      → All (λ s. Memᴰ s steps) (map found l)
  given-found [] k = tt
  given-found (x ∷ l) k = (
    (found-IsFrom x (k x (ground (arith, eq_refl x)))).given,
    given-found l (λ y p. k y (ground arith)),
  )

  IsBefore-found :
      (seen l : List String)
      → ((x : String) → 0 < count x l → is_known m x ≡ true)
      → Emits g.adj (deps_of steps g built) (is_known m) seen l
      → IsBefore seen (map found l)
  IsBefore-found seen [] k e = tt
  IsBefore-found seen (x ∷ l) k e =
      let f = found-IsFrom x (k x (ground (arith, eq_refl x))) in
      (
        λ d p. e.0 d (omega (arith, f.deps_counted d)),
        rw f.named (IsBefore-found (seen ++ x ∷ []) l (λ y p. k y (ground arith)) e.1),
      )

  abbrev ordered : List Step
  ordered = map found out_ids

  module _ (complete : length ordered ≡ length steps) where
    count-eq_ids : (x : String) → count x out_ids ≡ count x (ids steps)
    count-eq_ids x =
        count-eq_of_length out_ids (ids steps) count-le_ids
          (omega (arith, length-map out_ids found, length-map steps (λ (s : Step). s.id), complete))
          x

    emitted-known : (x : String) → 0 < count x out_ids → is_known m x ≡ true
    emitted-known x p = ground (arith, count-le_known x)

    ids-ordered : ids ordered ≡ out_ids
    ids-ordered = ids-found out_ids emitted-known

    ordered-SameSteps : SameSteps steps ordered
    ordered-SameSteps = record {
      same_ids = λ x. rw ids-ordered (count-eq_ids x);
      given = given-found out_ids emitted-known;
    }

    given-HasParent : (s : Step) → Memᴰ s steps → HasParent (ids ordered) s
    given-HasParent s given named =
        let k : known_parent m s.parent_id ≡ true =
          All-Memᴰ (λ (t : Step). known_parent m t.parent_id ≡ true)
            (start-Inv steps g built).parents given in
        let there : is_known m s.parent_id ≡ true = ground (arith, k, named) in
        rw ids-ordered (omega (arith, count-eq_ids s.parent_id, known-counted s.parent_id there))

    ordered-parents : All (HasParent (ids ordered)) ordered
    ordered-parents =
        All-map {Q = HasParent (ids ordered)} given-HasParent ordered
          (given-found out_ids emitted-known)

    ordered-IsOrdered : IsOrdered ordered
    ordered-IsOrdered = record {
      unique = λ x. rw ids-ordered (ground (arith, count-le_known x));
      before = IsBefore-found [] out_ids emitted-known (emitted-Emits steps g built);
      parents = ordered-parents;
    }

pub topo_sort-cases :
    (steps out : List Step)
    → topo_sort steps ≡ ok out
    → (steps ≡ []) × (out ≡ [])
      ⊎ ((g : Graph) × (build_graph (by_id steps []) steps (start_graph (by_id steps [])) ≡ ok g)
          × (order_steps steps (by_id steps []) g ≡ ok out))
unfolding topo_sort
topo_sort-cases [] out h = inl (refl, cc)
topo_sort-cases (s ∷ steps) out h =
    let all = s ∷ steps in
    elim (Result-cases (build_graph (by_id all []) all (start_graph (by_id all [])))) [
      | inl (e, bad) ↦ absurd (ground (arith, bad))
      | inr (g, built) ↦ inr (g, built, rw built at h)
    ]

order_steps-eq :
    (steps out : List Step) (m : Dict Step) (g : Graph)
    → order_steps steps m g ≡ ok out
    → let ordered = map (λ id. lookup_or zero_step id m) (emitted (length steps) g) in
      (length ordered ≡ length steps) × (out ≡ ordered)
order_steps-eq steps out m g h = ground arith

-- Whatever the steps, if `topoSortSteps` succeeds, no two steps have one id, and the result holds
-- the given steps, each once, in an order in which all dependencies of a step stand before it, and
-- with the parent of every step that names one.
pub topo_sort-IsOrdered :
    (steps out : List Step) → topo_sort steps ≡ ok out → IsOrdered out × SameSteps steps out
topo_sort-IsOrdered steps out h = elim (topo_sort-cases steps out h) [
  | inl (empty, e) ↦ rw (empty, e) (nil-IsOrdered, nil-SameSteps)
  | inr (g, built, k) ↦
      let (complete, e) = order_steps-eq steps out (by_id steps []) g k in
      rw e (ordered-IsOrdered steps g built complete, ordered-SameSteps steps g built complete)
]
  where
    nil-IsOrdered : IsOrdered []
    nil-IsOrdered = record { unique = λ x. omega arith; before = tt; parents = tt }

    nil-SameSteps : SameSteps [] []
    nil-SameSteps = record { same_ids = λ x. refl; given = tt }
