-- ===== src/Planner/Topo/Degrees.antt =====
-- What the loops over the steps record: for each id its dependencies, counted both ways.
use agentsdk.Prelude.{
  ℕ, ◌+◌, ◌<◌, String, Bool, true, List, [], ◌∷◌, ◌++◌, ◌==◌, eq_iff, eq_refl, if◌then◌else◌,
  is_some, length, length-append, ◌≡◌, refl, arith, ◌&&◌, nat_eq, inl, inr, All, All-map, map, ◌∙◌,
}
use agentsdk.Prelude.Dict.{
  Dict, IsUnique, lookup, lookup_or, insert, lookup-insert, lookup_or-insert, IsUnique-insert,
}
use agentsdk.Prelude.Result.{ok, Result-cases}
use agentsdk.Planner.{Step}
use agentsdk.Planner.Topo.{
  Graph, by_id, zero_degrees, zero_ids, add_edge, add_edges, known_parent, build_graph,
}
use agentsdk.Planner.Topo.Count.{count, count-append}

abbrev pub ids : List Step → List String
ids steps = map (λ s. s.id) steps

-- The dependencies of the steps with this id.
abbrev pub all_deps : String → List Step → List String
all_deps x [] = []
all_deps x (s ∷ steps) =
    let rest = all_deps x steps in if x == s.id then s.depends_on ++ rest else rest

abbrev pub is_known : {V : Type 0} → Dict V → String → Bool
is_known m x = is_some (lookup x m)

pub by_id-known :
    (steps : List Step) (m : Dict Step) (x : String)
    → is_known (by_id steps m) x ≡ true
    → 0 < count x (ids steps) + (if is_known m x then 1 else 0)
unfolding by_id
by_id-known [] m x h = ground arith
by_id-known (s ∷ steps) m x h = ground (
  arith,
  by_id-known steps (insert s.id s m) x h,
  lookup-insert s.id x s m,
  eq_iff s.id x,
  eq_iff x s.id,
)

by_id-keeps :
    (steps : List Step) (m : Dict Step) (x : String)
    → is_known m x ≡ true
    → is_known (by_id steps m) x ≡ true
unfolding by_id
by_id-keeps [] m x h = h
by_id-keeps (s ∷ steps) m x h =
    by_id-keeps steps (insert s.id s m) x (ground (arith, lookup-insert s.id x s m))

-- Every step's id is in the map.
pub ids-known :
    (steps : List Step) (m : Dict Step) → All (λ s. is_known (by_id steps m) s.id ≡ true) steps
unfolding by_id
ids-known [] m = tt
ids-known (s ∷ steps) m = (
  by_id-keeps steps (insert s.id s m) s.id
      (ground (arith, lookup-insert s.id s.id s m, eq_refl s.id)),
  ids-known steps (insert s.id s m),
)

pub by_id-IsUnique : (steps : List Step) (m : Dict Step) → IsUnique m → IsUnique (by_id steps m)
unfolding by_id
by_id-IsUnique [] m u = u
by_id-IsUnique (s ∷ steps) m u = by_id-IsUnique steps (insert s.id s m) (IsUnique-insert s.id s m u)

pub zero_degrees-zero : (m : Dict Step) (x : String) → lookup_or 0 x (zero_degrees m) ≡ 0
unfolding zero_degrees lookup lookup_or
zero_degrees-zero [] x = refl
zero_degrees-zero ((k, s) ∷ m) x = ground (arith, zero_degrees-zero m x)

pub zero_degrees-known : (m : Dict Step) (x : String) → is_known (zero_degrees m) x ≡ is_known m x
unfolding zero_degrees lookup
zero_degrees-known [] x = refl
zero_degrees-known ((k, s) ∷ m) x = ground (arith, zero_degrees-known m x)

pub zero_degrees-IsUnique : (m : Dict Step) → IsUnique m → IsUnique (zero_degrees m)
unfolding zero_degrees
zero_degrees-IsUnique [] u = tt
zero_degrees-IsUnique ((k, s) ∷ m) u =
    (ground (arith, u.0, zero_degrees-known m k), zero_degrees-IsUnique m u.1)

-- The ids that start as ready are those of degree zero, each once.
pub count-zero_ids :
    (d : Dict ℕ) (x : String)
    → IsUnique d
    → count x (zero_ids d) ≡ (if is_known d x && nat_eq (lookup_or 0 x d) 0 then 1 else 0)
unfolding zero_ids lookup lookup_or
count-zero_ids [] x u = refl
count-zero_ids ((k, n) ∷ d) x u =
    ground (arith, count-zero_ids d x u.1, u.0, eq_iff x k, eq_iff k x)

-- From `g` to `g'`, the edges from each dependency in `deps x` to `x` were added.
pub record Adds (m : Dict Step) (deps : String → List String) (g g' : Graph) : Type 0 where
  pub edges :
      (x d : String)
      → count x (lookup_or [] d g'.adj) ≡ count x (lookup_or [] d g.adj) + count d (deps x)
  pub degrees : (x : String) → lookup_or 0 x g'.degree ≡ lookup_or 0 x g.degree + length (deps x)
  pub same_ids : (x : String) → is_known g'.degree x ≡ is_known g.degree x
  pub unique : IsUnique g'.degree
  pub found : (x d : String) → 0 < count d (deps x) → is_known m d ≡ true

abbrev only : String → List String → String → List String
only id deps x = if x == id then deps else []

add_edges-Adds :
    (m : Dict Step) (id : String) (deps : List String) (g g' : Graph)
    → IsUnique g.degree
    → is_known g.degree id ≡ true
    → add_edges m id deps g ≡ ok g'
    → Adds m (only id deps) g g'
unfolding add_edges
add_edges-Adds m id [] g g' u k h = record {
  edges = λ x d. ground arith;
  degrees = λ x. ground arith;
  same_ids = λ x. ground arith;
  unique = ground arith;
  found = λ x d p. absurd (ground arith);
}
add_edges-Adds m id (dep ∷ deps) g g' u k h =
    let n = add_edge g dep id in
    let rest =
      add_edges-Adds m id deps n g' (IsUnique-insert id (lookup_or 0 id g.degree + 1) g.degree u)
        (ground (arith, lookup-insert id id (lookup_or 0 id g.degree + 1) g.degree, eq_refl id))
        (ground arith) in
    record {
      edges = λ x d. ground (
        arith,
        rest.edges x d,
        lookup_or-insert [] dep d (lookup_or [] dep g.adj ++ id ∷ []) g.adj,
        count-append x (lookup_or [] dep g.adj) (id ∷ []),
        eq_iff dep d,
        eq_iff d dep,
      );
      degrees = λ x. ground (
        arith,
        rest.degrees x,
        lookup_or-insert 0 id x (lookup_or 0 id g.degree + 1) g.degree,
        eq_iff id x,
        eq_iff x id,
      );
      same_ids = λ x. ground (
        arith,
        rest.same_ids x,
        lookup-insert id x (lookup_or 0 id g.degree + 1) g.degree,
        eq_iff id x,
      );
      unique = rest.unique;
      found = λ x d p. ground (arith, rest.found x d, eq_iff d dep);
    }

pub record IsBuilt (m : Dict Step) (steps : List Step) (g g' : Graph) : Type 0 where
  pub adds : Adds m (λ x. all_deps x steps) g g'
  pub parents : All (λ s. known_parent m s.parent_id ≡ true) steps

Adds-trans :
    (m : Dict Step) (s : Step) (steps : List Step) (g g' g'' : Graph)
    → Adds m (only s.id s.depends_on) g g'
    → Adds m (λ x. all_deps x steps) g' g''
    → Adds m (λ x. all_deps x (s ∷ steps)) g g''
Adds-trans m s steps g g' g'' a b = record {
  edges = λ x d.
      ground (arith, a.edges x d, b.edges x d, count-append d s.depends_on (all_deps x steps));
  degrees =
      λ x. ground (arith, a.degrees x, b.degrees x, length-append s.depends_on (all_deps x steps));
  same_ids = λ x. ground (arith, a.same_ids x, b.same_ids x);
  unique = b.unique;
  found = λ x d p.
      ground (arith, a.found x d, b.found x d, count-append d s.depends_on (all_deps x steps));
}

build_step :
    (m : Dict Step) (s : Step) (steps : List Step) (g n g' : Graph)
    → add_edges m s.id s.depends_on g ≡ ok n
    → build_graph m (s ∷ steps) g ≡ ok g'
    → (known_parent m s.parent_id ≡ true) × (build_graph m steps n ≡ ok g')
unfolding build_graph
build_step m s steps g n g' added h = ground arith

pub build_graph-IsBuilt :
    (m : Dict Step) (steps : List Step) (g g' : Graph)
    → IsUnique g.degree
    → All (λ s. is_known g.degree s.id ≡ true) steps
    → build_graph m steps g ≡ ok g'
    → IsBuilt m steps g g'
unfolding build_graph
build_graph-IsBuilt m [] g g' u k h = record {
  adds = record {
    edges = λ x d. ground arith;
    degrees = λ x. ground arith;
    same_ids = λ x. ground arith;
    unique = ground arith;
    found = λ x d p. absurd (omega arith);
  };
  parents = tt;
}
build_graph-IsBuilt m (s ∷ steps) g g' u k h =
    elim (Result-cases (add_edges m s.id s.depends_on g)) [
      | inl (e, bad) ↦ absurd (ground (arith, bad))
      | inr (n, added) ↦
          let (parent, rest_built) = build_step m s steps g n g' added h in
          let a = add_edges-Adds m s.id s.depends_on g n u k.0 added in
          let b =
            build_graph-IsBuilt m steps n g' a.unique
              (All-map (λ t e. a.same_ids t.id ∙ e) steps k.1) rest_built in
          record { adds = Adds-trans m s steps g n g' a b.adds; parents = (parent, b.parents) }
    ]
