-- ===== src/Planner/Topo/Order.antt =====
-- What `topoSortSteps` returns.
use mathlib.Core.List.{Memᴰ}
use agentsdk.Prelude.{
  suc, ◌+◌, ◌≤◌, String, true, false, some, List, [], ◌∷◌, ◌==◌, eq_iff, if◌then◌else◌, length, ◌≡◌,
  refl, arith, inl, inr, ◌⊎◌, sym, map, All, All-map, Bool-cases, ap, ◌∙◌,
}
use agentsdk.Prelude.Dict.{Dict, IsUnique, lookup, lookup_or, insert, erase, lookup-insert}
use agentsdk.Prelude.Result.{ok}
use agentsdk.Planner.{Step}
use agentsdk.Planner.Topo.{Graph, by_id, zero_ids, sort_strings, build_graph, start_graph, emitted}
use agentsdk.Planner.Topo.Count.{count, count-append, count-sort_strings}
use agentsdk.Planner.Topo.Degrees.{
  all_deps, is_known, ids-known, by_id-IsUnique, zero_degrees-zero, zero_degrees-known,
  zero_degrees-IsUnique, count-zero_ids, IsBuilt, build_graph-IsBuilt,
}
use agentsdk.Planner.Topo.Emit.{open_count, Inv, Emits, Finished, kahn-Emits, kahn-Finished}

abbrev pub keys {ℓ} : {V : Type ℓ} → Dict V → List String
keys m = map (λ e. e.0) m

pub count-keys :
    (m : Dict Step) (x : String) → IsUnique m → count x (keys m) ≡ (if is_known m x then 1 else 0)
unfolding lookup
count-keys [] x u = refl
count-keys ((k, s) ∷ m) x u = ground (arith, count-keys m x u.1, u.0, eq_iff k x, eq_iff x k)

pub length-keys : (m : Dict Step) → length (keys m) ≡ length m
length-keys [] = refl
length-keys (e ∷ m) = ap suc (length-keys m)

length-erase : (k : String) (m : Dict Step) → length (erase k m) ≤ length m
unfolding erase
length-erase k [] = omega arith
length-erase k ((j, s) ∷ m) = ground (arith, length-erase k m)

pub length-by_id :
    (steps : List Step) (m : Dict Step) → length (by_id steps m) ≤ length steps + length m
unfolding by_id insert
length-by_id [] m = omega arith
length-by_id (s ∷ steps) m =
    omega (arith, length-by_id steps (insert s.id s m), length-erase s.id m)

open_count-nil : (ds : List String) → open_count [] ds ≡ length ds
open_count-nil [] = refl
open_count-nil (d ∷ ds) = ap suc (open_count-nil ds)

all_deps-unknown :
    (m : Dict Step) (x : String) (steps : List Step)
    → All (λ s. is_known m s.id ≡ true) steps
    → is_known m x ≡ false
    → all_deps x steps ≡ []
all_deps-unknown m x [] k h = refl
all_deps-unknown m x (s ∷ steps) k h =
    ground (arith, all_deps-unknown m x steps k.1 h, eq_iff x s.id, k.0)

-- A step of the map is one of the steps, under its own id.
pub record IsFrom (steps : List Step) (x : String) (s : Step) : Type 0 where
  pub named : s.id ≡ x
  pub given : Memᴰ s steps
  pub deps_counted : (d : String) → count d s.depends_on ≤ count d (all_deps x steps)

IsFrom-cons :
    (t : Step) (steps : List Step) (x : String) (s : Step)
    → IsFrom steps x s
    → IsFrom (t ∷ steps) x s
IsFrom-cons t steps x s f = record {
  named = f.named;
  given = Memᴰ.tail f.given;
  deps_counted =
      λ d. ground (arith, f.deps_counted d, count-append d t.depends_on (all_deps x steps));
}

IsFrom-head :
    (t : Step) (steps : List Step) (x : String) (s : Step)
    → t.id ≡ x
    → t ≡ s
    → IsFrom (t ∷ steps) x s
IsFrom-head t steps x s e same = record {
  named = cc;
  given = Memᴰ.head (sym same);
  deps_counted = λ d. ground (
    arith,
    ap (λ (r : Step). count d r.depends_on) same,
    eq_iff x t.id,
    count-append d t.depends_on (all_deps x steps),
  );
}

pub by_id-IsFrom :
    (steps : List Step) (m : Dict Step) (x : String) (s : Step)
    → lookup x (by_id steps m) ≡ some s
    → IsFrom steps x s ⊎ (lookup x m ≡ some s)
unfolding by_id
by_id-IsFrom [] m x s h = inr h
by_id-IsFrom (t ∷ steps) m x s h = elim (by_id-IsFrom steps (insert t.id t m) x s h) [
  | inl f ↦ inl (IsFrom-cons t steps x s f)
  | inr e ↦ elim (Bool-cases (t.id == x)) [
    | inl same ↦ inl (
        IsFrom-head t steps x s ((eq_iff t.id x).0 same) (ground (arith, lookup-insert t.id x t m)))
    | inr other ↦ inr (ground (arith, lookup-insert t.id x t m))
  ]
]

-- The state at the start of the loop satisfies its invariant.
pub start-Inv :
    (steps : List Step) (g : Graph)
    → let m = by_id steps [] in
      build_graph m steps (start_graph m) ≡ ok g → IsBuilt m steps (start_graph m) g
start-Inv steps g h =
    let m = by_id steps [] in
    build_graph-IsBuilt m steps (start_graph m) g
      (zero_degrees-IsUnique m (by_id-IsUnique steps [] tt))
      (All-map (λ s k. zero_degrees-known m s.id ∙ k) steps (ids-known steps [])) h

module _ (steps : List Step) (g : Graph)
    (built : build_graph (by_id steps []) steps (start_graph (by_id steps [])) ≡ ok g) where
  abbrev pub all_known : Dict Step
  all_known = by_id steps []

  abbrev pub deps_of : String → List String
  deps_of x = all_deps x steps

  edges-start : (x d : String) → count x (lookup_or [] d g.adj) ≡ count d (deps_of x)
  unfolding lookup lookup_or
  edges-start x d = ground (arith, (start-Inv steps g built).adds.edges x d)

  pub no_deps : (x : String) → is_known all_known x ≡ false → deps_of x ≡ []
  no_deps x h = all_deps-unknown all_known x steps (ids-known steps []) h

  queue : List String
  queue = sort_strings (zero_ids g.degree)

  started : Inv g.adj deps_of (is_known all_known) [] g.degree queue
  unfolding queue
  started = record {
    counts = λ x. omega (
      arith,
      (start-Inv steps g built).adds.degrees x,
      zero_degrees-zero all_known x,
      open_count-nil (deps_of x),
    );
    once = λ x. ground (
      arith,
      count-sort_strings x (zero_ids g.degree),
      count-zero_ids g.degree x (start-Inv steps g built).adds.unique,
      (start-Inv steps g built).adds.same_ids x,
      zero_degrees-known all_known x,
    );
  }

  pub emitted-Emits : Emits g.adj deps_of (is_known all_known) [] (emitted (length steps) g)
  unfolding queue
  emitted-Emits =
      kahn-Emits g.adj deps_of (is_known all_known) edges-start no_deps (length steps) [] g.degree
        queue started

  pub emitted-Finished : Finished g.adj deps_of (is_known all_known) (emitted (length steps) g)
  unfolding queue
  emitted-Finished =
      kahn-Finished g.adj deps_of (is_known all_known) edges-start no_deps (length steps) []
        (keys all_known) g.degree queue (λ x. count-keys all_known x (by_id-IsUnique steps [] tt))
        (omega (arith, length-keys all_known, length-by_id steps [])) started
