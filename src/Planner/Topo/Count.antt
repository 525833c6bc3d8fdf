-- ===== src/Planner/Topo/Count.antt =====
-- How often an id stands in a list, which the queue of ready ids is measured by.

use agentsdk.Prelude.{
  ℕ, ◌+◌, ◌-◌, String, List, [], ◌∷◌, ◌++◌, eq_iff, if◌then◌else◌, ltb, leb, ◌≡◌, refl, arith, ◌&&◌,
  nat_eq,
}
use agentsdk.Prelude.Dict.{Dict, lookup_or, insert, lookup_or-insert}
pub use agentsdk.Prelude.Count.{count, count-append, length-le_of_count, count-eq_of_length}
use agentsdk.Planner.Topo.{insert_sorted, sort_strings, relax}

count-insert_sorted :
    (x a : String) (l : List String) → count x (insert_sorted a l) ≡ count x (a ∷ l)
unfolding insert_sorted
count-insert_sorted x a [] = refl
count-insert_sorted x a (b ∷ l) = ground (arith, count-insert_sorted x a l)

pub count-sort_strings : (x : String) (l : List String) → count x (sort_strings l) ≡ count x l
unfolding sort_strings
count-sort_strings x [] = refl
count-sort_strings x (a ∷ l) =
    ground (arith, count-insert_sorted x a (sort_strings l), count-sort_strings x l)

-- Whether a degree falls to zero when it is decremented so often.
abbrev pub hits : ℕ → ℕ → ℕ
hits degree times = if ltb 0 degree && leb degree times then 1 else 0

pub relax-degree :
    (nexts : List String) (degree : Dict ℕ) (ready : List String) (x : String)
    → lookup_or 0 x (relax nexts degree ready).0 ≡ lookup_or 0 x degree - count x nexts
unfolding relax
relax-degree [] degree ready x = omega arith
relax-degree (next ∷ nexts) degree ready x =
    let d = lookup_or 0 next degree in
    let rest =
      relax-degree nexts (insert next (d - 1) degree)
        (if nat_eq d 1 then ready ++ next ∷ [] else ready) x in
    ground (arith, rest, lookup_or-insert 0 next x (d - 1) degree, eq_iff x next, eq_iff next x)

pub relax-ready :
    (nexts : List String) (degree : Dict ℕ) (ready : List String) (x : String)
    → count x (relax nexts degree ready).1
      ≡ count x ready + hits (lookup_or 0 x degree) (count x nexts)
unfolding relax
relax-ready [] degree ready x = ground arith
relax-ready (next ∷ nexts) degree ready x =
    let d = lookup_or 0 next degree in
    let rest =
      relax-ready nexts (insert next (d - 1) degree)
        (if nat_eq d 1 then ready ++ next ∷ [] else ready) x in
    ground (
      arith,
      rest,
      lookup_or-insert 0 next x (d - 1) degree,
      eq_iff x next,
      eq_iff next x,
      count-append x ready (next ∷ []),
    )
