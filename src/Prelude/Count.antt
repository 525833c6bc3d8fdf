-- ===== src/Prelude/Count.antt =====
-- How often a text stands in a list.
use Prim.Native.Nat.{ℕ, suc, ◌+◌, ◌-◌, ◌≤◌, ◌<◌}
use Prim.Native.String.{String}
use mathlib.Core.Path.{◌≡◌, refl}
use mathlib.Core.Logic.{inl, inr}
use mathlib.Core.List.{List, [], ◌∷◌, ◌++◌}
use native.Mathlib.Omega.{arith}
use text.Mathlib.Text.{◌==◌}
use text.Mathlib.TextEquality.{eq_iff}
use text.Mathlib.TextPositions.{eq_refl}
use agentsdk.Prelude.Tests.{if◌then◌else◌, Bool-cases}
use agentsdk.Prelude.Lists.{length}

abbrev pub count : String → List String → ℕ
count x [] = 0
count x (y ∷ l) = let rest = count x l in if x == y then suc rest else rest

pub count-append : (x : String) (a b : List String) → count x (a ++ b) ≡ count x a + count x b
count-append x [] b = omega arith
count-append x (y ∷ a) b = ground (arith, count-append x a b)

-- The list without the first `e`.
remove : String → List String → List String
remove e [] = []
remove e (y ∷ l) = let rest = remove e l in if e == y then l else y ∷ rest

count-remove :
    (e x : String) (l : List String)
    → count x (remove e l) ≡ (if x == e then count x l - 1 else count x l)
unfolding remove
count-remove e x [] = ground arith
count-remove e x (y ∷ l) = elim (Bool-cases (x == y)) [
  | inl same ↦ ground (arith, count-remove e x l, eq_iff e y, eq_iff x e, eq_iff x y, eq_refl x)
  | inr other ↦ ground (arith, count-remove e x l, eq_iff e y, eq_iff x e, eq_iff x y, eq_refl x)
]

length-remove :
    (e : String) (l : List String) → 0 < count e l → length l ≡ suc (length (remove e l))
unfolding remove
length-remove e [] h = absurd (omega arith)
length-remove e (y ∷ l) h = ground (arith, length-remove e l)

-- A list that holds no text more often than another is no longer,
pub length-le_of_count :
    (a b : List String) → ((x : String) → count x a ≤ count x b) → length a ≤ length b
length-le_of_count [] b h = omega arith
length-le_of_count (e ∷ a) b h =
    let there : 0 < count e b = ground (arith, h e, eq_refl e) in
    let rest = length-le_of_count a (remove e b) (λ x. ground (arith, h x, count-remove e x b)) in
    omega (arith, rest, length-remove e b there)

-- and holds the same texts if it is as long.
pub count-eq_of_length :
    (a b : List String)
    → ((x : String) → count x a ≤ count x b)
    → length b ≤ length a
    → (x : String) → count x a ≡ count x b
count-eq_of_length [] [] h k x = refl
count-eq_of_length [] (y ∷ b) h k x = absurd (omega arith)
count-eq_of_length (e ∷ a) b h k x =
    let there : 0 < count e b = ground (arith, h e, eq_refl e) in
    let rest =
      count-eq_of_length a (remove e b) (λ y. ground (arith, h y, count-remove e y b))
        (omega (arith, length-remove e b there)) x in
    ground (arith, rest, count-remove e x b, h x, eq_iff x e)
