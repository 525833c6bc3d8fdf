-- ===== src/Prelude/Slices.antt =====
-- Laws of `take` and `drop` by native numbers.
use Prim.Native.Nat.{ℕ, zero, suc, ◌+◌, ◌-◌, ◌≤◌}
use mathlib.Core.Path.{◌≡◌, refl, ap, ◌∙◌}
use mathlib.Core.List.{List, [], ◌∷◌, ◌++◌}
use native.Mathlib.Omega.{arith}
use agentsdk.Prelude.Lists.{length, take, drop}

module _ {ℓ} {A : Type ℓ} where
  pub length-take_le : (n : ℕ) (l : List A) → n ≤ length l → length (take n l) ≡ n
  length-take_le zero l h = refl
  length-take_le (suc n) [] h = absurd (omega arith)
  length-take_le (suc n) (x ∷ l) h = ap suc (length-take_le n l (omega arith))

  pub length-drop : (n : ℕ) (l : List A) → length (drop n l) ≡ length l - n
  length-drop zero l = omega arith
  length-drop (suc n) [] = omega arith
  length-drop (suc n) (x ∷ l) = omega (arith, length-drop n l)

  pub take-take : (m n : ℕ) (l : List A) → m ≤ n → take m (take n l) ≡ take m l
  take-take zero n l h = refl
  take-take (suc m) zero l h = absurd (omega arith)
  take-take (suc m) (suc n) [] h = refl
  take-take (suc m) (suc n) (x ∷ l) h = ap (λ r. x ∷ r) (take-take m n l (omega arith))

  pub take-append : (n : ℕ) (l r : List A) → n ≤ length l → take n (l ++ r) ≡ take n l
  take-append zero l r h = refl
  take-append (suc n) [] r h = absurd (omega arith)
  take-append (suc n) (x ∷ l) r h = ap (λ q. x ∷ q) (take-append n l r (omega arith))

  pub drop-append : (n : ℕ) (l r : List A) → n ≤ length l → drop n (l ++ r) ≡ drop n l ++ r
  drop-append zero l r h = refl
  drop-append (suc n) [] r h = absurd (omega arith)
  drop-append (suc n) (x ∷ l) r h = drop-append n l r (omega arith)

  pub drop-take : (m n : ℕ) (l : List A) → m ≤ n → drop m (take n l) ≡ take (n - m) (drop m l)
  drop-take zero n l h = let e : n ≡ n - 0 = omega arith in ap (λ k. take k l) e
  drop-take (suc m) zero l h = absurd (omega arith)
  drop-take (suc m) (suc n) [] h = nil (suc n - suc m)
    where
      nil : (k : ℕ) → ◌≡◌ {A = List A} [] (take k [])
      nil zero = refl
      nil (suc k) = refl
  drop-take (suc m) (suc n) (x ∷ l) h =
      let e : n - m ≡ suc n - suc m = omega arith in
      drop-take m n l (omega arith) ∙ ap (λ k. take k (drop m l)) e

  pub take-all : (n : ℕ) (l : List A) → length l ≤ n → take n l ≡ l
  take-all zero [] h = refl
  take-all zero (x ∷ l) h = absurd (omega arith)
  take-all (suc n) [] h = refl
  take-all (suc n) (x ∷ l) h = ap (λ r. x ∷ r) (take-all n l (omega arith))

  pub drop-drop : (m n : ℕ) (l : List A) → drop m (drop n l) ≡ drop (n + m) l
  drop-drop m zero l = let e : m ≡ 0 + m = omega arith in ap (λ k. drop k l) e
  drop-drop m (suc n) [] = nil m (suc n + m)
    where
      nil : (i j : ℕ) → drop {A = A} i [] ≡ drop j []
      nil zero zero = refl
      nil zero (suc j) = refl
      nil (suc i) zero = refl
      nil (suc i) (suc j) = refl
  drop-drop m (suc n) (x ∷ l) =
      let e : suc (n + m) ≡ suc n + m = omega arith in drop-drop m n l ∙ ap (λ k. drop k (x ∷ l)) e
