-- ===== src/Edit/Resolve/Matches.antt =====
-- `findAllStringMatches` finds each occurrence, from the left, that does not overlap the one before.
use agentsdk.Prelude.{
  ℕ, zero, suc, ◌+◌, ◌-◌, ◌≤◌, ◌<◌, true, false, none, some, List, [], ◌∷◌, ◌≡◌, ◌≢◌, refl, ap, sym,
  ◌∙◌, subst, arith, inl, inr, Bool-cases, Option-cases, length, take, drop,
}
use agentsdk.Prelude.Slices.{drop-drop, length-drop}
use agentsdk.Prelude.Bytes.{Bytes, has_prefix, index}
use agentsdk.Edit.Lines.Offsets.{index-fits}
use agentsdk.Edit.Resolve.{StringMatch, matches_from, find_all_string_matches}

abbrev pub Occurs : Bytes → Bytes → ℕ → Type 0
Occurs needle s k = take (length needle) (drop k s) ≡ needle

Occurs-of_prefix : (p s : Bytes) → has_prefix p s ≡ true → take (length p) s ≡ p
unfolding has_prefix
Occurs-of_prefix [] s h = refl
Occurs-of_prefix (x ∷ p) [] h = absurd (cc)
Occurs-of_prefix (x ∷ p) (y ∷ s) h = ground (arith, Occurs-of_prefix p s)

prefix-of_Occurs : (p s : Bytes) → take (length p) s ≡ p → has_prefix p s ≡ true
unfolding has_prefix
prefix-of_Occurs [] s h = refl
prefix-of_Occurs (x ∷ p) [] h = absurd (cc)
prefix-of_Occurs (x ∷ p) (y ∷ s) h = ground (arith, prefix-of_Occurs p s)

drop-nil : (k : ℕ) → ◌≡◌ {A = Bytes} (drop k []) []
drop-nil zero = refl
drop-nil (suc k) = refl

index-none :
    (needle s : Bytes) (k : ℕ) → index needle s ≡ none → has_prefix needle (drop k s) ≡ false
unfolding index
index-none needle [] k h = elim (Bool-cases (has_prefix needle [])) [
  | inl here ↦ absurd (ground (arith, h, here))
  | inr away ↦ ap (has_prefix needle) (drop-nil k) ∙ away
]
index-none needle (c ∷ s) k h = elim (Bool-cases (has_prefix needle (c ∷ s))) [
  | inl here ↦ absurd (ground (arith, h, here))
  | inr away ↦ elim (Option-cases (index needle s)) [
    | inr (i, found) ↦ absurd (ground (arith, h, away, found))
    | inl missing ↦ go k away (λ j. index-none needle s j missing)
  ]
]
  where
    go :
        (k : ℕ)
        → has_prefix needle (c ∷ s) ≡ false
        → ((j : ℕ) → has_prefix needle (drop j s) ≡ false)
        → has_prefix needle (drop k (c ∷ s)) ≡ false
    go zero away f = away
    go (suc k) away f = f k

index-some :
    (needle s : Bytes) (i : ℕ)
    → index needle s ≡ some i
    → (has_prefix needle (drop i s) ≡ true)
      × ((k : ℕ) → k < i → has_prefix needle (drop k s) ≡ false)
unfolding index
index-some needle [] i h = elim (Bool-cases (has_prefix needle [])) [
  | inl here ↦
      (ap (has_prefix needle) (drop-nil i) ∙ here, λ k m. absurd (ground (arith, h, here, m)))
  | inr away ↦ absurd (ground (arith, h, away))
]
index-some needle (c ∷ s) i h = elim (Bool-cases (has_prefix needle (c ∷ s))) [
  | inl here ↦
      let e : i ≡ 0 = ground (arith, h, here) in
      (ap (λ n. has_prefix needle (drop n (c ∷ s))) e ∙ here, λ k m. absurd (omega (arith, e, m)))
  | inr away ↦ elim (Option-cases (index needle s)) [
    | inl missing ↦ absurd (ground (arith, h, away, missing))
    | inr (j, found) ↦
        let e : i ≡ suc j = ground (arith, h, away, found) in
        let rest = index-some needle s j found in
        (
          ap (λ n. has_prefix needle (drop n (c ∷ s))) e ∙ rest.0,
          λ k m. go k j away rest.1 (omega (arith, e, m)),
        )
  ]
]
  where
    go :
        (k j : ℕ)
        → has_prefix needle (c ∷ s) ≡ false
        → ((k : ℕ) → k < j → has_prefix needle (drop k s) ≡ false)
        → k < suc j
        → has_prefix needle (drop k (c ∷ s)) ≡ false
    go zero j away f m = away
    go (suc k) j away f m = f k (omega (arith, m))

-- The matches from an offset on: the next one is the first occurrence from there, and the search
-- goes on behind it, until there is none.
pub data IsScan (content needle : Bytes) : ℕ → List StringMatch → Type 0 where
  done :
      (from : ℕ) → ((k : ℕ) → from ≤ k → ¬ Occurs needle content k) → IsScan content needle from []
  next :
      (from start : ℕ) (ms : List StringMatch)
      → from ≤ start
      → Occurs needle content start
      → ((k : ℕ) → from ≤ k → k < start → ¬ Occurs needle content k)
      → IsScan content needle (start + length needle) ms
      → IsScan content needle from (record { start = start; end = start + length needle } ∷ ms)

not-Occurs :
    (content needle : Bytes) (from k : ℕ)
    → from ≤ k
    → has_prefix needle (drop (k - from) (drop from content)) ≡ false
    → ¬ Occurs needle content k
not-Occurs content needle from k h away o =
    let e : from + (k - from) ≡ k = omega arith in
    let same : drop (k - from) (drop from content) ≡ drop k content =
      drop-drop (k - from) from content ∙ ap (λ n. drop n content) e in
    absurd (cc (ap (has_prefix needle) same, away, prefix-of_Occurs needle (drop k content) o))

matches_from-IsScan :
    (fuel : ℕ) (content needle : Bytes) (from : ℕ)
    → 0 < length needle
    → from ≤ length content
    → length content < from + fuel
    → IsScan content needle from (matches_from fuel content needle from)
unfolding matches_from
matches_from-IsScan zero content needle from n h f = absurd (omega arith)
matches_from-IsScan (suc fuel) content needle from n h f =
    elim (Option-cases (index needle (drop from content))) [
      | inl missing ↦
          let e : matches_from (suc fuel) content needle from ≡ [] =
            rw (missing, matches_from) refl in
          subst (IsScan content needle from) (sym e) (
            done from λ k m.
              not-Occurs content needle from k m
                (index-none needle (drop from content) (k - from) missing))
      | inr (i, found) ↦
          let (hit, before) = index-some needle (drop from content) i found in
          let fits = index-fits needle (drop from content) i found in
          let rest = matches_from fuel content needle (from + i + length needle) in
          let inside : from + i + length needle ≤ length content =
            omega (arith, fits, length-drop from content) in
          let enough : length content < from + i + length needle + fuel = omega (arith, n, f) in
          let e : matches_from (suc fuel) content needle from
              ≡ (record { start = from + i; end = from + i + length needle } ∷ rest) =
            rw (found, matches_from) refl in
          subst (IsScan content needle from) (sym e) (
            next from (from + i) rest (omega arith)
              (ap (take (length needle)) (sym (drop-drop i from content))
                ∙ Occurs-of_prefix needle (drop i (drop from content)) hit)
              (λ k m l.
                not-Occurs content needle from k m (before (k - from) (omega (arith, m, l))))
              (matches_from-IsScan fuel content needle (from + i + length needle) n inside enough))
    ]

-- For a text to find that is not empty, `findAllStringMatches` ends with the whole scan: its fuel is
-- enough, the matches are occurrences, each the first one behind the match before, and behind the
-- last one there is none.
pub find_all-IsScan :
    (content needle : Bytes)
    → needle ≢ []
    → IsScan content needle 0 (find_all_string_matches content needle)
unfolding find_all_string_matches
find_all-IsScan content [] h = absurd (h refl)
find_all-IsScan content (c ∷ needle) h =
    matches_from-IsScan (suc (length content)) content (c ∷ needle) 0 (omega arith) (omega arith)
      (omega arith)
