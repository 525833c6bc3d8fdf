-- ===== src/Edit/Lines/Offsets.antt =====
-- The offsets that tools/filesystem/edit_impl.go counts lie within the text.
use agentsdk.Prelude.{
  ℕ, suc, ◌+◌, ◌≤◌, true, some, [], ◌∷◌, ◌≡◌, arith, inl, inr, Bool-cases, Option-cases, length,
  drop,
}
use agentsdk.Prelude.Slices.{length-drop}
use agentsdk.Prelude.Bytes.{Bytes, has_prefix, index}
use agentsdk.Edit.Lines.{offset_from, byte_offset_for_line, advance_from, advance_offset_by_line}

pub has_prefix-length : (p s : Bytes) → has_prefix p s ≡ true → length p ≤ length s
unfolding has_prefix
has_prefix-length [] s h = omega arith
has_prefix-length (x ∷ p) [] h = absurd (cc)
has_prefix-length (x ∷ p) (y ∷ s) h = omega (arith, has_prefix-length p s (ground arith))

-- A text that is found lies within the text that was searched.
pub index-fits : (needle s : Bytes) (i : ℕ) → index needle s ≡ some i → i + length needle ≤ length s
unfolding index
index-fits needle [] i h = elim (Bool-cases (has_prefix needle [])) [
  | inl here ↦ ground (arith, h, here, has_prefix-length needle [] here)
  | inr none_here ↦ absurd (ground (arith, h, none_here))
]
index-fits needle (c ∷ s) i h = elim (Bool-cases (has_prefix needle (c ∷ s))) [
  | inl here ↦ ground (arith, h, here, has_prefix-length needle (c ∷ s) here)
  | inr none_here ↦ elim (Option-cases (index needle s)) [
    | inl missing ↦ absurd (ground (arith, h, none_here, missing))
    | inr (j, found) ↦ ground (arith, h, none_here, found, index-fits needle s j found)
  ]
]

pub offset_from-le :
    (line i current : ℕ) (s : Bytes)
    → (i ≤ offset_from line i current s) × (offset_from line i current s ≤ i + length s)
unfolding offset_from
offset_from-le line i current [] = (omega arith, omega arith)
offset_from-le line i current (c ∷ s) =
    let (a, b) = offset_from-le line (suc i) current s in
    let (p, q) = offset_from-le line (suc i) (suc current) s in
    (ground (arith, a, p), ground (arith, b, q))

pub byte_offset-le :
    (content : Bytes) (line : ℕ) → byte_offset_for_line content line ≤ length content
unfolding byte_offset_for_line
byte_offset-le content line = ground (arith, (offset_from-le line 0 1 content).1)

pub advance_from-le :
    (i : ℕ) (s : Bytes) → (i ≤ advance_from i s) × (advance_from i s ≤ i + length s)
unfolding advance_from
advance_from-le i [] = (omega arith, omega arith)
advance_from-le i (c ∷ s) =
    let (a, b) = advance_from-le (suc i) s in (ground (arith, a), ground (arith, b))

pub advance-le :
    (content : Bytes) (start : ℕ)
    → start ≤ length content
    → (start ≤ advance_offset_by_line content start)
      × (advance_offset_by_line content start ≤ length content)
unfolding advance_offset_by_line
advance-le content start h =
    let (a, b) = advance_from-le start (drop start content) in
    (ground (arith, a, h), ground (arith, b, h, length-drop start content))

pub offset_from_mono :
    (line more i current : ℕ) (s : Bytes)
    → current ≤ line
    → line ≤ more
    → offset_from line i current s ≤ offset_from more i current s
unfolding offset_from
offset_from_mono line more i current [] h k = omega arith
offset_from_mono line more i current (c ∷ s) h k =
    let (a, _) = offset_from-le more (suc i) current s in
    let (b, _) = offset_from-le more (suc i) (suc current) s in
    ground (
      arith,
      a,
      b,
      offset_from_mono line more (suc i) current s h k,
      offset_from_mono line more (suc i) (suc current) s,
    )

pub byte_offset_mono :
    (content : Bytes) (line more : ℕ)
    → line ≤ more
    → byte_offset_for_line content line ≤ byte_offset_for_line content more
unfolding byte_offset_for_line
byte_offset_mono content line more h = ground (arith, offset_from_mono line more 0 1 content)
