-- ===== src/Edit/Lines/RoundTrip.antt =====
-- A line's offset and an offset's line, `byteOffsetForLine` and `lineNumberForOffset`.
use agentsdk.Prelude.{
  ℕ, suc, ◌+◌, ◌≤◌, [], ◌∷◌, ◌≡◌, refl, arith, inl, inr, Bool-cases, nat_eq, leb, take,
  if◌then◌else◌,
}
use agentsdk.Prelude.Bytes.{Bytes, newline}
use agentsdk.Edit.Lines.{offset_from, byte_offset_for_line, newlines, line_number_for_offset}

-- The bytes from a place on line `current` to the start of `line`.
unfoldable skip : ℕ → ℕ → Bytes → ℕ
skip line current [] = 0
skip line current (c ∷ s) =
    let next = suc (skip line current s) in
    let below = suc (skip line (suc current) s) in
    if nat_eq current line then 0 else if nat_eq c newline then below else next

skip_here : (line : ℕ) (s : Bytes) → skip line line s ≡ 0
unfolding skip
skip_here line [] = refl
skip_here line (c ∷ s) = ground arith

offset_from-skip :
    (line i current : ℕ) (s : Bytes) → offset_from line i current s ≡ i + skip line current s
unfolding offset_from skip
offset_from-skip line i current [] = omega arith
offset_from-skip line i current (c ∷ s) = ground (
  arith,
  offset_from-skip line (suc i) current s,
  offset_from-skip line (suc i) (suc current) s,
  skip_here line s,
)

newlines-skip :
    (line current : ℕ) (s : Bytes)
    → current ≤ line
    → line ≤ current + newlines s
    → current + newlines (take (skip line current s) s) ≡ line
unfolding skip newlines
newlines-skip line current [] h k = omega arith
newlines-skip line current (c ∷ s) h k = elim (Bool-cases (nat_eq current line)) [
  | inl here ↦ rw here (ground (arith, here))
  | inr later ↦ elim (Bool-cases (nat_eq c newline)) [
    | inl breaks ↦
        let rest =
          newlines-skip line (suc current) s (ground (arith, later, h))
            (ground (arith, breaks, k)) in
        rw (later, breaks) (ground (arith, rest, breaks))
    | inr inside ↦
        let rest = newlines-skip line current s h (ground (arith, inside, k)) in
        rw (later, inside) (ground (arith, rest, inside))
  ]
]

-- For every line that the text has, its newlines and one line more, the offset of the line's start
-- stands on that line.
pub line_number-byte_offset :
    (content : Bytes) (line : ℕ)
    → 1 ≤ line
    → line ≤ newlines content + 1
    → line_number_for_offset content (byte_offset_for_line content line) ≡ line
unfolding line_number_for_offset byte_offset_for_line newlines
line_number-byte_offset content line h k = elim (Bool-cases (leb line 1)) [
  | inl first ↦ rw first (ground (arith, first))
  | inr later ↦
      let e : offset_from line 0 1 content ≡ skip line 1 content =
        omega (arith, offset_from-skip line 0 1 content) in
      rw (later, e) (newlines-skip line 1 content h (omega arith))
]
