-- ===== src/Edit/Lines.antt =====
-- Lines and offsets of tools/filesystem/edit_impl.go.
pub mod Offsets
pub mod RoundTrip
use agentsdk.Prelude.{
  ℕ, zero, suc, ◌+◌, Bool, true, false, List, [], ◌∷◌, ◌++◌, map, ltb, leb, nat_eq, ◌||◌,
  if◌then◌else◌, length, take, drop,
}
use agentsdk.Prelude.Bytes.{Bytes, newline, split, join}

-- `lines[:len(lines)-1]` if the last line is empty
abbrev pub drop_empty_last : List Bytes → List Bytes
drop_empty_last [] = []
drop_empty_last ([] ∷ []) = []
drop_empty_last (line ∷ []) = line ∷ []
drop_empty_last (line ∷ next ∷ lines) = line ∷ drop_empty_last (next ∷ lines)

abbrev pub ends_empty : List Bytes → Bool
ends_empty [] = false
ends_empty ([] ∷ []) = true
ends_empty (line ∷ []) = false
ends_empty (line ∷ next ∷ lines) = ends_empty (next ∷ lines)

unfoldable pub split_lines_preserve_shape : Bytes → List Bytes
unfolding split
split_lines_preserve_shape content = drop_empty_last (split newline content)

-- The loop of `byteOffsetForLine` at byte `i`, on line `current`.
unfoldable pub offset_from : ℕ → ℕ → ℕ → Bytes → ℕ
offset_from line i current [] = i
offset_from line i current (c ∷ rest) =
    let next = offset_from line (suc i) current rest in
    let below = offset_from line (suc i) (suc current) rest in
    if nat_eq current line
    then i
    else if nat_eq c newline
    then (if nat_eq (suc current) line then suc i else below)
    else next

unfoldable pub byte_offset_for_line : Bytes → ℕ → ℕ
unfolding offset_from
byte_offset_for_line content line = if leb line 1 then 0 else offset_from line 0 1 content

unfoldable pub newlines : Bytes → ℕ
newlines [] = 0
newlines (c ∷ s) = let rest = newlines s in if nat_eq c newline then suc rest else rest

-- A slice up to an offset past the end is the whole text, so the code's cap is the slice's.
unfoldable pub line_number_for_offset : Bytes → ℕ → ℕ
unfolding newlines
line_number_for_offset content offset = 1 + newlines (take offset content)

unfoldable pub indent_inserted_content : Bytes → Bytes → Bytes
unfolding split join
indent_inserted_content content indent =
    let parts = split newline content in
    let indented =
      λ (lines : List Bytes). join newline (map {A = Bytes} (λ line. indent ++ line) lines) in
    if ends_empty parts then indented (drop_empty_last parts) ++ newline ∷ [] else indented parts

unfoldable pub get_indent : Bytes → Bytes
get_indent [] = []
get_indent (c ∷ line) =
    let rest = get_indent line in if nat_eq c b' ' || nat_eq c b'\t' then c ∷ rest else []

-- `content[i] == '\n'` from `start` on: the offset behind the first newline, or the end.
unfoldable pub advance_from : ℕ → Bytes → ℕ
advance_from i [] = i
advance_from i (c ∷ rest) =
    let next = advance_from (suc i) rest in if nat_eq c newline then suc i else next

unfoldable pub advance_offset_by_line : Bytes → ℕ → ℕ
unfolding advance_from
advance_offset_by_line content start =
    if ltb start (length content) then advance_from start (drop start content) else length content
