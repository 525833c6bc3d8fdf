-- ===== src/Edit/Patch.antt =====
-- Unified patches: `parseUnifiedDiff` and `applyUnifiedPatch` of tools/filesystem/tools.go. The
-- numbers of a hunk header are unbounded, and white space in it is ASCII. No path of the parser
-- asks for a trailing newline, so its second result is always false.
pub mod Hunks
use agentsdk.Prelude.{
  ℕ, zero, suc, ◌+◌, ◌-◌, ◌*◌, Bool, true, false, Option, none, some, List, [], ◌∷◌, ◌++◌, ltb, leb,
  nat_eq, ◌&&◌, ◌||◌, if◌then◌else◌, length, take, drop,
}
use agentsdk.Prelude.Bytes.{Bytes, codes, newline, bytes_eq, slice, has_prefix, index, split}
use agentsdk.Prelude.Result.{Result, ok, err, ◌>>=◌}
use agentsdk.Edit.{EditError, bad_patch}

pub record PatchHunk : Type 0 where
  pub orig_start : ℕ
  pub orig_count : ℕ
  pub new_start : ℕ
  pub new_count : ℕ
  pub lines : List Bytes

abbrev pub is_blank : ℕ → Bool
is_blank c = nat_eq c 32 || leb 9 c && leb c 13

abbrev pub emit_word : Bytes → List Bytes → List Bytes
emit_word [] words = words
emit_word (c ∷ word) words = (c ∷ word) ∷ words

-- `strings.Fields`; the trimming before it changes nothing.
unfoldable pub fields_from : Bytes → Bytes → List Bytes
fields_from word [] = emit_word word []
fields_from word (c ∷ s) = elim (is_blank c) [
  | true ↦ emit_word word (fields_from [] s)
  | false ↦ fields_from (word ++ c ∷ []) s
]

unfoldable pub digits_from : ℕ → Bytes → Result EditError ℕ
digits_from n [] = ok n
digits_from n (c ∷ s) =
    let rest = digits_from (n * 10 + (c - b'0')) s in
    if ltb c b'0' || ltb b'9' c then err bad_patch else rest

abbrev pub parse_int_str : Bytes → Result EditError ℕ
parse_int_str [] = err bad_patch
parse_int_str (c ∷ s) = digits_from 0 (c ∷ s)

unfoldable pub parse_range : Bytes → Result EditError (ℕ × ℕ)
unfolding digits_from index
parse_range [] = err bad_patch
parse_range (sign ∷ s) = elim (index (codes ",") s) [
  | none ↦ parse_int_str s >>= λ n. ok (n, 1)
  | some comma ↦ parse_int_str (take comma s) >>= λ start.
      parse_int_str (drop (suc comma) s) >>= λ count. ok (start, count)
]

abbrev pub hunk_of : List Bytes → Result EditError PatchHunk
hunk_of (orig ∷ changed ∷ _) = parse_range orig >>= λ (os, oc). parse_range changed >>= λ (ns, nc).
    ok (record { orig_start = os; orig_count = oc; new_start = ns; new_count = nc; lines = [] })
hunk_of _ = err bad_patch

-- The text between "@@ " and " @@", or the rest of the line.
unfoldable pub parse_hunk_header : Bytes → Result EditError PatchHunk
unfolding index fields_from parse_range
parse_hunk_header line =
    let body = drop 3 line in
    hunk_of
      (fields_from [] (elim (index (codes " @@") body) [ none ↦ body | some end ↦ take end body ]))

pub data LineKind : Type 0 where
  file_header hunk_header remark last_empty content_line : LineKind

-- The tests of both loops over the lines, in their order.
abbrev pub line_kind : Bytes → List Bytes → LineKind
line_kind line lines =
    if has_prefix (codes "--- ") line || has_prefix (codes "+++ ") line
    then file_header
    else if has_prefix (codes "@@ ") line
    then hunk_header
    else if has_prefix (codes "\\ ") line
    then remark
    else if nat_eq (length line) 0 && nat_eq (length lines) 0
    then last_empty
    else content_line

abbrev pub close_hunk : Option PatchHunk → List PatchHunk → List PatchHunk
close_hunk none hunks = hunks
close_hunk (some h) hunks = h ∷ hunks

abbrev pub add_line : Option PatchHunk → Bytes → Option PatchHunk
add_line none line = none
add_line (some h) line = some (record h { lines = h.lines ++ line ∷ [] })

-- Both loops: `current` is the hunk of the inner one.
unfoldable pub parse_hunks : Option PatchHunk → List Bytes → Result EditError (List PatchHunk)
unfolding has_prefix parse_hunk_header
parse_hunks current [] = ok (close_hunk current [])
parse_hunks current (line ∷ lines) = elim (line_kind line lines) [
  | file_header ↦ parse_hunks none lines >>= λ hunks. ok (close_hunk current hunks)
  | hunk_header ↦ parse_hunk_header line >>= λ h.
      parse_hunks (some h) lines >>= λ hunks. ok (close_hunk current hunks)
  | remark ↦ parse_hunks current lines
  | last_empty ↦ parse_hunks current lines
  | content_line ↦ parse_hunks (add_line current line) lines
]

unfoldable pub parse_unified_diff : Bytes → Result EditError (List PatchHunk × Bool)
unfolding parse_hunks split
parse_unified_diff patch = parse_hunks none (split newline patch) >>= λ hunks. ok (hunks, false)

-- The loop that verifies context and removed lines.
unfoldable pub check_lines : List Bytes → List Bytes → Bool
check_lines file [] = true
check_lines file ([] ∷ lines) = check_lines file lines
check_lines file ((c ∷ text) ∷ lines) = elim (nat_eq c b' ' || nat_eq c b'-') [
  | false ↦ check_lines file lines
  | true ↦ elim file [ [] ↦ false | found ∷ rest ↦ bytes_eq found text && check_lines rest lines ]
]

-- The loop that applies a hunk's lines to the file from its start: the new lines, and what is left.
unfoldable pub apply_lines : List Bytes → List Bytes → List Bytes × List Bytes
apply_lines file [] = ([], file)
apply_lines file ([] ∷ lines) = apply_lines file lines
apply_lines file ((c ∷ text) ∷ lines) =
    let skipped = apply_lines (drop 1 file) lines in
    let same = apply_lines file lines in
    if nat_eq c b' '
    then (take 1 file ++ skipped.0, skipped.1)
    else if nat_eq c b'-'
    then skipped
    else if nat_eq c b'+'
    then (text ∷ same.0, same.1)
    else same

abbrev pub hunk_start : PatchHunk → Option ℕ
hunk_start h =
    if nat_eq h.orig_start 0
    then (if nat_eq h.orig_count 0 then some 0 else none)
    else some (h.orig_start - 1)

-- `file` is the file from line `at` on.
unfoldable pub apply_hunks : ℕ → List Bytes → List PatchHunk → Result EditError (List Bytes)
unfolding check_lines apply_lines
apply_hunks at file [] = ok file
apply_hunks at file (h ∷ hunks) = elim (hunk_start h) [
  | none ↦ err bad_patch
  | some start ↦
      let rest = drop (start - at) file in
      let (out, left) = apply_lines rest h.lines in
      let next = apply_hunks (start + (length rest - length left)) left hunks in
      if ltb start at || ltb (at + length file) start
      then err bad_patch
      else if check_lines rest h.lines
      then (next >>= λ lines. ok (take (start - at) file ++ (out ++ lines)))
      else err bad_patch
]

-- `applyUnifiedPatchWithHunks`: the new lines, and the hunks.
unfoldable pub apply_unified_patch :
    List Bytes → Bytes → Result EditError (List Bytes × List PatchHunk)
unfolding parse_unified_diff apply_hunks
apply_unified_patch file patch = parse_unified_diff patch >>= λ (hunks, _). elim hunks [
  | [] ↦ err bad_patch
  | h ∷ rest ↦ apply_hunks 0 file (h ∷ rest) >>= λ lines. ok (lines, h ∷ rest)
]
