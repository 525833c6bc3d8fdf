-- ===== src/Edit/Resolve.antt =====
-- The operations resolved against the original text, tools/filesystem/edit_impl.go: from
-- `resolveOperationsAgainstOriginal` to `findAllStringMatches`.
pub mod Patching
pub mod Bounds
pub mod Matches
pub mod Editing
use agentsdk.Prelude.{
  ℕ, zero, suc, ◌+◌, ◌-◌, String, Bool, true, false, not, Option, none, some, List, [], ◌∷◌, ◌++◌,
  map, ltb, leb, nat_eq, ◌&&◌, ◌||◌, if◌then◌else◌, length, take, drop,
}
use agentsdk.Prelude.Bytes.{Bytes, newline, index, split, last_is}
use agentsdk.Prelude.Result.{Result, ok, err, ◌>>=◌}
use agentsdk.Edit.{
  ReplaceOp, Indent, unset, auto, keep, other, InsertOp, RemoveOp, Operation, ResolvedEdit,
  EditError, old_string_required, old_string_not_found, multiple_matches, line_too_small,
  missing_target, wrong_lines, invalid_range, invalid_line, unknown_operation, patch_required,
  at_operation,
}
use agentsdk.Edit.Lines.{
  split_lines_preserve_shape, byte_offset_for_line, line_number_for_offset, indent_inserted_content,
  get_indent, drop_empty_last, newlines,
}
use agentsdk.Edit.Patch.{apply_unified_patch}
use agentsdk.Edit.Patch.Hunks.{all_hunk_edits}
use agentsdk.Edit.Merge.{detect_conflicts, apply_resolved_edits}

pub record StringMatch : Type 0 where
  pub start : ℕ
  pub end : ℕ

-- The loop of `findAllStringMatches`. A round passes over at least one byte, so the length of the
-- text, and one for the last round, is fuel enough.
unfoldable pub matches_from : ℕ → Bytes → Bytes → ℕ → List StringMatch
unfolding index
matches_from zero content needle search = []
matches_from (suc fuel) content needle search = elim (index needle (drop search content)) [
  | none ↦ []
  | some i ↦
      let start = search + i in
      let end = start + length needle in
      record { start = start; end = end } ∷ matches_from fuel content needle end
]

unfoldable pub find_all_string_matches : Bytes → Bytes → List StringMatch
unfolding matches_from
find_all_string_matches content [] = []
find_all_string_matches content (c ∷ needle) =
    matches_from (suc (length content)) content (c ∷ needle) 0

abbrev pub max_int : ℕ → ℕ → ℕ
max_int a b = if ltb b a then a else b

-- An edit of the bytes from `start` to `end`, with the lines that they stand on.
abbrev pub edit_of : Bytes → String → ℕ → ℕ → ℕ → Bytes → ResolvedEdit
edit_of content kind op_index start end new_text = record {
  op_index = op_index;
  kind = kind;
  start_byte = start;
  end_byte = end;
  start_line = line_number_for_offset content start;
  end_line = line_number_for_offset content (max_int (end - 1) start);
  new_text = new_text;
}

abbrev pub insert_at : Bytes → ℕ → ℕ → Bytes → ResolvedEdit
insert_at content op_index offset new_text = record {
  op_index = op_index;
  kind = "insert";
  start_byte = offset;
  end_byte = offset;
  start_line = line_number_for_offset content offset;
  end_line = line_number_for_offset content offset;
  new_text = new_text;
}

abbrev pub replace_matches : Bytes → ReplaceOp → ℕ → List StringMatch → List ResolvedEdit
replace_matches content op op_index [] = []
replace_matches content op op_index (m ∷ matches) =
    edit_of content "replace" op_index m.start m.end op.new_string
    ∷ replace_matches content op op_index matches

unfoldable pub resolve_replace : Bytes → ReplaceOp → ℕ → Result EditError (List ResolvedEdit)
unfolding find_all_string_matches line_number_for_offset
resolve_replace content op op_index =
    if nat_eq (length op.old_string) 0
    then err old_string_required
    else elim (find_all_string_matches content op.old_string) [
      | [] ↦
          if nat_eq (length op.if_missing) 0
          then err old_string_not_found
          else ok (insert_at content op_index (length content) op.if_missing ∷ [])
      | m ∷ matches ↦
          if ltb 0 (length matches) && not op.replace_all
          then err multiple_matches
          else ok (replace_matches content op op_index (m ∷ matches))
    ]

abbrev pub copies_indent : Indent → Bool
copies_indent unset = true
copies_indent auto = true
copies_indent _ = false

abbrev pub inserted_text : Bytes → Indent → List Bytes → Bytes
inserted_text content indent below =
    if copies_indent indent
    then elim below [ [] ↦ content | line ∷ _ ↦ indent_inserted_content content (get_indent line) ]
    else content

unfoldable pub resolve_insert : Bytes → InsertOp → ℕ → Result EditError (List ResolvedEdit)
unfolding split_lines_preserve_shape byte_offset_for_line line_number_for_offset
    indent_inserted_content get_indent
resolve_insert content op op_index =
    let lines = split_lines_preserve_shape content in
    let last = length lines + 1 in
    let target = (if ltb last op.line then last else op.line) in
    let offset = byte_offset_for_line content target in
    if ltb op.line 1
    then err line_too_small
    else ok (
        insert_at content op_index offset
          (inserted_text op.content op.indent (drop (target - 1) lines))
        ∷ [])

abbrev pub remove_string : Bytes → Bytes → ℕ → Result EditError (List ResolvedEdit)
remove_string content old op_index = elim (index old content) [
  | none ↦ err old_string_not_found
  | some i ↦ ok (edit_of content "remove" op_index i (i + length old) [] ∷ [])
]

abbrev pub remove_lines : Bytes → ℕ → ℕ → ℕ → List ResolvedEdit
remove_lines content op_index start end =
    record {
      op_index = op_index;
      kind = "remove";
      start_byte = byte_offset_for_line content start;
      end_byte = byte_offset_for_line content (end + 1);
      start_line = start;
      end_line = end;
      new_text = [];
    }
    ∷ []

unfoldable pub resolve_lines : Bytes → List ℕ → ℕ → Result EditError (List ResolvedEdit)
unfolding split_lines_preserve_shape byte_offset_for_line
resolve_lines content [] op_index = err missing_target
resolve_lines content (n ∷ []) op_index =
    if ltb n 1 || ltb (length (split_lines_preserve_shape content)) n
    then err invalid_line
    else ok (remove_lines content op_index n n)
resolve_lines content (start ∷ end ∷ []) op_index =
    if ltb start 1 || (ltb end start || ltb (length (split_lines_preserve_shape content)) end)
    then err invalid_range
    else ok (remove_lines content op_index start end)
resolve_lines content (_ ∷ _ ∷ _ ∷ _) op_index = err wrong_lines

abbrev pub lines_of : Option (List ℕ) → List ℕ
lines_of none = []
lines_of (some lines) = lines

unfoldable pub resolve_remove : Bytes → RemoveOp → ℕ → Result EditError (List ResolvedEdit)
unfolding resolve_lines index line_number_for_offset
resolve_remove content op op_index = elim op.by_string [
  | none ↦ resolve_lines content (lines_of op.by_lines) op_index
  | some [] ↦ resolve_lines content (lines_of op.by_lines) op_index
  | some (c ∷ old) ↦ remove_string content (c ∷ old) op_index
]

abbrev pub appended_text : Bytes → Bytes → Bytes
appended_text content text =
    if nat_eq (length content) 0 || last_is newline content then text else newline ∷ text

unfoldable pub resolve_append : Bytes → Bytes → ℕ → List ResolvedEdit
unfolding line_number_for_offset
resolve_append content [] op_index = []
resolve_append content (c ∷ text) op_index =
    insert_at content op_index (length content) (appended_text content (c ∷ text)) ∷ []

unfoldable pub resolve_patch : Bytes → Bytes → ℕ → Result EditError (List ResolvedEdit)
unfolding split apply_unified_patch all_hunk_edits
resolve_patch content [] op_index = err patch_required
resolve_patch content (c ∷ patch) op_index =
    let has_trailing = last_is newline content in
    let parts = split newline content in
    let lines = (if has_trailing then drop_empty_last parts else parts) in
    apply_unified_patch lines (c ∷ patch) >>= λ (_, hunks).
    all_hunk_edits content has_trailing false op_index hunks

-- The switch over the operation's pointers, in its order.
unfoldable pub resolve_single_operation :
    Bytes → Operation → ℕ → Result EditError (List ResolvedEdit)
unfolding resolve_replace resolve_insert resolve_remove resolve_append resolve_patch
resolve_single_operation content op i = elim op.replace [
  | some r ↦ resolve_replace content r i
  | none ↦ elim op.insert [
    | some n ↦ resolve_insert content n i
    | none ↦ elim op.remove [
      | some m ↦ resolve_remove content m i
      | none ↦ elim op.append [
        | some text ↦ ok (resolve_append content text i)
        | none ↦ elim op.patch [
          | some patch ↦ resolve_patch content patch i
          | none ↦ err unknown_operation
        ]
      ]
    ]
  ]
]

-- The first operation that is refused ends the loop with its error, and the edits of the others are
-- dropped.
abbrev pub joined :
    ℕ
    → Result EditError (List ResolvedEdit)
    → Result EditError (List ResolvedEdit)
    → Result EditError (List ResolvedEdit)
joined i (err e) rest = err (at_operation i e)
joined i (ok edits) (err e) = err e
joined i (ok edits) (ok more) = ok (edits ++ more)

unfoldable pub resolve_from : Bytes → ℕ → List Operation → Result EditError (List ResolvedEdit)
unfolding resolve_single_operation
resolve_from content i [] = ok []
resolve_from content i (op ∷ ops) =
    joined i (resolve_single_operation content op i) (resolve_from content (suc i) ops)

abbrev pub resolve_operations : Bytes → List Operation → Result EditError (List ResolvedEdit)
resolve_operations content ops = resolve_from content 0 ops

-- What `fileEdit` makes of the text of one file. It comes to this only if each operation is `valid`;
-- here the operations may be any.
unfoldable pub edit_content : Bytes → List Operation → Result EditError Bytes
unfolding resolve_from detect_conflicts apply_resolved_edits
edit_content content ops = resolve_operations content ops >>= λ edits.
    elim (detect_conflicts edits) [ some e ↦ err e | none ↦ apply_resolved_edits content edits ]
