-- ===== src/Edit/Examples.antt =====
-- The edits of tools/filesystem/edit_impl.go on a text of three lines.
use agentsdk.Prelude.{ℕ, true, none, some, List, [], ◌∷◌, ◌≡◌, refl, arith, ◌⊎◌, All}
use agentsdk.Prelude.Bytes.{Bytes, codes, has_prefix, index, split, join}
use agentsdk.Prelude.Result.{ok, err}
use agentsdk.Edit.{auto, Operation, ResolvedEdit, EditError, conflict}
use agentsdk.Edit.Lines.{
  split_lines_preserve_shape, offset_from, byte_offset_for_line, newlines, line_number_for_offset,
  indent_inserted_content, get_indent,
}
use agentsdk.Edit.Lines.RoundTrip.{line_number-byte_offset}
use agentsdk.Edit.Merge.{
  edit_less, insert_edit, sort_edits, edits_conflict, conflict_with, first_conflict,
  detect_conflicts, apply_from, apply_resolved_edits,
}
use agentsdk.Edit.Merge.Order.{IsInRange}
use agentsdk.Edit.Merge.Splices.{splice_all, apply_resolved_edits-splice_all}
use agentsdk.Edit.Resolve.{
  matches_from, find_all_string_matches, resolve_replace, resolve_insert, resolve_lines,
  resolve_remove, resolve_append, resolve_single_operation, resolve_from, resolve_operations,
  edit_content,
}
use agentsdk.Edit.Resolve.Bounds.{resolve_operations-IsInRange}
use agentsdk.Edit.Resolve.Editing.{edit_content-splice_all}
use agentsdk.Edit.Resolve.Matches.{IsScan, find_all-IsScan}

program : Unit {0}
unfolding edit_content resolve_from resolve_single_operation resolve_replace resolve_insert
    resolve_remove resolve_lines resolve_append matches_from find_all_string_matches offset_from
    byte_offset_for_line newlines line_number_for_offset split_lines_preserve_shape
    indent_inserted_content get_indent edit_less insert_edit sort_edits edits_conflict conflict_with
    first_conflict detect_conflicts apply_from apply_resolved_edits has_prefix index split join
program = tt

abbrev content : Bytes
content = codes "ab\n  cd\nab\n"

abbrev no_operation : Operation
no_operation = record { replace = none; insert = none; remove = none; append = none; patch = none }

abbrev replace_ab : Operation
replace_ab = record {
  replace = some (record {
    old_string = codes "ab";
    new_string = codes "x";
    replace_all = true;
    if_missing = [];
  });
  insert = none;
  remove = none;
  append = none;
  patch = none;
}

abbrev insert_e : Operation
insert_e = record {
  replace = none;
  insert = some (record { line = 2; content = codes "e\n"; indent = auto });
  remove = none;
  append = none;
  patch = none;
}

abbrev remove_line : ℕ → Operation
remove_line n = record {
  replace = none;
  insert = none;
  remove = some (record { by_string = none; by_lines = some (n ∷ []) });
  append = none;
  patch = none;
}

abbrev operations : List Operation
operations = replace_ab ∷ insert_e ∷ []

edited : edit_content content operations ≡ ok (codes "x\n  e\n  cd\nx\n")
unfolding program
edited = refl

conflicting : edit_content content (replace_ab ∷ remove_line 1 ∷ []) ≡ err (conflict 1 0)
unfolding program
conflicting = refl

abbrev resolved : List ResolvedEdit
unfolding program
resolved = elim (resolve_operations content operations) [ ok edits ↦ edits | err e ↦ [] ]

operations_resolve : resolve_operations content operations ≡ ok resolved
unfolding program
operations_resolve = refl

no_conflicts : detect_conflicts resolved ≡ none
unfolding program
no_conflicts = refl

resolve_operations-IsInRange_example : All (IsInRange content) resolved
resolve_operations-IsInRange_example =
    resolve_operations-IsInRange content operations resolved operations_resolve

apply_resolved_edits-splice_all_example :
    apply_resolved_edits content resolved ≡ ok (splice_all content (sort_edits resolved))
apply_resolved_edits-splice_all_example =
    apply_resolved_edits-splice_all content resolved resolve_operations-IsInRange_example
      no_conflicts

line_number-byte_offset_example :
    line_number_for_offset content (byte_offset_for_line content 3) ≡ 3
unfolding program
line_number-byte_offset_example = line_number-byte_offset content 3 (omega arith) (omega arith)

find_all-IsScan_example :
    IsScan content (codes "ab") 0 (find_all_string_matches content (codes "ab"))
find_all-IsScan_example = find_all-IsScan content (codes "ab") (λ h. cc)

edit_content-splice_all_example :
    ((e : EditError) × (resolve_operations content operations ≡ err e)
      × (edit_content content operations ≡ err e))
    ⊎ ((edits : List ResolvedEdit) × (resolve_operations content operations ≡ ok edits)
        × (((e : EditError) × (detect_conflicts edits ≡ some e)
              × (edit_content content operations ≡ err e))
            ⊎ ((detect_conflicts edits ≡ none)
                × (edit_content content operations ≡ ok (splice_all content (sort_edits edits))))))
edit_content-splice_all_example = edit_content-splice_all content operations
