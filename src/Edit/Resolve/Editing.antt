-- ===== src/Edit/Resolve/Editing.antt =====
-- What `fileEdit` makes of one text: tools/filesystem/edit_impl.go, from the operations to the text.
use agentsdk.Prelude.{arith, Option, none, some, List, ◌≡◌, refl, ◌⊎◌, inl, inr, Option-cases}
use agentsdk.Prelude.Bytes.{Bytes}
use agentsdk.Prelude.Result.{Result-cases, ok, err}
use agentsdk.Edit.{Operation, ResolvedEdit, EditError}
use agentsdk.Edit.Merge.{sort_edits, first_conflict, detect_conflicts, apply_resolved_edits}
use agentsdk.Edit.Merge.Splices.{splice_all, apply_resolved_edits-splice_all}
use agentsdk.Edit.Resolve.{resolve_operations, edit_content}
use agentsdk.Edit.Resolve.Bounds.{resolve_operations-IsInRange}

conflicts :
    (edits : List ResolvedEdit) (o : Option EditError)
    → detect_conflicts edits ≡ o
    → first_conflict (sort_edits edits) ≡ o
unfolding detect_conflicts
conflicts edits o h = h

-- A text is edited in one of three ways. An operation is refused, and the edit gives that error; two
-- of the resolved edits are in conflict, and the edit gives that conflict; or the edit succeeds, and
-- its text is the content with the resolved edits spliced in one by one, from the last to the first
-- in the order of the sort. No edit of the text fails while it is merged.
pub edit_content-splice_all :
    (content : Bytes) (ops : List Operation)
    → ((e : EditError) × (resolve_operations content ops ≡ err e)
        × (edit_content content ops ≡ err e))
      ⊎ ((edits : List ResolvedEdit) × (resolve_operations content ops ≡ ok edits)
          × (((e : EditError) × (detect_conflicts edits ≡ some e)
                × (edit_content content ops ≡ err e))
              ⊎ ((detect_conflicts edits ≡ none)
                  × (edit_content content ops ≡ ok (splice_all content (sort_edits edits))))))
unfolding edit_content detect_conflicts apply_resolved_edits
edit_content-splice_all content ops = elim (Result-cases (resolve_operations content ops)) [
  | inl (e, refused) ↦ inl (e, refused, rw refused refl)
  | inr (edits, resolved) ↦ elim (Option-cases (detect_conflicts edits)) [
    | inr (e, bad) ↦
        inr (edits, resolved, inl (e, bad, ground (arith, resolved, conflicts edits (some e) bad)))
    | inl good ↦
        let merged =
          apply_resolved_edits-splice_all content edits
            (resolve_operations-IsInRange content ops edits resolved) good in
        inr
          (edits, resolved, inr (good, ground (arith, resolved, conflicts edits none good, merged)))
  ]
]
