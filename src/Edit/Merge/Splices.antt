-- ===== src/Edit/Merge/Splices.antt =====
-- Merging the edits in one pass is splicing them in one by one, from the last to the first.
use mathlib.Core.List.{append_assoc}
use agentsdk.Prelude.{
  ℕ, ◌≤◌, none, List, [], ◌∷◌, ◌++◌, ◌≡◌, refl, ap, sym, ◌∙◌, arith, length, take, drop, All,
}
use agentsdk.Prelude.Slices.{length-take_le, take-take, take-append, drop-append, drop-take}
use agentsdk.Prelude.Bytes.{Bytes, slice}
use agentsdk.Prelude.Result.{ok}
use agentsdk.Edit.{ResolvedEdit}
use agentsdk.Edit.Merge.{sort_edits, detect_conflicts, apply_from, apply_resolved_edits}
use agentsdk.Edit.Merge.Order.{
  IsInRange, IsApart, All-sort_edits, sort_edits-IsInOrder, first_conflict-IsApart,
}

-- One edit of a text.
abbrev pub splice : ResolvedEdit → Bytes → Bytes
splice e text = take e.start_byte text ++ (e.new_text ++ drop e.end_byte text)

-- The edits of a list, the last one first.
abbrev pub splice_all : Bytes → List ResolvedEdit → Bytes
splice_all content [] = content
splice_all content (e ∷ edits) = splice e (splice_all content edits)

abbrev merged : Bytes → ℕ → List ResolvedEdit → Bytes
merged content cursor [] = drop cursor content
merged content cursor (e ∷ edits) =
    slice cursor e.start_byte content ++ (e.new_text ++ merged content e.end_byte edits)

apply_from-merged :
    (content : Bytes) (cursor : ℕ) (out : Bytes) (l : List ResolvedEdit)
    → IsApart content cursor l
    → apply_from content cursor out l ≡ ok (out ++ merged content cursor l)
unfolding apply_from
apply_from-merged content cursor out [] h = refl
apply_from-merged content cursor out (e ∷ l) h =
    let part = slice cursor e.start_byte content in
    let more = merged content e.end_byte l in
    let step = apply_from-merged content e.end_byte (out ++ (part ++ e.new_text)) l h.2 in
    let same : ((out ++ (part ++ e.new_text)) ++ more) ≡ out ++ (part ++ (e.new_text ++ more)) =
      append_assoc out (part ++ e.new_text) more
      ∙ ap (λ r. out ++ r) (append_assoc part e.new_text more) in
    ground (arith, h.0, h.1.forward, h.1.inside, step, same)

splice_all-merged :
    (content : Bytes) (cursor : ℕ) (l : List ResolvedEdit)
    → IsApart content cursor l
    → (take cursor (splice_all content l) ≡ take cursor content)
      × (drop cursor (splice_all content l) ≡ merged content cursor l)
splice_all-merged content cursor [] h = (refl, refl)
splice_all-merged content cursor (e ∷ l) h =
    let s = e.start_byte in
    let rest = splice_all content l in
    let (before, behind) = splice_all-merged content e.end_byte l h.2 in
    let left : take s rest ≡ take s content =
      sym (take-take s e.end_byte rest h.1.forward)
      ∙ (ap (take s) before ∙ take-take s e.end_byte content h.1.forward) in
    let text : splice e rest ≡ take s content ++ (e.new_text ++ merged content e.end_byte l) =
      ap (λ x. x ++ (e.new_text ++ drop e.end_byte rest)) left
      ∙ ap (λ x. take s content ++ (e.new_text ++ x)) behind in
    let fits : cursor ≤ length (take s content) = omega (
      arith,
      h.0,
      h.1.forward,
      h.1.inside,
      length-take_le s content (omega (arith, h.1.forward, h.1.inside)),
    ) in
    (
      ap (take cursor) text
          ∙ (take-append cursor (take s content) (e.new_text ++ merged content e.end_byte l) fits
              ∙ take-take cursor s content h.0),
      ap (drop cursor) text
          ∙ (drop-append cursor (take s content) (e.new_text ++ merged content e.end_byte l) fits
              ∙ ap (λ x. x ++ (e.new_text ++ merged content e.end_byte l))
                  (drop-take cursor s content h.0)),
    )

-- Edits whose bytes are bytes of the text, and of which `detectConflicts` finds no two in conflict,
-- merge without an error, and the text that `applyResolvedEdits` builds is the one that splicing
-- them in one by one gives, from the last to the first in the order of the sort.
pub apply_resolved_edits-splice_all :
    (content : Bytes) (edits : List ResolvedEdit)
    → All (IsInRange content) edits
    → detect_conflicts edits ≡ none
    → apply_resolved_edits content edits ≡ ok (splice_all content (sort_edits edits))
unfolding apply_resolved_edits detect_conflicts
apply_resolved_edits-splice_all content edits r h =
    let apart =
      first_conflict-IsApart content 0 (sort_edits edits) (sort_edits-IsInOrder edits)
        (All-sort_edits (IsInRange content) edits r) h (omega arith) (λ e rest q. omega arith) in
    apply_from-merged content 0 [] (sort_edits edits) apart
    ∙ ap (λ (x : Bytes). ok x) (sym (splice_all-merged content 0 (sort_edits edits) apart).1)
