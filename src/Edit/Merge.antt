-- ===== src/Edit/Merge.antt =====
-- `detectConflicts` and `applyResolvedEdits` of tools/filesystem/edit_impl.go.
pub mod Order
pub mod Splices
use agentsdk.Prelude.{
  ℕ, ◌+◌, ◌-◌, Bool, true, false, not, Option, none, some, List, [], ◌∷◌, ◌++◌, ltb, leb, nat_eq,
  ◌&&◌, ◌||◌, if◌then◌else◌, length, drop, take, is_some,
}
use agentsdk.Prelude.Bytes.{Bytes, slice}
use agentsdk.Prelude.Result.{Result, ok, err}
use agentsdk.Edit.{ResolvedEdit, EditError, conflict, overlapping_edits, invalid_edit}

abbrev pub zero_width : ResolvedEdit → Bool
zero_width e = nat_eq e.start_byte e.end_byte

abbrev pub bool_eq : Bool → Bool → Bool
bool_eq true b = b
bool_eq false b = not b

-- The order of `sort.SliceStable`.
unfoldable pub edit_less : ResolvedEdit → ResolvedEdit → Bool
edit_less a b =
    if not (nat_eq a.start_byte b.start_byte)
    then ltb a.start_byte b.start_byte
    else if not (bool_eq (zero_width a) (zero_width b))
    then zero_width a
    else if not (nat_eq a.end_byte b.end_byte)
    then ltb a.end_byte b.end_byte
    else ltb a.op_index b.op_index

-- Before the first element that is not less: `a` stands before `l` in the unsorted list.
unfoldable pub insert_edit : ResolvedEdit → List ResolvedEdit → List ResolvedEdit
unfolding edit_less
insert_edit a [] = a ∷ []
insert_edit a (b ∷ l) = let rest = insert_edit a l in if edit_less b a then b ∷ rest else a ∷ b ∷ l

unfoldable pub sort_edits : List ResolvedEdit → List ResolvedEdit
unfolding insert_edit
sort_edits [] = []
sort_edits (a ∷ l) = insert_edit a (sort_edits l)

unfoldable pub edits_conflict : ResolvedEdit → ResolvedEdit → Bool
edits_conflict a b =
    if zero_width a && zero_width b
    then false
    else if zero_width a
    then ltb b.start_byte a.start_byte && ltb a.start_byte b.end_byte
    else if zero_width b
    then ltb a.start_byte b.start_byte && ltb b.start_byte a.end_byte
    else ltb a.start_byte b.end_byte && ltb b.start_byte a.end_byte

-- The inner loop, with its break.
unfoldable pub conflict_with : ResolvedEdit → List ResolvedEdit → Option EditError
unfolding edits_conflict
conflict_with a [] = none
conflict_with a (b ∷ l) =
    let rest = conflict_with a l in
    if ltb a.end_byte b.start_byte
    then none
    else if edits_conflict a b
    then some (conflict b.op_index a.op_index)
    else rest

unfoldable pub first_conflict : List ResolvedEdit → Option EditError
unfolding conflict_with
first_conflict [] = none
first_conflict (a ∷ l) =
    let rest = first_conflict l in elim (conflict_with a l) [ some e ↦ some e | none ↦ rest ]

unfoldable pub detect_conflicts : List ResolvedEdit → Option EditError
unfolding sort_edits first_conflict
detect_conflicts edits = first_conflict (sort_edits edits)

-- The loop over the sorted edits: `out` is what the builder holds.
unfoldable pub apply_from : Bytes → ℕ → Bytes → List ResolvedEdit → Result EditError Bytes
apply_from content cursor out [] = ok (out ++ drop cursor content)
apply_from content cursor out (e ∷ edits) =
    let rest =
      apply_from content e.end_byte (out ++ (slice cursor e.start_byte content ++ e.new_text))
        edits in
    if ltb e.start_byte cursor
    then err overlapping_edits
    else if ltb (length content) e.start_byte
        || (ltb (length content) e.end_byte || ltb e.end_byte e.start_byte)
    then err invalid_edit
    else rest

unfoldable pub apply_resolved_edits : Bytes → List ResolvedEdit → Result EditError Bytes
unfolding sort_edits apply_from
apply_resolved_edits content edits = apply_from content 0 [] (sort_edits edits)
