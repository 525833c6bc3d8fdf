-- ===== src/Edit/Resolve/Bounds.antt =====
-- The edits that the operations resolve to are edits of bytes of the text.
use agentsdk.Prelude.{
  not, ◌&&◌, ◌||◌, ℕ, zero, suc, ◌+◌, ◌≤◌, false, Option, none, some, List, [], ◌∷◌, ltb, nat_eq,
  ◌≡◌, subst, arith, inl, inr, Bool-cases, Option-cases, List-cases, All, All-append, length, drop,
}
use agentsdk.Prelude.Slices.{length-drop}
use agentsdk.Prelude.Bytes.{Bytes, newline, index, last_is}
use agentsdk.Prelude.Result.{Result, ok, err}
use agentsdk.Edit.{
  ReplaceOp, InsertOp, RemoveOp, Operation, ResolvedEdit, EditError, unknown_operation,
}
use agentsdk.Edit.Lines.{split_lines_preserve_shape}
use agentsdk.Edit.Merge.Order.{IsInRange}
use agentsdk.Edit.Patch.{apply_unified_patch}
use agentsdk.Edit.Resolve.{
  StringMatch, matches_from, find_all_string_matches, insert_at, replace_matches, resolve_replace,
  resolve_insert, remove_string, remove_lines, resolve_lines, lines_of, resolve_remove,
  resolve_append, resolve_patch, resolve_single_operation, joined, resolve_from, resolve_operations,
}
use agentsdk.Edit.Lines.Offsets.{index-fits, byte_offset-le, byte_offset_mono}
use agentsdk.Edit.Resolve.Patching.{Yields, Yields-after, all_hunk_edits-Yields}

abbrev Ranged : Bytes → List ResolvedEdit → Type 0
Ranged content edits = All (IsInRange content) edits

insert_at-IsInRange :
    (content : Bytes) (op_index offset : ℕ) (text : Bytes)
    → offset ≤ length content
    → IsInRange content (insert_at content op_index offset text)
insert_at-IsInRange content op_index offset text h = record { forward = omega arith; inside = h }

matches_from-fits :
    (fuel : ℕ) (content needle : Bytes) (from : ℕ)
    → from ≤ length content
    → All
        (λ m. (m.start ≤ m.end) × (m.end ≤ length content))
        (matches_from fuel content needle from)
unfolding matches_from
matches_from-fits zero content needle from h = tt
matches_from-fits (suc fuel) content needle from h =
    elim (Option-cases (index needle (drop from content))) [
      | inl missing ↦ rw (missing, All) tt
      | inr (i, found) ↦
          let fits : from + i + length needle ≤ length content =
            omega
              (arith, h, index-fits needle (drop from content) i found, length-drop from content) in
          rw (found, All)
            (
              (omega arith, fits),
              matches_from-fits fuel content needle (from + i + length needle) fits,
            )
    ]

replace_matches-Ranged :
    (content : Bytes) (op : ReplaceOp) (i : ℕ) (ms : List StringMatch)
    → All (λ m. (m.start ≤ m.end) × (m.end ≤ length content)) ms
    → Ranged content (replace_matches content op i ms)
replace_matches-Ranged content op i [] h = tt
replace_matches-Ranged content op i (m ∷ ms) h =
    (record { forward = h.0.0; inside = h.0.1 }, replace_matches-Ranged content op i ms h.1)

matches_fit :
    (content needle : Bytes)
    → All
        (λ m. (m.start ≤ m.end) × (m.end ≤ length content))
        (find_all_string_matches content needle)
unfolding find_all_string_matches
matches_fit content [] = tt
matches_fit content (c ∷ needle) =
    matches_from-fits (suc (length content)) content (c ∷ needle) 0 (omega arith)

resolve_replace-Yields :
    (content : Bytes) (op : ReplaceOp) (i : ℕ) → Yields content (resolve_replace content op i)
unfolding resolve_replace
resolve_replace-Yields content op i = elim (Bool-cases (nat_eq (length op.old_string) 0)) [
  | inl empty ↦ rw empty tt
  | inr given ↦ rw given (
      let fits = matches_fit content op.old_string in
      elim (List-cases (find_all_string_matches content op.old_string)) [
        | inl missing ↦ rw missing (elim (Bool-cases (nat_eq (length op.if_missing) 0)) [
          | inl no_text ↦ rw no_text tt
          | inr text ↦
              rw text
                (insert_at-IsInRange content i (length content) op.if_missing (omega arith), tt)
        ])
        | inr (m, ms, found) ↦
            rw found (elim (Bool-cases (ltb 0 (length ms) && not op.replace_all)) [
              | inl many ↦ rw many tt
              | inr fine ↦ rw fine (replace_matches-Ranged content op i (m ∷ ms) (rw found at fits))
            ])
      ])
]

resolve_insert-Yields :
    (content : Bytes) (op : InsertOp) (i : ℕ) → Yields content (resolve_insert content op i)
unfolding resolve_insert
resolve_insert-Yields content op i = elim (Bool-cases (ltb op.line 1)) [
  | inl small ↦ rw small tt
  | inr good ↦ rw good (insert_at-IsInRange content i _ _ (byte_offset-le content _), tt)
]

remove_lines-Ranged :
    (content : Bytes) (i start end : ℕ)
    → start ≤ end
    → All (IsInRange content) (remove_lines content i start end)
remove_lines-Ranged content i start end h = (
  record {
    forward = byte_offset_mono content start (end + 1) (omega arith);
    inside = byte_offset-le content (end + 1);
  },
  tt,
)

resolve_lines-Yields :
    (content : Bytes) (lines : List ℕ) (i : ℕ) → Yields content (resolve_lines content lines i)
unfolding resolve_lines
resolve_lines-Yields content [] i = tt
resolve_lines-Yields content (n ∷ []) i =
    elim (Bool-cases (ltb n 1 || ltb (length (split_lines_preserve_shape content)) n)) [
      | inl bad ↦ rw bad tt
      | inr good ↦ rw good (remove_lines-Ranged content i n n (omega arith))
    ]
resolve_lines-Yields content (a ∷ b ∷ []) i =
    elim (Bool-cases
      (ltb a 1 || (ltb b a || ltb (length (split_lines_preserve_shape content)) b))) [
        | inl bad ↦ rw bad tt
        | inr good ↦ rw good (remove_lines-Ranged content i a b (ground (arith, good)))
      ]
resolve_lines-Yields content (a ∷ b ∷ c ∷ rest) i = tt

remove_string-Yields : (content old : Bytes) (i : ℕ) → Yields content (remove_string content old i)
remove_string-Yields content old i = elim (Option-cases (index old content)) [
  | inl missing ↦ rw (missing, remove_string) tt
  | inr (at, found) ↦
      rw (found, remove_string)
        (record { forward = omega arith; inside = index-fits old content at found }, tt)
]

resolve_remove-Yields :
    (content : Bytes) (op : RemoveOp) (i : ℕ) → Yields content (resolve_remove content op i)
unfolding resolve_remove
resolve_remove-Yields content op i = go op.by_string
  where
    go :
        (o : Option Bytes)
        → Yields content (elim o [
          | none ↦ resolve_lines content (lines_of op.by_lines) i
          | some [] ↦ resolve_lines content (lines_of op.by_lines) i
          | some (c ∷ old) ↦ remove_string content (c ∷ old) i
        ])
    go none = resolve_lines-Yields content (lines_of op.by_lines) i
    go (some []) = resolve_lines-Yields content (lines_of op.by_lines) i
    go (some (c ∷ old)) = remove_string-Yields content (c ∷ old) i

resolve_append-Ranged :
    (content text : Bytes) (i : ℕ) → All (IsInRange content) (resolve_append content text i)
unfolding resolve_append
resolve_append-Ranged content [] i = tt
resolve_append-Ranged content (c ∷ text) i =
    (insert_at-IsInRange content i (length content) _ (omega arith), tt)

resolve_patch-Yields :
    (content patch : Bytes) (i : ℕ) → Yields content (resolve_patch content patch i)
unfolding resolve_patch
resolve_patch-Yields content [] i = tt
resolve_patch-Yields content (c ∷ patch) i =
    Yields-after content (apply_unified_patch _ (c ∷ patch)) _
      λ (lines, hunks). all_hunk_edits-Yields content (last_is newline content) false i hunks

resolve_single-Yields :
    (content : Bytes) (op : Operation) (i : ℕ)
    → Yields content (resolve_single_operation content op i)
unfolding resolve_single_operation
resolve_single-Yields content op i = go op.replace op.insert op.remove op.append op.patch
  where
    go :
        (r : Option ReplaceOp) (n : Option InsertOp) (m : Option RemoveOp) (t p : Option Bytes)
        → Yields content (elim r [
          | some r ↦ resolve_replace content r i
          | none ↦ elim n [
            | some n ↦ resolve_insert content n i
            | none ↦ elim m [
              | some m ↦ resolve_remove content m i
              | none ↦ elim t [
                | some text ↦ ok (resolve_append content text i)
                | none ↦ elim p [
                  | some patch ↦ resolve_patch content patch i
                  | none ↦ err unknown_operation
                ]
              ]
            ]
          ]
        ])
    go (some r) n m t p = resolve_replace-Yields content r i
    go none (some n) m t p = resolve_insert-Yields content n i
    go none none (some m) t p = resolve_remove-Yields content m i
    go none none none (some t) p = resolve_append-Ranged content t i
    go none none none none (some p) = resolve_patch-Yields content p i
    go none none none none none = tt

joined-Yields :
    (content : Bytes) (i : ℕ) (r m : Result EditError (List ResolvedEdit))
    → Yields content r
    → Yields content m
    → Yields content (joined i r m)
joined-Yields content i (err e) m h k = tt
joined-Yields content i (ok edits) (err e) h k = tt
joined-Yields content i (ok edits) (ok more) h k = All-append (IsInRange content) edits more h k

resolve_from-Yields :
    (content : Bytes) (i : ℕ) (ops : List Operation) → Yields content (resolve_from content i ops)
unfolding resolve_from
resolve_from-Yields content i [] = tt
resolve_from-Yields content i (op ∷ ops) =
    joined-Yields content i _ _ (resolve_single-Yields content op i)
      (resolve_from-Yields content (suc i) ops)

-- Whatever the operations, replacing, inserting, removing, appending or patching, the edits that they
-- resolve to run forward and lie within the text.
pub resolve_operations-IsInRange :
    (content : Bytes) (ops : List Operation) (edits : List ResolvedEdit)
    → resolve_operations content ops ≡ ok edits
    → All (IsInRange content) edits
resolve_operations-IsInRange content ops edits h =
    subst (Yields content) h (resolve_from-Yields content 0 ops)
