-- ===== src/Edit/Merge/Order.antt =====
-- The edits in the order of the sort, and what it means that none of them conflict.
use agentsdk.Prelude.{
  ℕ, ◌≤◌, ◌<◌, true, false, none, List, [], ◌∷◌, ◌≡◌, ◌≢◌, refl, subst, ◌⊎◌, inl, inr, arith,
  Bool-cases, Option-cases, All, All-map, length, ltb,
}
use agentsdk.Prelude.Bytes.{Bytes}
use agentsdk.Edit.{ResolvedEdit}
use agentsdk.Edit.Merge.{
  edit_less, insert_edit, sort_edits, edits_conflict, conflict_with, first_conflict,
}

-- The bytes from the start to the end are bytes of the text.
pub record IsInRange (content : Bytes) (e : ResolvedEdit) : Type 0 where
  pub forward : e.start_byte ≤ e.end_byte
  pub inside : e.end_byte ≤ length content

-- Before: an earlier start, and of one start the edits without width first.
pub record IsAhead (a b : ResolvedEdit) : Type 0 where
  pub start_first : a.start_byte ≤ b.start_byte
  pub empty_first :
      a.start_byte ≡ b.start_byte → a.start_byte ≢ a.end_byte → b.start_byte ≢ b.end_byte

IsAhead-of_less : (a b : ResolvedEdit) → edit_less a b ≡ true → IsAhead a b
unfolding edit_less
IsAhead-of_less a b h = record { start_first = ground arith; empty_first = λ k m. ground arith }

IsAhead-of_not_less : (a b : ResolvedEdit) → edit_less b a ≡ false → IsAhead a b
unfolding edit_less
IsAhead-of_not_less a b h = record { start_first = ground arith; empty_first = λ k m. ground arith }

IsAhead-trans : (a b c : ResolvedEdit) → IsAhead a b → IsAhead b c → IsAhead a c
IsAhead-trans a b c h k = record {
  start_first = omega (arith, h.start_first, k.start_first);
  empty_first = λ e m.
      let ab : a.start_byte ≡ b.start_byte = omega (arith, h.start_first, k.start_first, e) in
      let bc : b.start_byte ≡ c.start_byte = omega (arith, ab, e) in
      k.empty_first bc (h.empty_first ab m);
}

abbrev pub IsInOrder : List ResolvedEdit → Type 0
IsInOrder [] = Unit
IsInOrder (a ∷ l) = All (IsAhead a) l × IsInOrder l

pub All-insert_edit :
    (P : ResolvedEdit → Type 0) (a : ResolvedEdit) (l : List ResolvedEdit)
    → P a
    → All P l
    → All P (insert_edit a l)
unfolding insert_edit
All-insert_edit P a [] h k = (h, tt)
All-insert_edit P a (b ∷ l) h k = elim (Bool-cases (edit_less b a)) [
  | inl later ↦ rw later (k.0, All-insert_edit P a l h k.1)
  | inr first ↦ rw first (h, k)
]

pub All-sort_edits :
    (P : ResolvedEdit → Type 0) (l : List ResolvedEdit) → All P l → All P (sort_edits l)
unfolding sort_edits
All-sort_edits P [] h = tt
All-sort_edits P (a ∷ l) h = All-insert_edit P a (sort_edits l) h.0 (All-sort_edits P l h.1)

insert_edit-IsInOrder :
    (a : ResolvedEdit) (l : List ResolvedEdit) → IsInOrder l → IsInOrder (insert_edit a l)
unfolding insert_edit
insert_edit-IsInOrder a [] h = (tt, tt)
insert_edit-IsInOrder a (b ∷ l) h = elim (Bool-cases (edit_less b a)) [
  | inl later ↦ rw later (
    All-insert_edit (IsAhead b) a l (IsAhead-of_less b a later) h.0,
    insert_edit-IsInOrder a l h.1,
  )
  | inr first ↦
      let k = IsAhead-of_not_less a b first in
      rw first ((k, All-map {P = IsAhead b} (λ c m. IsAhead-trans a b c k m) l h.0), h)
]

pub sort_edits-IsInOrder : (l : List ResolvedEdit) → IsInOrder (sort_edits l)
unfolding sort_edits
sort_edits-IsInOrder [] = tt
sort_edits-IsInOrder (a ∷ l) = insert_edit-IsInOrder a (sort_edits l) (sort_edits-IsInOrder l)

-- From the cursor on, each edit starts where the one before ended, or later.
abbrev pub IsApart : Bytes → ℕ → List ResolvedEdit → Type 0
IsApart content cursor [] = cursor ≤ length content
IsApart content cursor (e ∷ edits) =
    (cursor ≤ e.start_byte) × IsInRange content e × IsApart content e.end_byte edits

no_conflict-le :
    (a b : ResolvedEdit)
    → a.start_byte ≤ a.end_byte
    → b.start_byte ≤ b.end_byte
    → IsAhead a b
    → edits_conflict a b ≡ false
    → a.end_byte ≤ b.start_byte
unfolding edits_conflict
no_conflict-le a b ha hb h k =
    let s = h.start_first in
    let z : a.start_byte ≡ b.start_byte → a.start_byte ≢ a.end_byte → b.start_byte ≢ b.end_byte =
      h.empty_first in
    ground arith

conflict_with-head :
    (a b : ResolvedEdit) (l : List ResolvedEdit)
    → conflict_with a (b ∷ l) ≡ none
    → (a.end_byte < b.start_byte) ⊎ (edits_conflict a b ≡ false)
unfolding conflict_with
conflict_with-head a b l h = elim (Bool-cases (ltb a.end_byte b.start_byte)) [
  | inl past ↦ inl (ground (arith, past))
  | inr near ↦ elim (Bool-cases (edits_conflict a b)) [
    | inl bad ↦ absurd (ground (arith, near, bad, h))
    | inr good ↦ inr good
  ]
]

first_conflict-cons :
    (a : ResolvedEdit) (l : List ResolvedEdit)
    → first_conflict (a ∷ l) ≡ none
    → (conflict_with a l ≡ none) × (first_conflict l ≡ none)
unfolding first_conflict
first_conflict-cons a l h = elim (Option-cases (conflict_with a l)) [
  | inl good ↦ (good, ground (arith, h, good))
  | inr (e, bad) ↦ absurd (ground (arith, h, bad))
]

pub first_conflict-IsApart :
    (content : Bytes) (cursor : ℕ) (l : List ResolvedEdit)
    → IsInOrder l
    → All (IsInRange content) l
    → first_conflict l ≡ none
    → cursor ≤ length content
    → ((e : ResolvedEdit) (rest : List ResolvedEdit) → l ≡ e ∷ rest → cursor ≤ e.start_byte)
    → IsApart content cursor l
first_conflict-IsApart content cursor [] o r h k f = k
first_conflict-IsApart content cursor (a ∷ l) o r h k f =
    let (none_here, none_after) = first_conflict-cons a l h in
    (
      f a l refl,
      r.0,
      first_conflict-IsApart content a.end_byte l o.1 r.1 none_after r.0.inside
          (next a l o.0 r.0 r.1 none_here),
    )
  where
    next :
        (a : ResolvedEdit) (l : List ResolvedEdit)
        → All (IsAhead a) l
        → IsInRange content a
        → All (IsInRange content) l
        → conflict_with a l ≡ none
        → (e : ResolvedEdit) (rest : List ResolvedEdit) → l ≡ e ∷ rest
        → a.end_byte ≤ e.start_byte
    next a [] o ra r h e rest q = absurd (cc)
    next a (b ∷ l) o ra r h e rest q = elim (conflict_with-head a b l h) [
      | inl past ↦
          let k : b ≡ e = cc in
          subst (λ (x : ResolvedEdit). a.end_byte ≤ x.start_byte) k (omega (arith, past))
      | inr good ↦
          let k : b ≡ e = cc in
          subst (λ (x : ResolvedEdit). a.end_byte ≤ x.start_byte) k
            (no_conflict-le a b ra.forward r.0.forward o.0 good)
    ]
