-- ===== src/Thread/Memory/Listing.antt =====
-- `List` of thread/memorystore.go: which threads it shows, and in which order.
use agentsdk.Prelude.{
  ℕ, zero, suc, ◌≤◌, String, Bool, false, not, List, [], ◌∷◌, ◌&&◌, ltb, ◌≡◌, refl, ap, arith, inl,
  inr, Bool-cases, All, All-map, length, take, nat_eq, if◌then◌else◌, subst, map,
}
use mathlib.Core.Bool.{Bool-discrete}
use mathlib.Core.List.{Permᴰ, filter}
use mathlib.Core.List.Permᴰ
use agentsdk.Prelude.Dict.{Dict}
use agentsdk.Prelude.Result.{ok}
use agentsdk.Thread.{Stored}
use agentsdk.Thread.Memory.{
  MemoryThread, Store, snapshot, listed, insert_by_time, sort_by_time, list,
}

-- No thread was updated after one that stands before it.
abbrev pub IsNewestFirst : List Stored → Type 0
IsNewestFirst [] = Unit
IsNewestFirst (a ∷ l) = All (λ b. b.updated_at ≤ a.updated_at) l × IsNewestFirst l

All-insert_by_time :
    (P : Stored → Type 0) (a : Stored) (l : List Stored)
    → P a
    → All P l
    → All P (insert_by_time a l)
unfolding insert_by_time
All-insert_by_time P a [] h k = (h, tt)
All-insert_by_time P a (b ∷ l) h k = elim (Bool-cases (ltb a.updated_at b.updated_at)) [
  | inl later ↦ rw later (k.0, All-insert_by_time P a l h k.1)
  | inr first ↦ rw first (h, k)
]

insert_by_time-IsNewestFirst :
    (a : Stored) (l : List Stored) → IsNewestFirst l → IsNewestFirst (insert_by_time a l)
unfolding insert_by_time
insert_by_time-IsNewestFirst a [] h = (tt, tt)
insert_by_time-IsNewestFirst a (b ∷ l) h = elim (Bool-cases (ltb a.updated_at b.updated_at)) [
  | inl later ↦ rw later (
    All-insert_by_time (λ (x : Stored). x.updated_at ≤ b.updated_at) a l (ground (arith, later))
        h.0,
    insert_by_time-IsNewestFirst a l h.1,
  )
  | inr first ↦
      let k : b.updated_at ≤ a.updated_at = ground (arith, first) in
      rw first ((k, All-map (λ x (m : x.updated_at ≤ b.updated_at). omega (arith, m, k)) l h.0), h)
]

sort_by_time-IsNewestFirst : (l : List Stored) → IsNewestFirst (sort_by_time l)
unfolding sort_by_time
sort_by_time-IsNewestFirst [] = tt
sort_by_time-IsNewestFirst (a ∷ l) =
    insert_by_time-IsNewestFirst a (sort_by_time l) (sort_by_time-IsNewestFirst l)

take_all : (n : ℕ) (l : List Stored) → length l ≤ n → take n l ≡ l
take_all zero [] h = refl
take_all zero (a ∷ l) h = absurd (omega (arith, h))
take_all (suc n) [] h = refl
take_all (suc n) (a ∷ l) h = ap (λ t. a ∷ t) (take_all n l (omega (arith, h)))

insert_by_time-Perm : (a : Stored) (l : List Stored) → Permᴰ (insert_by_time a l) (a ∷ l)
unfolding insert_by_time
insert_by_time-Perm a [] = Permᴰ.refl (a ∷ [])
insert_by_time-Perm a (b ∷ l) = elim (Bool-cases (ltb a.updated_at b.updated_at)) [
  | inr first ↦ rw first (Permᴰ.refl (a ∷ b ∷ l))
  | inl later ↦
      rw later (Permᴰ.trans (Permᴰ.cons refl (insert_by_time-Perm a l)) (Permᴰ.swap refl refl))
]

sort_by_time-Perm : (l : List Stored) → Permᴰ (sort_by_time l) l
unfolding sort_by_time
sort_by_time-Perm [] = Permᴰ.nil
sort_by_time-Perm (a ∷ l) =
    Permᴰ.trans (insert_by_time-Perm a (sort_by_time l)) (Permᴰ.cons refl (sort_by_time-Perm l))

-- The archived threads are listed on request only.
abbrev pub IsShown : Bool → String × MemoryThread → Type 0
IsShown include_archived (id, t) = (t.archived && not include_archived) ≡ false

abbrev pub dec_shown :
    (include_archived : Bool) (x : String × MemoryThread) → Dec (IsShown include_archived x)
dec_shown include_archived (id, t) = Bool-discrete (t.archived && not include_archived) false

abbrev pub shown : Bool → Dict MemoryThread → List Stored
shown include_archived d = map (λ x. snapshot x.1) (filter (dec_shown include_archived) d)

listed-shown :
    (include_archived : Bool) (d : Dict MemoryThread)
    → listed include_archived d ≡ shown include_archived d
unfolding listed
listed-shown include_archived [] = refl
listed-shown include_archived ((id, t) ∷ d) =
    elim (Bool-cases (t.archived && not include_archived)) [
      | inl hidden ↦ rw hidden (listed-shown include_archived d)
      | inr there ↦ rw there (ap (λ l. snapshot t ∷ l) (listed-shown include_archived d))
    ]

-- `List` has one entry for each thread of the store that is not archived, or for each thread where
-- archived ones are included, in the order of their last updates, the newest first; a limit above 0
-- keeps the first so many of these.
pub list_lem :
    (include_archived : Bool) (limit : ℕ) (s : Store)
    → (all : List Stored) × Permᴰ all (shown include_archived s.threads)
      × IsNewestFirst all
      × (list false include_archived limit s ≡ ok (if nat_eq limit 0 then all else take limit all))
unfolding list
list_lem include_archived limit s =
    let l = sort_by_time (listed include_archived s.threads) in
    (
      l,
      subst (Permᴰ l) (listed-shown include_archived s.threads)
          (sort_by_time-Perm (listed include_archived s.threads)),
      sort_by_time-IsNewestFirst (listed include_archived s.threads),
      ground (arith, take_all limit l),
    )
