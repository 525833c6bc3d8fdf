-- ===== src/Resource/Address.antt =====
-- The canonical address of a resource as a reference to it, in resource/identity.go.
use agentsdk.Prelude.{
  ℕ, zero, suc, ◌+◌, ◌-◌, ◌≤◌, ◌<◌, true, false, List, [], ◌∷◌, ◌++◌, ◌≡◌, refl, ap, sym, ◌∙◌,
  subst, arith, inl, inr, Bool-cases, leb, nat_eq, if◌then◌else◌, length, length-append, drop, All,
}
use agentsdk.Prelude.Bytes.{Bytes, bytes_eq, split, join}
use agentsdk.Resource.{
  ResourceId, colon, slash, is_empty, address, segments_eq, suffix_match, qualifies, parts_match,
  matches_ref,
}

-- The byte does not stand in the text.
abbrev pub IsFree : ℕ → Bytes → Type 0
IsFree b s = All (λ c. nat_eq c b ≡ false) s

split-part :
    (sep : ℕ) (part rest : Bytes)
    → IsFree sep part
    → split sep (part ++ (sep ∷ rest)) ≡ part ∷ split sep rest
unfolding split
split-part sep [] rest h = ground arith
split-part sep (c ∷ part) rest h = let e = split-part sep part rest h.1 in ground (arith, h.0, e)

split-last : (sep : ℕ) (part : Bytes) → IsFree sep part → split sep part ≡ part ∷ []
unfolding split
split-last sep [] h = refl
split-last sep (c ∷ part) h = ground (arith, h.0, split-last sep part h.1)

pub bytes_eq_refl : (s : Bytes) → bytes_eq s s ≡ true
bytes_eq_refl [] = refl
bytes_eq_refl (c ∷ s) = ground (arith, bytes_eq_refl s)

bytes_eq-length : (s t : Bytes) → bytes_eq s t ≡ true → length s ≡ length t
bytes_eq-length [] [] h = refl
bytes_eq-length [] (y ∷ t) h = absurd (cc)
bytes_eq-length (x ∷ s) [] h = absurd (cc)
bytes_eq-length (x ∷ s) (y ∷ t) h = ap suc (bytes_eq-length s t (ground (arith, h)))

bytes_eq-longer : (s t : Bytes) → length s < length t → bytes_eq s t ≡ false
bytes_eq-longer s t h = elim (Bool-cases (bytes_eq s t)) [
  | inl same ↦ absurd (omega (arith, h, bytes_eq-length s t same))
  | inr other ↦ other
]

All-drop : (P : Bytes → Type 0) (n : ℕ) (l : List Bytes) → All P l → All P (drop n l)
All-drop P zero l h = h
All-drop P (suc n) [] h = tt
All-drop P (suc n) (x ∷ l) h = All-drop P n l h.1

abbrev IsShorter : Bytes → Bytes → Type 0
IsShorter j z = length z < length j

shorter-one : (j : Bytes) (m : List Bytes) → All (IsShorter j) m → segments_eq m (j ∷ []) ≡ false
shorter-one j [] h = refl
shorter-one j (x ∷ m) h = ground (arith, bytes_eq-longer x j h.0)

shorter-two :
    (a j : Bytes) (m : List Bytes) → All (IsShorter j) m → segments_eq m (a ∷ j ∷ []) ≡ false
shorter-two a j [] h = refl
shorter-two a j (x ∷ m) h = ground (arith, shorter-one j m h.1)

All-IsShorter :
    (j k : Bytes) (l : List Bytes) → length j ≤ length k → All (IsShorter j) l → All (IsShorter k) l
All-IsShorter j k [] n h = tt
All-IsShorter j k (z ∷ l) n h = (omega (arith, n, h.0), All-IsShorter j k l n h.1)

-- The segments of a namespace are shorter than the namespace with a byte more.
join-IsShorter : (s : Bytes) (l : List Bytes) → All (IsShorter (0 ∷ join slash (s ∷ l))) (s ∷ l)
unfolding join
join-IsShorter s [] = (omega arith, tt)
join-IsShorter s (t ∷ l) =
    let n : length (s ++ (slash ∷ join slash (t ∷ l)))
        ≡ length s + suc (length (join slash (t ∷ l))) =
      length-append s (slash ∷ join slash (t ∷ l)) in
    (
      omega (arith, n),
      All-IsShorter (0 ∷ join slash (t ∷ l)) (0 ∷ join slash (s ∷ t ∷ l)) (t ∷ l) (omega (arith, n))
          (join-IsShorter t l),
    )

joined-longer :
    (s t : Bytes) (l : List Bytes) → All (IsShorter (join slash (s ∷ t ∷ l))) (s ∷ t ∷ l)
unfolding join
joined-longer s t l =
    let n : length (s ++ (slash ∷ join slash (t ∷ l)))
        ≡ length s + suc (length (join slash (t ∷ l))) =
      length-append s (slash ∷ join slash (t ∷ l)) in
    (
      omega (arith, n),
      All-IsShorter (0 ∷ join slash (t ∷ l)) (join slash (s ∷ t ∷ l)) (t ∷ l) (omega (arith, n))
          (join-IsShorter t l),
    )

append-IsFree : (b : ℕ) (s t : Bytes) → IsFree b s → IsFree b t → IsFree b (s ++ t)
append-IsFree b [] t h k = k
append-IsFree b (c ∷ s) t h k = (h.0, append-IsFree b s t h.1 k)

join-IsFree : (l : List Bytes) → All (IsFree colon) l → IsFree colon (join slash l)
unfolding join
join-IsFree [] h = tt
join-IsFree (s ∷ []) h = h.0
join-IsFree (s ∷ t ∷ l) h =
    append-IsFree colon s (slash ∷ join slash (t ∷ l)) h.0 (refl, join-IsFree (t ∷ l) h.1)

append-is_empty : (s t : Bytes) (c : ℕ) → is_empty (s ++ (c ∷ t)) ≡ false
append-is_empty [] t c = refl
append-is_empty (x ∷ s) t c = refl

-- The parts of an id: no colon stands in them, and no segment of the namespace is empty.
pub record IsClean (r : ResourceId) : Type 0 where
  pub origin_free : IsFree colon r.origin
  pub namespace_free : All (IsFree colon) r.namespace
  pub namespace_filled : All (λ s. is_empty s ≡ false) r.namespace
  pub name_free : IsFree colon r.name

split-two :
    (a b : Bytes) → IsFree colon a → IsFree colon b → split colon (a ++ (colon ∷ b)) ≡ a ∷ b ∷ []
split-two a b h k = split-part colon a b h ∙ ap (λ l. a ∷ l) (split-last colon b k)

split-three :
    (a b c : Bytes)
    → IsFree colon a
    → IsFree colon b
    → IsFree colon c
    → split colon (a ++ (colon ∷ (b ++ (colon ∷ c)))) ≡ a ∷ b ∷ c ∷ []
split-three a b c h k m =
    split-part colon a (b ++ (colon ∷ c)) h ∙ ap (λ l. a ∷ l) (split-two b c k m)

long-qualifies :
    (r : ResourceId) (s t : Bytes) (l : List Bytes)
    → r.namespace ≡ s ∷ t ∷ l
    → qualifies r (r.origin ∷ join slash (s ∷ t ∷ l) ∷ []) ≡ false
unfolding suffix_match
long-qualifies r s t l e =
    let j = join slash (s ∷ t ∷ l) in
    let longer = joined-longer s t l in
    let one : segments_eq (drop (length (s ∷ t ∷ l) - 1) (s ∷ t ∷ l)) (j ∷ []) ≡ false =
      shorter-one j (drop (length (s ∷ t ∷ l) - 1) (s ∷ t ∷ l))
        (All-drop (IsShorter j) (length (s ∷ t ∷ l) - 1) (s ∷ t ∷ l) longer) in
    let n : length (r.origin ∷ s ∷ t ∷ l) - 2 ≡ suc (length l) = omega arith in
    let two : segments_eq (drop (length (r.origin ∷ s ∷ t ∷ l) - 2) (r.origin ∷ s ∷ t ∷ l))
          (r.origin ∷ j ∷ [])
        ≡ false =
      ap (λ k. segments_eq (drop k (r.origin ∷ s ∷ t ∷ l)) (r.origin ∷ j ∷ [])) n
      ∙ shorter-two r.origin j (drop (length l) (s ∷ t ∷ l))
          (All-drop (IsShorter j) (length l) (s ∷ t ∷ l) longer) in
    let p : suffix_match (r.origin ∷ s ∷ t ∷ l) (r.origin ∷ j ∷ []) ≡ false = ground (arith, two) in
    let q : suffix_match (s ∷ t ∷ l) (j ∷ []) ≡ false = ground (arith, one) in
    subst
      (λ ns.
        (if suffix_match (r.origin ∷ ns) (r.origin ∷ j ∷ [])
          then true
          else if bytes_eq r.origin r.origin
          then suffix_match ns (j ∷ [])
          else false)
        ≡ false)
      (sym e) (ground (arith, p, q))

short-qualifies : (r : ResourceId) → qualifies r (r.origin ∷ r.namespace) ≡ true
unfolding suffix_match
short-qualifies r =
    let n : length r.namespace - length r.namespace ≡ 0 = omega arith in
    let m : suc (length r.namespace) - suc (length r.namespace) ≡ 0 = omega arith in
    let whole : segments_eq (r.origin ∷ r.namespace) (r.origin ∷ r.namespace) ≡ true =
      segments_eq_refl (r.origin ∷ r.namespace) in
    let p : suffix_match (r.origin ∷ r.namespace) (r.origin ∷ r.namespace) ≡ true = ground (
      arith,
      ap (λ k. segments_eq (drop k (r.origin ∷ r.namespace)) (r.origin ∷ r.namespace)) m ∙ whole,
    ) in
    rw p refl
  where
    segments_eq_refl : (l : List Bytes) → segments_eq l l ≡ true
    segments_eq_refl [] = refl
    segments_eq_refl (x ∷ l) = ground (arith, bytes_eq_refl x, segments_eq_refl l)

matches-two :
    (r : ResourceId) (ref q : Bytes)
    → split colon ref ≡ q ∷ r.name ∷ []
    → matches_ref r ref ≡ qualifies r (q ∷ [])
unfolding matches_ref
matches-two r ref q h = ap (parts_match r) h ∙ ground (arith, bytes_eq_refl r.name)

matches-three :
    (r : ResourceId) (ref p q : Bytes)
    → split colon ref ≡ p ∷ q ∷ r.name ∷ []
    → matches_ref r ref ≡ qualifies r (p ∷ q ∷ [])
unfolding matches_ref
matches-three r ref p q h = ap (parts_match r) h ∙ ground (arith, bytes_eq_refl r.name)

address-cases :
    (kind origin name : Bytes) (ns : List Bytes)
    → let r : ResourceId = record { kind = kind; origin = origin; namespace = ns; name = name } in
      IsClean r → matches_ref r (address r) ≡ leb (length ns) 1
unfolding address join
address-cases kind origin name [] h =
    let r : ResourceId = record { kind = kind; origin = origin; namespace = []; name = name } in
    matches-two r (address r) origin (split-two origin name h.origin_free h.name_free)
    ∙ short-qualifies r
address-cases kind origin name (s ∷ []) h =
    let r : ResourceId = record { kind = kind; origin = origin; namespace = s ∷ []; name = name } in
    let filled : address r ≡ origin ++ (colon ∷ (s ++ (colon ∷ name))) =
      ground (arith, h.namespace_filled.0) in
    matches-three r (address r) origin s (
      ap (split colon) filled
      ∙ split-three origin s name h.origin_free h.namespace_free.0 h.name_free)
    ∙ short-qualifies r
address-cases kind origin name (s ∷ t ∷ l) h =
    let r : ResourceId = record {
      kind = kind;
      origin = origin;
      namespace = s ∷ t ∷ l;
      name = name;
    } in
    let j = join slash (s ∷ t ∷ l) in
    let filled : address r ≡ origin ++ (colon ∷ (j ++ (colon ∷ name))) =
      ground (arith, append-is_empty s (join slash (t ∷ l)) slash) in
    let n : leb (length (s ∷ t ∷ l)) 1 ≡ false = ground arith in
    matches-three r (address r) origin j (
      ap (split colon) filled
      ∙ split-three origin j name h.origin_free (join-IsFree (s ∷ t ∷ l) h.namespace_free)
          h.name_free)
    ∙ (long-qualifies r s t l refl ∙ sym n)

-- The address of a resource whose parts hold no colon and whose namespace holds no empty segment is
-- a reference to that resource exactly when its namespace has at most one segment: a namespace of
-- two segments or more is joined by slashes in the address, and the resource does not match its own
-- address.
pub matches_ref-address :
    (r : ResourceId) → IsClean r → matches_ref r (address r) ≡ leb (length r.namespace) 1
matches_ref-address r h = address-cases r.kind r.origin r.name r.namespace h
