-- ===== src/Resource/Resolver/Finding.antt =====
-- What `LookupRef` of resource/index.go finds.
use agentsdk.Prelude.{
  ℕ, true, List, [], ◌∷◌, ◌++◌, ◌&&◌, ◌≡◌, refl, ap, sym, ◌∙◌, subst, arith, inl, inr, Bool-cases,
  if◌then◌else◌, nat_eq,
}
use agentsdk.Prelude.Bytes.{Bytes, bytes_eq, split, join}
use agentsdk.Resource.{ResourceId, colon, id_eq, segments_eq, unsnoc, parts_match, matches_ref}
use agentsdk.Resource.Address.{bytes_eq_refl}
use agentsdk.Resource.Resolver.{
  ResourceIndex, holds, add, add_all, last_name, of_kind, matching, lookup_ref,
}

bytes_eq-eq : (s t : Bytes) → bytes_eq s t ≡ true → s ≡ t
bytes_eq-eq [] [] h = refl
bytes_eq-eq [] (y ∷ t) h = absurd (cc)
bytes_eq-eq (x ∷ s) [] h = absurd (cc)
bytes_eq-eq (x ∷ s) (y ∷ t) h =
    let e : x ≡ y = ground (arith, h) in
    let f : s ≡ t = bytes_eq-eq s t (ground (arith, h)) in ap (λ c. c ∷ s) e ∙ ap (λ r. y ∷ r) f

segments_eq-eq : (s t : List Bytes) → segments_eq s t ≡ true → s ≡ t
segments_eq-eq [] [] h = refl
segments_eq-eq [] (y ∷ t) h = absurd (cc)
segments_eq-eq (x ∷ s) [] h = absurd (cc)
segments_eq-eq (x ∷ s) (y ∷ t) h =
    let e : x ≡ y = bytes_eq-eq x y (ground (arith, h)) in
    let f : s ≡ t = segments_eq-eq s t (ground (arith, h)) in ap (λ c. c ∷ s) e ∙ ap (λ r. y ∷ r) f

id_eq-eq : (a b : ResourceId) → id_eq a b ≡ true → a ≡ b
unfolding id_eq
id_eq-eq a b h =
    let k : a.kind ≡ b.kind = bytes_eq-eq a.kind b.kind (ground (arith, h)) in
    let o : a.origin ≡ b.origin = bytes_eq-eq a.origin b.origin (ground (arith, h)) in
    let s : a.namespace ≡ b.namespace =
      segments_eq-eq a.namespace b.namespace (ground (arith, h)) in
    let n : a.name ≡ b.name = bytes_eq-eq a.name b.name (ground (arith, h)) in cc (k, o, s, n)

-- The last of the parts, or another text if there is one part only.
abbrev last_or : Bytes → List Bytes → Bytes
last_or other [] = other
last_or other (part ∷ []) = other
last_or other (part ∷ next ∷ parts) = (unsnoc next parts).1

join_first :
    (sep c : ℕ) (p : Bytes) (l : List Bytes) → join sep ((c ∷ p) ∷ l) ≡ c ∷ join sep (p ∷ l)
unfolding join
join_first sep c p [] = refl
join_first sep c p (q ∷ l) = refl

split-cons : (sep : ℕ) (s : Bytes) → (p : Bytes) × (l : List Bytes) × (split sep s ≡ p ∷ l)
unfolding split
split-cons sep [] = ([], [], refl)
split-cons sep (c ∷ s) =
    let (p, l, e) = split-cons sep s in
    elim (Bool-cases (nat_eq c sep)) [
      | inl here ↦ ([], split sep s, ground (arith, here))
      | inr other ↦ (c ∷ p, l, ground (arith, other, e))
    ]

join-split : (sep : ℕ) (s : Bytes) → join sep (split sep s) ≡ s
unfolding join split
join-split sep [] = refl
join-split sep (c ∷ s) =
    let (p, l, e) = split-cons sep s in
    let whole : join sep (p ∷ l) ≡ s = ap (join sep) (sym e) ∙ join-split sep s in
    elim (Bool-cases (nat_eq c sep)) [
      | inl here ↦
          let same : c ≡ sep = ground (arith, here) in
          rw (here, e) (ap (λ k. k ∷ join sep (p ∷ l)) (sym same) ∙ ap (λ r. c ∷ r) whole)
      | inr other ↦ rw (other, e) (join_first sep c p l ∙ ap (λ r. c ∷ r) whole)
    ]

single :
    (other s p : Bytes) (l : List Bytes)
    → join colon (p ∷ l) ≡ s
    → last_or s (p ∷ l) ≡ (unsnoc p l).1
unfolding join
single other s p [] h = sym h
single other s p (q ∷ l) h = refl

last_name-last_or : (name s : Bytes) → last_name name s ≡ last_or name (split colon s)
unfolding split
last_name-last_or name [] = refl
last_name-last_or name (c ∷ s) =
    let (p, l, e) = split-cons colon s in
    let whole : join colon (p ∷ l) ≡ s = ap (join colon) (sym e) ∙ join-split colon s in
    elim (Bool-cases (nat_eq c colon)) [
      | inl here ↦
          rw (here, e) (last_name-last_or s s ∙ (ap (last_or s) e ∙ single name s p l whole))
      | inr other ↦ rw (other, e) (last_name-last_or name s ∙ (ap (last_or name) e ∙ pushed l p))
    ]
  where
    pushed : (l : List Bytes) (p : Bytes) → last_or name (p ∷ l) ≡ last_or name ((c ∷ p) ∷ l)
    pushed [] p = refl
    pushed (q ∷ l) p = refl

-- The text that the index is read at is the name that the reference must have.
matches_ref-name :
    (id : ResourceId) (ref : Bytes)
    → matches_ref id ref ≡ true
    → bytes_eq id.name (last_name ref ref) ≡ true
unfolding matches_ref
matches_ref-name id ref h =
    let (p, l, e) = split-cons colon ref in
    let whole : join colon (p ∷ l) ≡ ref = ap (join colon) (sym e) ∙ join-split colon ref in
    let name : last_name ref ref ≡ (unsnoc p l).1 =
      last_name-last_or ref ref ∙ (ap (last_or ref) e ∙ single ref ref p l whole) in
    let k : parts_match id (p ∷ l) ≡ true = ap (parts_match id) (sym e) ∙ h in
    let same : bytes_eq (unsnoc p l).1 id.name ≡ true = ground (arith, k) in
    let q : id.name ≡ last_name ref ref = sym (name ∙ bytes_eq-eq (unsnoc p l).1 id.name same) in
    subst (λ n. bytes_eq id.name n ≡ true) q (bytes_eq_refl id.name)

holds-matching :
    (kind ref : Bytes) (id : ResourceId) (l : List ResourceId)
    → holds id (matching kind ref l) ≡ (holds id l && (of_kind kind id && matches_ref id ref))
unfolding matching
holds-matching kind ref id [] = refl
holds-matching kind ref id (e ∷ l) =
    let rest = holds-matching kind ref id l in
    elim (Bool-cases (id_eq e id)) [
      | inl here ↦
          let same : e ≡ id = id_eq-eq e id here in
          let k : of_kind kind e ≡ of_kind kind id = ap (of_kind kind) same in
          let m : matches_ref e ref ≡ matches_ref id ref = ap (λ x. matches_ref x ref) same in
          ground (arith, here, k, m, rest)
      | inr other ↦ ground (arith, other, rest)
    ]

holds-append :
    (id x : ResourceId) (l : List ResourceId)
    → holds id (l ++ x ∷ []) ≡ (if id_eq x id then true else holds id l)
holds-append id x [] = refl
holds-append id x (e ∷ l) = ground (arith, holds-append id x l)

id_eq_refl : (a : ResourceId) → id_eq a a ≡ true
unfolding id_eq
id_eq_refl a =
    ground
      (arith, bytes_eq_refl a.kind, bytes_eq_refl a.origin, same a.namespace, bytes_eq_refl a.name)
  where
    same : (l : List Bytes) → segments_eq l l ≡ true
    same [] = refl
    same (x ∷ l) = ground (arith, bytes_eq_refl x, same l)

holds-add :
    (id x : ResourceId) (index : ResourceIndex) (name : Bytes)
    → holds id (add x index name)
      ≡ (if bytes_eq x.name name && id_eq x id then true else holds id (index name))
unfolding add
holds-add id x index name = elim (Bool-cases (id_eq x id)) [
  | inl here ↦
      let same : x ≡ id = id_eq-eq x id here in
      let k : holds x (index name) ≡ holds id (index name) = ap (λ y. holds y (index name)) same in
      ground (arith, here, k, holds-append id x (index name))
  | inr other ↦ ground (arith, other, holds-append id x (index name))
]

holds-add_all :
    (id : ResourceId) (ids : List ResourceId) (index : ResourceIndex)
    → holds id (add_all index ids id.name)
      ≡ (if holds id ids then true else holds id (index id.name))
unfolding add_all
holds-add_all id [] index = refl
holds-add_all id (x ∷ ids) index = elim (Bool-cases (id_eq x id)) [
  | inl here ↦
      let same : x ≡ id = id_eq-eq x id here in
      let k : bytes_eq x.name id.name ≡ true =
        subst (λ (y : ResourceId). bytes_eq y.name id.name ≡ true) (sym same)
          (bytes_eq_refl id.name) in
      ground (arith, here, k, holds-add_all id ids (add x index), holds-add id x index id.name)
  | inr other ↦
      ground (arith, other, holds-add_all id ids (add x index), holds-add id x index id.name)
]

abbrev pub no_ids : ResourceIndex
no_ids name = []

-- The lookup of a reference in an index finds a resource exactly when it was added to the index, it
-- is of the kind asked for, and it matches the reference: reading the index at the text behind the
-- last colon loses none.
pub lookup_ref-holds :
    (kind ref : Bytes) (ids : List ResourceId) (id : ResourceId)
    → holds id (lookup_ref kind ref (add_all no_ids ids))
      ≡ (holds id ids && (of_kind kind id && matches_ref id ref))
unfolding lookup_ref
lookup_ref-holds kind ref ids id =
    let index = add_all no_ids ids in
    let found = holds-matching kind ref id (index (last_name ref ref)) in
    elim (Bool-cases (matches_ref id ref)) [
      | inr away ↦ ground (arith, found, away)
      | inl fits ↦
          let name : id.name ≡ last_name ref ref =
            bytes_eq-eq id.name (last_name ref ref) (matches_ref-name id ref fits) in
          let there : holds id (index id.name) ≡ holds id (index (last_name ref ref)) =
            ap (λ n. holds id (index n)) name in
          ground (arith, found, there, holds-add_all id ids no_ids)
    ]
