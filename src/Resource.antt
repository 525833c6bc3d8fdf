-- ===== src/Resource.antt =====
-- resource/identity.go: identities of resources, their addresses and the references to them. A
-- reference is a list of bytes, since its parts are cut at bytes.
pub mod Address
pub mod Resolver
mod Examples
use agentsdk.Prelude.{
  ℕ, zero, suc, ◌-◌, Bool, true, false, Option, none, some, List, [], ◌∷◌, ◌++◌, ◌&&◌, leb, ltb,
  if◌then◌else◌, length, drop, reverse, nat_eq,
}
use agentsdk.Prelude.Bytes.{Bytes, bytes_eq, split, join}

pub record ResourceId : Type 0 where
  pub kind : Bytes
  pub origin : Bytes
  pub namespace : List Bytes
  pub name : Bytes

abbrev pub colon : ℕ
colon = b':'

abbrev pub slash : ℕ
slash = b'/'

abbrev pub is_empty : Bytes → Bool
is_empty [] = true
is_empty (_ ∷ _) = false

unfoldable pub address : ResourceId → Bytes
unfolding join
address r =
    let ns = join slash r.namespace in
    if is_empty ns
    then r.origin ++ (colon ∷ r.name)
    else r.origin ++ (colon ∷ (ns ++ (colon ∷ r.name)))

-- `Namespace.Equal`
abbrev pub segments_eq : List Bytes → List Bytes → Bool
segments_eq [] [] = true
segments_eq (s ∷ l) (t ∷ r) = bytes_eq s t && segments_eq l r
segments_eq _ _ = false

unfoldable pub id_eq : ResourceId → ResourceId → Bool
id_eq a b =
    bytes_eq a.kind b.kind
    && (bytes_eq a.origin b.origin
        && (segments_eq a.namespace b.namespace && bytes_eq a.name b.name))

-- `suffixSliceMatch` and `Namespace.SuffixMatch`
unfoldable pub suffix_match : List Bytes → List Bytes → Bool
suffix_match full suffix =
    if ltb (length full) (length suffix)
    then false
    else segments_eq (drop (length full - length suffix) full) suffix

-- The last part, and the parts before it.
abbrev pub unsnoc : Bytes → List Bytes → List Bytes × Bytes
unsnoc part [] = ([], part)
unsnoc part (next ∷ parts) = let (before, last) = unsnoc next parts in (part ∷ before, last)

abbrev pub qualifies : ResourceId → List Bytes → Bool
qualifies r [] = true
qualifies r (first ∷ rest) =
    if suffix_match (r.origin ∷ r.namespace) (first ∷ rest)
    then true
    else if bytes_eq first r.origin
    then (elim rest [ [] ↦ true | s ∷ l ↦ suffix_match r.namespace (s ∷ l) ])
    else false

abbrev pub parts_match : ResourceId → List Bytes → Bool
parts_match r [] = false
parts_match r (part ∷ parts) =
    let (qualifier, last) = unsnoc part parts in
    if bytes_eq last r.name then qualifies r qualifier else false

unfoldable pub matches_ref : ResourceId → Bytes → Bool
unfolding split suffix_match
matches_ref r ref = parts_match r (split colon ref)
