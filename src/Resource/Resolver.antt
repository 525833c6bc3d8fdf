-- ===== src/Resource/Resolver.antt =====
-- resource/index.go and resource/resolver.go: the index of resources, the policies and the resolver.
pub mod Finding
pub mod Precedence
use agentsdk.Prelude.{
  ℕ, zero, suc, ◌+◌, Bool, true, false, Option, none, some, List, [], ◌∷◌, ◌++◌, ◌&&◌, ◌||◌, not,
  ltb, nat_eq, if◌then◌else◌, length,
}
use agentsdk.Prelude.Bytes.{Bytes, bytes_eq, codes}
use agentsdk.Prelude.Result.{Result, ok, err, ◌>>=◌}
use agentsdk.Resource.{ResourceId, address, colon, id_eq, is_empty, matches_ref}

-- `byName`: the ids of each name.
abbrev pub ResourceIndex : Type 0
ResourceIndex = Bytes → List ResourceId

abbrev pub holds : ResourceId → List ResourceId → Bool
holds id [] = false
holds id (e ∷ l) = if id_eq e id then true else holds id l

unfoldable pub add : ResourceId → ResourceIndex → ResourceIndex
unfolding id_eq
add id index name =
    if bytes_eq id.name name
    then (if holds id (index name) then index name else index name ++ id ∷ [])
    else index name

-- The name behind the last colon.
abbrev pub last_name : Bytes → Bytes → Bytes
last_name name [] = name
last_name name (c ∷ ref) = if nat_eq c colon then last_name ref ref else last_name name ref

abbrev pub of_kind : Bytes → ResourceId → Bool
of_kind kind id = is_empty kind || bytes_eq id.kind kind

unfoldable pub matching : Bytes → Bytes → List ResourceId → List ResourceId
unfolding matches_ref
matching kind ref [] = []
matching kind ref (id ∷ l) =
    let rest = matching kind ref l in
    if of_kind kind id && matches_ref id ref then id ∷ rest else rest

unfoldable pub lookup_ref : Bytes → Bytes → ResourceIndex → List ResourceId
unfolding matching
lookup_ref kind ref index = matching kind ref (index (last_name ref ref))

pub data ResolveError : Type 0 where
  ambiguous not_found : ResolveError

-- The position of an origin in the order, the last one it stands at; behind all if it has none.
abbrev pub rank_from : ℕ → ℕ → List Bytes → Bytes → ℕ
rank_from i best [] origin = best
rank_from i best (o ∷ order) origin =
    rank_from (suc i) (if bytes_eq o origin then i else best) order origin

abbrev pub rank : List Bytes → Bytes → ℕ
rank order origin = rank_from 0 (length order) order origin

-- The loop of the precedence policy: the best candidate so far, its rank, and whether it is tied.
abbrev pub best_from :
    List Bytes → Option ResourceId → ℕ → Bool → List ResourceId → Result ResolveError ResourceId
best_from order none best_rank tied [] = err ambiguous
best_from order (some c) best_rank true [] = err ambiguous
best_from order (some c) best_rank false [] = ok c
best_from order best best_rank tied (c ∷ l) =
    let r = rank order c.origin in
    if ltb r best_rank
    then best_from order (some c) r false l
    else best_from order best best_rank (tied || nat_eq r best_rank) l

abbrev pub default_precedence_order : List Bytes
default_precedence_order = codes "explicit" ∷ codes "local" ∷ codes "user" ∷ codes "embedded" ∷ []

abbrev pub or_default : List Bytes → List Bytes
or_default [] = default_precedence_order
or_default (o ∷ order) = o ∷ order

unfoldable pub precedence_policy : List Bytes → List ResourceId → Result ResolveError ResourceId
precedence_policy order candidates =
    best_from (or_default order) none (length (or_default order) + 1) false candidates

abbrev pub error_policy : List ResourceId → Result ResolveError ResourceId
error_policy candidates = err ambiguous

-- `Resolver`, with its policy as a function of the candidates; maps are functions.
pub record Resolver : Type 0 where
  pub index : ResourceIndex
  pub policy : List ResourceId → Result ResolveError ResourceId
  pub aliases : Bytes → Option Bytes
  pub resolved : Bytes → Option Bytes

abbrev pub cache_resolution : Bytes → Bytes → Resolver → Resolver
cache_resolution key text r = record r {
  resolved = λ k. if bytes_eq key k then some text else r.resolved k;
}

abbrev pub cached : Bytes → Resolver → ResourceId → Resolver × Result ResolveError ResourceId
cached key r id = (cache_resolution key (address id) r, ok id)

abbrev pub choose : Bytes → Resolver → List ResourceId → Resolver × Result ResolveError ResourceId
choose key r [] = (r, err not_found)
choose key r (id ∷ []) = cached key r id
choose key r (a ∷ b ∷ l) = elim (r.policy (a ∷ b ∷ l)) [
  | err e ↦ (r, err e)
  | ok id ↦ cached key r id
]

abbrev pub rewritten : Resolver → Bytes → Bytes
rewritten r ref = elim (r.aliases ref) [ none ↦ ref | some alias ↦ alias ]

abbrev pub only : List ResourceId → Option ResourceId
only [] = none
only (id ∷ []) = some id
only (_ ∷ _ ∷ _) = none

abbrev pub from_cache : Bytes → Option Bytes → ResourceIndex → Option ResourceId
from_cache kind none index = none
from_cache kind (some text) index = only (lookup_ref kind text index)

unfoldable pub resolve : Bytes → Bytes → Resolver → Resolver × Result ResolveError ResourceId
unfolding lookup_ref address
resolve kind ref r =
    let target = rewritten r ref in
    let key = kind ++ (colon ∷ target) in
    elim (from_cache kind (r.resolved key) r.index) [
      | some id ↦ (r, ok id)
      | none ↦ choose key r (lookup_ref kind target r.index)
    ]

abbrev pub set_alias : Bytes → Bytes → Resolver → Resolver
set_alias name target r = record r {
  aliases = λ k. if bytes_eq name k then some target else r.aliases k;
}

-- An index to which the ids of a list were added, in their order.
unfoldable pub add_all : ResourceIndex → List ResourceId → ResourceIndex
unfolding add
add_all index [] = index
add_all index (id ∷ ids) = add_all (add id index) ids
