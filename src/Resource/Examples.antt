-- ===== src/Resource/Examples.antt =====
-- Two resources of one name, for resource/identity.go and resource/resolver.go.
use agentsdk.Prelude.{true, none, List, [], ◌∷◌, ◌≡◌, refl, leb, length, ◌&&◌}
use agentsdk.Prelude.Bytes.{Bytes, codes, split, join}
use agentsdk.Prelude.Result.{ok}
use agentsdk.Resource.{ResourceId, address, id_eq, suffix_match, matches_ref}
use agentsdk.Resource.Address.{IsClean, matches_ref-address}
use agentsdk.Resource.Resolver.{
  Resolver, or_default, add, add_all, holds, of_kind, matching, lookup_ref, precedence_policy,
  resolve, set_alias,
}
use agentsdk.Resource.Resolver.Finding.{no_ids, lookup_ref-holds}
use agentsdk.Resource.Resolver.Precedence.{Precedes, precedence_policy-Precedes}

program : Unit {0}
unfolding split join address id_eq suffix_match matches_ref add add_all matching lookup_ref
    precedence_policy resolve
program = tt

abbrev commit_of : Bytes → List Bytes → ResourceId
commit_of origin namespace = record {
  kind = codes "command";
  origin = origin;
  namespace = namespace;
  name = codes "commit";
}

abbrev local_commit : ResourceId
local_commit = commit_of (codes "local") (codes "engineer" ∷ [])

abbrev user_commit : ResourceId
user_commit = commit_of (codes "user") (codes "a" ∷ codes "b" ∷ [])

abbrev resolver : Resolver
resolver = record {
  index = add_all no_ids (user_commit ∷ local_commit ∷ user_commit ∷ []);
  policy = precedence_policy [];
  aliases = λ k. none;
  resolved = λ k. none;
}

found_twice : lookup_ref [] (codes "commit") resolver.index ≡ user_commit ∷ local_commit ∷ []
unfolding program
found_twice = refl

local_preferred : (resolve (codes "command") (codes "commit") resolver).1 ≡ ok local_commit
unfolding program
local_preferred = refl

alias_followed :
    (resolve
      (codes "command")
      (codes "ci")
      (set_alias (codes "ci") (codes "user:commit") resolver)).1
    ≡ ok user_commit
unfolding program
alias_followed = refl

origin_skipped : matches_ref local_commit (codes "local:commit") ≡ true
unfolding program
origin_skipped = refl

-- Two candidates of one origin behind the best, and a sole candidate whose origin has no rank.
tie_behind :
    precedence_policy [] (user_commit ∷ user_commit ∷ commit_of (codes "explicit") [] ∷ [])
    ≡ ok (commit_of (codes "explicit") [])
unfolding program
tie_behind = refl

unranked_alone :
    precedence_policy [] (commit_of (codes "plugin") [] ∷ []) ≡ ok (commit_of (codes "plugin") [])
unfolding program
unranked_alone = refl

user-IsClean : IsClean user_commit
user-IsClean = record {
  origin_free = (refl, (refl, (refl, (refl, tt))));
  namespace_free = ((refl, tt), ((refl, tt), tt));
  namespace_filled = (refl, (refl, tt));
  name_free = (refl, (refl, (refl, (refl, (refl, (refl, tt))))));
}

matches_ref-address_example :
    matches_ref user_commit (address user_commit) ≡ leb (length user_commit.namespace) 1
matches_ref-address_example = matches_ref-address user_commit user-IsClean

lookup_ref-holds_example :
    holds user_commit (
      lookup_ref
        (codes "command")
        (codes "b:commit")
        (add_all no_ids (local_commit ∷ user_commit ∷ [])))
    ≡ (holds user_commit (local_commit ∷ user_commit ∷ [])
        && (of_kind (codes "command") user_commit && matches_ref user_commit (codes "b:commit")))
lookup_ref-holds_example =
    lookup_ref-holds (codes "command") (codes "b:commit") (local_commit ∷ user_commit ∷ [])
      user_commit

precedence_policy-Precedes_example :
    (precedence_policy [] (user_commit ∷ local_commit ∷ []) ≡ ok local_commit
      → Precedes (or_default []) local_commit (user_commit ∷ local_commit ∷ []))
    × (Precedes (or_default []) local_commit (user_commit ∷ local_commit ∷ [])
        → precedence_policy [] (user_commit ∷ local_commit ∷ []) ≡ ok local_commit)
precedence_policy-Precedes_example =
    precedence_policy-Precedes [] (user_commit ∷ local_commit ∷ []) local_commit
