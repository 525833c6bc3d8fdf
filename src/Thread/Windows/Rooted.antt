-- ===== src/Thread/Windows/Rooted.antt =====
-- Branches whose parents are there before them, over which the loop of `branchWindows` ends.
use agentsdk.Prelude.{
  ℕ, zero, suc, String, Bool, true, false, Option, none, some, List, [], ◌∷◌, ◌==◌, eq_iff, ◌||◌,
  ◌≡◌, refl, ap, sym, ◌∙◌, ◌⊎◌, inl, inr, arith, Bool-cases, Option-cases, is_some, length, reverse,
}
use agentsdk.Prelude.Dict.{Dict, lookup}
use agentsdk.Prelude.Result.{Result, ok, err}
use agentsdk.Thread.{Branch, Stored, ThreadError, branch_not_found, main_branch, or_else}
use agentsdk.Thread.Windows.{
  put_first, ancestors, path_windows, branch_windows, events_in, events_for_branch,
}

-- The root, or a branch that is there.
abbrev pub is_known : String → Dict Branch → Bool
is_known name d = name == "" || is_some (lookup name d)

abbrev pub IsRooted : Dict Branch → Type 0
IsRooted [] = Unit
IsRooted ((k, b) ∷ d) = (lookup k d ≡ none) × (is_known b.parent d ≡ true) × IsRooted d

put_first-ok :
    (b : Branch) (m : Option (Result ThreadError (List Branch))) {p : List Branch}
    → put_first b m ≡ some (ok p)
    → (rest : List Branch) × (m ≡ some (ok rest)) × (p ≡ b ∷ rest)
put_first-ok b none h = absurd (cc)
put_first-ok b (some (err e)) h = absurd (cc)
put_first-ok b (some (ok rest)) h = (rest, refl, cc)

-- A round of the loop that ends well.
pub ancestors-suc :
    (fuel : ℕ) (d : Dict Branch) (name : String) {p : List Branch}
    → (name == "") ≡ false
    → ancestors (suc fuel) d name ≡ some (ok p)
    → (b : Branch) × (rest : List Branch) × (lookup name d ≡ some b)
      × (ancestors fuel d b.parent ≡ some (ok rest))
      × (p ≡ b ∷ rest)
unfolding ancestors
ancestors-suc fuel d name deep h = elim (Option-cases (lookup name d)) [
  | inl missing ↦ absurd (ground (arith, deep, h, missing))
  | inr (b, found) ↦
      let k : put_first b (ancestors fuel d b.parent) ≡ some (ok _) =
        ground (arith, deep, h, found) in
      let (rest, e, split) = put_first-ok b (ancestors fuel d b.parent) k in
      (b, rest, found, e, split)
]

ancestors-cons :
    (fuel : ℕ) (d : Dict Branch) (name : String) (b : Branch) {rest : List Branch}
    → (name == "") ≡ false
    → lookup name d ≡ some b
    → ancestors fuel d b.parent ≡ some (ok rest)
    → ancestors (suc fuel) d name ≡ some (ok (b ∷ rest))
unfolding ancestors
ancestors-cons fuel d name b deep found h = ground (arith, deep, found, h)

ancestors-root :
    (fuel : ℕ) (d : Dict Branch) (name : String)
    → (name == "") ≡ true
    → ancestors fuel d name ≡ some (ok [])
unfolding ancestors
ancestors-root zero d name h = ground (arith, h)
ancestors-root (suc fuel) d name h = ground (arith, h)

ancestors-more :
    (fuel : ℕ) (d : Dict Branch) (name : String) {p : List Branch}
    → ancestors fuel d name ≡ some (ok p)
    → ancestors (suc fuel) d name ≡ some (ok p)
unfolding ancestors
ancestors-more zero d name h = ground (arith, h)
ancestors-more (suc fuel) d name h = elim (Bool-cases (name == "")) [
  | inl root ↦
      ancestors-root (suc (suc fuel)) d name root
      ∙ (sym (ancestors-root (suc fuel) d name root) ∙ h)
  | inr deep ↦
      let (b, rest, found, e, split) = ancestors-suc fuel d name deep h in
      ancestors-cons (suc fuel) d name b deep found (ancestors-more fuel d b.parent e)
      ∙ ap (λ q. some (ok q)) (sym split)
]

lookup-older :
    (d : Dict Branch) (k name : String) (x b : Branch)
    → lookup k d ≡ none
    → lookup name d ≡ some b
    → lookup name ((k, x) ∷ d) ≡ some b
unfolding lookup
lookup-older d k name x b f h = elim (Bool-cases (k == name)) [
  | inr other ↦ ground (arith, h, other)
  | inl same ↦
      let e : k ≡ name = ground (arith, same, eq_iff k name) in
      absurd (ground (arith, h, f, ap (λ n. lookup n d) e))
]

ancestors-extend :
    (fuel : ℕ) (d : Dict Branch) (k name : String) (x : Branch) {p : List Branch}
    → lookup k d ≡ none
    → ancestors fuel d name ≡ some (ok p)
    → ancestors fuel ((k, x) ∷ d) name ≡ some (ok p)
unfolding ancestors lookup
ancestors-extend zero d k name x f h = ground (arith, h)
ancestors-extend (suc fuel) d k name x f h = elim (Bool-cases (name == "")) [
  | inl root ↦
      ancestors-root (suc fuel) ((k, x) ∷ d) name root
      ∙ (sym (ancestors-root (suc fuel) d name root) ∙ h)
  | inr deep ↦
      let (b, rest, found, e, split) = ancestors-suc fuel d name deep h in
      let there : lookup name ((k, x) ∷ d) ≡ some b = lookup-older d k name x b f found in
      ancestors-cons fuel ((k, x) ∷ d) name b deep there (ancestors-extend fuel d k b.parent x f e)
      ∙ ap (λ q. some (ok q)) (sym split)
]

pub IsRooted-ancestors :
    (d : Dict Branch) (name : String)
    → IsRooted d
    → is_known name d ≡ true
    → (p : List Branch) × (ancestors (length d) d name ≡ some (ok p))
unfolding ancestors lookup
IsRooted-ancestors [] name r h = ([], ground (arith, h))
IsRooted-ancestors ((k, b) ∷ d) name r h = elim (Bool-cases (name == "")) [
  | inl root ↦ ([], ground (arith, root))
  | inr deep ↦ elim (Bool-cases (k == name)) [
    | inr other ↦
        let (p, e) = IsRooted-ancestors d name r.2 (ground (arith, h, deep, other)) in
        (
          p,
          ancestors-more (length d) ((k, b) ∷ d) name
              (ancestors-extend (length d) d k name b r.0 e),
        )
    | inl same ↦
        let (p, e) = IsRooted-ancestors d b.parent r.2 r.1 in
        (
          b ∷ p,
          ancestors-cons (length d) ((k, b) ∷ d) name b deep (ground (arith, same))
              (ancestors-extend (length d) d k b.parent b r.0 e),
        )
  ]
]

-- The loop for a name that is not there.
unknown_branch-err :
    (fuel : ℕ) (d : Dict Branch) (name : String)
    → is_known name d ≡ false
    → ancestors (suc fuel) d name ≡ some (err (branch_not_found name))
unfolding ancestors
unknown_branch-err fuel d name h = ground (arith, h)

abbrev pub name_of : Stored → String → String
name_of s branch = or_else (or_else branch s.branch_id) main_branch

-- `EventsForBranch` of a thread that has branches, each with a parent that was there before it:
-- the fuel is enough, and it fails for an unknown branch only.
pub IsRooted-events_for_branch :
    (s : Stored) (branch : String) {k : String} {b : Branch} {d : Dict Branch}
    → s.branches ≡ (k, b) ∷ d
    → IsRooted s.branches
    → (is_known (name_of s branch) s.branches ≡ false)
        × (events_for_branch s branch ≡ some (err (branch_not_found (name_of s branch))))
      ⊎ (is_known (name_of s branch) s.branches ≡ true)
        × (p : List Branch) × (ancestors (length s.branches) s.branches (name_of s branch)
            ≡ some (ok p))
        × (events_for_branch s branch
            ≡ some (ok (events_in (path_windows (reverse p) []) s.events)))
unfolding events_for_branch branch_windows
IsRooted-events_for_branch s branch {k} {b} {d} e r =
    let name = name_of s branch in
    elim (Bool-cases (is_known name s.branches)) [
      | inr unknown ↦ inl (
        unknown,
        rw e (rw (unknown_branch-err (length d) ((k, b) ∷ d) name (rw e at unknown)) refl),
      )
      | inl known ↦
          let (p, done) = IsRooted-ancestors s.branches name r known in
          inr (known, p, done, rw e (rw (rw e at done) refl))
    ]
