-- ===== src/Planner/Removal.antt =====
-- Steps in order can be sorted again when one of them is removed.
use mathlib.Core.List.{append_assoc}
use agentsdk.Prelude.{
  ℕ, suc, ◌≤◌, ◌<◌, String, false, some, List, [], ◌∷◌, ◌++◌, ◌==◌, eq_iff, eq_refl, if◌then◌else◌,
  ◌≡◌, refl, ap, sym, ◌∙◌, arith, All, All-map, map, length,
}
use agentsdk.Planner.{Step, find_step, remove_at, filter_string}
use agentsdk.Planner.Replay.{without_step, sorted_or_none}
use agentsdk.Planner.Actions.{has_child}
use agentsdk.Planner.Topo.Count.{count, count-append}
use agentsdk.Planner.Topo.Degrees.{ids}
use agentsdk.Planner.Topo.Correct.{IsBefore, HasParent, IsOrdered, SameSteps, topo_sort-IsOrdered}
use agentsdk.Planner.Topo.Complete.{IsSortable, topo_sort_total}
use agentsdk.Planner.Steps.{All-remove_at, count-remove_at, count-filter_string}

-- Where an id stands first.
abbrev position : List String → String → ℕ
position [] x = 0
position (y ∷ l) x = let rest = position l x in if x == y then 0 else suc rest

position-seen :
    (seen rest : List String) (x : String)
    → 0 < count x seen
    → position (seen ++ rest) x < length seen
position-seen [] rest x h = absurd (omega arith)
position-seen (y ∷ seen) rest x h = ground (arith, position-seen seen rest x)

position-next :
    (seen rest : List String) (x : String)
    → count x seen ≡ 0
    → position (seen ++ x ∷ rest) x ≡ length seen
position-next [] rest x h = ground (arith, eq_refl x)
position-next (y ∷ seen) rest x h = ground (arith, position-next seen rest x)

abbrev Falls : List String → Step → Type 0
Falls all s =
    (d : String)
    → 0 < count d s.depends_on
    → (0 < count d all) × (position all d < position all s.id)

IsBefore-Falls :
    (all seen : List String) (steps : List Step)
    → all ≡ seen ++ ids steps
    → ((x : String) → count x all ≤ 1)
    → IsBefore seen steps
    → All (Falls all) steps
IsBefore-Falls all seen [] e u h = tt
IsBefore-Falls all seen (s ∷ steps) e u h =
    let fresh : count s.id seen ≡ 0 =
      ground (
        arith,
        u s.id,
        ap (count s.id) e,
        count-append s.id seen (s.id ∷ ids steps),
        eq_refl s.id,
      ) in
    (
      λ d p. (
        ground (arith, h.0 d p, ap (count d) e, count-append d seen (s.id ∷ ids steps)),
        rw e (
            rw (position-next seen (ids steps) s.id fresh)
              (position-seen seen (s.id ∷ ids steps) d (h.0 d p))),
      ),
      IsBefore-Falls all (seen ++ s.id ∷ []) steps
          (e ∙ sym (append_assoc seen (s.id ∷ []) (ids steps))) u h.1,
    )

pub ids-without :
    (id : String) (steps : List Step)
    → ids (map {A = Step} (λ s. record s { depends_on = filter_string s.depends_on id }) steps)
      ≡ ids steps
ids-without id [] = refl
ids-without id (s ∷ steps) = ap (λ l. s.id ∷ l) (ids-without id steps)

abbrev drop_dep : String → Step → Step
drop_dep id s = record s { depends_on = filter_string s.depends_on id }

pub All-drop_dep :
    (P : Step → Type 0) (id : String) (steps : List Step)
    → All (λ s. P (drop_dep id s)) steps
    → All P (map {A = Step} (drop_dep id) steps)
All-drop_dep P id [] h = tt
All-drop_dep P id (s ∷ steps) h = (h.0, All-drop_dep P id steps h.1)

no_child :
    (id : String) (steps : List Step)
    → has_child id steps ≡ false
    → All (λ s. (s.parent_id == id) ≡ false) steps
unfolding has_child
no_child id [] h = tt
no_child id (s ∷ steps) h = (ground arith, no_child id steps (ground arith))

All-pair :
    (P Q : Step → Type 0) (steps : List Step)
    → All P steps
    → All Q steps
    → All (λ s. P s × Q s) steps
All-pair P Q [] h k = tt
All-pair P Q (s ∷ steps) h k = ((h.0, k.0), All-pair P Q steps h.1 k.1)

module _ (steps : List Step) (id : String) (i : ℕ) (ordered : IsOrdered steps)
    (found : find_step steps id ≡ some i) (childless : has_child id steps ≡ false) where
  pub count-without :
      (x : String)
      → count x (ids (without_step i id steps)) ≡ (if x == id then 0 else count x (ids steps))
  count-without x =
      rw (ids-without id (remove_at i steps))
        (ground (arith, count-remove_at steps id i x found, ordered.unique x, eq_iff x id))

  abbrev rank : String → ℕ
  rank = position (ids steps)

  Falls-without :
      (s : Step)
      → Falls (ids steps) s
      → (d : String) → 0 < count d (drop_dep id s).depends_on
      → (0 < count d (ids (without_step i id steps))) × (rank d < rank s.id)
  Falls-without s f d p =
      let k = f d (ground (arith, count-filter_string s.depends_on id d)) in
      (ground (arith, count-without d, count-filter_string s.depends_on id d, k.0), k.1)

  parent-without :
      (s : Step)
      → HasParent (ids steps) s × ((s.parent_id == id) ≡ false)
      → HasParent (ids (without_step i id steps)) (drop_dep id s)
  parent-without s h named = ground (arith, h.0 named, h.1, count-without s.parent_id)

  without-IsSortable : IsSortable rank (without_step i id steps)
  without-IsSortable = record {
    unique = λ x. ground (arith, count-without x, ordered.unique x);
    falls = All-drop_dep _ id (remove_at i steps) (
        All-map {P = Falls (ids steps)} Falls-without (remove_at i steps) (
          All-remove_at (Falls (ids steps)) i steps
            (IsBefore-Falls (ids steps) [] steps refl ordered.unique ordered.before)));
    parents = All-drop_dep _ id (remove_at i steps) (
        All-map parent-without (remove_at i steps) (
          All-remove_at _ i steps (
            All-pair (HasParent (ids steps)) (λ s. (s.parent_id == id) ≡ false) steps
              ordered.parents (no_child id steps childless))));
  }

  -- The error of the sort, which the program drops, does not occur.
  pub removal_sorts :
      (out : List Step) × (sorted_or_none (without_step i id steps) ≡ out)
      × IsOrdered out
      × SameSteps (without_step i id steps) out
  removal_sorts =
      let (out, e) = topo_sort_total rank (without_step i id steps) without-IsSortable in
      let k = topo_sort-IsOrdered (without_step i id steps) out e in
      (out, rw (e, sorted_or_none), k.0, k.1)
