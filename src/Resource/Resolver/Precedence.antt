-- ===== src/Resource/Resolver/Precedence.antt =====
-- The precedence policy of resource/resolver.go.
use agentsdk.Prelude.{
  ℕ, suc, ◌+◌, ◌≤◌, ◌<◌, Bool, true, false, Option, none, some, List, [], ◌∷◌, ◌++◌, ◌||◌, ◌≡◌,
  refl, ap, ◌∙◌, subst, arith, ◌⊎◌, inl, inr, Bool-cases, ltb, nat_eq, if◌then◌else◌, length, All,
}
use agentsdk.Prelude.Bytes.{Bytes, bytes_eq}
use agentsdk.Prelude.Result.{ok}
use agentsdk.Resource.{ResourceId}
use agentsdk.Resource.Resolver.{rank_from, rank, best_from, or_default, precedence_policy}

module _ (order : List Bytes) where
  abbrev pub IsBehind : ℕ → ResourceId → Type 0
  IsBehind n x = n < rank order x.origin

  -- The candidate stands in the list, and every other one has a higher rank.
  abbrev pub Precedes : ResourceId → List ResourceId → Type 0
  Precedes c candidates =
      (l : List ResourceId) × (r : List ResourceId) × (candidates ≡ l ++ c ∷ r)
      × All (IsBehind (rank order c.origin)) l
      × All (IsBehind (rank order c.origin)) r

  best_from-ok :
      (best : Option ResourceId) (k : ℕ) (tied : Bool) (cs : List ResourceId) (c : ResourceId)
      → best_from order best k tied cs ≡ ok c
      → ((best ≡ some c) × (tied ≡ false) × All (IsBehind k) cs)
        ⊎ ((rank order c.origin < k) × Precedes c cs)
  best_from-ok none k tied [] c h = absurd (cc)
  best_from-ok (some b) k true [] c h = absurd (cc)
  best_from-ok (some b) k false [] c h = inl (cc, refl, tt)
  best_from-ok best k tied (x ∷ cs) c h = elim (Bool-cases (ltb (rank order x.origin) k)) [
    | inl lower ↦
        let next : best_from order (some x) (rank order x.origin) false cs ≡ ok c =
          ground (arith, h, lower) in
        elim (best_from-ok (some x) (rank order x.origin) false cs c next) [
          | inl (e, _, all) ↦
              let same : x ≡ c = cc in
              inr (
                subst (λ (y : ResourceId). (rank order y.origin < k) × Precedes y (x ∷ cs)) same
                  (ground (arith, lower), ([], cs, refl, tt, all)))
          | inr (less, (l, r, e, before, behind)) ↦
              inr
                (ground (arith, lower, less), (x ∷ l, r, ap (λ t. x ∷ t) e, (less, before), behind))
        ]
    | inr higher ↦
        let next : best_from order best k (tied || nat_eq (rank order x.origin) k) cs ≡ ok c =
          ground (arith, h, higher) in
        elim (best_from-ok best k (tied || nat_eq (rank order x.origin) k) cs c next) [
          | inl (e, untied, all) ↦
              inl (e, ground (arith, untied), (ground (arith, untied, higher), all))
          | inr (less, (l, r, e, before, behind)) ↦
              inr (
                less,
                (x ∷ l, r, ap (λ t. x ∷ t) e, (ground (arith, less, higher), before), behind),
              )
        ]
  ]

  best_from-stays :
      (c : ResourceId) (r : List ResourceId)
      → All (IsBehind (rank order c.origin)) r
      → best_from order (some c) (rank order c.origin) false r ≡ ok c
  best_from-stays c [] h = refl
  best_from-stays c (x ∷ r) h = ground (arith, h.0, best_from-stays c r h.1)

  best_from-finds :
      (best : Option ResourceId) (k : ℕ) (tied : Bool) (l r : List ResourceId) (c : ResourceId)
      → rank order c.origin < k
      → All (IsBehind (rank order c.origin)) l
      → All (IsBehind (rank order c.origin)) r
      → best_from order best k tied (l ++ c ∷ r) ≡ ok c
  best_from-finds best k tied [] r c n h m = ground (arith, n, best_from-stays c r m)
  best_from-finds best k tied (x ∷ l) r c n h m = ground (
    arith,
    best_from-finds (some x) (rank order x.origin) false l r c h.0 h.1 m,
    best_from-finds best k (tied || nat_eq (rank order x.origin) k) l r c n h.1 m,
  )

rank_from-le :
    (n i best : ℕ) (order : List Bytes) (origin : Bytes)
    → best ≤ n
    → i + length order ≤ n
    → rank_from i best order origin ≤ n
rank_from-le n i best [] origin h k = h
rank_from-le n i best (o ∷ order) origin h k =
    rank_from-le n (suc i) (if bytes_eq o origin then i else best) order origin
      (ground (arith, h, k)) (omega (arith, k))

-- The precedence policy resolves candidates to one exactly when that candidate stands among them and
-- its origin has a lower rank in the order, or in the default order if the order is empty, than the
-- origin of every other candidate. So two candidates of the lowest rank are never resolved, while two
-- of a higher rank are no obstacle, and an origin outside the order has a rank behind all of it, with
-- which a sole candidate is resolved.
pub precedence_policy-Precedes :
    (order : List Bytes) (candidates : List ResourceId) (c : ResourceId)
    → (precedence_policy order candidates ≡ ok c → Precedes (or_default order) c candidates)
      × (Precedes (or_default order) c candidates → precedence_policy order candidates ≡ ok c)
unfolding precedence_policy
precedence_policy-Precedes order candidates c =
    let o = or_default order in
    (
      λ h. elim (best_from-ok o none (length o + 1) false candidates c h) [
        | inl (e, _, _) ↦ absurd (cc)
        | inr (_, found) ↦ found
      ],
      λ (l, r, e, before, behind).
          let bound = rank_from-le (length o) 0 (length o) o c.origin (omega arith) (omega arith) in
          ap (λ cs. best_from o none (length o + 1) false cs) e
          ∙ best_from-finds o none (length o + 1) false l r c (omega (arith, bound)) before behind,
    )
