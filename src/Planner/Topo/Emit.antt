-- ===== src/Planner/Topo/Emit.antt =====
-- The loop over the ready ids: what holds of the ids emitted so far, of the degrees and of the queue.
use mathlib.Core.List.{append_assoc, append-nil}
use agentsdk.Prelude.{
  ℕ, zero, suc, ◌+◌, ◌≤◌, ◌<◌, String, Bool, false, List, [], ◌∷◌, ◌++◌, eq_iff, eq_refl,
  if◌then◌else◌, length, length-append, ◌≡◌, refl, arith, ◌&&◌, nat_eq, inl, inr, sym,
}
use agentsdk.Prelude.Lists.{List-cases}
use agentsdk.Prelude.Dict.{Dict, lookup_or}
use agentsdk.Planner.Topo.{sort_strings, relax, kahn}
use agentsdk.Planner.Topo.Count.{
  count, count-append, count-sort_strings, length-le_of_count, relax-degree, relax-ready,
}

-- The dependencies that are not among the emitted ids.
abbrev pub open_count : List String → List String → ℕ
open_count done [] = 0
open_count done (d ∷ ds) =
    let rest = open_count done ds in if nat_eq (count d done) 0 then suc rest else rest

open_count-emit :
    (done : List String) (e : String) (ds : List String)
    → count e done ≡ 0
    → open_count (done ++ e ∷ []) ds + count e ds ≡ open_count done ds
open_count-emit done e [] h = refl
open_count-emit done e (d ∷ ds) h =
    ground
      (arith, open_count-emit done e ds h, count-append d done (e ∷ []), eq_iff d e, eq_iff e d, h)

pub open_count-zero :
    (done ds : List String) (d : String)
    → open_count done ds ≡ 0
    → 0 < count d ds
    → 0 < count d done
open_count-zero done [] d h p = absurd (omega arith)
open_count-zero done (x ∷ ds) d h p = ground (arith, open_count-zero done ds d, eq_iff d x)

length-zero→count : (l : List String) → length l ≡ 0 → (x : String) → count x l ≡ 0
length-zero→count [] h x = refl
length-zero→count (y ∷ l) h x = absurd (omega arith)

module _ (adj : Dict (List String)) (deps : String → List String) (known : String → Bool) where
  -- `done` are the ids emitted so far.
  pub record Inv (done : List String) (degree : Dict ℕ) (ready : List String) : Type 0 where
    pub counts : (x : String) → lookup_or 0 x degree ≡ open_count done (deps x)
    pub once :
        (x : String)
        → count x done + count x ready
          ≡ (if known x && nat_eq (lookup_or 0 x degree) 0 then 1 else 0)

  -- Each id comes after its dependencies.
  abbrev pub Emits : List String → List String → Type 0
  Emits done [] = Unit
  Emits done (x ∷ out) =
      ((d : String) → 0 < count d (deps x) → 0 < count d done) × Emits (done ++ x ∷ []) out

  -- Nothing is ready any more: what was emitted, once, is what has no open dependency.
  abbrev pub Finished : List String → Type 0
  Finished done =
      (x : String)
      → count x done ≡ (if known x && nat_eq (open_count done (deps x)) 0 then 1 else 0)

  module _ (edges : (x d : String) → count x (lookup_or [] d adj) ≡ count d (deps x))
      (no_deps : (x : String) → known x ≡ false → deps x ≡ []) where
    no_count : (x d : String) → known x ≡ false → count d (deps x) ≡ 0
    no_count x d h = rw (no_deps x h)

    Inv-step :
        (done : List String) (degree : Dict ℕ) (ready : List String) (e : String)
        (rest : List String)
        → Inv done degree ready
        → sort_strings ready ≡ e ∷ rest
        → let next = relax (lookup_or [] e adj) degree rest in
          Inv (done ++ e ∷ []) next.0 next.1 × (open_count done (deps e) ≡ 0)
    Inv-step done degree ready e rest inv h =
        let sorted : (x : String) → count x (e ∷ rest) ≡ count x ready =
          λ x. rw h at (count-sort_strings x ready) in
        let fresh : count e done ≡ 0 = ground (arith, sorted e, eq_refl e, inv.once e) in
        let closed : open_count done (deps e) ≡ 0 =
          ground (arith, sorted e, eq_refl e, inv.once e, inv.counts e) in
        (
          record {
            counts = λ x. ground (
              arith,
              relax-degree (lookup_or [] e adj) degree rest x,
              edges x e,
              open_count-emit done e (deps x) fresh,
              inv.counts x,
            );
            once = λ x. ground (
              arith,
              relax-degree (lookup_or [] e adj) degree rest x,
              relax-ready (lookup_or [] e adj) degree rest x,
              edges x e,
              sorted x,
              inv.once x,
              inv.counts x,
              count-append x done (e ∷ []),
              open_count-emit done e (deps x) fresh,
              no_count x e,
            );
          },
          closed,
        )

    pub kahn-Emits :
        (fuel : ℕ) (done : List String) (degree : Dict ℕ) (ready : List String)
        → Inv done degree ready
        → Emits done (kahn fuel adj degree ready)
    unfolding kahn
    kahn-Emits zero done degree ready inv = tt
    kahn-Emits (suc fuel) done degree ready inv = elim (List-cases (sort_strings ready)) [
      | inl empty ↦ rw (empty, kahn) tt
      | inr (e, rest, h) ↦
          let next = relax (lookup_or [] e adj) degree rest in
          let (inv', closed) = Inv-step done degree ready e rest inv h in
          rw (h, kahn)
            (
              λ d p. open_count-zero done (deps e) d closed p,
              kahn-Emits fuel (done ++ e ∷ []) next.0 next.1 inv',
            )
    ]

    stop-Finished :
        (done : List String) (degree : Dict ℕ) (ready : List String)
        → Inv done degree ready
        → ((x : String) → count x ready ≡ 0)
        → Finished (done ++ [])
    stop-Finished done degree ready inv none_ready x =
        rw append-nil (ground (arith, inv.once x, inv.counts x, none_ready x))

    -- With fuel for the known ids that are not emitted yet the loop ends with nothing ready.
    pub kahn-Finished :
        (fuel : ℕ) (done all : List String) (degree : Dict ℕ) (ready : List String)
        → ((x : String) → count x all ≡ (if known x then 1 else 0))
        → length all ≤ length done + fuel
        → Inv done degree ready
        → Finished (done ++ kahn fuel adj degree ready)
    unfolding kahn
    kahn-Finished zero done all degree ready each enough inv = stop-Finished done degree ready inv (
        length-zero→count ready (
          omega (
            arith,
            length-append done ready,
            length-le_of_count (done ++ ready) all
                (λ x. ground (arith, each x, inv.once x, count-append x done ready)),
          )))
    kahn-Finished (suc fuel) done all degree ready each enough inv =
        elim (List-cases (sort_strings ready)) [
          | inl empty ↦
              rw (empty, kahn)
                (stop-Finished done degree ready inv
                  (λ x. sym (rw empty at (count-sort_strings x ready))))
          | inr (e, rest, h) ↦
              let next = relax (lookup_or [] e adj) degree rest in
              let inv' = (Inv-step done degree ready e rest inv h).0 in
              rw (h, kahn)
                (rw append_assoc at (
                  kahn-Finished fuel (done ++ e ∷ []) all next.0 next.1 each
                    (omega (arith, length-append done (e ∷ []))) inv'))
        ]
