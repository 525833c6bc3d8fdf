-- ===== src/Workflow/Order/Placing.antt =====
-- What `visit` of workflow/workflow.go adds to the order: each step once, behind its dependencies.
use agentsdk.Prelude.{
  ℕ, zero, suc, String, Bool, true, false, Option, some, List, [], ◌∷◌, ◌++◌, ◌==◌, ◌≡◌, refl, ap,
  sym, ◌∙◌, subst, arith, ◌⊎◌, inl, inr, Bool-cases, Option-cases, if◌then◌else◌, eq_iff, eq_refl,
  All,
}
use agentsdk.Prelude.Dict.{Dict, lookup, lookup_or, lookup_or-insert}
use agentsdk.Prelude.Result.{Result, Result-cases, ok}
use agentsdk.Workflow.{Step}
use agentsdk.Workflow.Order.{OrderError, Visits, enter, leave, visit_deps, visit}

module _ {V : Type 0} where
  -- A step with this id stands in the list.
  unfoldable pub placed : String → List (Step V) → Bool
  placed x [] = false
  placed x (step ∷ l) = if step.id == x then true else placed x l

  pub placed-snoc :
      (x : String) (l : List (Step V)) (step : Step V)
      → placed x (l ++ step ∷ []) ≡ (if step.id == x then true else placed x l)
  unfolding placed
  placed-snoc x [] step = refl
  placed-snoc x (s ∷ l) step = ground (arith, placed-snoc x l step)

-- Steps in an order that runs them: each one is the known step of its id, no id stands twice, and
-- the dependencies of a step stand before it.
pub data IsDepsFirst (V : Type 0) (known : String → Option (Step V)) : List (Step V) → Type 0 where
  start : IsDepsFirst V known []
  next :
      (l : List (Step V)) (step : Step V)
      → IsDepsFirst V known l
      → known step.id ≡ some step
      → placed step.id l ≡ false
      → All (λ dep. placed dep l ≡ true) step.depends_on
      → IsDepsFirst V known (l ++ step ∷ [])

module _ {V : Type 0} (by_id : Dict (Step V)) where
  abbrev pub IsKeyed : Type 0
  IsKeyed = (x : String) (step : Step V) → lookup x by_id ≡ some step → step.id ≡ x

  pub record IsSound (s : Visits V) : Type 0 where
    pub agree : (x : String) → lookup_or false x s.visited ≡ placed x s.ordered
    pub deps_first : IsDepsFirst V (λ x. lookup x by_id) s.ordered

  -- What a visit leaves: it places steps, except the ones that it is inside of.
  pub record Grows (s t : Visits V) : Type 0 where
    pub sound : IsSound t
    pub keeps : (x : String) → placed x s.ordered ≡ true → placed x t.ordered ≡ true
    pub same : (x : String) → lookup_or false x t.visiting ≡ lookup_or false x s.visiting
    pub frozen :
        (x : String) → lookup_or false x s.visiting ≡ true → placed x t.ordered ≡ placed x s.ordered

  pub Grows-refl : (s : Visits V) → IsSound s → Grows s s
  Grows-refl s h = record { sound = h; keeps = λ x k. k; same = λ x. refl; frozen = λ x k. refl }

  pub Grows-trans : (s t u : Visits V) → Grows s t → Grows t u → Grows s u
  Grows-trans s t u h k = record {
    sound = k.sound;
    keeps = λ x m. k.keeps x (h.keeps x m);
    same = λ x. k.same x ∙ h.same x;
    frozen = λ x m. k.frozen x (h.same x ∙ m) ∙ h.frozen x m;
  }

  abbrev pub Visiting : (String → Visits V → Result OrderError (Visits V)) → Type 0
  Visiting v =
      (id : String) (s t : Visits V)
      → IsSound s
      → v id s ≡ ok t
      → Grows s t × (placed id t.ordered ≡ true)

  visit_deps-ok :
      (v : String → Visits V → Result OrderError (Visits V)) (id dep : String) (deps : List String)
      (s t : Visits V)
      → visit_deps v by_id id (dep ∷ deps) s ≡ ok t
      → (u : Visits V) × (v dep s ≡ ok u) × (visit_deps v by_id id deps u ≡ ok t)
  unfolding visit_deps
  visit_deps-ok v id dep deps s t h = elim (Option-cases (lookup dep by_id)) [
    | inl missing ↦ absurd (ground (arith, h, missing))
    | inr (step, there) ↦ elim (Result-cases (v dep s)) [
      | inl (e, bad) ↦ absurd (ground (arith, h, there, bad))
      | inr (u, good) ↦ (u, good, ground (arith, h, there, good))
    ]
  ]

  pub visit_deps-Grows :
      (v : String → Visits V → Result OrderError (Visits V)) (id : String) (deps : List String)
      (s t : Visits V)
      → Visiting v
      → IsSound s
      → visit_deps v by_id id deps s ≡ ok t
      → Grows s t × All (λ dep. placed dep t.ordered ≡ true) deps
  unfolding visit_deps
  visit_deps-Grows v id [] s t f h k =
      let e : s ≡ t = cc in (subst (Grows s) e (Grows-refl s h), tt)
  visit_deps-Grows v id (dep ∷ deps) s t f h k =
      let (u, first, others) = visit_deps-ok v id dep deps s t k in
      let (g, there) = f dep s u h first in
      let (gs, all) = visit_deps-Grows v id deps u t f g.sound others in
      (Grows-trans s u t g gs, (gs.keeps dep there, all))

  abbrev pub Opened : ℕ → String → Visits V → Visits V → Type 0
  Opened fuel id s t =
      (step : Step V) × (u : Visits V) × (lookup_or false id s.visited ≡ false)
      × (lookup_or false id s.visiting ≡ false)
      × (lookup id by_id ≡ some step)
      × (visit_deps (visit fuel by_id) by_id id step.depends_on (enter id s) ≡ ok u)
      × (t ≡ leave step id u)

  pub visit-ok :
      (fuel : ℕ) (id : String) (s t : Visits V)
      → visit (suc fuel) by_id id s ≡ ok t
      → ((lookup_or false id s.visited ≡ true) × (t ≡ s)) ⊎ Opened fuel id s t
  unfolding visit
  visit-ok fuel id s t h = elim (Bool-cases (lookup_or false id s.visited)) [
    | inl before ↦ inl (before, ground (arith, h, before))
    | inr fresh ↦ elim (Bool-cases (lookup_or false id s.visiting)) [
      | inl inside ↦ absurd (ground (arith, h, fresh, inside))
      | inr outside ↦ elim (Option-cases (lookup id by_id)) [
        | inl missing ↦ absurd (ground (arith, h, fresh, outside, missing))
        | inr (step, found) ↦
            elim (Result-cases
              (visit_deps (visit fuel by_id) by_id id step.depends_on (enter id s))) [
                | inl (e, bad) ↦ absurd (ground (arith, h, fresh, outside, found, bad))
                | inr (u, good) ↦ inr (
                  step,
                  u,
                  fresh,
                  outside,
                  found,
                  good,
                  ground (arith, h, fresh, outside, found, good),
                )
              ]
      ]
    ]
  ]

  pub enter-IsSound : (id : String) (s : Visits V) → IsSound s → IsSound (enter id s)
  unfolding enter
  enter-IsSound id s h = record { agree = h.agree; deps_first = h.deps_first }

  -- The visit of a step whose dependencies are placed.
  leave-Grows :
      (id : String) (step : Step V) (s u : Visits V)
      → IsKeyed
      → lookup id by_id ≡ some step
      → lookup_or false id s.visiting ≡ false
      → placed id s.ordered ≡ false
      → Grows (enter id s) u
      → All (λ dep. placed dep u.ordered ≡ true) step.depends_on
      → Grows s (leave step id u) × (placed id (leave step id u).ordered ≡ true)
  unfolding enter leave
  leave-Grows id step s u keyed found outside fresh g all =
      let e : step.id ≡ id = keyed id step found in
      let new : placed id u.ordered ≡ false =
        g.frozen id (ground (arith, lookup_or-insert false id id true s.visiting, eq_refl id))
        ∙ fresh in
      let after : (x : String)
          → placed x (u.ordered ++ step ∷ []) ≡ (if id == x then true else placed x u.ordered) =
        λ x.
          placed-snoc x u.ordered step ∙ ap (λ y. if y == x then true else placed x u.ordered) e in
      (
        record {
          sound = record {
            agree = λ x.
                ground
                  (arith, lookup_or-insert false id x true u.visited, after x, g.sound.agree x);
            deps_first =
                next u.ordered step g.sound.deps_first (ap (λ y. lookup y by_id) e ∙ found)
                  (ap (λ y. placed y u.ordered) e ∙ new) all;
          };
          keeps = λ x k. ground (arith, after x, g.keeps x k);
          same = λ x. ground (
            arith,
            lookup_or-insert false id x false u.visiting,
            g.same x,
            lookup_or-insert false id x true s.visiting,
            eq_iff id x,
            outside,
          );
          frozen = λ x k. ground (
            arith,
            after x,
            g.frozen x,
            lookup_or-insert false id x true s.visiting,
            eq_iff id x,
            outside,
            k,
          );
        },
        ground (arith, after id, eq_refl id),
      )

  pub visit-Grows : (fuel : ℕ) → IsKeyed → Visiting (visit fuel by_id)
  unfolding visit
  visit-Grows zero keyed id s t h k = absurd (cc)
  visit-Grows (suc fuel) keyed id s t h k = elim (visit-ok fuel id s t k) [
    | inl (before, e) ↦
        subst (λ r. Grows s r × (placed id r.ordered ≡ true)) (sym e)
          (Grows-refl s h, sym (h.agree id) ∙ before)
    | inr (step, u, fresh, outside, found, good, e) ↦
        let (g, all) =
          visit_deps-Grows (visit fuel by_id) id step.depends_on (enter id s) u
            (visit-Grows fuel keyed) (enter-IsSound id s h) good in
        subst (λ r. Grows s r × (placed id r.ordered ≡ true)) (sym e)
          (leave-Grows id step s u keyed found outside (sym (h.agree id) ∙ fresh) g all)
  ]
