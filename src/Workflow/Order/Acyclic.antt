-- ===== src/Workflow/Order/Acyclic.antt =====
-- `validateAndOrder` of workflow/workflow.go accepts every workflow without a dependency cycle.
use agentsdk.Prelude.{
  ℕ, zero, suc, ◌<◌, String, true, false, Option, some, List, [], ◌∷◌, ◌==◌, ◌≡◌, refl, ap, sym,
  ◌∙◌, subst, arith, ◌⊎◌, inl, inr, Bool-cases, Option-cases, is_some, length, eq_iff, All, All-map,
}
use agentsdk.Prelude.Dict.{Dict, lookup, lookup_or, lookup_or-insert}
use agentsdk.Prelude.Result.{Result, ok, err}
use agentsdk.Workflow.{Step}
use agentsdk.Workflow.Order.{
  OrderError, out_of_fuel, Visits, enter, leave, visit_deps, visit, visit_steps, no_visits,
  validate_and_order,
}
use agentsdk.Workflow.Order.Placing.{placed, IsKeyed, IsSound, Visiting, visit-Grows, enter-IsSound}
use agentsdk.Workflow.Order.Checked.{
  step_with, is_some-step_with, step_with-id, IsUniquelyNamed, IsNamed, lookup-check_steps,
  check_steps-IsKeyed, check_steps-total,
}
use agentsdk.Workflow.Order.Correct.{no_visits-IsSound}
use agentsdk.Workflow.Order.Fuel.{validate_and_order_ends}

-- The result is a value, or the depth is used up.
abbrev Succeeds : {A : Type 0} → Result OrderError A → Type 0
Succeeds {A} r = (r ≡ err out_of_fuel) ⊎ ((a : A) × (r ≡ ok a))

module _ {V : Type 0} (by_id : Dict (Step V)) (rank : String → ℕ) where
  -- A known dependency, of a lower rank.
  abbrev IsBelow : ℕ → String → Type 0
  IsBelow n dep = (is_some (lookup dep by_id) ≡ true) × (rank dep < n)

  abbrev IsRanked : Type 0
  IsRanked =
      (x : String) (step : Step V)
      → lookup x by_id ≡ some step
      → All (IsBelow (rank x)) step.depends_on

  -- The steps that the search is inside of have ranks of at least `n`.
  abbrev IsAbove : ℕ → Visits V → Type 0
  IsAbove n s = (x : String) → lookup_or false x s.visiting ≡ true → n < suc (rank x)

  visit_deps-Succeeds :
      (v : String → Visits V → Result OrderError (Visits V)) (id : String) (deps : List String)
      (n : ℕ) (s : Visits V)
      → Visiting by_id v
      → ((dep : String) (t : Visits V)
          → IsSound by_id t
          → IsBelow n dep
          → IsAbove n t
          → Succeeds (v dep t))
      → IsSound by_id s
      → All (IsBelow n) deps
      → IsAbove n s
      → Succeeds (visit_deps v by_id id deps s)
  unfolding visit_deps
  visit_deps-Succeeds v id [] n s g f h b m = inr (s, refl)
  visit_deps-Succeeds v id (dep ∷ deps) n s g f h b m = elim (Option-cases (lookup dep by_id)) [
    | inl missing ↦
        let there : is_some (lookup dep by_id) ≡ true = b.0.0 in
        absurd (ground (arith, there, missing))
    | inr (step, found) ↦ elim (f dep s h b.0 m) [
      | inl ends ↦ inl (ground (arith, found, ends))
      | inr (u, good) ↦
          let grown = (g dep s u h good).0 in
          elim (visit_deps-Succeeds v id deps n u g f grown.sound b.1
            (λ x k. m x (sym (grown.same x) ∙ k))) [
              | inl ends ↦ inl (ground (arith, found, good, ends))
              | inr (t, done) ↦ inr (t, ground (arith, found, good, done))
            ]
    ]
  ]

  enter-IsAbove :
      (id : String) (s : Visits V) → IsAbove (suc (rank id)) s → IsAbove (rank id) (enter id s)
  unfolding enter
  enter-IsAbove id s m x k = elim (Bool-cases (id == x)) [
    | inl same ↦
        let e : id ≡ x = ground (arith, same, eq_iff id x) in
        subst (λ y. rank id < suc (rank y)) e (omega arith)
    | inr other ↦
        let before : lookup_or false x s.visiting ≡ true =
          ground (arith, k, lookup_or-insert false id x true s.visiting, other) in
        omega (arith, m x before)
  ]

  visit-Succeeds :
      (fuel : ℕ) (id : String) (s : Visits V)
      → IsKeyed by_id
      → IsRanked
      → IsSound by_id s
      → is_some (lookup id by_id) ≡ true
      → IsAbove (suc (rank id)) s
      → Succeeds (visit fuel by_id id s)
  unfolding visit
  visit-Succeeds zero id s keyed ranked h there m = inl refl
  visit-Succeeds (suc fuel) id s keyed ranked h there m =
      elim (Bool-cases (lookup_or false id s.visited)) [
        | inl before ↦ inr (s, ground (arith, before))
        | inr fresh ↦ elim (Bool-cases (lookup_or false id s.visiting)) [
          | inl inside ↦ absurd (omega (arith, m id inside))
          | inr outside ↦ elim (Option-cases (lookup id by_id)) [
            | inl missing ↦ absurd (ground (arith, there, missing))
            | inr (step, found) ↦
                elim (visit_deps-Succeeds (visit fuel by_id) id step.depends_on (rank id)
                  (enter id s) (visit-Grows by_id fuel keyed)
                  (λ dep t ht b mt.
                    visit-Succeeds fuel dep t keyed ranked ht b.0
                      (λ x k. omega (arith, mt x k, b.1)))
                  (enter-IsSound by_id id s h) (ranked id step found) (enter-IsAbove id s m)) [
                    | inl ends ↦ inl (ground (arith, fresh, outside, found, ends))
                    | inr (u, good) ↦
                        inr (leave step id u, ground (arith, fresh, outside, found, good))
                  ]
          ]
        ]
      ]

  visit_steps-Succeeds :
      (fuel : ℕ) (steps : List (Step V)) (s : Visits V)
      → IsKeyed by_id
      → IsRanked
      → IsSound by_id s
      → All (λ (step : Step V). is_some (lookup step.id by_id) ≡ true) steps
      → ((x : String) → lookup_or false x s.visiting ≡ false)
      → Succeeds (visit_steps fuel by_id steps s)
  unfolding visit_steps
  visit_steps-Succeeds fuel [] s keyed ranked h all none_open = inr (s, refl)
  visit_steps-Succeeds fuel (step ∷ steps) s keyed ranked h all none_open =
      elim (visit-Succeeds fuel step.id s keyed ranked h all.0
        (λ x k. absurd (ground (arith, k, none_open x)))) [
          | inl ends ↦ inl (ground (arith, ends))
          | inr (u, good) ↦
              let grown = (visit-Grows by_id fuel keyed step.id s u h good).0 in
              elim (visit_steps-Succeeds fuel steps u keyed ranked grown.sound all.1
                (λ x. grown.same x ∙ none_open x)) [
                  | inl ends ↦ inl (ground (arith, good, ends))
                  | inr (t, done) ↦ inr (t, ground (arith, good, done))
                ]
        ]

-- The dependencies of the steps are steps of the workflow, and lead to lower ranks.
abbrev pub IsAcyclic : {V : Type 0} → (String → ℕ) → List (Step V) → Type 0
IsAcyclic {V} rank steps =
    All
      (λ (step : Step V).
        All (λ dep. (placed dep steps ≡ true) × (rank dep < rank step.id)) step.depends_on)
      steps

module _ {V : Type 0} where
  step_with-All :
      (P : Step V → Type 0) (steps : List (Step V)) (x : String) (step : Step V)
      → All P steps
      → step_with x steps ≡ some step
      → P step
  unfolding step_with
  step_with-All P [] x step h k = absurd (cc)
  step_with-All P (s ∷ steps) x step h k = elim (Bool-cases (s.id == x)) [
    | inl here ↦ let e : s ≡ step = ground (arith, k, here) in subst P e h.0
    | inr other ↦ step_with-All P steps x step h.1 (ground (arith, k, other))
  ]

  placed_self :
      (before steps : List (Step V))
      → ((x : String) → placed x steps ≡ true → placed x before ≡ true)
      → All (λ (step : Step V). placed step.id before ≡ true) steps
  unfolding placed
  placed_self before [] f = tt
  placed_self before (step ∷ steps) f = (
    f step.id (ground (arith, eq_iff step.id step.id)),
    placed_self before steps (λ x k. f x (ground (arith, k))),
  )

  -- If every step of a workflow has an id and an action's name, no id stands twice, and there is a
  -- rank that falls from each step to its dependencies, which are all steps of the workflow, then
  -- `validateAndOrder` finds an order.
  pub validate_and_order_total :
      (rank : String → ℕ) (steps : List (Step V))
      → All IsNamed steps
      → IsUniquelyNamed steps
      → IsAcyclic rank steps
      → (ordered : List (Step V)) × (validate_and_order steps ≡ ok ordered)
  unfolding validate_and_order lookup_or lookup
  validate_and_order_total rank steps named unique acyclic =
      let (by_id, good) = check_steps-total steps named unique in
      let there : (x : String) → is_some (lookup x by_id) ≡ placed x steps = λ x.
        ap (λ (o : Option (Step V)). is_some o) (lookup-check_steps by_id steps x good)
        ∙ is_some-step_with x steps in
      elim (visit_steps-Succeeds by_id rank (suc (length steps)) steps no_visits
        (check_steps-IsKeyed by_id steps good)
        (λ x step found.
          let k : step_with x steps ≡ some step =
            sym (lookup-check_steps by_id steps x good) ∙ found in
          subst (λ y. All (IsBelow by_id rank (rank y)) step.depends_on)
            (step_with-id x steps step k)
            (All-map (λ dep d. (there dep ∙ d.0, d.1)) step.depends_on
              (step_with-All
                (λ (s : Step V).
                  All (λ dep. (placed dep steps ≡ true) × (rank dep < rank s.id)) s.depends_on)
                steps x step acyclic k)))
        (no_visits-IsSound by_id)
        (All-map (λ (s : Step V) k. there s.id ∙ k) steps (placed_self steps steps (λ x k. k)))
        none_open) [
          | inl ends ↦ absurd (validate_and_order_ends steps (ground (arith, good, ends)))
          | inr (t, done) ↦ (t.ordered, ground (arith, good, done))
        ]
    where
      none_open : (x : String) → lookup_or false x [] ≡ false
      none_open x = refl
