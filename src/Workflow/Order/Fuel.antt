-- ===== src/Workflow/Order/Fuel.antt =====
-- The search of `validateAndOrder` in workflow/workflow.go ends.
use agentsdk.Prelude.{
  ℕ, zero, suc, ◌+◌, ◌≤◌, ◌<◌, String, true, false, some, List, [], ◌∷◌, ◌==◌, ◌≡◌, ◌≢◌, ap, sym,
  ◌∙◌, arith, inl, inr, Bool-cases, Option-cases, is_some, length, length-map, map, eq_iff, eq_refl,
}
use agentsdk.Prelude.Dict.{Dict, lookup, lookup_or, insert, lookup_or-insert}
use agentsdk.Prelude.Result.{Result, Result-cases, err}
use agentsdk.Prelude.Count.{count, length-le_of_count}
use agentsdk.Workflow.{Step}
use agentsdk.Workflow.Order.{
  OrderError, out_of_fuel, Visits, enter, visit_deps, visit, visit_steps, check_steps, no_visits,
  validate_and_order,
}
use agentsdk.Workflow.Order.Placing.{IsKeyed, IsSound, Visiting, visit-Grows, enter-IsSound}
use agentsdk.Workflow.Order.Checked.{step_with, lookup-check_steps, check_steps-IsKeyed}
use agentsdk.Workflow.Order.Correct.{no_visits-IsSound}

module _ {V : Type 0} where
  abbrev ids : List (Step V) → List String
  ids steps = map {A = Step V} (λ step. step.id) steps

  count-ids :
      (steps : List (Step V)) (x : String) (step : Step V)
      → step_with x steps ≡ some step
      → 0 < count x (ids steps)
  unfolding step_with
  count-ids [] x step h = absurd (cc)
  count-ids (s ∷ steps) x step h = elim (Bool-cases (s.id == x)) [
    | inl here ↦ ground (arith, here, eq_iff s.id x, eq_refl x)
    | inr other ↦ ground (arith, other, count-ids steps x step (ground (arith, h, other)))
  ]

  check_steps_ends :
      (by_id : Dict (Step V)) (steps : List (Step V)) → check_steps by_id steps ≢ err out_of_fuel
  unfolding check_steps
  check_steps_ends by_id [] h = cc
  check_steps_ends by_id (step ∷ steps) h =
      let next : check_steps (insert step.id step by_id) steps ≢ err out_of_fuel =
        check_steps_ends (insert step.id step by_id) steps in
      elim (Bool-cases (step.id == "")) [
        | inl blank ↦ ground (arith, h, blank)
        | inr named ↦ elim (Bool-cases (step.action.name == "")) [
          | inl blank ↦ ground (arith, h, named, blank)
          | inr acts ↦ elim (Bool-cases (is_some (lookup step.id by_id))) [
            | inl twice ↦ ground (arith, h, named, acts, twice)
            | inr new ↦ next (ground (arith, h, named, acts, new))
          ]
        ]
      ]

module _ {V : Type 0} (by_id : Dict (Step V)) (known : List String) where
  -- The path of the search: ids that are known, none of them twice, and all of them open.
  pub record IsPath (path : List String) (s : Visits V) : Type 0 where
    pub once : (x : String) → count x path ≤ count x known
    pub open_ids : (x : String) → 0 < count x path → lookup_or false x s.visiting ≡ true

  visit_deps_ends :
      (v : String → Visits V → Result OrderError (Visits V)) (id : String) (deps : List String)
      (path : List String) (s : Visits V)
      → Visiting by_id v
      → ((dep : String) (t : Visits V)
          → IsSound by_id t
          → IsPath path t
          → v dep t ≢ err out_of_fuel)
      → IsSound by_id s
      → IsPath path s
      → visit_deps v by_id id deps s ≢ err out_of_fuel
  unfolding visit_deps
  visit_deps_ends v id [] path s g f h p k = cc
  visit_deps_ends v id (dep ∷ deps) path s g f h p k = elim (Option-cases (lookup dep by_id)) [
    | inl missing ↦ ground (arith, k, missing)
    | inr (step, found) ↦ elim (Result-cases (v dep s)) [
      | inl (e, bad) ↦
          let q : e ≡ out_of_fuel = ground (arith, k, found, bad) in
          f dep s h p (bad ∙ ap (λ (x : OrderError). err x) q)
      | inr (u, good) ↦
          let grown = (g dep s u h good).0 in
          visit_deps_ends v id deps path u g f grown.sound
            (record { once = p.once; open_ids = λ x m. grown.same x ∙ p.open_ids x m })
            (ground (arith, k, found, good))
    ]
  ]

  enter-IsPath :
      (path : List String) (id : String) (s : Visits V)
      → IsPath path s
      → 0 < count id known
      → lookup_or false id s.visiting ≡ false
      → IsPath (id ∷ path) (enter id s)
  unfolding enter
  enter-IsPath path id s p there outside = record {
    once = λ x. ground (arith, p.once x, p.open_ids x, there, outside, eq_iff x id, eq_refl id);
    open_ids = λ x m. ground (
      arith,
      m,
      p.open_ids x,
      lookup_or-insert false id x true s.visiting,
      eq_iff x id,
      eq_iff id x,
    );
  }

  pub visit_ends :
      (fuel : ℕ) (path : List String) (id : String) (s : Visits V)
      → IsKeyed by_id
      → ((x : String) (step : Step V) → lookup x by_id ≡ some step → 0 < count x known)
      → IsSound by_id s
      → IsPath path s
      → length known < length path + fuel
      → visit fuel by_id id s ≢ err out_of_fuel
  unfolding visit
  visit_ends zero path id s keyed all h p n k =
      absurd (omega (arith, length-le_of_count path known p.once, n))
  visit_ends (suc fuel) path id s keyed all h p n k =
      elim (Bool-cases (lookup_or false id s.visited)) [
        | inl before ↦ ground (arith, k, before)
        | inr fresh ↦ elim (Bool-cases (lookup_or false id s.visiting)) [
          | inl inside ↦ ground (arith, k, fresh, inside)
          | inr outside ↦ elim (Option-cases (lookup id by_id)) [
            | inl missing ↦ ground (arith, k, fresh, outside, missing)
            | inr (step, found) ↦
                elim (Result-cases
                  (visit_deps (visit fuel by_id) by_id id step.depends_on (enter id s))) [
                    | inr (u, good) ↦ ground (arith, k, fresh, outside, found, good)
                    | inl (e, bad) ↦
                        let q : e ≡ out_of_fuel = ground (arith, k, fresh, outside, found, bad) in
                        visit_deps_ends (visit fuel by_id) id step.depends_on (id ∷ path)
                          (enter id s) (visit-Grows by_id fuel keyed)
                          (λ dep t ht pt.
                            visit_ends fuel (id ∷ path) dep t keyed all ht pt (omega (arith, n)))
                          (enter-IsSound by_id id s h)
                          (enter-IsPath path id s p (all id step found) outside)
                          (bad ∙ ap (λ (x : OrderError). err x) q)
                  ]
          ]
        ]
      ]

  pub visit_steps_ends :
      (fuel : ℕ) (steps : List (Step V)) (s : Visits V)
      → IsKeyed by_id
      → ((x : String) (step : Step V) → lookup x by_id ≡ some step → 0 < count x known)
      → IsSound by_id s
      → length known < fuel
      → visit_steps fuel by_id steps s ≢ err out_of_fuel
  unfolding visit_steps
  visit_steps_ends fuel [] s keyed all h n k = cc
  visit_steps_ends fuel (step ∷ steps) s keyed all h n k =
      elim (Result-cases (visit fuel by_id step.id s)) [
        | inl (e, bad) ↦
            let q : e ≡ out_of_fuel = ground (arith, k, bad) in
            visit_ends fuel [] step.id s keyed all h
              (record { once = λ x. omega arith; open_ids = λ x m. absurd (omega (arith, m)) })
              (omega (arith, n)) (bad ∙ ap (λ (x : OrderError). err x) q)
        | inr (u, good) ↦
            visit_steps_ends fuel steps u keyed all
              ((visit-Grows by_id fuel keyed step.id s u h good).0).sound n
              (ground (arith, k, good))
      ]

-- The search for an order ends for all steps, also for steps with dependency cycles, unknown
-- dependencies or ids that stand twice: the depth that it is given is never used up.
pub validate_and_order_ends :
    {V : Type 0} (steps : List (Step V)) → validate_and_order steps ≢ err out_of_fuel
unfolding validate_and_order
validate_and_order_ends {V} steps h = elim (Result-cases (check_steps [] steps)) [
  | inl (e, bad) ↦
      let q : e ≡ out_of_fuel = ground (arith, h, bad) in
      check_steps_ends [] steps (bad ∙ ap (λ (x : OrderError). err x) q)
  | inr (by_id, good) ↦
      elim (Result-cases (visit_steps (suc (length steps)) by_id steps no_visits)) [
        | inr (t, done) ↦ ground (arith, h, good, done)
        | inl (e, bad) ↦
            let q : e ≡ out_of_fuel = ground (arith, h, good, bad) in
            visit_steps_ends by_id (ids steps) (suc (length steps)) steps no_visits
              (check_steps-IsKeyed by_id steps good)
              (λ x step found.
                count-ids steps x step (sym (lookup-check_steps by_id steps x good) ∙ found))
              (no_visits-IsSound by_id)
              (omega (arith, length-map steps (λ (step : Step V). step.id)))
              (bad ∙ ap (λ (x : OrderError). err x) q)
      ]
]
