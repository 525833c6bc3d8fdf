-- ===== src/Workflow/Order/Correct.antt =====
-- What `validateAndOrder` of workflow/workflow.go returns is an order of the workflow's steps.
use agentsdk.Prelude.{
  ℕ, suc, String, Bool, true, false, Option, List, [], ◌∷◌, ◌==◌, ◌≡◌, refl, ap, sym, ◌∙◌, subst,
  arith, inl, inr, Bool-cases, is_some, length, eq_iff, All,
}
use agentsdk.Prelude.Dict.{Dict, lookup, lookup_or}
use agentsdk.Prelude.Result.{Result-cases, ok}
use agentsdk.Workflow.{Step}
use agentsdk.Workflow.Order.{Visits, check_steps, visit, visit_steps, no_visits, validate_and_order}
use agentsdk.Workflow.Order.Placing.{
  placed, placed-snoc, IsDepsFirst, start, next, IsKeyed, IsSound, Grows, Grows-refl, Grows-trans,
  visit-Grows,
}
use agentsdk.Workflow.Order.Checked.{
  step_with, is_some-step_with, lookup-check_steps, check_steps-IsKeyed,
}

same_truth : (a b : Bool) → (a ≡ true → b ≡ true) → (b ≡ true → a ≡ true) → a ≡ b
same_truth true b f g = sym (f refl)
same_truth false true f g = g refl
same_truth false false f g = refl

module _ {V : Type 0} where
  IsDepsFirst-known :
      (f g : String → Option (Step V)) (l : List (Step V))
      → ((x : String) → f x ≡ g x)
      → IsDepsFirst V f l
      → IsDepsFirst V g l
  IsDepsFirst-known f g l e start = start
  IsDepsFirst-known f g l e (next r step h k n d) =
      next r step (IsDepsFirst-known f g r e h) (sym (e step.id) ∙ k) n d

  IsDepsFirst-placed :
      (f : String → Option (Step V)) (l : List (Step V)) (x : String)
      → IsDepsFirst V f l
      → placed x l ≡ true
      → is_some (f x) ≡ true
  unfolding placed
  IsDepsFirst-placed f l x start h = absurd (cc)
  IsDepsFirst-placed f l x (next r step h k n d) m = elim (Bool-cases (step.id == x)) [
    | inl here ↦
        let e : step.id ≡ x = ground (arith, here, eq_iff step.id x) in
        ap (λ y. is_some (f y)) (sym e) ∙ ap (λ (o : Option (Step V)). is_some o) k
    | inr other ↦ IsDepsFirst-placed f r x h (ground (arith, m, placed-snoc x r step, other))
  ]

  pub no_visits-IsSound : (by_id : Dict (Step V)) → IsSound by_id no_visits
  unfolding lookup_or lookup placed
  no_visits-IsSound by_id = record { agree = λ x. refl; deps_first = start }

  visit_steps-Grows :
      (fuel : ℕ) (by_id : Dict (Step V)) (steps : List (Step V)) (s t : Visits V)
      → IsKeyed by_id
      → IsSound by_id s
      → visit_steps fuel by_id steps s ≡ ok t
      → Grows by_id s t × All (λ (step : Step V). placed step.id t.ordered ≡ true) steps
  unfolding visit_steps
  visit_steps-Grows fuel by_id [] s t keyed h k =
      let e : s ≡ t = cc in (subst (Grows by_id s) e (Grows-refl by_id s h), tt)
  visit_steps-Grows fuel by_id (step ∷ steps) s t keyed h k =
      elim (Result-cases (visit fuel by_id step.id s)) [
        | inl (e, bad) ↦ absurd (ground (arith, k, bad))
        | inr (u, good) ↦
            let (g, there) = visit-Grows by_id fuel keyed step.id s u h good in
            let (gs, all) =
              visit_steps-Grows fuel by_id steps u t keyed g.sound (ground (arith, k, good)) in
            (Grows-trans by_id s u t g gs, (gs.keeps step.id there, all))
      ]

  All-placed :
      (steps l : List (Step V)) (x : String)
      → All (λ (step : Step V). placed step.id l ≡ true) steps
      → placed x steps ≡ true
      → placed x l ≡ true
  unfolding placed
  All-placed [] l x h m = absurd (cc)
  All-placed (step ∷ steps) l x h m = elim (Bool-cases (step.id == x)) [
    | inl here ↦
        let e : step.id ≡ x = ground (arith, here, eq_iff step.id x) in
        subst (λ y. placed y l ≡ true) e h.0
    | inr other ↦ All-placed steps l x h.1 (ground (arith, m, other))
  ]

  -- Steps that `validateAndOrder` accepts come back in an order that runs them: each step of the
  -- order is the workflow's first step of its id, no id stands twice, each step's dependencies stand
  -- before it, and the ids of the order are exactly the ids of the workflow.
  pub validate_and_order-IsDepsFirst :
      (steps ordered : List (Step V))
      → validate_and_order steps ≡ ok ordered
      → IsDepsFirst V (λ x. step_with x steps) ordered
        × ((x : String) → placed x ordered ≡ placed x steps)
  unfolding validate_and_order
  validate_and_order-IsDepsFirst steps ordered h = elim (Result-cases (check_steps [] steps)) [
    | inl (e, bad) ↦ absurd (ground (arith, h, bad))
    | inr (by_id, good) ↦
        elim (Result-cases (visit_steps (suc (length steps)) by_id steps no_visits)) [
          | inl (e, bad) ↦ absurd (ground (arith, h, good, bad))
          | inr (t, done) ↦
              let e : t.ordered ≡ ordered = ground (arith, h, good, done) in
              subst
                (λ l.
                  IsDepsFirst V (λ x. step_with x steps) l
                  × ((x : String) → placed x l ≡ placed x steps))
                e (result by_id t good done)
        ]
  ]
    where
      result :
          (by_id : Dict (Step V)) (t : Visits V)
          → check_steps [] steps ≡ ok by_id
          → visit_steps (suc (length steps)) by_id steps no_visits ≡ ok t
          → IsDepsFirst V (λ x. step_with x steps) t.ordered
            × ((x : String) → placed x t.ordered ≡ placed x steps)
      result by_id t good done =
          let (g, all) =
            visit_steps-Grows (suc (length steps)) by_id steps no_visits t
              (check_steps-IsKeyed by_id steps good) (no_visits-IsSound by_id) done in
          let first =
            IsDepsFirst-known (λ x. lookup x by_id) (λ x. step_with x steps) t.ordered
              (λ x. lookup-check_steps by_id steps x good) g.sound.deps_first in
          (
            first,
            λ x.
                same_truth (placed x t.ordered) (placed x steps)
                  (λ m.
                    sym (is_some-step_with x steps)
                    ∙ IsDepsFirst-placed (λ y. step_with y steps) t.ordered x first m)
                  (All-placed steps t.ordered x all),
          )
