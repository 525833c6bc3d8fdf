-- ===== src/Workflow/Order/Checked.antt =====
-- The map `byID` of `validateAndOrder` in workflow/workflow.go holds each step under its id.
use agentsdk.Prelude.{
  String, true, false, Option, none, some, List, [], ◌∷◌, ◌==◌, ◌≡◌, ◌≢◌, refl, ap, sym, ◌∙◌, arith,
  inl, inr, Bool-cases, if◌then◌else◌, is_some, eq_iff, eq_refl, All,
}
use agentsdk.Prelude.Dict.{Dict, lookup, insert, lookup-insert}
use agentsdk.Prelude.Result.{ok}
use agentsdk.Workflow.{Step}
use agentsdk.Workflow.Order.{check_steps}
use agentsdk.Workflow.Order.Placing.{placed, IsKeyed}

module _ {V : Type 0} where
  -- The step of an id.
  unfoldable pub step_with : String → List (Step V) → Option (Step V)
  step_with x [] = none
  step_with x (step ∷ steps) = if step.id == x then some step else step_with x steps

  pub is_some-step_with :
      (x : String) (steps : List (Step V)) → is_some (step_with x steps) ≡ placed x steps
  unfolding step_with placed
  is_some-step_with x [] = refl
  is_some-step_with x (step ∷ steps) = ground (arith, is_some-step_with x steps)

  pub step_with-id :
      (x : String) (steps : List (Step V)) (step : Step V)
      → step_with x steps ≡ some step
      → step.id ≡ x
  unfolding step_with
  step_with-id x [] step h = absurd (cc)
  step_with-id x (s ∷ steps) step h = elim (Bool-cases (s.id == x)) [
    | inl here ↦
        let e : s ≡ step = ground (arith, h, here) in
        ap (λ (t : Step V). t.id) (sym e) ∙ ground (arith, here, eq_iff s.id x)
    | inr later ↦ step_with-id x steps step (ground (arith, h, later))
  ]

  -- No id of the list stands twice.
  abbrev pub IsUniquelyNamed : List (Step V) → Type 0
  IsUniquelyNamed [] = Unit
  IsUniquelyNamed (step ∷ steps) = (placed step.id steps ≡ false) × IsUniquelyNamed steps

  abbrev pub IsNamed : Step V → Type 0
  IsNamed step = (step.id ≢ "") × (step.action.name ≢ "")

  check_steps-ok :
      (by_id d : Dict (Step V)) (step : Step V) (steps : List (Step V))
      → check_steps by_id (step ∷ steps) ≡ ok d
      → (lookup step.id by_id ≡ none) × (check_steps (insert step.id step by_id) steps ≡ ok d)
  unfolding check_steps
  check_steps-ok by_id d step steps h = (ground (arith, h), ground (arith, h))

  -- An id that the map holds already does not stand in the list.
  check_steps-fresh :
      (by_id d : Dict (Step V)) (steps : List (Step V)) (x : String)
      → check_steps by_id steps ≡ ok d
      → is_some (lookup x by_id) ≡ true
      → step_with x steps ≡ none
  unfolding step_with
  check_steps-fresh by_id d [] x h k = refl
  check_steps-fresh by_id d (step ∷ steps) x h k =
      let (new, rest) = check_steps-ok by_id d step steps h in
      let there : is_some (lookup x (insert step.id step by_id)) ≡ true =
        ground (arith, lookup-insert step.id x step by_id, k) in
      ground (
        arith,
        check_steps-fresh (insert step.id step by_id) d steps x rest there,
        new,
        k,
        eq_iff step.id x,
      )

  abbrev or_else : Option (Step V) → Option (Step V) → Option (Step V)
  or_else none o = o
  or_else (some s) o = some s

  check_steps-or_else :
      (by_id d : Dict (Step V)) (steps : List (Step V)) (x : String)
      → check_steps by_id steps ≡ ok d
      → lookup x d ≡ or_else (step_with x steps) (lookup x by_id)
  unfolding step_with check_steps
  check_steps-or_else by_id d [] x h = let e : by_id ≡ d = cc in ap (lookup x) (sym e)
  check_steps-or_else by_id d (step ∷ steps) x h =
      let (new, rest) = check_steps-ok by_id d step steps h in
      let b = insert step.id step by_id in
      elim (Bool-cases (step.id == x)) [
        | inl here ↦
            let there : is_some (lookup x b) ≡ true =
              ground (arith, lookup-insert step.id x step by_id, here) in
            ground (
              arith,
              check_steps-or_else b d steps x rest,
              check_steps-fresh b d steps x rest there,
              lookup-insert step.id x step by_id,
              here,
            )
        | inr other ↦
            ground (
              arith,
              check_steps-or_else b d steps x rest,
              lookup-insert step.id x step by_id,
              other,
            )
      ]

  pub lookup-check_steps :
      (d : Dict (Step V)) (steps : List (Step V)) (x : String)
      → check_steps [] steps ≡ ok d
      → lookup x d ≡ step_with x steps
  unfolding lookup
  lookup-check_steps d steps x h = check_steps-or_else [] d steps x h ∙ or_none (step_with x steps)
    where
      or_none : (o : Option (Step V)) → or_else o none ≡ o
      or_none none = refl
      or_none (some s) = refl

  pub check_steps-IsKeyed :
      (d : Dict (Step V)) (steps : List (Step V)) → check_steps [] steps ≡ ok d → IsKeyed d
  check_steps-IsKeyed d steps h x step k =
      step_with-id x steps step (sym (lookup-check_steps d steps x h) ∙ k)

  check_steps_named :
      (by_id : Dict (Step V)) (steps : List (Step V))
      → All IsNamed steps
      → IsUniquelyNamed steps
      → ((x : String) → placed x steps ≡ true → lookup x by_id ≡ none)
      → (d : Dict (Step V)) × (check_steps by_id steps ≡ ok d)
  unfolding check_steps placed
  check_steps_named by_id [] h u f = (by_id, refl)
  check_steps_named by_id (step ∷ steps) h u f =
      let (d, e) = check_steps_named (insert step.id step by_id) steps h.1 u.1 (λ x k.
        ground (arith, lookup-insert step.id x step by_id, f x, k, u.0, eq_iff step.id x)) in
      let new : lookup step.id by_id ≡ none = f step.id (ground (arith, eq_refl step.id)) in
      (d, ground (arith, e, new, h.0.0, h.0.1, eq_iff step.id "", eq_iff step.action.name ""))

  pub check_steps-total :
      (steps : List (Step V))
      → All IsNamed steps
      → IsUniquelyNamed steps
      → (d : Dict (Step V)) × (check_steps [] steps ≡ ok d)
  unfolding lookup
  check_steps-total steps h u = check_steps_named [] steps h u (λ x k. refl)
