-- ===== src/Workflow/Execute/Ending.antt =====
-- The loops over the steps in workflow/workflow.go end, and never for want of a step to run.
use agentsdk.Prelude.{
  ℕ, zero, suc, ◌≤◌, ◌<◌, String, Bool, true, false, Option, none, some, List, [], ◌∷◌, ◌==◌, ◌≡◌,
  ◌≢◌, refl, ap, sym, ◌∙◌, subst, arith, inl, inr, Bool-cases, Option-cases, List-cases,
  if◌then◌else◌, ltb, length, take, eq_iff, eq_refl,
}
use agentsdk.Prelude.Dict.{Dict, insert, lookup_or-insert}
use agentsdk.Prelude.Result.{ok}
use agentsdk.Workflow.{Step, Definition}
use agentsdk.Workflow.Order.{validate_and_order}
use agentsdk.Workflow.Order.Placing.{placed, IsDepsFirst}
use agentsdk.Workflow.Order.Checked.{step_with}
use agentsdk.Workflow.Order.Correct.{validate_and_order-IsDepsFirst}
use agentsdk.Workflow.Host.{
  ActionResult, RunError, no_runnable, out_of_fuel, Host, Executor, Trail, StepOutcome, Progress,
}
use agentsdk.Workflow.Batch.{ends_run, next_last, deps_done, ready_steps, collect, start_progress}
use agentsdk.Workflow.Execute.{
  execute_step, sequential_from, run_batch, parallel_from, execute_steps,
}
use agentsdk.Workflow.Execute.Ready.{is_done, ready_steps_live}

abbrev Grown : Dict Bool → Dict Bool → Type 0
Grown done more = (x : String) → is_done x done ≡ true → is_done x more ≡ true

-- The loop ended as it does for the steps: not for want of a step, nor of fuel.
abbrev pub IsFair : Option RunError → Type 0
IsFair error = (error ≢ some no_runnable) × (error ≢ some out_of_fuel)

module _ {V : Type 0} where
  -- How many steps of the list are not done.
  abbrev undone : List (Step V) → Dict Bool → ℕ
  undone [] done = 0
  undone (step ∷ l) done = if is_done step.id done then undone l done else suc (undone l done)

  undone-length : (l : List (Step V)) (done : Dict Bool) → undone l done ≤ length l
  undone-length [] done = omega arith
  undone-length (step ∷ l) done = ground (arith, undone-length l done)

  undone_le :
      (l : List (Step V)) (done more : Dict Bool) → Grown done more → undone l more ≤ undone l done
  undone_le [] done more h = omega arith
  undone_le (step ∷ l) done more h = ground (arith, undone_le l done more h, h step.id)

  undone_lt :
      (l : List (Step V)) (done more : Dict Bool) (x : String)
      → Grown done more
      → placed x l ≡ true
      → is_done x done ≡ false
      → is_done x more ≡ true
      → undone l more < undone l done
  unfolding placed
  undone_lt [] done more x h m n k = absurd (cc)
  undone_lt (step ∷ l) done more x h m n k = elim (Bool-cases (step.id == x)) [
    | inl here ↦
        let e : step.id ≡ x = ground (arith, here, eq_iff step.id x) in
        let before : is_done step.id done ≡ false = ap (λ y. is_done y done) e ∙ n in
        let after : is_done step.id more ≡ true = ap (λ y. is_done y more) e ∙ k in
        ground (arith, undone_le l done more h, before, after)
    | inr other ↦
        ground (arith, undone_lt l done more x h (ground (arith, m, other)) n k, h step.id)
  ]

  ready_steps-head :
      (l : List (Step V)) (done : Dict Bool) (step : Step V) (rest : List (Step V))
      → ready_steps l done ≡ step ∷ rest
      → (placed step.id l ≡ true) × (is_done step.id done ≡ false)
  unfolding ready_steps placed
  ready_steps-head [] done step rest h = absurd (cc)
  ready_steps-head (s ∷ l) done step rest h = elim (Bool-cases (is_done s.id done)) [
    | inl yet ↦
        let (p, d) = ready_steps-head l done step rest (ground (arith, h, yet)) in
        (ground (arith, p), d)
    | inr not_yet ↦ elim (Bool-cases (deps_done done s.depends_on)) [
      | inl ready ↦
          let e : s ≡ step = ground (arith, h, not_yet, ready) in
          subst
            (λ (x : Step V).
              ((if s.id == x.id then true else placed x.id l) ≡ true) × (is_done x.id done ≡ false))
            e (ground (arith, eq_refl s.id), not_yet)
      | inr waits ↦
          let (p, d) = ready_steps-head l done step rest (ground (arith, h, not_yet, waits)) in
          (ground (arith, p), d)
    ]
  ]

  take-cons :
      (n : ℕ) (l : List (Step V)) (step : Step V) (rest : List (Step V))
      → take n l ≡ step ∷ rest
      → (r : List (Step V)) × (l ≡ step ∷ r)
  take-cons zero l step rest h = absurd (cc)
  take-cons (suc n) [] step rest h = absurd (cc)
  take-cons (suc n) (s ∷ l) step rest h = let e : s ≡ step = cc in (l, ap (λ (x : Step V). x ∷ l) e)

  take-nil : (n : ℕ) (l : List (Step V)) → 0 < n → take n l ≡ [] → l ≡ []
  take-nil zero l n h = absurd (omega arith)
  take-nil (suc n) [] m h = refl
  take-nil (suc n) (s ∷ l) m h = absurd (cc)

  collect-Grown :
      (os : List (Step V × StepOutcome V)) (p : Progress V) → Grown p.done (collect os p).done
  unfolding collect
  collect-Grown [] p x h = h
  collect-Grown ((step, o) ∷ os) p x h =
      let now : is_done x (insert step.id true p.done) ≡ true =
        ground (arith, h, lookup_or-insert false step.id x true p.done) in
      elim (Option-cases (ends_run step o.error)) [
        | inr (e, bad) ↦ ground (arith, bad, now)
        | inl good ↦ ground (
          arith,
          good,
          collect-Grown os
              (record {
                results = insert step.id o.result p.results;
                done = insert step.id true p.done;
                last = next_last o p.last;
                error = none;
              })
              x now,
        )
      ]

  collect-head :
      (step : Step V) (o : StepOutcome V) (os : List (Step V × StepOutcome V)) (p : Progress V)
      → is_done step.id (collect ((step, o) ∷ os) p).done ≡ true
  unfolding collect
  collect-head step o os p =
      let now : is_done step.id (insert step.id true p.done) ≡ true =
        ground (arith, lookup_or-insert false step.id step.id true p.done, eq_refl step.id) in
      elim (Option-cases (ends_run step o.error)) [
        | inr (e, bad) ↦ ground (arith, bad, now)
        | inl good ↦ ground (
          arith,
          good,
          collect-Grown os
              (record {
                results = insert step.id o.result p.results;
                done = insert step.id true p.done;
                last = next_last o p.last;
                error = none;
              })
              step.id now,
        )
      ]

  collect-IsFair :
      (os : List (Step V × StepOutcome V)) (p : Progress V)
      → p.error ≡ none
      → IsFair (collect os p).error
  unfolding collect
  collect-IsFair [] p h = (λ k. cc, λ k. cc)
  collect-IsFair ((step, o) ∷ os) p h = elim (Option-cases (ends_run step o.error)) [
    | inr (e, bad) ↦ (λ k. ground (arith, k, bad), λ k. ground (arith, k, bad))
    | inl good ↦
        let (a, b) =
          collect-IsFair os
            (record {
              results = insert step.id o.result p.results;
              done = insert step.id true p.done;
              last = next_last o p.last;
              error = none;
            })
            refl in
        (λ k. a (ground (arith, k, good)), λ k. b (ground (arith, k, good)))
  ]

module _ {W V A : Type 0} (host : Host W V A) where
  run_batch-head :
      (run : String) (def : Definition V) (input : Option V) (results : Dict (ActionResult V))
      (step : Step V) (steps : List (Step V)) (t : Trail W V)
      → (o : StepOutcome V) × (os : List (Step V × StepOutcome V)) × ((run_batch host run def input
            results
            (step ∷ steps)
            t).0
          ≡ (step, o) ∷ os)
  unfolding run_batch
  run_batch-head run def input results step steps t = (_, _, refl)

  batch-undone :
      (run : String) (def : Definition V) (input : Option V) (ordered : List (Step V))
      (p : Progress V) (t : Trail W V) (limit : ℕ) (step : Step V) (steps : List (Step V))
      → take limit (ready_steps ordered p.done) ≡ step ∷ steps
      → undone ordered (collect (run_batch host run def input p.results (step ∷ steps) t).0 p).done
        < undone ordered p.done
  batch-undone run def input ordered p t limit step steps ready =
      let (rest, all) = take-cons limit (ready_steps ordered p.done) step steps ready in
      let (there, fresh) = ready_steps-head ordered p.done step rest all in
      let (o, os, e) = run_batch-head run def input p.results step steps t in
      undone_lt ordered p.done
        (collect (run_batch host run def input p.results (step ∷ steps) t).0 p).done step.id
        (collect-Grown (run_batch host run def input p.results (step ∷ steps) t).0 p) there fresh
        (subst (λ l. is_done step.id (collect l p).done ≡ true) (sym e) (collect-head step o os p))

  parallel_from-IsFair :
      (known : String → Option (Step V)) (fuel limit : ℕ) (run : String) (def : Definition V)
      (input : Option V) (ordered : List (Step V)) (p : Progress V) (t : Trail W V)
      → IsDepsFirst V known ordered
      → 0 < limit
      → p.error ≡ none
      → undone ordered p.done < fuel
      → IsFair (parallel_from host fuel limit run def input ordered p t).0.error
  unfolding parallel_from
  parallel_from-IsFair known zero limit run def input ordered p t o l h f =
      absurd (omega (arith, f))
  parallel_from-IsFair known (suc fuel) limit run def input ordered p t o l h f =
      elim (Bool-cases (ltb (length p.done) (length ordered))) [
        | inr over ↦ (λ k. ground (arith, over, h, k), λ k. ground (arith, over, h, k))
        | inl more ↦ elim (Option-cases (host.ctx_err t.world)) [
          | inr (text, gone) ↦
              (λ k. ground (arith, more, gone, k), λ k. ground (arith, more, gone, k))
          | inl live ↦ elim (List-cases (take limit (ready_steps ordered p.done))) [
            | inl stuck ↦ absurd (
                ready_steps_live known ordered p.done o (ground (arith, more))
                  (take-nil limit (ready_steps ordered p.done) l stuck))
            | inr (step, steps, ready) ↦
                let batch = run_batch host run def input p.results (step ∷ steps) t in
                let q = collect batch.0 p in
                elim (Option-cases q.error) [
                  | inr (x, bad) ↦
                      let (a, b) = collect-IsFair batch.0 p h in
                      (
                        λ k. a (ground (arith, k, more, live, ready, bad)),
                        λ k. b (ground (arith, k, more, live, ready, bad)),
                      )
                  | inl good ↦
                      let fewer = batch-undone run def input ordered p t limit step steps ready in
                      let (a, b) =
                        parallel_from-IsFair known fuel limit run def input ordered q batch.1 o l
                          good (omega (arith, f, fewer)) in
                      (
                        λ k. a (ground (arith, k, more, live, ready, good)),
                        λ k. b (ground (arith, k, more, live, ready, good)),
                      )
                ]
          ]
        ]
      ]

  sequential_from-IsFair :
      (run : String) (def : Definition V) (input : Option V) (steps : List (Step V))
      (results : Dict (ActionResult V)) (last : Option V) (t : Trail W V)
      → IsFair (sequential_from host run def input steps results last t).0.error
  unfolding sequential_from
  sequential_from-IsFair run def input [] results last t = (λ k. cc, λ k. cc)
  sequential_from-IsFair run def input (step ∷ steps) results last t =
      let (o, after) = execute_step host run def step input results t in
      elim (Option-cases (ends_run step o.error)) [
        | inr (e, bad) ↦ (λ k. ground (arith, k, bad), λ k. ground (arith, k, bad))
        | inl good ↦
            let (a, b) =
              sequential_from-IsFair run def input steps (insert step.id o.result results)
                (next_last o last) after in
            (λ k. a (ground (arith, k, good)), λ k. b (ground (arith, k, good)))
      ]

  -- On the order that `validateAndOrder` gives, the steps of a workflow run to an end, one after the
  -- other or in parallel batches: the loop never lacks a step that it can run, so the error of an
  -- incomplete dependency state does not occur, and it needs at most one round for each step.
  pub execute_steps_ends :
      (e : Executor V) (def : Definition V) (ordered : List (Step V)) (input : Option V)
      (t : Trail W V)
      → validate_and_order def.steps ≡ ok ordered
      → ((execute_steps host e def ordered input t).0.error ≢ some no_runnable)
        × ((execute_steps host e def ordered input t).0.error ≢ some out_of_fuel)
  unfolding execute_steps
  execute_steps_ends e def ordered input t h = elim (Bool-cases (ltb 1 e.max_concurrency)) [
    | inr one ↦
        let (a, b) = sequential_from-IsFair e.run_id def input ordered [] input t in
        (λ k. a (ground (arith, k, one)), λ k. b (ground (arith, k, one)))
    | inl many ↦
        let (a, b) =
          parallel_from-IsFair (λ x. step_with x def.steps) (suc (length ordered)) e.max_concurrency
            e.run_id def input ordered (start_progress input) t
            (validate_and_order-IsDepsFirst def.steps ordered h).0 (ground (arith, many)) refl
            (omega (arith, undone-length ordered [])) in
        (λ k. a (ground (arith, k, many)), λ k. b (ground (arith, k, many)))
  ]
