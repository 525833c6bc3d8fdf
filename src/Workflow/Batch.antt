-- ===== src/Workflow/Batch.antt =====
-- The parts of the executor in workflow/workflow.go that call nothing outside: which steps are ready,
-- and what the outcome of a step makes of the results.
use agentsdk.Prelude.{
  ℕ, String, Bool, true, false, Option, none, some, List, [], ◌∷◌, ◌&&◌, if◌then◌else◌, nat_eq,
  is_some,
}
use agentsdk.Prelude.Dict.{Dict, lookup_or, insert}
use agentsdk.Workflow.{Step, step_error_fail, step_error_continue}
use agentsdk.Workflow.Host.{StepError, ActionResult, step_error, StepOutcome, Progress}

unfoldable pub deps_done : Dict Bool → List String → Bool
unfolding lookup_or
deps_done done [] = true
deps_done done (dep ∷ deps) = lookup_or false dep done && deps_done done deps

module _ {V : Type 0} where
  abbrev pub has_value : Option (ActionResult V) → Bool
  has_value none = false
  has_value (some res) = is_some res.value

  abbrev pub max_attempts : Step V → ℕ
  max_attempts step = if nat_eq step.retry.max_attempts 0 then 1 else step.retry.max_attempts

  -- Whether an error of a step ends the run.
  abbrev pub ends_run : Step V → Option StepError → Option StepError
  ends_run step none = none
  ends_run step (some e) = elim step.error_policy [
    | step_error_continue ↦ none
    | step_error_fail ↦ some e
  ]

  abbrev pub next_last : StepOutcome V → Option V → Option V
  next_last o last = elim o.error [
    | some _ ↦ last
    | none ↦ if o.skipped then last else o.result.value
  ]

  unfoldable pub ready_steps : List (Step V) → Dict Bool → List (Step V)
  unfolding deps_done lookup_or
  ready_steps [] done = []
  ready_steps (step ∷ steps) done =
      let rest = ready_steps steps done in
      if lookup_or false step.id done
      then rest
      else if deps_done done step.depends_on
      then step ∷ rest
      else rest

  -- The loop over the outcomes of a batch.
  unfoldable pub collect : List (Step V × StepOutcome V) → Progress V → Progress V
  unfolding insert
  collect [] p = p
  collect ((step, o) ∷ os) p =
      let results = insert step.id o.result p.results in
      let done = insert step.id true p.done in
      elim (ends_run step o.error) [
        | some e ↦ record {
          results = results;
          done = done;
          last = p.last;
          error = some (step_error e);
        }
        | none ↦
            collect os
              (record { results = results; done = done; last = next_last o p.last; error = none })
      ]

  abbrev pub start_progress : Option V → Progress V
  start_progress input = record { results = []; done = []; last = input; error = none }
