-- ===== src/Workflow/Execute/Timeouts.antt =====
-- Steps with a timeout in `executeStep` of workflow/workflow.go.
use agentsdk.Prelude.{
  ℕ, zero, suc, ◌<◌, String, true, Option, none, some, ◌++◌, ◌≡◌, ◌≢◌, arith, inl, inr, Bool-cases,
  Option-cases, ltb, ◌&&◌,
}
use agentsdk.Prelude.Dict.{Dict}
use agentsdk.Workflow.{Step, Definition}
use agentsdk.Workflow.Run.{step_started, step_failed}
use agentsdk.Workflow.Host.{
  StepError, canceled_error, ActionResult, no_result, action_error, Host, Trail,
}
use agentsdk.Workflow.Batch.{max_attempts}
use agentsdk.Workflow.Execute.{
  emit, event_of, attempt_error, attempts_from, condition_matches, execute_step,
}

module _ {W V A : Type 0} (host : Host W V A) where
  attempt_error-some :
      (step : Step V) (a : A) (res : ActionResult V) (w : W)
      → 0 < step.timeout
      → (x : StepError) × (attempt_error host step a res w ≡ some x)
  attempt_error-some step a res w h = elim (Option-cases res.error) [
    | inr (x, e) ↦ (x, ground (arith, e))
    | inl good ↦ (canceled_error (host.canceled_text w), ground (arith, good, h))
  ]

  attempts_from-fails :
      (run : String) (def : Definition V) (step : Step V) (a : A) (input : Option V) (left n : ℕ)
      (last : ActionResult V) (e : StepError) (t : Trail W V)
      → 0 < step.timeout
      → (attempts_from host run def step a input left n last e t).0.error ≢ none
  unfolding attempts_from
  attempts_from-fails run def step a input zero n last e t h k = cc
  attempts_from-fails run def step a input (suc left) n last e t h k =
      let opened = emit host (step_started (event_of host run def step t.world) n) t in
      let ran = host.run_action a input step.timeout opened.world in
      let (x, bad) = attempt_error-some step a ran.0 ran.1 h in
      let failed_result : ActionResult V = record ran.0 { error = some x } in
      let gathered : Trail W V = record { world = ran.1; events = opened.events ++ ran.0.events } in
      let told =
        emit host (step_failed (event_of host run def step ran.1) n (host.step_text x)) gathered in
      elim (Option-cases (host.ctx_err told.world)) [
        | inr (text, gone) ↦ ground (arith, k, bad, gone)
        | inl live ↦ elim (Bool-cases (ltb 0 left && ltb 0 step.retry.backoff)) [
          | inr at_once ↦
              attempts_from-fails run def step a input left (suc n) failed_result x told h
                (ground (arith, k, bad, live, at_once))
          | inl waits ↦
              let later = host.wait step.retry.backoff told.world in
              let waited : Trail W V = record told { world = later.1 } in
              elim (Bool-cases later.0) [
                | inl over ↦ ground (arith, k, bad, live, waits, over)
                | inr on ↦
                    attempts_from-fails run def step a input left (suc n) failed_result x waited h
                      (ground (arith, k, bad, live, waits, on))
              ]
        ]
      ]

  -- A step with a timeout never succeeds, in whatever time its action returns: if `executeStep`
  -- gives no error for it, the step was skipped.
  pub execute_step-timeout :
      (run : String) (def : Definition V) (step : Step V) (initial : Option V)
      (results : Dict (ActionResult V)) (t : Trail W V)
      → 0 < step.timeout
      → (execute_step host run def step initial results t).0.error ≡ none
      → (execute_step host run def step initial results t).0.skipped ≡ true
  unfolding execute_step
  execute_step-timeout run def step initial results t h k =
      elim (Option-cases (host.ctx_err t.world)) [
        | inr (text, gone) ↦ absurd (ground (arith, k, gone))
        | inl live ↦ elim (Bool-cases (condition_matches host step.when results)) [
          | inr skips ↦ ground (arith, live, skips)
          | inl runs ↦ elim (Option-cases (host.resolve step.action t.world)) [
            | inl missing ↦ absurd (ground (arith, k, live, runs, missing))
            | inr (a, found) ↦
                let input = host.step_input step initial results in
                elim (Option-cases (host.check_input a input)) [
                  | inr (x, bad) ↦ absurd (ground (arith, k, live, runs, found, bad))
                  | inl good ↦ absurd (
                      attempts_from-fails run def step a input (max_attempts step) 1 no_result
                        (action_error "") t h (ground (arith, k, live, runs, found, good)))
                ]
          ]
        ]
      ]
