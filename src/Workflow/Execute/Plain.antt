-- ===== src/Workflow/Execute/Plain.antt =====
-- The executor of workflow/workflow.go adds no pointers to the events, if the actions add none.
use agentsdk.Prelude.{
  ℕ, zero, suc, String, true, false, Option, some, List, [], ◌∷◌, ◌++◌, ◌≡◌, refl, arith, inl, inr,
  Bool-cases, Option-cases, List-cases, ltb, length, take, ◌&&◌,
}
use agentsdk.Prelude.Dict.{Dict, insert}
use agentsdk.Workflow.{Step, Definition}
use agentsdk.Workflow.Run.{
  Event, is_pointer, step_started, step_failed, step_completed, step_skipped,
}
use agentsdk.Workflow.Run.Last.{is_plain, is_plain-append}
use agentsdk.Workflow.Host.{
  StepError, input_invalid, ActionResult, action_error, no_result, Host, Executor, Trail, Progress,
}
use agentsdk.Workflow.Batch.{
  max_attempts, ends_run, next_last, ready_steps, collect, start_progress,
}
use agentsdk.Workflow.Execute.{
  emit, value_ref_for, event_of, attempt_error, attempts_from, condition_matches, execute_step,
  sequential_from, run_batch, parallel_from, execute_steps,
}

module _ {W V A : Type 0} (host : Host W V A) where
  -- The actions emit no pointers to workflow events.
  abbrev pub RunsPlain : Type 0
  RunsPlain =
      (a : A) (input : Option V) (timeout : ℕ) (w : W)
      → is_plain (host.run_action a input timeout w).0.events ≡ true

  pub emit-plain :
      (e : Event V) (t : Trail W V)
      → is_pointer e ≡ false
      → is_plain t.events ≡ true
      → is_plain (emit host e t).events ≡ true
  unfolding is_plain
  emit-plain e t h k = is_plain-append t.events (e ∷ []) k (ground (arith, h))

  attempts_from-plain :
      (run : String) (def : Definition V) (step : Step V) (a : A) (input : Option V) (left n : ℕ)
      (last : ActionResult V) (e : StepError) (t : Trail W V)
      → RunsPlain
      → is_plain t.events ≡ true
      → is_plain (attempts_from host run def step a input left n last e t).1.events ≡ true
  unfolding attempts_from
  attempts_from-plain run def step a input zero n last e t p h = h
  attempts_from-plain run def step a input (suc left) n last e t p h =
      let opened = emit host (step_started (event_of host run def step t.world) n) t in
      let ran = host.run_action a input step.timeout opened.world in
      let gathered : Trail W V = record { world = ran.1; events = opened.events ++ ran.0.events } in
      let plain : is_plain gathered.events ≡ true =
        is_plain-append opened.events ran.0.events
          (emit-plain (step_started (event_of host run def step t.world) n) t refl h)
          (p a input step.timeout opened.world) in
      elim (Option-cases (attempt_error host step a ran.0 ran.1)) [
        | inl good ↦ ground (
          arith,
          good,
          emit-plain
              (step_completed (event_of host run def step ran.1) n (value_ref_for host ran.0.value))
              gathered refl plain,
        )
        | inr (x, bad) ↦
            let failure = step_failed (event_of host run def step ran.1) n (host.step_text x) in
            let told = emit host failure gathered in
            let after = emit-plain failure gathered refl plain in
            let failed_result : ActionResult V = record ran.0 { error = some x } in
            elim (Option-cases (host.ctx_err told.world)) [
              | inr (text, gone) ↦ ground (arith, bad, gone, after)
              | inl live ↦ elim (Bool-cases (ltb 0 left && ltb 0 step.retry.backoff)) [
                | inr at_once ↦ ground (
                  arith,
                  bad,
                  live,
                  at_once,
                  attempts_from-plain run def step a input left (suc n) failed_result x told p
                      after,
                )
                | inl waits ↦
                    let later = host.wait step.retry.backoff told.world in
                    let waited : Trail W V = record told { world = later.1 } in
                    ground (
                      arith,
                      bad,
                      live,
                      waits,
                      after,
                      attempts_from-plain run def step a input left (suc n) failed_result x waited p
                          after,
                    )
              ]
            ]
      ]

  execute_step-plain :
      (run : String) (def : Definition V) (step : Step V) (initial : Option V)
      (results : Dict (ActionResult V)) (t : Trail W V)
      → RunsPlain
      → is_plain t.events ≡ true
      → is_plain (execute_step host run def step initial results t).1.events ≡ true
  unfolding execute_step
  execute_step-plain run def step initial results t p h =
      elim (Option-cases (host.ctx_err t.world)) [
        | inr (text, gone) ↦ ground (arith, gone, h)
        | inl live ↦ elim (Bool-cases (condition_matches host step.when results)) [
          | inr skips ↦ ground (
            arith,
            live,
            skips,
            emit-plain (step_skipped (event_of host run def step t.world) "condition false") t refl
                h,
          )
          | inl runs ↦ elim (Option-cases (host.resolve step.action t.world)) [
            | inl missing ↦ ground (arith, live, runs, missing, h)
            | inr (a, found) ↦
                let input = host.step_input step initial results in
                elim (Option-cases (host.check_input a input)) [
                  | inr (x, bad) ↦ ground (
                    arith,
                    live,
                    runs,
                    found,
                    bad,
                    emit-plain
                        (step_failed (event_of host run def step t.world) 1
                          (host.step_text (input_invalid step.id x)))
                        t refl h,
                  )
                  | inl good ↦ ground (
                    arith,
                    live,
                    runs,
                    found,
                    good,
                    attempts_from-plain run def step a input (max_attempts step) 1 no_result
                        (action_error "") t p h,
                  )
                ]
          ]
        ]
      ]

  sequential_from-plain :
      (run : String) (def : Definition V) (input : Option V) (steps : List (Step V))
      (results : Dict (ActionResult V)) (last : Option V) (t : Trail W V)
      → RunsPlain
      → is_plain t.events ≡ true
      → is_plain (sequential_from host run def input steps results last t).1.events ≡ true
  unfolding sequential_from
  sequential_from-plain run def input [] results last t p h = h
  sequential_from-plain run def input (step ∷ steps) results last t p h =
      let (o, after) = execute_step host run def step input results t in
      let k = execute_step-plain run def step input results t p h in
      elim (Option-cases (ends_run step o.error)) [
        | inr (e, bad) ↦ ground (arith, bad, k)
        | inl good ↦ ground (
          arith,
          good,
          sequential_from-plain run def input steps (insert step.id o.result results)
              (next_last o last) after p k,
        )
      ]

  run_batch-plain :
      (run : String) (def : Definition V) (input : Option V) (results : Dict (ActionResult V))
      (steps : List (Step V)) (t : Trail W V)
      → RunsPlain
      → is_plain t.events ≡ true
      → is_plain (run_batch host run def input results steps t).1.events ≡ true
  unfolding run_batch
  run_batch-plain run def input results [] t p h = h
  run_batch-plain run def input results (step ∷ steps) t p h =
      run_batch-plain run def input results steps (execute_step host run def step input results t).1
        p (execute_step-plain run def step input results t p h)

  parallel_from-plain :
      (fuel limit : ℕ) (run : String) (def : Definition V) (input : Option V)
      (ordered : List (Step V)) (q : Progress V) (t : Trail W V)
      → RunsPlain
      → is_plain t.events ≡ true
      → is_plain (parallel_from host fuel limit run def input ordered q t).1.events ≡ true
  unfolding parallel_from
  parallel_from-plain zero limit run def input ordered q t p h = h
  parallel_from-plain (suc fuel) limit run def input ordered q t p h =
      elim (Bool-cases (ltb (length q.done) (length ordered))) [
        | inr over ↦ ground (arith, over, h)
        | inl more ↦ elim (Option-cases (host.ctx_err t.world)) [
          | inr (text, gone) ↦ ground (arith, more, gone, h)
          | inl live ↦ elim (List-cases (take limit (ready_steps ordered q.done))) [
            | inl stuck ↦ ground (arith, more, live, stuck, h)
            | inr (step, steps, ready) ↦
                let batch = run_batch host run def input q.results (step ∷ steps) t in
                let k = run_batch-plain run def input q.results (step ∷ steps) t p h in
                elim (Option-cases (collect batch.0 q).error) [
                  | inr (x, bad) ↦ ground (arith, more, live, ready, bad, k)
                  | inl good ↦ ground (
                    arith,
                    more,
                    live,
                    ready,
                    good,
                    parallel_from-plain fuel limit run def input ordered (collect batch.0 q) batch.1
                        p k,
                  )
                ]
          ]
        ]
      ]

  pub execute_steps-plain :
      (e : Executor V) (def : Definition V) (ordered : List (Step V)) (input : Option V)
      (t : Trail W V)
      → RunsPlain
      → is_plain t.events ≡ true
      → is_plain (execute_steps host e def ordered input t).1.events ≡ true
  unfolding execute_steps
  execute_steps-plain e def ordered input t p h = ground (
    arith,
    sequential_from-plain e.run_id def input ordered [] input t p h,
    parallel_from-plain (suc (length ordered)) e.max_concurrency e.run_id def input ordered
        (start_progress input) t p h,
  )
