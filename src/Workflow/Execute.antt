-- ===== src/Workflow/Execute.antt =====
-- The executor of workflow/workflow.go. The steps of a parallel batch run one after the other, each
-- with the results from before the batch.
pub mod Ready
pub mod Ending
pub mod Timeouts
pub mod Plain
pub mod Reported
use agentsdk.Prelude.{
  ℕ, zero, suc, ◌+◌, ◌-◌, String, Bool, true, false, not, Option, none, some, List, [], ◌∷◌, ◌++◌,
  ◌==◌, ◌&&◌, ◌||◌, if◌then◌else◌, nat_eq, ltb, leb, length, is_some, take,
}
use agentsdk.Prelude.Dict.{Dict, lookup, lookup_or, insert}
use agentsdk.Prelude.Result.{Result, ok, err}
use agentsdk.Workflow.{
  ActionRef, Condition, Step, Definition, StepErrorPolicy, step_error_fail, step_error_continue,
}
use agentsdk.Workflow.Order.{OrderError, validate_and_order}
use agentsdk.Workflow.Run.{
  ValueRef, RunMetadata, Opening, StepEvent, Closing, Event, started, step_started, step_completed,
  step_failed, step_skipped, completed, failed, canceled, inline_value,
}
use agentsdk.Workflow.Host.{
  StepError, canceled_error, action_error, output_invalid, action_not_found, input_invalid,
  attempts_failed, ActionResult, no_result, RunError, step_error, order_error, context_error,
  no_resolver, no_runnable, out_of_fuel, Host, Executor, Trail, StepOutcome, LoopOutcome, Progress,
  RunOutcome,
}
use agentsdk.Workflow.Batch.{
  has_value, max_attempts, ends_run, next_last, deps_done, ready_steps, collect, start_progress,
}

module _ {W V A : Type 0} (host : Host W V A) where
  abbrev pub emit : Event V → Trail W V → Trail W V
  emit e t = record { world = host.on_event e t.world; events = t.events ++ e ∷ [] }

  abbrev pub value_ref_for : Option V → ValueRef V
  value_ref_for none = inline_value none
  value_ref_for (some v) = elim (host.as_value_ref v) [
    | some ref ↦ ref
    | none ↦ inline_value (some v)
  ]

  abbrev pub equals_or : Bool → Option V → Option (ActionResult V) → Bool
  equals_or matched none res = matched
  equals_or matched (some v) none = false
  equals_or matched (some v) (some res) = elim res.value [
    | none ↦ false
    | some d ↦ host.deep_equal d v
  ]

  unfoldable pub condition_matches : Condition V → Dict (ActionResult V) → Bool
  unfolding lookup
  condition_matches c results =
      let res = lookup c.step_id results in
      let matched = equals_or (if c.exists then has_value res else is_some res) c.equals res in
      if c.step_id == "" then true else if c.negated then not matched else matched

  abbrev pub event_of : String → Definition V → Step V → W → StepEvent
  event_of run def step w = record {
    run_id = run;
    workflow_name = def.name;
    step_id = step.id;
    action_name = step.action.name;
    action_version = step.action.version;
    idempotency_key = step.idempotency_key;
    at = host.now w;
  }

  -- The error of an attempt: the action's, the step context's, or the output's. The code cancels the
  -- step's context before it asks for its error, which is then not nil, whatever the time was.
  abbrev pub attempt_error : Step V → A → ActionResult V → W → Option StepError
  attempt_error step a res w =
      let timed_out = (if ltb 0 step.timeout then some (host.canceled_text w) else none) in
      elim res.error [
        | some e ↦ some e
        | none ↦ elim timed_out [
          | some text ↦ some (canceled_error text)
          | none ↦ host.check_output a res.value
        ]
      ]

  abbrev pub finished : ActionResult V → Option StepError → Trail W V → StepOutcome V × Trail W V
  finished res e t = (record { result = res; skipped = false; error = e }, t)

  -- The loop over the attempts: `left` attempts from attempt `n` on, after the result `last`.
  unfoldable pub attempts_from :
      String
      → Definition V
      → Step V
      → A
      → Option V
      → (left n : ℕ) → ActionResult V
      → StepError
      → Trail W V
      → StepOutcome V × Trail W V
  attempts_from run def step a input zero n last e t =
      finished last (some (attempts_failed step.id e)) t
  attempts_from run def step a input (suc left) n last e t =
      let opened = emit (step_started (event_of run def step t.world) n) t in
      let (res, w) = host.run_action a input step.timeout opened.world in
      let ran : Trail W V = record { world = w; events = opened.events ++ res.events } in
      elim (attempt_error step a res w) [
        | none ↦
            finished res none
              (emit (step_completed (event_of run def step w) n (value_ref_for res.value)) ran)
        | some x ↦
            let bad : ActionResult V = record res { error = some x } in
            let told = emit (step_failed (event_of run def step w) n (host.step_text x)) ran in
            elim (host.ctx_err told.world) [
              | some text ↦ finished bad (some (canceled_error text)) told
              | none ↦ elim (ltb 0 left && ltb 0 step.retry.backoff) [
                | false ↦ attempts_from run def step a input left (suc n) bad x told
                | true ↦
                    let (over, later) = host.wait step.retry.backoff told.world in
                    let waited : Trail W V = record told { world = later } in
                    elim over [
                      | false ↦ attempts_from run def step a input left (suc n) bad x waited
                      | true ↦
                          finished bad (some (canceled_error (text_or_blank (host.ctx_err later))))
                            waited
                    ]
              ]
            ]
      ]
    where
      text_or_blank : Option String → String
      text_or_blank none = ""
      text_or_blank (some text) = text

  unfoldable pub execute_step :
      String
      → Definition V
      → Step V
      → Option V
      → Dict (ActionResult V)
      → Trail W V
      → StepOutcome V × Trail W V
  unfolding condition_matches attempts_from
  execute_step run def step initial results t =
      let failing : StepError → ActionResult V =
        λ x. record { status_error = false; value = none; error = some x; events = [] } in
      elim (host.ctx_err t.world) [
        | some text ↦ finished (failing (canceled_error text)) (some (canceled_error text)) t
        | none ↦ elim (condition_matches step.when results) [
          | false ↦ (
            record { result = no_result; skipped = true; error = none },
            emit (step_skipped (event_of run def step t.world) "condition false") t,
          )
          | true ↦ elim (host.resolve step.action t.world) [
            | none ↦
                finished (failing (action_not_found step.id)) (some (action_not_found step.id)) t
            | some a ↦
                let input = host.step_input step initial results in
                elim (host.check_input a input) [
                  | some x ↦
                      let e = input_invalid step.id x in
                      finished (failing e) (some e)
                        (emit (step_failed (event_of run def step t.world) 1 (host.step_text e)) t)
                  | none ↦
                      attempts_from run def step a input (max_attempts step) 1 no_result
                        (action_error "") t
                ]
          ]
        ]
      ]

  unfoldable pub sequential_from :
      String
      → Definition V
      → Option V
      → List (Step V)
      → Dict (ActionResult V)
      → Option V
      → Trail W V
      → LoopOutcome V × Trail W V
  unfolding execute_step insert
  sequential_from run def input [] results last t =
      (record { results = results; last = last; error = none }, t)
  sequential_from run def input (step ∷ steps) results last t =
      let (o, after) = execute_step run def step input results t in
      let now = insert step.id o.result results in
      elim (ends_run step o.error) [
        | some e ↦ (record { results = now; last = last; error = some (step_error e) }, after)
        | none ↦ sequential_from run def input steps now (next_last o last) after
      ]

  -- The goroutines of a batch.
  unfoldable pub run_batch :
      String
      → Definition V
      → Option V
      → Dict (ActionResult V)
      → List (Step V)
      → Trail W V
      → List (Step V × StepOutcome V) × Trail W V
  unfolding execute_step
  run_batch run def input results [] t = ([], t)
  run_batch run def input results (step ∷ steps) t =
      let (o, after) = execute_step run def step input results t in
      let (os, last) = run_batch run def input results steps after in ((step, o) ∷ os, last)

  -- The loop of `executeParallel`. A round that goes on makes a step done, so one more than the steps
  -- is fuel enough.
  unfoldable pub parallel_from :
      ℕ
      → ℕ
      → String
      → Definition V
      → Option V
      → List (Step V)
      → Progress V
      → Trail W V
      → Progress V × Trail W V
  unfolding ready_steps run_batch collect
  parallel_from zero limit run def input ordered p t = (record p { error = some out_of_fuel }, t)
  parallel_from (suc fuel) limit run def input ordered p t =
      elim (ltb (length p.done) (length ordered)) [
        | false ↦ (p, t)
        | true ↦ elim (host.ctx_err t.world) [
          | some text ↦ (record p { error = some (context_error text) }, t)
          | none ↦ elim (take limit (ready_steps ordered p.done)) [
            | [] ↦ (record p { error = some no_runnable }, t)
            | step ∷ steps ↦
                let (os, after) = run_batch run def input p.results (step ∷ steps) t in
                let q = collect os p in
                elim q.error [
                  | some _ ↦ (q, after)
                  | none ↦ parallel_from fuel limit run def input ordered q after
                ]
          ]
        ]
      ]

  abbrev pub loop_outcome : Progress V × Trail W V → LoopOutcome V × Trail W V
  loop_outcome (p, t) = (record { results = p.results; last = p.last; error = p.error }, t)

  unfoldable pub execute_steps :
      Executor V → Definition V → List (Step V) → Option V → Trail W V → LoopOutcome V × Trail W V
  unfolding sequential_from parallel_from
  execute_steps e def ordered input t = elim (ltb 1 e.max_concurrency) [
    | false ↦ sequential_from e.run_id def input ordered [] input t
    | true ↦ loop_outcome (
        parallel_from (suc (length ordered)) e.max_concurrency e.run_id def input ordered
          (start_progress input) t)
  ]

  abbrev pub closing_of : Executor V → Definition V → W → Closing
  closing_of e def w = record { run_id = e.run_id; workflow_name = def.name; at = host.now w }

  abbrev pub ended :
      Option (LoopOutcome V) → Option RunError → Event V → Trail W V → RunOutcome V × W
  ended o x event t =
      let last = emit event t in
      (record { outcome = o; error = x; events = last.events }, last.world)

  -- `cancel` and `fail`
  abbrev pub cancel :
      Executor V → Definition V → Option (LoopOutcome V) → String → Trail W V → RunOutcome V × W
  cancel e def o text t =
      ended o (some (context_error text)) (canceled (closing_of e def t.world) text) t

  abbrev pub fail :
      Executor V → Definition V → Option (LoopOutcome V) → RunError → Trail W V → RunOutcome V × W
  fail e def o x t = ended o (some x) (failed (closing_of e def t.world) (host.text_of x)) t

  abbrev pub or_text : String → String → String
  or_text text other = if text == "" then other else text

  abbrev pub started_event : Executor V → Definition V → W → Event V
  started_event e def w = started (record {
    run_id = e.run_id;
    workflow_name = def.name;
    metadata = e.metadata;
    input = e.input;
    definition_hash = or_text e.definition_hash (host.definition_hash def);
    definition_version = or_text e.definition_version def.version;
    at = host.now w;
  })

  abbrev pub settle : Executor V → Definition V → LoopOutcome V × Trail W V → RunOutcome V × W
  settle e def (o, t) = elim o.error [
    | none ↦ ended (some o) none (completed (closing_of e def t.world) (value_ref_for o.last)) t
    | some x ↦ elim (host.ctx_err t.world) [
      | some text ↦ cancel e def (some o) text t
      | none ↦ fail e def (some o) x t
    ]
  ]

  unfoldable pub execute : Executor V → Definition V → Option V → W → RunOutcome V × W
  unfolding validate_and_order execute_steps
  execute e def input w =
      let t : Trail W V = record { world = w; events = [] } in
      elim (host.ctx_err w) [
        | some text ↦ cancel e def none text t
        | none ↦ elim host.has_resolver [
          | false ↦ fail e def none no_resolver t
          | true ↦ elim (validate_and_order def.steps) [
            | err x ↦ fail e def none (order_error x) t
            | ok ordered ↦
                settle e def (execute_steps e def ordered input (emit (started_event e def w) t))
          ]
        ]
      ]
