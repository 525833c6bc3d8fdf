-- ===== src/Workflow/Execute/Reported.antt =====
-- What `Projector` of workflow/run.go reads in the events that `Execute` of workflow/workflow.go
-- returns.
use agentsdk.Prelude.{
  String, true, Option, none, some, [], ◌≡◌, refl, ap, sym, subst, arith, ◌⊎◌, inl, inr, Bool-cases,
  Option-cases,
}
use agentsdk.Prelude.Result.{Result-cases, ok}
use agentsdk.Workflow.{Definition}
use agentsdk.Workflow.Order.{validate_and_order}
use agentsdk.Workflow.Run.{
  RunState, run_succeeded, run_failed, run_canceled, update, project_run, completed, failed,
  canceled,
}
use agentsdk.Workflow.Run.Last.{is_plain, project_run-snoc}
use agentsdk.Workflow.Host.{
  RunError, order_error, no_resolver, context_error, Host, Executor, Trail, LoopOutcome, RunOutcome,
}
use agentsdk.Workflow.Execute.{
  emit, value_ref_for, execute_steps, closing_of, ended, cancel, fail, started_event, settle,
  execute,
}
use agentsdk.Workflow.Execute.Plain.{RunsPlain, emit-plain, execute_steps-plain}

module _ {W V A : Type 0} (host : Host W V A) where
  abbrev pub Reports : Option RunError → Option (LoopOutcome V) → RunState V → Type 0
  Reports none o state =
      (state.status ≡ run_succeeded)
      × (state.error ≡ "")
      × ((l : LoopOutcome V) → o ≡ some l → state.output ≡ value_ref_for host l.last)
  Reports (some x) o state =
      ((state.status ≡ run_failed) × (state.error ≡ host.text_of x))
      ⊎ ((text : String) × (x ≡ context_error text)
          × (state.status ≡ run_canceled)
          × (state.error ≡ text))

  abbrev pub IsReported : Executor V → RunOutcome V → Type 0
  IsReported e o =
      (state : RunState V) × (project_run o.events e.run_id ≡ ok (some state))
      × Reports o.error o.outcome state

  fail-IsReported :
      (e : Executor V) (def : Definition V) (o : Option (LoopOutcome V)) (x : RunError)
      (t : Trail W V)
      → is_plain t.events ≡ true
      → IsReported e (fail host e def o x t).0
  unfolding update
  fail-IsReported e def o x t h =
      let event = failed (closing_of host e def t.world) (host.text_of x) in
      let (before, k) = project_run-snoc t.events event e.run_id h refl in
      (update event before, k, inl (refl, refl))

  cancel-IsReported :
      (e : Executor V) (def : Definition V) (o : Option (LoopOutcome V)) (text : String)
      (t : Trail W V)
      → is_plain t.events ≡ true
      → IsReported e (cancel host e def o text t).0
  unfolding update
  cancel-IsReported e def o text t h =
      let event = canceled (closing_of host e def t.world) text in
      let (before, k) = project_run-snoc t.events event e.run_id h refl in
      (update event before, k, inr (text, refl, refl, refl))

  carry : (e : Executor V) (r q : RunOutcome V × W) → r ≡ q → IsReported e q.0 → IsReported e r.0
  carry e r q h k = subst (λ (x : RunOutcome V × W). IsReported e x.0) (sym h) k

  done-IsReported :
      (e : Executor V) (def : Definition V) (o : LoopOutcome V) (t : Trail W V)
      → is_plain t.events ≡ true
      → IsReported e
          (ended host
            (some o)
            none
            (completed (closing_of host e def t.world) (value_ref_for host o.last))
            t).0
  unfolding update
  done-IsReported e def o t h =
      let event = completed (closing_of host e def t.world) (value_ref_for host o.last) in
      let (before, k) = project_run-snoc t.events event e.run_id h refl in
      (
        update event before,
        k,
        (
          refl,
          refl,
          λ l q.
              let same : o ≡ l = cc in ap (λ (x : LoopOutcome V). value_ref_for host x.last) same,
        ),
      )

  settle-IsReported :
      (e : Executor V) (def : Definition V) (o : LoopOutcome V) (t : Trail W V)
      → is_plain t.events ≡ true
      → IsReported e (settle host e def (o, t)).0
  settle-IsReported e def o t h = elim (Option-cases o.error) [
    | inl good ↦
        carry e (settle host e def (o, t))
          (ended host (some o) none
            (completed (closing_of host e def t.world) (value_ref_for host o.last)) t)
          (ground (arith, good)) (done-IsReported e def o t h)
    | inr (x, bad) ↦ elim (Option-cases (host.ctx_err t.world)) [
      | inr (text, gone) ↦
          carry e (settle host e def (o, t)) (cancel host e def (some o) text t)
            (ground (arith, bad, gone)) (cancel-IsReported e def (some o) text t h)
      | inl live ↦
          carry e (settle host e def (o, t)) (fail host e def (some o) x t)
            (ground (arith, bad, live)) (fail-IsReported e def (some o) x t h)
    ]
  ]

  -- If no action emits a pointer to a workflow event, the events that `Execute` returns project
  -- without an error, and give the run the state that the result tells. Without an error in the
  -- result, the run has succeeded, with no error, and its output is the value that the result holds.
  -- With one, the run has failed with the text of that error, or it was canceled, and its error is
  -- the one of the context.
  pub execute-IsReported :
      (e : Executor V) (def : Definition V) (input : Option V) (w : W)
      → RunsPlain host
      → IsReported e (execute host e def input w).0
  unfolding execute is_plain
  execute-IsReported e def input w p =
      let t : Trail W V = record { world = w; events = [] } in
      let all = execute host e def input w in
      elim (Option-cases (host.ctx_err w)) [
        | inr (text, gone) ↦
            carry e all (cancel host e def none text t) (ground (arith, gone))
              (cancel-IsReported e def none text t refl)
        | inl live ↦ elim (Bool-cases host.has_resolver) [
          | inr bare ↦
              carry e all (fail host e def none no_resolver t) (ground (arith, live, bare))
                (fail-IsReported e def none no_resolver t refl)
          | inl resolves ↦ elim (Result-cases (validate_and_order def.steps)) [
            | inl (x, bad) ↦
                carry e all (fail host e def none (order_error x) t)
                  (ground (arith, live, resolves, bad))
                  (fail-IsReported e def none (order_error x) t refl)
            | inr (ordered, good) ↦
                let first = emit host (started_event host e def w) t in
                let ran = execute_steps host e def ordered input first in
                carry e all (settle host e def ran) (ground (arith, live, resolves, good)) (
                  settle-IsReported e def ran.0 ran.1 (
                    execute_steps-plain host e def ordered input first p
                      (emit-plain host (started_event host e def w) t refl refl)))
          ]
        ]
      ]
