-- ===== src/Workflow/Store.antt =====
-- workflow/runstore.go: the store of run events in memory.
pub mod Recorded
use agentsdk.Prelude.{
  String, Bool, true, false, Option, none, some, List, [], ◌∷◌, ◌++◌, ◌==◌, ◌≡◌, ◌≢◌, refl, ap, sym,
  ◌∙◌, subst, arith, inl, inr, Bool-cases, Option-cases, List-cases, if◌then◌else◌, eq_iff, eq_refl,
}
use agentsdk.Prelude.Dict.{Dict, lookup, lookup_or, insert, lookup-insert, lookup_or-insert}
use agentsdk.Prelude.Result.{Result, ok, err, ◌>>=◌}
use agentsdk.Workflow.{Definition}
use agentsdk.Workflow.Run.{Event, RunState, ProjectError, project_run}
use agentsdk.Workflow.Host.{Host, Executor, RunOutcome}
use agentsdk.Workflow.Execute.{execute}
use agentsdk.Workflow.Execute.Plain.{RunsPlain}
use agentsdk.Workflow.Execute.Reported.{Reports, IsReported, execute-IsReported}

pub data StoreError : Type 0 where
  context_done : String → StoreError
  not_projected : ProjectError → StoreError

-- The events of each run.
abbrev pub RunStore : Type 0 → Type 0
RunStore V = Dict (List (Event V))

abbrev pub Batch : Type 0 → Type 0
Batch V = String × List (Event V)

module _ {V : Type 0} where
  unfoldable pub append :
      Option String
      → RunStore V
      → String
      → List (Event V)
      → RunStore V × Result StoreError (Unit {0})
  unfolding lookup_or insert
  append (some e) s run events = (s, err (context_done e))
  append none s run [] = (s, ok tt)
  append none s run (e ∷ events) = (insert run (lookup_or [] run s ++ e ∷ events) s, ok tt)

  unfoldable pub events_of :
      Option String → RunStore V → String → Result StoreError (Option (List (Event V)))
  unfolding lookup
  events_of (some e) s run = err (context_done e)
  events_of none s run = ok (lookup run s)

  abbrev pub projected :
      Result ProjectError (Option (RunState V)) → Result StoreError (Option (RunState V))
  projected (ok state) = ok state
  projected (err e) = err (not_projected e)

  unfoldable pub state :
      Option String → RunStore V → String → Result StoreError (Option (RunState V))
  unfolding events_of project_run
  state ctx_err s run = events_of ctx_err s run >>= λ found. elim found [
    | none ↦ ok none
    | some events ↦ projected (project_run events run)
  ]

  -- A sequence of calls of `Append` while the context lives.
  unfoldable pub append_all : RunStore V → List (Batch V) → RunStore V
  unfolding append
  append_all s [] = s
  append_all s ((run, events) ∷ batches) = append_all (append none s run events).0 batches

  -- What the calls of a sequence recorded for a run, in their order.
  unfoldable pub recorded : String → List (Batch V) → List (Event V)
  recorded run [] = []
  recorded run ((r, events) ∷ batches) =
      let rest = recorded run batches in if r == run then events ++ rest else rest
