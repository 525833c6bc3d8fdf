-- ===== src/Workflow/Store/Recorded.antt =====
-- The store of workflow/runstore.go as a log of its calls, and the runs of the executor in it.
use agentsdk.Prelude.{
  String, Option, none, some, List, [], ◌∷◌, ◌++◌, ◌==◌, ◌≡◌, refl, ap, sym, ◌∙◌, arith, inl, inr,
  Bool-cases, if◌then◌else◌, eq_iff, eq_refl,
}
use mathlib.Core.List.{append_assoc}
use agentsdk.Prelude.Dict.{lookup, lookup_or, lookup-insert}
use agentsdk.Prelude.Result.{Result, ok}
use agentsdk.Workflow.{Definition}
use agentsdk.Workflow.Run.{Event, RunState, project_run}
use agentsdk.Workflow.Host.{Host, Executor}
use agentsdk.Workflow.Execute.{execute}
use agentsdk.Workflow.Execute.Plain.{RunsPlain}
use agentsdk.Workflow.Execute.Reported.{Reports, execute-IsReported}
use agentsdk.Workflow.Store.{
  StoreError, RunStore, Batch, append, events_of, projected, state, append_all, recorded,
}

module _ {V : Type 0} where
  abbrev pub found_if_any : List (Event V) → Option (List (Event V))
  found_if_any [] = none
  found_if_any (e ∷ events) = some (e ∷ events)

  append_nil : (l : List (Event V)) → l ++ [] ≡ l
  append_nil [] = refl
  append_nil (x ∷ l) = ap (λ r. x ∷ r) (append_nil l)

  append-found :
      (s : RunStore V) (r run : String) (l events : List (Event V))
      → lookup run s ≡ found_if_any l
      → lookup run (append none s r events).0 ≡ found_if_any (if r == run then l ++ events else l)
  unfolding append lookup_or
  append-found s r run l [] h = elim (Bool-cases (r == run)) [
    | inl same ↦ rw (same, append_nil l) h
    | inr other ↦ rw other h
  ]
  append-found s r run [] (e ∷ events) h =
      ground (arith, h, lookup-insert r run (lookup_or [] r s ++ e ∷ events) s, eq_iff r run)
  append-found s r run (x ∷ l) (e ∷ events) h =
      ground (arith, h, lookup-insert r run (lookup_or [] r s ++ e ∷ events) s, eq_iff r run)

  append_all-found :
      (batches : List (Batch V)) (s : RunStore V) (run : String) (l : List (Event V))
      → lookup run s ≡ found_if_any l
      → lookup run (append_all s batches) ≡ found_if_any (l ++ recorded run batches)
  unfolding append_all recorded
  append_all-found [] s run l h = h ∙ ap found_if_any (sym (append_nil l))
  append_all-found ((r, events) ∷ batches) s run l h =
      let step = append-found s r run l events h in
      let rest =
        append_all-found batches (append none s r events).0 run
          (if r == run then l ++ events else l) step in
      elim (Bool-cases (r == run)) [
        | inl same ↦ ground (arith, rest, same, append_assoc l events (recorded run batches))
        | inr other ↦ ground (arith, rest, other)
      ]

  abbrev pub state_of_log : String → List (Event V) → Result StoreError (Option (RunState V))
  state_of_log run [] = ok none
  state_of_log run (e ∷ events) = projected (project_run (e ∷ events) run)

  -- After any sequence of appends to an empty store, the state of a run is the projection of the
  -- events that were appended for that run, in the order of the calls, and nothing if there were
  -- none; the events of other runs do not count.
  pub append_all-state :
      (batches : List (Batch V)) (run : String)
      → state none (append_all [] batches) run ≡ state_of_log run (recorded run batches)
  unfolding state events_of lookup
  append_all-state batches run =
      by_log (recorded run batches) (append_all-found batches [] run [] refl)
    where
      by_log :
          (l : List (Event V))
          → lookup run (append_all [] batches) ≡ found_if_any l
          → state none (append_all [] batches) run ≡ state_of_log run l
      by_log [] h = ground (arith, h)
      by_log (e ∷ l) h = ground (arith, h)

  projected_append :
      (s : RunStore V) (run : String) (events : List (Event V)) (st : RunState V)
      → lookup run s ≡ none
      → project_run events run ≡ ok (some st)
      → state none (append none s run events).0 run ≡ ok (some st)
  unfolding append state events_of project_run lookup_or lookup
  projected_append s run [] st h k = absurd (cc)
  projected_append s run (e ∷ events) st h k =
      ground (arith, h, k, lookup-insert run run (lookup_or [] run s ++ e ∷ events) s, eq_refl run)

  -- A run that the store does not hold yet: when the events that `Execute` returned for it are
  -- appended, and no action emitted a pointer to a workflow event, its state in the store is the
  -- state that the result of `Execute` tells.
  pub append-execute :
      {W A : Type 0} (host : Host W V A) (e : Executor V) (def : Definition V) (input : Option V)
      (w : W) (s : RunStore V)
      → RunsPlain host
      → lookup e.run_id s ≡ none
      → (st : RunState V) × (state none
            (append none s e.run_id (execute host e def input w).0.events).0
            e.run_id
          ≡ ok (some st))
        × Reports host
            (execute host e def input w).0.error
            (execute host e def input w).0.outcome
            st
  append-execute host e def input w s p h =
      let (st, k, told) = execute-IsReported host e def input w p in
      (st, projected_append s e.run_id (execute host e def input w).0.events st h k, told)
