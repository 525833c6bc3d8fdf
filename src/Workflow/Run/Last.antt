-- ===== src/Workflow/Run/Last.antt =====
-- The projection of a log by `Projector` of workflow/run.go, seen from its last event.
use agentsdk.Prelude.{
  String, Bool, true, false, some, List, [], ◌∷◌, ◌++◌, ◌≡◌, refl, arith, inl, inr, Option-cases,
  if◌then◌else◌, eq_refl,
}
use agentsdk.Prelude.Dict.{Dict, lookup, insert, lookup-insert}
use agentsdk.Prelude.Result.{ok}
use agentsdk.Workflow.Run.{
  Event, RunState, run_of, is_pointer, update, state_for, apply_event, apply_all, project_run,
}

module _ {V : Type 0} where
  -- No event is a pointer.
  unfoldable pub is_plain : List (Event V) → Bool
  is_plain [] = true
  is_plain (e ∷ events) = let rest = is_plain events in if is_pointer e then false else rest

  pub is_plain-append :
      (l r : List (Event V)) → is_plain l ≡ true → is_plain r ≡ true → is_plain (l ++ r) ≡ true
  unfolding is_plain
  is_plain-append [] r h k = k
  is_plain-append (e ∷ l) r h k = ground (arith, h, is_plain-append l r, k)

  is_plain-cons :
      (e : Event V) (events : List (Event V))
      → is_plain (e ∷ events) ≡ true
      → (is_pointer e ≡ false) × (is_plain events ≡ true)
  unfolding is_plain
  is_plain-cons e events h = (ground (arith, h), ground (arith, h))

  apply_event-plain :
      (states : Dict (RunState V)) (e : Event V)
      → is_pointer e ≡ false
      → (next : Dict (RunState V)) × (apply_event states e ≡ ok next)
  unfolding apply_event
  apply_event-plain states e h = elim (Option-cases (run_of e)) [
    | inl none_of ↦ (states, ground (arith, h, none_of))
    | inr (r, here) ↦ (insert r (update e (state_for r states)) states, ground (arith, here))
  ]

  apply_event-own :
      (states : Dict (RunState V)) (e : Event V) (run : String)
      → run_of e ≡ some run
      → apply_event states e ≡ ok (insert run (update e (state_for run states)) states)
  unfolding apply_event
  apply_event-own states e run h = ground (arith, h)

  apply_all-snoc :
      (events : List (Event V)) (last : Event V) (run : String) (states : Dict (RunState V))
      → is_plain events ≡ true
      → run_of last ≡ some run
      → (before : RunState V) × (next : Dict (RunState V)) × (apply_all states (events ++ last ∷ [])
          ≡ ok next)
        × (lookup run next ≡ some (update last before))
  unfolding apply_all
  apply_all-snoc [] last run states h k =
      let s = state_for run states in
      let there = apply_event-own states last run k in
      (
        s,
        insert run (update last s) states,
        rw there refl,
        ground (arith, lookup-insert run run (update last s) states, eq_refl run),
      )
  apply_all-snoc (e ∷ events) last run states h k =
      let (plain, others) = is_plain-cons e events h in
      let (mid, first) = apply_event-plain states e plain in
      let (before, next, p, q) = apply_all-snoc events last run mid others k in
      (before, next, ground (arith, first, p), q)

  -- A log whose last event is an event of the run: the run's state is what that event makes of the
  -- state before it.
  pub project_run-snoc :
      (events : List (Event V)) (last : Event V) (run : String)
      → is_plain events ≡ true
      → run_of last ≡ some run
      → (before : RunState V) × (project_run (events ++ last ∷ []) run
          ≡ ok (some (update last before)))
  unfolding project_run
  project_run-snoc events last run h k =
      let (before, next, p, q) = apply_all-snoc events last run [] h k in
      (before, ground (arith, p, q))
