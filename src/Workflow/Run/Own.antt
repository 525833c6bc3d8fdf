-- ===== src/Workflow/Run/Own.antt =====
-- The projection of a run in workflow/run.go reads the run's own events only.
use agentsdk.Prelude.{
  String, Bool, true, false, Option, none, some, List, [], ◌∷◌, ◌==◌, ◌≡◌, refl, ap, sym, ◌∙◌,
  arith, inl, inr, Bool-cases, Option-cases, if◌then◌else◌, eq_iff,
}
use agentsdk.Prelude.Dict.{Dict, lookup, insert, lookup-insert}
use agentsdk.Prelude.Result.{Result-cases, ok}
use agentsdk.Workflow.Run.{
  Event, RunState, new_run, run_of, is_pointer, update, state_for, apply_event, apply_all, project,
  project_run,
}

module _ {V : Type 0} (run : String) where
  abbrev pub is_own : Event V → Bool
  is_own e = elim (run_of e) [ none ↦ false | some r ↦ r == run ]

  -- The events of the run, in their order.
  unfoldable pub own_events : List (Event V) → List (Event V)
  own_events [] = []
  own_events (e ∷ events) = let rest = own_events events in if is_own e then e ∷ rest else rest

  apply_event-foreign :
      (states next : Dict (RunState V)) (e : Event V)
      → is_own e ≡ false
      → apply_event states e ≡ ok next
      → lookup run next ≡ lookup run states
  unfolding apply_event
  apply_event-foreign states next e foreign h = elim (Option-cases (run_of e)) [
    | inl none_of ↦ elim (Bool-cases (is_pointer e)) [
      | inl bad ↦ absurd (ground (arith, h, none_of, bad))
      | inr good ↦
          let same : states ≡ next = ground (arith, h, none_of, good) in ap (lookup run) (sym same)
    ]
    | inr (r, here) ↦
        let same : insert r (update e (state_for r states)) states ≡ next =
          ground (arith, h, here) in
        ap (lookup run) (sym same)
        ∙ ground (arith, lookup-insert r run (update e (state_for r states)) states, foreign, here)
  ]

  apply_event-own :
      (states mine next : Dict (RunState V)) (e : Event V)
      → is_own e ≡ true
      → lookup run mine ≡ lookup run states
      → apply_event states e ≡ ok next
      → (m : Dict (RunState V)) × (apply_event mine e ≡ ok m) × (lookup run m ≡ lookup run next)
  unfolding apply_event state_for
  apply_event-own states mine next e own same h = elim (Option-cases (run_of e)) [
    | inl none_of ↦ absurd (ground (arith, own, none_of))
    | inr (r, here) ↦
        let k : r ≡ run = ground (arith, own, here, eq_iff r run) in
        let s = state_for r states in
        let t = state_for r mine in
        let agree : t ≡ s =
          ap (λ (o : Option (RunState V)). elim o [ none ↦ new_run | some state ↦ state ])
            (ap (λ x. lookup x mine) k ∙ same ∙ ap (λ x. lookup x states) (sym k)) in
        let there : insert r (update e s) states ≡ next = ground (arith, h, here) in
        (
          insert r (update e t) mine,
          ground (arith, here),
          lookup-insert r run (update e t) mine
              ∙ (ap (λ x. if r == run then some (update e x) else lookup run mine) agree
                  ∙ (ap (λ o. if r == run then some (update e s) else o) same
                      ∙ (sym (lookup-insert r run (update e s) states) ∙ ap (lookup run) there))),
        )
  ]

  apply_all-own :
      (events : List (Event V)) (states mine next : Dict (RunState V))
      → lookup run mine ≡ lookup run states
      → apply_all states events ≡ ok next
      → (m : Dict (RunState V)) × (apply_all mine (own_events events) ≡ ok m)
        × (lookup run m ≡ lookup run next)
  unfolding apply_all own_events
  apply_all-own [] states mine next same h =
      let e : states ≡ next = cc in (mine, refl, same ∙ ap (lookup run) e)
  apply_all-own (e ∷ events) states mine next same h = elim (Result-cases (apply_event states e)) [
    | inl (x, bad) ↦ absurd (ground (arith, h, bad))
    | inr (after, good) ↦
        let rest : apply_all after events ≡ ok next = ground (arith, h, good) in
        elim (Bool-cases (is_own e)) [
          | inr foreign ↦
              let (m, p, q) =
                apply_all-own events after mine next
                  (same ∙ sym (apply_event-foreign states after e foreign good)) rest in
              (m, ground (arith, foreign, p), q)
          | inl own ↦
              let (mid, p, q) = apply_event-own states mine after e own same good in
              let (m, pm, qm) = apply_all-own events after mid next q rest in
              (m, ground (arith, own, p, pm), qm)
        ]
  ]

  -- The state that a log of many runs gives a run is the state that the run's own events give it: if
  -- the log projects without an error, so do the run's events alone, to the same state, or to none.
  pub project_run-own_events :
      (events : List (Event V)) (state : Option (RunState V))
      → project_run events run ≡ ok state
      → project_run (own_events events) run ≡ ok state
  unfolding project_run
  project_run-own_events events state h = elim (Result-cases (project events)) [
    | inl (x, bad) ↦ absurd (ground (arith, h, bad))
    | inr (states, good) ↦
        let (m, p, q) = apply_all-own events [] [] states refl good in
        let e : lookup run states ≡ state = ground (arith, h, good) in ground (arith, p, q, e)
  ]
