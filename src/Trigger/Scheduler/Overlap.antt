-- ===== src/Trigger/Scheduler/Overlap.antt =====
-- The runs of a job of trigger/scheduler.go over any sequence of steps.
use agentsdk.Prelude.{
  ℕ, zero, suc, ◌+◌, String, Bool, true, false, Option, none, some, List, [], ◌∷◌, ◌++◌, ◌==◌, ◌≡◌,
  refl, ap, sym, ◌∙◌, subst, arith, inl, inr, Bool-cases, Option-cases, length, length-append,
  eq_iff,
}
use agentsdk.Prelude.Result.{Result, Result-cases, ok, err}
use agentsdk.Trigger.{
  Event, Rule, TriggerError, overlap_skip_if_running, or_text, matches, normalized,
}
use agentsdk.Trigger.Scheduler.{
  event_skipped, event_matched, event_failed, job_skipped, job_running, job_failed, set_error,
  publish, JobRuns, Action, arrives, source_starts, source_fails, returns, finishes, stops,
  try_start_run, finish_run, pop_at, matcher_of, start_run, handle_event, settle, step, run,
  new_runs,
}

pop_at-length :
    {A : Type 0} (n : ℕ) (l rest : List A) (x : A)
    → pop_at n l ≡ some (x, rest)
    → length l ≡ suc (length rest)
pop_at-length n [] rest x h = absurd (cc)
pop_at-length zero (y ∷ l) rest x h = let e : l ≡ rest = cc in ap (λ r. suc (length r)) e
pop_at-length (suc n) (y ∷ l) rest x h = elim (Option-cases (pop_at n l)) [
  | inl missing ↦ absurd (ground (arith, h, missing))
  | inr ((z, r), found) ↦
      let e : y ∷ r ≡ rest = ground (arith, h, found) in
      let k : length rest ≡ suc (length r) = ap length (sym e) in
      omega (arith, k, pop_at-length n l r z found)
]

module _ {D O : Type 0} (glob : String → String → Option Bool)
    (error_text : TriggerError → String) where
  -- The runs that have started and not finished.
  abbrev pub in_flight : JobRuns D O → ℕ
  in_flight s = length s.executing + length s.settled

  -- The arrived events that the job's matcher accepts.
  unfoldable pub hits : Rule → List (Action D O) → ℕ
  unfolding matches
  hits rule [] = 0
  hits rule (arrives e ∷ actions) =
      let rest = hits rule actions in
      elim (matches glob (matcher_of rule) e) [
        | err x ↦ rest
        | ok false ↦ rest
        | ok true ↦ suc rest
      ]
  hits rule (source_starts ∷ actions) = hits rule actions
  hits rule (source_fails text ∷ actions) = hits rule actions
  hits rule (returns n result ∷ actions) = hits rule actions
  hits rule (finishes n ∷ actions) = hits rule actions
  hits rule (stops ∷ actions) = hits rule actions

  abbrev pub IsSingle : JobRuns D O → Type 0
  IsSingle s = (s.job.running ≡ true → in_flight s ≡ 1) × (s.job.running ≡ false → in_flight s ≡ 0)

  -- A job that skips an event while it runs.
  record IsSound (rule : Rule) (before : ℕ) (s : JobRuns D O) : Type 0 where
    same_rule : s.job.rule ≡ rule
    counted : s.job.matched ≡ s.finished + in_flight s
    all_hits : s.job.matched + s.job.skipped ≡ before
    single : IsSingle s

  abbrev skipping : Event D → JobRuns D O → JobRuns D O
  skipping e s = publish glob error_text event_skipped (some e) job_skipped none "" (record s {
    job = record s.job {
      skipped = s.job.skipped + 1;
      status = job_skipped;
      last = some e;
      last_fire = e.at;
    };
  })

  abbrev starting : Event D → JobRuns D O → JobRuns D O
  starting e s = publish glob error_text event_matched (some e) job_running none "" (record s {
    job = record s.job {
      running = true;
      status = job_running;
      last = some e;
      last_fire = e.at;
      matched = s.job.matched + 1;
    };
    executing = s.executing ++ e ∷ [];
  })

  start_run-IsSound :
      (rule : Rule) (before : ℕ) (e : Event D) (s : JobRuns D O)
      → rule.policy.overlap ≡ overlap_skip_if_running
      → IsSound rule before s
      → IsSound rule (suc before) (start_run glob error_text e s)
  unfolding try_start_run
  start_run-IsSound rule before e s skips h =
      let same : s.job.rule.policy.overlap ≡ overlap_skip_if_running =
        ap (λ (r : Rule). r.policy.overlap) h.same_rule ∙ skips in
      let test : (s.job.rule.policy.overlap == overlap_skip_if_running) ≡ true =
        ground (arith, same, eq_iff s.job.rule.policy.overlap overlap_skip_if_running) in
      elim (Bool-cases s.job.running) [
        | inl busy ↦
            let q : start_run glob error_text e s ≡ skipping e s = ground (arith, busy, test) in
            subst (IsSound rule (suc before)) (sym q) (record {
              same_rule = h.same_rule;
              counted = h.counted;
              all_hits = omega (arith, h.all_hits);
              single = h.single;
            })
        | inr idle ↦
            let q : start_run glob error_text e s ≡ starting e s = ground (arith, idle) in
            let none_there : in_flight s ≡ 0 = h.single.1 idle in
            let one : length (s.executing ++ e ∷ []) ≡ length s.executing + 1 =
              length-append s.executing (e ∷ []) in
            subst (IsSound rule (suc before)) (sym q) (record {
              same_rule = h.same_rule;
              counted = omega (arith, h.counted, one);
              all_hits = omega (arith, h.all_hits);
              single = (λ k. omega (arith, none_there, one), λ k. absurd (cc));
            })
      ]

  -- A step that changes no count.
  same_counts :
      (rule : Rule) (n m : ℕ) (s t : JobRuns D O)
      → n ≡ m
      → s.job.rule ≡ t.job.rule
      → s.job.matched ≡ t.job.matched
      → s.job.skipped ≡ t.job.skipped
      → s.job.running ≡ t.job.running
      → s.finished ≡ t.finished
      → in_flight s ≡ in_flight t
      → IsSound rule n s
      → IsSound rule m t
  same_counts rule n m s t e r a b c d f h = record {
    same_rule = sym r ∙ h.same_rule;
    counted = omega (arith, h.counted, a, d, f);
    all_hits = omega (arith, h.all_hits, a, b, e);
    single = (λ k. sym f ∙ h.single.0 (c ∙ k), λ k. sym f ∙ h.single.1 (c ∙ k));
  }

  finish-IsSound :
      (rule : Rule) (before : ℕ) (s : JobRuns D O) (rest : List (Event D))
      → length s.settled ≡ suc (length rest)
      → IsSound rule before s
      → IsSound rule before
          (record s { job = finish_run s.job; settled = rest; finished = s.finished + 1 })
  unfolding finish_run
  finish-IsSound rule before s rest n h = elim (Bool-cases s.job.running) [
    | inr idle ↦ absurd (omega (arith, h.single.1 idle, n))
    | inl busy ↦ record {
      same_rule = h.same_rule;
      counted = omega (arith, h.counted, n);
      all_hits = h.all_hits;
      single = (λ k. absurd (cc), λ k. omega (arith, h.single.0 busy, n));
    }
  ]

  handle_event-IsSound :
      (rule : Rule) (before : ℕ) (e : Event D) (s : JobRuns D O)
      → rule.policy.overlap ≡ overlap_skip_if_running
      → IsSound rule before s
      → IsSound rule (hits rule (arrives e ∷ []) + before) (handle_event glob error_text e s)
  unfolding handle_event hits
  handle_event-IsSound rule before e s skips h =
      let here : matches glob (matcher_of s.job.rule) e ≡ matches glob (matcher_of rule) e =
        ap (λ (r : Rule). matches glob (matcher_of r) e) h.same_rule in
      elim (Result-cases (matches glob (matcher_of rule) e)) [
        | inl (x, bad) ↦
            let t =
              publish glob error_text event_failed (some e) job_failed none (error_text x)
                (record s { job = set_error (error_text x) s.job }) in
            let q : t ≡ handle_event glob error_text e s = ground (arith, here, bad) in
            subst (IsSound rule (hits rule (arrives e ∷ []) + before)) q (
              same_counts rule before (hits rule (arrives e ∷ []) + before) s t
                (ground (arith, bad)) refl refl refl refl refl refl h)
        | inr (true, hit) ↦
            let q : start_run glob error_text e s ≡ handle_event glob error_text e s =
              ground (arith, here, hit) in
            let n : suc before ≡ hits rule (arrives e ∷ []) + before = ground (arith, hit) in
            subst (λ k. IsSound rule k (handle_event glob error_text e s)) n
              (subst (IsSound rule (suc before)) q (start_run-IsSound rule before e s skips h))
        | inr (false, miss) ↦
            let q : s ≡ handle_event glob error_text e s = ground (arith, here, miss) in
            subst (IsSound rule (hits rule (arrives e ∷ []) + before)) q (
              same_counts rule before (hits rule (arrives e ∷ []) + before) s s
                (ground (arith, miss)) refl refl refl refl refl refl h)
      ]

  settle-IsSound :
      (rule : Rule) (before : ℕ) (s : JobRuns D O) (e : Event D) (rest : List (Event D))
      (result : Result String O)
      → length s.executing ≡ suc (length rest)
      → IsSound rule before s
      → IsSound rule before (
          settle glob error_text e result
            (record s { executing = rest; settled = s.settled ++ e ∷ [] }))
  unfolding settle
  settle-IsSound rule before s e rest (err text) n h =
      same_counts rule before before s
        (settle glob error_text e (err text)
          (record s { executing = rest; settled = s.settled ++ e ∷ [] }))
        refl refl refl refl refl refl (omega (arith, n, length-append s.settled (e ∷ []))) h
  settle-IsSound rule before s e rest (ok result) n h =
      same_counts rule before before s
        (settle glob error_text e (ok result)
          (record s { executing = rest; settled = s.settled ++ e ∷ [] }))
        refl refl refl refl refl refl (omega (arith, n, length-append s.settled (e ∷ []))) h

  step-IsSound :
      (rule : Rule) (before : ℕ) (a : Action D O) (s : JobRuns D O)
      → rule.policy.overlap ≡ overlap_skip_if_running
      → IsSound rule before s
      → IsSound rule (hits rule (a ∷ []) + before) (step glob error_text a s)
  unfolding step hits
  step-IsSound rule before (arrives e) s skips h = handle_event-IsSound rule before e s skips h
  step-IsSound rule before source_starts s skips h =
      same_counts rule before (0 + before) s (step glob error_text source_starts s) (omega arith)
        refl refl refl refl refl refl h
  step-IsSound rule before (source_fails text) s skips h =
      same_counts rule before (0 + before) s (step glob error_text (source_fails text) s)
        (omega arith) refl refl refl refl refl refl h
  step-IsSound rule before (returns n result) s skips h =
      elim (Option-cases (pop_at n s.executing)) [
        | inl missing ↦
            let q : s ≡ step glob error_text (returns n result) s = ground (arith, missing) in
            subst (IsSound rule (0 + before)) q (
              same_counts rule before (0 + before) s s (omega arith) refl refl refl refl refl refl
                h)
        | inr ((e, rest), found) ↦
            let q : settle glob error_text e result
                  (record s { executing = rest; settled = s.settled ++ e ∷ [] })
                ≡ step glob error_text (returns n result) s =
              ground (arith, found) in
            let k : before ≡ 0 + before = omega arith in
            subst (IsSound rule (0 + before)) q (
              subst
                (λ m. IsSound rule m (
                  settle glob error_text e result
                    (record s { executing = rest; settled = s.settled ++ e ∷ [] })))
                k
                (settle-IsSound rule before s e rest result
                  (pop_at-length n s.executing rest e found) h))
      ]
  step-IsSound rule before (finishes n) s skips h = elim (Option-cases (pop_at n s.settled)) [
    | inl missing ↦
        let q : s ≡ step glob error_text (finishes n) s = ground (arith, missing) in
        subst (IsSound rule (0 + before)) q
          (same_counts rule before (0 + before) s s (omega arith) refl refl refl refl refl refl h)
    | inr ((e, rest), found) ↦
        let t : JobRuns D O = record s {
          job = finish_run s.job;
          settled = rest;
          finished = s.finished + 1;
        } in
        let q : t ≡ step glob error_text (finishes n) s = ground (arith, found) in
        let k : before ≡ 0 + before = omega arith in
        subst (IsSound rule (0 + before)) q (
          subst (λ m. IsSound rule m t) k
            (finish-IsSound rule before s rest (pop_at-length n s.settled rest e found) h))
  ]
  step-IsSound rule before stops s skips h =
      same_counts rule before (0 + before) s (step glob error_text stops s) (omega arith) refl refl
        refl refl refl refl h

  hits-cons :
      (rule : Rule) (a : Action D O) (actions : List (Action D O))
      → hits rule (a ∷ actions) ≡ hits rule (a ∷ []) + hits rule actions
  unfolding hits
  hits-cons rule (arrives e) actions = ground arith
  hits-cons rule source_starts actions = omega arith
  hits-cons rule (source_fails text) actions = omega arith
  hits-cons rule (returns n result) actions = omega arith
  hits-cons rule (finishes n) actions = omega arith
  hits-cons rule stops actions = omega arith

  run-IsSound :
      (rule : Rule) (before : ℕ) (actions : List (Action D O)) (s : JobRuns D O)
      → rule.policy.overlap ≡ overlap_skip_if_running
      → IsSound rule before s
      → IsSound rule (hits rule actions + before) (run glob error_text actions s)
  unfolding run hits
  run-IsSound rule before [] s skips h =
      same_counts rule before (0 + before) s s (omega arith) refl refl refl refl refl refl h
  run-IsSound rule before (a ∷ actions) s skips h =
      let rest =
        run-IsSound rule (hits rule (a ∷ []) + before) actions (step glob error_text a s) skips
          (step-IsSound rule before a s skips h) in
      let n : hits rule actions + (hits rule (a ∷ []) + before) ≡ hits rule (a ∷ actions) + before =
        omega (arith, hits-cons rule a actions) in
      subst (λ k. IsSound rule k (run glob error_text actions (step glob error_text a s))) n rest

  -- A rule that names no overlap policy, or the policy to skip: over any sequence of steps of its
  -- job, in any order of arrivals, results and ends of runs, at most one run is in flight, and one is
  -- exactly when the job is marked as running. Each run that started is over or in flight, and each
  -- arrived event that the matcher accepts was counted once, as matched or as skipped.
  pub run-overlap :
      (rule : Rule) (actions : List (Action D O))
      → or_text rule.policy.overlap overlap_skip_if_running ≡ overlap_skip_if_running
      → (((run glob error_text actions (new_runs (normalized rule))).job.running ≡ true
            → in_flight (run glob error_text actions (new_runs (normalized rule))) ≡ 1)
          × ((run glob error_text actions (new_runs (normalized rule))).job.running ≡ false
              → in_flight (run glob error_text actions (new_runs (normalized rule))) ≡ 0))
        × ((run glob error_text actions (new_runs (normalized rule))).job.matched
            ≡ (run glob error_text actions (new_runs (normalized rule))).finished
              + in_flight (run glob error_text actions (new_runs (normalized rule))))
        × ((run glob error_text actions (new_runs (normalized rule))).job.matched
              + (run glob error_text actions (new_runs (normalized rule))).job.skipped
            ≡ hits (normalized rule) actions)
  unfolding normalized
  run-overlap rule actions skips =
      let h = run-IsSound (normalized rule) 0 actions (new_runs (normalized rule)) skips (record {
        same_rule = refl;
        counted = omega arith;
        all_hits = omega arith;
        single = (λ k. absurd (cc), λ k. omega arith);
      }) in
      (h.single, h.counted, omega (arith, h.all_hits))
