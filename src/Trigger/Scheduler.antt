-- ===== src/Trigger/Scheduler.antt =====
-- trigger/scheduler.go: the jobs of the scheduler. A call that holds a job's lock is one step. A run
-- is its goroutine: it executes, its result is set, and then it finishes, and other steps of the job
-- may stand between these. `O` is the result of an execution.
pub mod Overlap
use agentsdk.Prelude.{
  ℕ, zero, suc, ◌+◌, String, Bool, true, false, Option, none, some, List, [], ◌∷◌, ◌++◌, ◌==◌, ◌&&◌,
  if◌then◌else◌, is_some, length,
}
use agentsdk.Prelude.Dict.{Dict, lookup, insert, erase}
use agentsdk.Prelude.Result.{Result, ok, err}
use agentsdk.Trigger.{
  Event, Rule, Source, Matcher, match_all, TriggerError, executor_required, id_required,
  source_required, job_exists, job_not_found, overlap_skip_if_running, matches, normalized,
  TargetKind, target_name as name_of_target,
}

pub data JobStatus : Type 0 where
  job_starting job_active job_running job_skipped job_stopped job_failed : JobStatus

pub data JobEventType : Type 0 where
  event_started event_matched event_skipped event_completed event_failed event_stopped :
      JobEventType

-- The time of a published event is left out.
pub record JobEvent (D O : Type 0) : Type 0 where
  pub type : JobEventType
  pub rule_id : String
  pub event : Option (Event D)
  pub status : JobStatus
  pub result : Option O
  pub error : String

pub record Job (D O : Type 0) : Type 0 where
  pub rule : Rule
  pub status : JobStatus
  pub running : Bool
  pub last : Option (Event D)
  pub last_fire : ℕ
  pub last_err : String
  pub last_res : Option O
  pub matched : ℕ
  pub skipped : ℕ

abbrev pub is_failed : JobStatus → Bool
is_failed job_failed = true
is_failed _ = false

module _ {D O : Type 0} where
  unfoldable pub try_start_run : Event D → Job D O → Job D O × Bool
  try_start_run e j =
      if j.running && j.rule.policy.overlap == overlap_skip_if_running
      then (
        record j { skipped = j.skipped + 1; status = job_skipped; last = some e; last_fire = e.at },
        false,
      )
      else (
        record j {
          running = true;
          status = job_running;
          last = some e;
          last_fire = e.at;
          matched = j.matched + 1;
        },
        true,
      )

  unfoldable pub finish_run : Job D O → Job D O
  finish_run j = record j {
    running = false;
    status = if is_failed j.status then j.status else job_active;
  }

  abbrev pub set_status : JobStatus → Job D O → Job D O
  set_status status j = record j { status = status }

  abbrev pub set_error : String → Job D O → Job D O
  set_error text j = record j { status = job_failed; last_err = text }

  abbrev pub set_result : O → Job D O → Job D O
  set_result result j = record j { last_res = some result; last_err = "" }

  abbrev pub new_job : Rule → Job D O
  new_job rule = record {
    rule = rule;
    status = job_starting;
    running = false;
    last = none;
    last_fire = 0;
    last_err = "";
    last_res = none;
    matched = 0;
    skipped = 0;
  }

-- A job with its runs: the ones that execute, and the ones whose result is set and that have yet to
-- finish. `finished` counts the runs that are over, and `events` are the published events.
pub record JobRuns (D O : Type 0) : Type 0 where
  pub job : Job D O
  pub executing : List (Event D)
  pub settled : List (Event D)
  pub finished : ℕ
  pub events : List (JobEvent D O)

-- What can happen to a job: its source emits an event, starts or fails, one of its runs returns or
-- finishes, or the job is stopped.
pub data Action (D O : Type 0) : Type 0 where
  arrives : Event D → Action D O
  source_starts : Action D O
  source_fails : String → Action D O
  returns : ℕ → Result String O → Action D O
  finishes : ℕ → Action D O
  stops : Action D O

abbrev pub with_first {ℓ} : {A : Type ℓ} → A → Option (A × List A) → Option (A × List A)
with_first x none = none
with_first x (some (y, rest)) = some (y, x ∷ rest)

-- The element at a place, and the others.
abbrev pub pop_at {ℓ} : {A : Type ℓ} → ℕ → List A → Option (A × List A)
pop_at n [] = none
pop_at zero (x ∷ l) = some (x, l)
pop_at (suc n) (x ∷ l) = with_first x (pop_at n l)

abbrev pub matcher_of : Rule → Matcher
matcher_of rule = elim rule.matcher [ none ↦ match_all | some m ↦ m ]

module _ {D O : Type 0} (glob : String → String → Option Bool)
    (error_text : TriggerError → String) where
  abbrev pub publish :
      JobEventType → Option (Event D) → JobStatus → Option O → String → JobRuns D O → JobRuns D O
  publish type event status result error s = record s {
    events =
        s.events
        ++ record {
          type = type;
          rule_id = s.job.rule.id;
          event = event;
          status = status;
          result = result;
          error = error;
        }
          ∷ [];
  }

  abbrev pub start_run : Event D → JobRuns D O → JobRuns D O
  start_run e s =
      let (j, started) = try_start_run e s.job in
      if started
      then publish event_matched (some e) job_running none ""
          (record s { job = j; executing = s.executing ++ e ∷ [] })
      else publish event_skipped (some e) job_skipped none "" (record s { job = j })

  unfoldable pub handle_event : Event D → JobRuns D O → JobRuns D O
  unfolding matches try_start_run
  handle_event e s = elim (matches glob (matcher_of s.job.rule) e) [
    | err x ↦
        publish event_failed (some e) job_failed none (error_text x)
          (record s { job = set_error (error_text x) s.job })
    | ok false ↦ s
    | ok true ↦ start_run e s
  ]

  unfoldable pub settle : Event D → Result String O → JobRuns D O → JobRuns D O
  settle e (err text) s =
      publish event_failed (some e) job_failed none text (record s { job = set_error text s.job })
  settle e (ok result) s =
      publish event_completed (some e) job_active (some result) ""
        (record s { job = set_result result s.job })

  unfoldable pub step : Action D O → JobRuns D O → JobRuns D O
  unfolding handle_event settle finish_run
  step (arrives e) s = handle_event e s
  step source_starts s = record s { job = set_status job_active s.job }
  step (source_fails text) s =
      publish event_failed none job_failed none text (record s { job = set_error text s.job })
  step (returns n result) s = elim (pop_at n s.executing) [
    | none ↦ s
    | some (e, rest) ↦
        settle e result (record s { executing = rest; settled = s.settled ++ e ∷ [] })
  ]
  step (finishes n) s = elim (pop_at n s.settled) [
    | none ↦ s
    | some (e, rest) ↦ record s {
      job = finish_run s.job;
      settled = rest;
      finished = s.finished + 1;
    }
  ]
  step stops s =
      publish event_stopped none job_stopped none ""
        (record s { job = set_status job_stopped s.job })

  unfoldable pub run : List (Action D O) → JobRuns D O → JobRuns D O
  unfolding step
  run [] s = s
  run (a ∷ actions) s = run actions (step a s)

abbrev pub source_text : (Source → String) → Option Source → String
source_text f none = ""
source_text f (some source) = f source

-- `Scheduler`, with the jobs that run.
pub record Scheduler (D O : Type 0) : Type 0 where
  pub has_executor : Bool
  pub jobs : Dict (JobRuns D O)

pub record JobSummary (D O : Type 0) : Type 0 where
  pub rule_id : String
  pub source_id : String
  pub event_type : String
  pub target_kind : TargetKind
  pub target_name : String
  pub session_mode : String
  pub session_name : String
  pub status : JobStatus
  pub running : Bool
  pub last_event : Option (Event D)
  pub last_fire : ℕ
  pub last_error : String
  pub last_result : Option O
  pub matched : ℕ
  pub skipped : ℕ

module _ {D O : Type 0} where
  abbrev pub new_runs : Rule → JobRuns D O
  new_runs rule = record {
    job = new_job rule;
    executing = [];
    settled = [];
    finished = 0;
    events =
        record {
          type = event_started;
          rule_id = rule.id;
          event = none;
          status = job_active;
          result = none;
          error = "";
        }
        ∷ [];
  }

  unfoldable pub add_rule : Rule → Scheduler D O → Scheduler D O × Result TriggerError (Unit {0})
  unfolding normalized lookup insert
  add_rule rule s =
      let r = normalized rule in
      if s.has_executor
      then (if r.id == ""
          then (s, err id_required)
          else if is_some r.source
          then (if is_some (lookup r.id s.jobs)
              then (s, err (job_exists r.id))
              else (record s { jobs = insert r.id (new_runs r) s.jobs }, ok tt))
          else (s, err source_required))
      else (s, err executor_required)

  unfoldable pub stop_job : String → Scheduler D O → Scheduler D O × Result TriggerError (Unit {0})
  unfolding lookup erase
  stop_job id s = elim (lookup id s.jobs) [
    | none ↦ (s, err (job_not_found id))
    | some _ ↦ (record s { jobs = erase id s.jobs }, ok tt)
  ]

  unfoldable pub summary : Job D O → JobSummary D O
  unfolding name_of_target
  summary j = record {
    rule_id = j.rule.id;
    source_id = source_text (λ s. s.id) j.rule.source;
    event_type = source_text (λ s. s.event_type) j.rule.source;
    target_kind = j.rule.target.kind;
    target_name = name_of_target j.rule.target;
    session_mode = j.rule.session.mode;
    session_name = j.rule.session.name;
    status = j.status;
    running = j.running;
    last_event = j.last;
    last_fire = j.last_fire;
    last_error = j.last_err;
    last_result = j.last_res;
    matched = j.matched;
    skipped = j.skipped;
  }
