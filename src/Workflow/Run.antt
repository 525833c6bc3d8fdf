-- ===== src/Workflow/Run.antt =====
-- workflow/run.go, workflow/value.go and the event payloads of workflow/workflow.go: the state of a
-- run, as the events of the run make it.
pub mod Own
pub mod Last
use agentsdk.Prelude.{
  ℕ, zero, suc, ◌+◌, ◌-◌, String, Bool, true, false, not, Option, none, some, List, [], ◌∷◌, ◌++◌,
  ◌==◌, ◌&&◌, ◌||◌, if◌then◌else◌, nat_eq, ltb, is_some,
}
use agentsdk.Prelude.Dict.{Dict, lookup, insert}
use agentsdk.Prelude.Result.{Result, ok, err, ◌>>=◌}

pub record ValueRef (V : Type 0) : Type 0 where
  pub id : String
  pub media_type : String
  pub inline : Option V
  pub external_uri : String
  pub redacted : Bool

abbrev pub inline_value : {V : Type 0} → Option V → ValueRef V
inline_value value = record {
  id = "";
  media_type = "";
  inline = value;
  external_uri = "";
  redacted = false;
}

abbrev pub empty_value_ref : {V : Type 0} → ValueRef V → Bool
empty_value_ref value =
    value.id == ""
    && (value.media_type == ""
        && (value.external_uri == "" && (not (is_some value.inline) && not value.redacted)))

pub record RunMetadata : Type 0 where
  pub session_id : String
  pub agent_name : String
  pub thread_id : String
  pub branch_id : String
  pub trigger : String
  pub command_path : List String

abbrev pub no_words : List String → Bool
no_words [] = true
no_words (_ ∷ _) = false

abbrev pub is_zero : RunMetadata → Bool
is_zero m =
    m.session_id == ""
    && (m.agent_name == ""
        && (m.thread_id == ""
            && (m.branch_id == "" && (m.trigger == "" && no_words m.command_path))))

-- `Queued` and `Started`, which have the same fields.
pub record Opening (V : Type 0) : Type 0 where
  pub run_id : String
  pub workflow_name : String
  pub metadata : RunMetadata
  pub input : ValueRef V
  pub definition_hash : String
  pub definition_version : String
  pub at : ℕ

-- The fields that `StepStarted`, `StepCompleted`, `StepFailed` and `StepSkipped` share.
pub record StepEvent : Type 0 where
  pub run_id : String
  pub workflow_name : String
  pub step_id : String
  pub action_name : String
  pub action_version : String
  pub idempotency_key : String
  pub at : ℕ

-- The fields that `Completed`, `Failed` and `Canceled` share.
pub record Closing : Type 0 where
  pub run_id : String
  pub workflow_name : String
  pub at : ℕ

-- A time is a number of nanoseconds, and 0 is the zero time. `pointer` is a pointer to one of the
-- payloads, `other` any other event.
pub data Event (V : Type 0) : Type 0 where
  queued started : Opening V → Event V
  step_started : StepEvent → (attempt : ℕ) → Event V
  step_completed : StepEvent → (attempt : ℕ) → (output : ValueRef V) → Event V
  step_failed : StepEvent → (attempt : ℕ) → (error : String) → Event V
  step_skipped : StepEvent → (reason : String) → Event V
  completed : Closing → (output : ValueRef V) → Event V
  failed : Closing → (error : String) → Event V
  canceled : Closing → (reason : String) → Event V
  pointer : Event V
  other : V → Event V

-- `unset` is the empty status of a state that no event has opened.
pub data RunStatus : Type 0 where
  unset run_queued run_running run_succeeded run_failed run_canceled : RunStatus

pub data StepStatus : Type 0 where
  step_unset step_running step_succeeded step_failed_status step_skipped_status : StepStatus

pub record AttemptState (V : Type 0) : Type 0 where
  pub attempt : ℕ
  pub status : StepStatus
  pub output : ValueRef V
  pub error : String

pub record StepState (V : Type 0) : Type 0 where
  pub id : String
  pub action_name : String
  pub action_version : String
  pub idempotency_key : String
  pub status : StepStatus
  pub attempt : ℕ
  pub attempts : List (AttemptState V)
  pub output : ValueRef V
  pub error : String

pub record RunState (V : Type 0) : Type 0 where
  pub id : String
  pub workflow_name : String
  pub status : RunStatus
  pub started_at : ℕ
  pub completed_at : ℕ
  pub duration : ℕ
  pub steps : Dict (StepState V)
  pub output : ValueRef V
  pub error : String
  pub metadata : RunMetadata
  pub input : ValueRef V
  pub definition_hash : String
  pub definition_version : String

abbrev pub run_duration : ℕ → ℕ → ℕ
run_duration started_at completed_at =
    if nat_eq started_at 0 || (nat_eq completed_at 0 || ltb completed_at started_at)
    then 0
    else completed_at - started_at

abbrev pub normalize_attempt : ℕ → ℕ
normalize_attempt attempt = if nat_eq attempt 0 then 1 else attempt

abbrev pub no_metadata : RunMetadata
no_metadata = record {
  session_id = "";
  agent_name = "";
  thread_id = "";
  branch_id = "";
  trigger = "";
  command_path = [];
}

module _ {V : Type 0} where
  abbrev pub new_run : RunState V
  new_run = record {
    id = "";
    workflow_name = "";
    status = unset;
    started_at = 0;
    completed_at = 0;
    duration = 0;
    steps = [];
    output = inline_value none;
    error = "";
    metadata = no_metadata;
    input = inline_value none;
    definition_hash = "";
    definition_version = "";
  }

  abbrev pub new_step : StepState V
  new_step = record {
    id = "";
    action_name = "";
    action_version = "";
    idempotency_key = "";
    status = step_unset;
    attempt = 0;
    attempts = [];
    output = inline_value none;
    error = "";
  }

  -- The loop of `upsertAttempt`.
  unfoldable pub put_attempt : AttemptState V → List (AttemptState V) → List (AttemptState V)
  put_attempt a [] = a ∷ []
  put_attempt a (b ∷ l) =
      let rest = put_attempt a l in if nat_eq b.attempt a.attempt then a ∷ l else b ∷ rest

  abbrev pub upsert_attempt : StepState V → AttemptState V → StepState V
  upsert_attempt step a = record step {
    attempts = put_attempt (record a { attempt = normalize_attempt a.attempt }) step.attempts;
  }

  abbrev pub step_for : String → RunState V → StepState V
  step_for id state = elim (lookup id state.steps) [ none ↦ new_step | some step ↦ step ]

  -- The fields that each event of a step sets, with the step's new status and error.
  abbrev pub set_step : StepEvent → StepStatus → String → StepState V → StepState V
  set_step e status error step = record step {
    id = e.step_id;
    action_name = e.action_name;
    action_version = e.action_version;
    idempotency_key = e.idempotency_key;
    status = status;
    error = error;
  }

  abbrev pub attempt_of : StepStatus → ℕ → ValueRef V → String → AttemptState V
  attempt_of status n output error = record {
    attempt = normalize_attempt n;
    status = status;
    output = output;
    error = error;
  }

  -- One attempt's event: the step, and its attempt.
  abbrev pub at_attempt :
      StepEvent → StepStatus → ℕ → ValueRef V → String → StepState V → StepState V
  at_attempt e status n output error step =
      upsert_attempt (record (set_step e status error step) { attempt = normalize_attempt n })
        (attempt_of status n output error)

  abbrev pub put_step : String → StepState V → RunState V → RunState V
  put_step id step state = record state { steps = insert id step state.steps }

  abbrev pub close : Closing → RunStatus → RunState V → RunState V
  close e status state = record state {
    id = e.run_id;
    workflow_name = e.workflow_name;
    status = status;
    completed_at = e.at;
    duration = run_duration state.started_at e.at;
  }

  -- What an event makes of the state of its run.
  unfoldable pub update : Event V → RunState V → RunState V
  unfolding put_attempt lookup insert
  update (queued e) state = record state {
    id = e.run_id;
    workflow_name = e.workflow_name;
    status = run_queued;
    metadata = e.metadata;
    input = e.input;
    definition_hash = e.definition_hash;
    definition_version = e.definition_version;
    started_at = 0;
    completed_at = 0;
    duration = 0;
  }
  update (started e) state = record state {
    id = e.run_id;
    workflow_name = e.workflow_name;
    status = run_running;
    started_at = e.at;
    completed_at = 0;
    duration = 0;
    metadata = if is_zero e.metadata then state.metadata else e.metadata;
    input = if empty_value_ref e.input then state.input else e.input;
    definition_hash = if e.definition_hash == "" then state.definition_hash else e.definition_hash;
    definition_version =
        if e.definition_version == "" then state.definition_version else e.definition_version;
  }
  update (step_started e n) state =
      put_step e.step_id
        (at_attempt e step_running n (inline_value none) "" (step_for e.step_id state)) state
  update (step_completed e n output) state =
      put_step e.step_id
        (record (at_attempt e step_succeeded n output "" (step_for e.step_id state)) {
          output = output;
        })
        state
  update (step_failed e n error) state =
      put_step e.step_id
        (at_attempt e step_failed_status n (inline_value none) error (step_for e.step_id state))
        state
  update (step_skipped e reason) state =
      put_step e.step_id (set_step e step_skipped_status reason (step_for e.step_id state)) state
  update (completed e output) state = record (close e run_succeeded state) {
    output = output;
    error = "";
  }
  update (failed e error) state = record (close e run_failed state) { error = error }
  update (canceled e reason) state = record (close e run_canceled state) { error = reason }
  update pointer state = state
  update (other v) state = state

  -- The run of an event; pointers and other events have none.
  abbrev pub run_of : Event V → Option String
  run_of (queued e) = some e.run_id
  run_of (started e) = some e.run_id
  run_of (step_started e n) = some e.run_id
  run_of (step_completed e n output) = some e.run_id
  run_of (step_failed e n error) = some e.run_id
  run_of (step_skipped e reason) = some e.run_id
  run_of (completed e output) = some e.run_id
  run_of (failed e error) = some e.run_id
  run_of (canceled e reason) = some e.run_id
  run_of pointer = none
  run_of (other v) = none

pub data ProjectError : Type 0 where
  pointer_event : ProjectError

module _ {V : Type 0} where
  unfoldable pub state_for : String → Dict (RunState V) → RunState V
  unfolding lookup
  state_for run states = elim (lookup run states) [ none ↦ new_run | some state ↦ state ]

  abbrev pub is_pointer : Event V → Bool
  is_pointer pointer = true
  is_pointer _ = false

  unfoldable pub apply_event : Dict (RunState V) → Event V → Result ProjectError (Dict (RunState V))
  unfolding update state_for insert
  apply_event states e = elim (run_of e) [
    | some run ↦ ok (insert run (update e (state_for run states)) states)
    | none ↦ if is_pointer e then err pointer_event else ok states
  ]

  unfoldable pub apply_all :
      Dict (RunState V) → List (Event V) → Result ProjectError (Dict (RunState V))
  unfolding apply_event
  apply_all states [] = ok states
  apply_all states (e ∷ events) = apply_event states e >>= λ next. apply_all next events

  abbrev pub project : List (Event V) → Result ProjectError (Dict (RunState V))
  project events = apply_all [] events

  unfoldable pub project_run : List (Event V) → String → Result ProjectError (Option (RunState V))
  unfolding apply_all lookup
  project_run events run = project events >>= λ states. ok (lookup run states)
