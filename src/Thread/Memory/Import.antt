-- ===== src/Thread/Memory/Import.antt =====
-- `Import` of thread/memorystore.go: the events of a log, in their order, rebuild the threads. An
-- error leaves the store as the events before it, and the parts of its own event that are done.
pub mod Logs
use agentsdk.Prelude.{
  ℕ, ◌+◌, String, Bool, true, false, Option, none, some, List, [], ◌∷◌, ◌++◌, ◌==◌, ◌||◌,
  if◌then◌else◌, ltb, leb, nat_eq, is_some,
}
use agentsdk.Prelude.Dict.{Dict, lookup, insert}
use agentsdk.Prelude.Result.{Result, ok, err}
use agentsdk.Thread.{
  Payload, absent, created_payload, branch_payload, malformed, Event, ThreadError, context_error,
  thread_id_required, kind_required, bad_payload, main_branch, current_schema_version,
  thread_created, thread_archived, thread_unarchived, branch_created, or_else,
}
use agentsdk.Thread.Memory.{MemoryThread, Store, set_thread, validate_event, first_branch}

abbrev pub imported_thread : Event → MemoryThread
imported_thread e = record {
  id = e.thread_id;
  branch_id = e.branch_id;
  branches = first_branch e.branch_id e.at;
  metadata = some [];
  archived = false;
  created_at = e.at;
  updated_at = e.at;
  next_seq = 1;
  events = [];
}

-- The thread of the event, new if need be, with the event's branch.
abbrev pub with_branch : MemoryThread → Event → MemoryThread
with_branch t e = if is_some (lookup e.branch_id t.branches) then t else record t {
  branches =
      insert e.branch_id (record { id = e.branch_id; parent = ""; fork_seq = 0; created_at = e.at })
        t.branches;
}

abbrev pub found_thread : Store → Event → MemoryThread
found_thread s e = elim (lookup e.thread_id s.threads) [ none ↦ imported_thread e | some t ↦ t ]

-- Metadata that decodes and is not nil replaces the thread's.
abbrev pub new_metadata : Payload → Option (Dict String) → Option (Dict String)
new_metadata (created_payload (some m)) old = some m
new_metadata _ old = old

abbrev pub import_created : MemoryThread → Event → MemoryThread
import_created t e =
    if e.kind == thread_created
    then record t {
      created_at = if ltb e.at t.created_at || nat_eq t.created_at 0 then e.at else t.created_at;
      branch_id = e.branch_id;
      metadata = new_metadata e.payload t.metadata;
    }
    else t

abbrev pub put_branch : MemoryThread → Event → String → String → ℕ → MemoryThread
put_branch t e from target fork_seq =
    let to = or_else target e.branch_id in
    record t {
      branches =
          insert to (record { id = to; parent = from; fork_seq = fork_seq; created_at = e.at })
            t.branches;
    }

abbrev pub import_payload : MemoryThread → Event → Payload → Result ThreadError MemoryThread
import_payload t e absent = err bad_payload
import_payload t e (malformed _) = err bad_payload
import_payload t e (branch_payload from to fork_seq) = ok (put_branch t e from to fork_seq)
import_payload t e _ = ok (put_branch t e "" "" 0)

abbrev pub import_branch : MemoryThread → Event → Result ThreadError MemoryThread
import_branch t e = if e.kind == branch_created then import_payload t e e.payload else ok t

abbrev pub import_rest : MemoryThread → Event → MemoryThread
import_rest t e = record t {
  archived =
      if e.kind == thread_archived
      then true
      else if e.kind == thread_unarchived
      then false
      else t.archived;
  events = t.events ++ e ∷ [];
  next_seq = if leb t.next_seq e.seq then e.seq + 1 else t.next_seq;
  updated_at = if ltb t.updated_at e.at || nat_eq t.updated_at 0 then e.at else t.updated_at;
}

abbrev pub versioned : Event → Event
versioned e = record e {
  schema_version = if nat_eq e.schema_version 0 then current_schema_version else e.schema_version;
}

abbrev pub on_branch : Event → Event
on_branch e = record e { branch_id = or_else e.branch_id main_branch }

-- The changes to the thread of an event that passed the checks.
unfoldable pub import_valid : Event → Store → Store × Option ThreadError
import_valid e s =
    let t = import_created (with_branch (found_thread s e) e) e in
    elim (import_branch t e) [
      | err x ↦ (set_thread s e.thread_id t, some x)
      | ok t' ↦ (set_thread s e.thread_id (import_rest t' e), none)
    ]

unfoldable pub import_event : Event → Store → Store × Option ThreadError
import_event e s =
    if e.thread_id == ""
    then (s, some thread_id_required)
    else if e.kind == ""
    then (s, some kind_required)
    else elim (validate_event s (versioned e)) [
      | some x ↦ (s, some x)
      | none ↦ import_valid (on_branch (versioned e)) s
    ]

unfoldable pub import_events : List Event → Store → Store × Option ThreadError
unfolding import_event
import_events [] s = (s, none)
import_events (e ∷ events) s =
    let (s', x) = import_event e s in
    let rest = import_events events s' in elim x [ some x' ↦ (s', some x') | none ↦ rest ]

abbrev pub import_log : Bool → List Event → Store → Store × Option ThreadError
import_log ctx_err events s = if ctx_err then (s, some context_error) else import_events events s
