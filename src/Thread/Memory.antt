-- ===== src/Thread/Memory.antt =====
-- thread/memorystore.go: the store of threads in memory. The mutex makes each call one step. A
-- method takes whether `ctx.Err()` reports an error, the random hex texts and the clock that it
-- reads, and returns the store that it leaves, on its error paths too.
pub mod Appending
pub mod Import
pub mod Keeping
pub mod Listing
pub mod Reachable
pub mod Sequence
use agentsdk.Prelude.{
  ℕ, zero, suc, ◌+◌, ◌-◌, String, Bool, true, false, not, Option, none, some, List, [], ◌∷◌, ◌++◌,
  map, ◌==◌, ◌&&◌, ◌||◌, if◌then◌else◌, ltb, leb, nat_eq, length, is_some, take,
}
use agentsdk.Prelude.Dict.{Dict, lookup, insert, erase}
use agentsdk.Prelude.Result.{Result, ok, err}
use agentsdk.Thread.{
  Payload, created_payload, branch_payload, EventSource, Event, bare_event, Branch, Stored,
  ThreadError, context_error, kind_required, live_closed, thread_not_found, thread_exists,
  branch_not_found, branch_exists, main_branch, current_schema_version, thread_created,
  thread_archived, thread_unarchived, branch_created, new_thread_id, new_branch_id, new_event_id,
  or_else,
}
use agentsdk.Thread.Registry.{Registry, validate}

-- `memoryThread`
pub record MemoryThread : Type 0 where
  pub id : String
  pub branch_id : String
  pub branches : Dict Branch
  pub metadata : Option (Dict String)
  pub archived : Bool
  pub created_at : ℕ
  pub updated_at : ℕ
  pub next_seq : ℕ
  pub events : List Event

pub record Store : Type 0 where
  pub threads : Dict MemoryThread
  pub registry : Option Registry

-- `memoryLive`, without the store that it points to
pub record Live : Type 0 where
  pub thread_id : String
  pub branch_id : String
  pub source : EventSource
  pub closed : Bool

abbrev pub new_store : Option Registry → Store
new_store registry = record { threads = []; registry = registry }

unfoldable pub validate_event : Store → Event → Option ThreadError
validate_event s event = elim s.registry [ none ↦ none | some r ↦ validate r event ]

unfoldable pub snapshot : MemoryThread → Stored
snapshot t = record {
  id = t.id;
  branch_id = t.branch_id;
  branches = t.branches;
  metadata = t.metadata;
  archived = t.archived;
  created_at = t.created_at;
  updated_at = t.updated_at;
  events = t.events;
}

abbrev pub set_thread : Store → String → MemoryThread → Store
set_thread s id t = record s { threads = insert id t s.threads }

-- What `appendLocked` makes of one event: `hex` is drawn if the event has no id.
abbrev pub stamped : String → ℕ → MemoryThread → String → Event → Event
stamped hex now t branch_id e = record e {
  id = or_else e.id (new_event_id hex);
  thread_id = t.id;
  branch_id = or_else (or_else e.branch_id branch_id) t.branch_id;
  schema_version = if nat_eq e.schema_version 0 then current_schema_version else e.schema_version;
  seq = t.next_seq;
  at = if nat_eq e.at 0 then now else e.at;
}

abbrev pub take_event : MemoryThread → Event → MemoryThread
take_event t e = record t {
  next_seq = t.next_seq + 1;
  events = t.events ++ e ∷ [];
  updated_at = e.at;
}

-- `appendLocked`
unfoldable pub append_locked :
    (ℕ → String) → ℕ → ℕ → String → List Event → MemoryThread → MemoryThread
append_locked hex now i branch_id [] t = t
append_locked hex now i branch_id (e ∷ events) t =
    append_locked hex now (suc i) branch_id events
      (take_event t (stamped (hex i) now t branch_id e))

-- `omitempty`: an empty map leaves no field in the JSON.
abbrev pub some_metadata : Option (Dict String) → Option (Dict String)
some_metadata none = none
some_metadata (some []) = none
some_metadata (some (e ∷ m)) = some (e ∷ m)

pub record CreateParams : Type 0 where
  pub id : String
  pub branch_id : String
  pub metadata : Option (Dict String)
  pub source : EventSource
  pub now : ℕ

abbrev pub first_branch : String → ℕ → Dict Branch
first_branch id now = (id, record { id = id; parent = ""; fork_seq = 0; created_at = now }) ∷ []

abbrev pub created_thread : String → String → ℕ → Event → Option (Dict String) → MemoryThread
created_thread id branch_id now created metadata = record {
  id = id;
  branch_id = branch_id;
  branches = first_branch branch_id now;
  metadata = metadata;
  archived = false;
  created_at = now;
  updated_at = now;
  next_seq = 2;
  events = created ∷ [];
}

abbrev pub created_event : String → String → String → ℕ → CreateParams → Event
created_event hex id branch_id now p = record (bare_event thread_created) {
  id = new_event_id hex;
  thread_id = id;
  branch_id = branch_id;
  schema_version = current_schema_version;
  seq = 1;
  payload = created_payload (some_metadata p.metadata);
  at = now;
  source = p.source;
}

abbrev pub open_live : String → String → EventSource → Live
open_live id branch_id source = record {
  thread_id = id;
  branch_id = branch_id;
  source = source;
  closed = false;
}

-- `hex` is drawn for the thread's id, `event_hex` for the event's; `clock` is `time.Now()`.
unfoldable pub create :
    Bool → String → String → ℕ → CreateParams → Store → Store × Result ThreadError Live
create ctx_err hex event_hex clock p s =
    let id = or_else p.id (new_thread_id hex) in
    let branch_id = or_else p.branch_id main_branch in
    let now = (if nat_eq p.now 0 then clock else p.now) in
    let created = created_event event_hex id branch_id now p in
    if ctx_err
    then (s, err context_error)
    else if is_some (lookup id s.threads)
    then (s, err (thread_exists id))
    else elim (validate_event s created) [
      | some e ↦ (s, err e)
      | none ↦ (
        set_thread s id (created_thread id branch_id now created p.metadata),
        ok (open_live id branch_id p.source),
      )
    ]

unfoldable pub resume : Bool → String → String → EventSource → Store → Result ThreadError Live
resume ctx_err id branch source s =
    if ctx_err then err context_error else elim (lookup id s.threads) [
      | none ↦ err (thread_not_found id)
      | some t ↦
          let branch_id = or_else branch t.branch_id in
          if is_some (lookup branch_id t.branches)
          then ok (open_live t.id branch_id source)
          else err (branch_not_found branch_id)
    ]

pub record ForkParams : Type 0 where
  pub id : String
  pub from_branch_id : String
  pub to_branch_id : String
  pub source : EventSource

abbrev pub fork_event : String → String → ℕ → ℕ → EventSource → Event
fork_event from to fork_seq now source = record (bare_event branch_created) {
  payload = branch_payload from to fork_seq;
  source = source;
  at = now;
}

abbrev pub add_branch : MemoryThread → String → String → ℕ → MemoryThread
add_branch t from to now = record t {
  branches =
      insert to (record { id = to; parent = from; fork_seq = t.next_seq - 1; created_at = now })
        t.branches;
}

-- The branch is in the thread before its event is validated, and stays there if that fails.
abbrev pub fork_thread :
    (ℕ → String)
    → ℕ
    → Store
    → MemoryThread
    → String
    → String
    → String
    → EventSource
    → Store × Result ThreadError Live
fork_thread event_hex now s t id from to source =
    let event = fork_event from to (t.next_seq - 1) now source in
    let forked = add_branch t from to now in
    elim (validate_event s event) [
      | some e ↦ (set_thread s id forked, err e)
      | none ↦ (
        set_thread s id (append_locked event_hex now 0 to (event ∷ []) forked),
        ok (open_live t.id to source),
      )
    ]

unfoldable pub fork :
    Bool → String → (ℕ → String) → ℕ → ForkParams → Store → Store × Result ThreadError Live
unfolding append_locked
fork ctx_err hex event_hex now p s =
    if ctx_err then (s, err context_error) else elim (lookup p.id s.threads) [
      | none ↦ (s, err (thread_not_found p.id))
      | some t ↦
          let from = or_else (or_else p.from_branch_id t.branch_id) main_branch in
          let to = or_else p.to_branch_id (new_branch_id hex) in
          if not (is_some (lookup from t.branches))
          then (s, err (branch_not_found from))
          else if is_some (lookup to t.branches)
          then (s, err (branch_exists to))
          else fork_thread event_hex now s t p.id from to p.source
    ]

unfoldable pub read : Bool → String → Store → Result ThreadError Stored
unfolding snapshot
read ctx_err id s =
    if ctx_err
    then err context_error
    else elim (lookup id s.threads) [ none ↦ err (thread_not_found id) | some t ↦ ok (snapshot t) ]

-- `setArchived`: the flag is set before the event is validated.
unfoldable pub set_archived :
    Bool → Bool → (ℕ → String) → ℕ → String → Store → Store × Option ThreadError
unfolding append_locked
set_archived ctx_err archived hex now id s =
    if ctx_err then (s, some context_error) else elim (lookup id s.threads) [
      | none ↦ (s, some (thread_not_found id))
      | some t ↦
          let flagged : MemoryThread = record t { archived = archived } in
          let event = bare_event (if archived then thread_archived else thread_unarchived) in
          elim (validate_event s event) [
            | some e ↦ (set_thread s id flagged, some e)
            | none ↦
                (set_thread s id (append_locked hex now 0 t.branch_id (event ∷ []) flagged), none)
          ]
    ]

abbrev pub archive : Bool → (ℕ → String) → ℕ → String → Store → Store × Option ThreadError
archive ctx_err hex now id s = set_archived ctx_err true hex now id s

abbrev pub unarchive : Bool → (ℕ → String) → ℕ → String → Store → Store × Option ThreadError
unarchive ctx_err hex now id s = set_archived ctx_err false hex now id s

abbrev pub has_source : EventSource → Bool
has_source s = not (s.type == "" && (s.id == "" && s.session_id == ""))

abbrev pub prepared : Live → Event → Event
prepared l e = record e {
  thread_id = l.thread_id;
  branch_id = or_else e.branch_id l.branch_id;
  source = if has_source e.source then e.source else l.source;
}

-- The loop of `Append` over the events: the batch, or the first event's error.
unfoldable pub batch : Store → Live → List Event → Result ThreadError (List Event)
unfolding validate_event
batch s l [] = ok []
batch s l (e ∷ events) =
    let rest = batch s l events in
    if e.kind == "" then err kind_required else elim (validate_event s e) [
      | some x ↦ err x
      | none ↦ elim rest [ err x ↦ err x | ok es ↦ ok (prepared l e ∷ es) ]
    ]

unfoldable pub append :
    Bool → (ℕ → String) → ℕ → Live → List Event → Store → Store × Option ThreadError
append ctx_err hex now l [] s = if ctx_err then (s, some context_error) else (s, none)
append ctx_err hex now l (e ∷ events) s =
    if ctx_err
    then (s, some context_error)
    else if l.closed
    then (s, some live_closed)
    else elim (lookup l.thread_id s.threads) [
      | none ↦ (s, some (thread_not_found l.thread_id))
      | some t ↦ elim (batch s l (e ∷ events)) [
        | err x ↦ (s, some x)
        | ok es ↦ (set_thread s l.thread_id (append_locked hex now 0 l.branch_id es t), none)
      ]
    ]

unfoldable pub shutdown : Live → Live
shutdown l = record l { closed = true }

unfoldable pub discard : Live → Store → Live × Store
discard l s = (record l { closed = true }, record s { threads = erase l.thread_id s.threads })

unfoldable pub discard_thread : Bool → String → Store → Store × Option ThreadError
discard_thread ctx_err id s =
    if ctx_err then (s, some context_error) else (record s { threads = erase id s.threads }, none)

unfoldable pub listed : Bool → Dict MemoryThread → List Stored
unfolding snapshot
listed include_archived [] = []
listed include_archived ((id, t) ∷ threads) =
    let rest = listed include_archived threads in
    if t.archived && not include_archived then rest else snapshot t ∷ rest

-- `sort.Slice`, the latest first. Threads of one time may come in any order; here in the map's.
unfoldable pub insert_by_time : Stored → List Stored → List Stored
insert_by_time a [] = a ∷ []
insert_by_time a (b ∷ l) =
    let rest = insert_by_time a l in if ltb a.updated_at b.updated_at then b ∷ rest else a ∷ b ∷ l

unfoldable pub sort_by_time : List Stored → List Stored
unfolding insert_by_time
sort_by_time [] = []
sort_by_time (a ∷ l) = insert_by_time a (sort_by_time l)

unfoldable pub list : Bool → Bool → ℕ → Store → Result ThreadError (List Stored)
unfolding listed sort_by_time
list ctx_err include_archived limit s =
    let threads = sort_by_time (listed include_archived s.threads) in
    if ctx_err
    then err context_error
    else ok (if ltb 0 limit && ltb limit (length threads) then take limit threads else threads)
