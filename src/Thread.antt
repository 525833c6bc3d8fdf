-- ===== src/Thread.antt =====
-- thread/event.go, thread/ids.go and thread/store.go: the events of a thread and its branches. A
-- time is a number, 0 the zero time. Sequence numbers are numbers: Go's are `int64`, of which a
-- thread would have to hold 2 ^ 63 events to run out.
pub mod Registry
pub mod Windows
pub mod Memory
mod Examples
use Prim.Native.String.{◌++◌ as join}
use agentsdk.Prelude.{
  ℕ, String, Bool, true, false, Option, none, some, List, [], ◌∷◌, ◌==◌, ◌&&◌, if◌then◌else◌,
}
use agentsdk.Prelude.Dict.{Dict}

abbrev pub main_branch : String
main_branch = "main"

abbrev pub current_schema_version : ℕ
current_schema_version = 1

abbrev pub thread_created : String
thread_created = "thread.created"

abbrev pub thread_archived : String
thread_archived = "thread.archived"

abbrev pub thread_unarchived : String
thread_unarchived = "thread.unarchived"

abbrev pub branch_created : String
branch_created = "branch.created"

-- The raw JSON of a payload, by what it decodes to: nothing, the payload of `thread.created` or of
-- `branch.created`, an object with none of their fields, or no JSON object.
pub data Payload : Type 0 where
  absent : Payload
  created_payload : (metadata : Option (Dict String)) → Payload
  branch_payload : (source target : String) (fork_seq : ℕ) → Payload
  other_object : (raw : String) → Payload
  malformed : (raw : String) → Payload

pub record EventSource : Type 0 where
  pub type : String
  pub id : String
  pub session_id : String

abbrev pub no_source : EventSource
no_source = record { type = ""; id = ""; session_id = "" }

pub record Event : Type 0 where
  pub id : String
  pub thread_id : String
  pub branch_id : String
  pub node_id : String
  pub parent_node_id : String
  pub schema_version : ℕ
  pub seq : ℕ
  pub kind : String
  pub payload : Payload
  pub at : ℕ
  pub source : EventSource
  pub causation_id : String
  pub correlation_id : String

-- `Event{Kind: kind}`
abbrev pub bare_event : String → Event
bare_event kind = record {
  id = "";
  thread_id = "";
  branch_id = "";
  node_id = "";
  parent_node_id = "";
  schema_version = 0;
  seq = 0;
  kind = kind;
  payload = absent;
  at = 0;
  source = no_source;
  causation_id = "";
  correlation_id = "";
}

pub record Branch : Type 0 where
  pub id : String
  pub parent : String
  pub fork_seq : ℕ
  pub created_at : ℕ

pub record Stored : Type 0 where
  pub id : String
  pub branch_id : String
  pub branches : Dict Branch
  pub metadata : Option (Dict String)
  pub archived : Bool
  pub created_at : ℕ
  pub updated_at : ℕ
  pub events : List Event

pub data ThreadError : Type 0 where
  context_error thread_id_required kind_required payload_required bad_payload live_closed :
      ThreadError
  thread_not_found thread_exists branch_not_found branch_exists : String → ThreadError
  definition_exists : String → ThreadError
  definition_kind_required : ThreadError

abbrev pub new_thread_id : String → String
new_thread_id hex = join "thread_" hex

abbrev pub new_branch_id : String → String
new_branch_id hex = join "branch_" hex

abbrev pub new_event_id : String → String
new_event_id hex = join "event_" hex

-- `if x == "" { x = y }`
abbrev pub or_else : String → String → String
or_else x y = if x == "" then y else x
