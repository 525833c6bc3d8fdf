-- ===== src/Thread/Registry.antt =====
-- thread/event_registry.go. `json.Unmarshal` into a payload's Go type is `accepts`, or `none` where
-- the definition has no type.
pub mod Lookup
use agentsdk.Prelude.{
  String, Bool, true, false, not, Option, none, some, List, [], ◌∷◌, ◌==◌, ◌||◌, if◌then◌else◌,
  is_some,
}
use agentsdk.Prelude.Dict.{Dict, lookup, insert}
use agentsdk.Prelude.Result.{Result, ok, err, guard, ◌>>=◌, ◌>>◌}
use agentsdk.Thread.{
  Payload, absent, created_payload, branch_payload, other_object, malformed, Event, ThreadError,
  kind_required, payload_required, bad_payload, definition_exists, definition_kind_required,
  thread_created, thread_archived, thread_unarchived, branch_created,
}

pub record EventDefinition : Type 0 where
  pub kind : String
  pub accepts : Option (Payload → Bool)
  pub allow_empty : Bool

abbrev pub Registry : Type 0
Registry = Dict EventDefinition

abbrev pub define_event : (Payload → Bool) → String → EventDefinition
define_event accepts kind = record { kind = kind; accepts = some accepts; allow_empty = false }

abbrev pub define_empty_event : String → EventDefinition
define_empty_event kind = record { kind = kind; accepts = none; allow_empty = true }

-- `Register` keeps what it registered before an error.
unfoldable pub register : List EventDefinition → Registry → Registry × Option ThreadError
register [] r = (r, none)
register (d ∷ definitions) r =
    let rest = register definitions (insert d.kind d r) in
    if d.kind == ""
    then (r, some definition_kind_required)
    else if is_some (lookup d.kind r)
    then (r, some (definition_exists d.kind))
    else rest

abbrev pub new_event_registry : List EventDefinition → Registry × Option ThreadError
new_event_registry definitions = register definitions []

abbrev pub is_absent : Payload → Bool
is_absent absent = true
is_absent _ = false

unfoldable pub validate_payload : EventDefinition → Payload → Option ThreadError
validate_payload d payload =
    if is_absent payload
    then (if d.allow_empty || not (is_some d.accepts) then none else some payload_required)
    else elim d.accepts [
      | none ↦ none
      | some accepts ↦ if accepts payload then none else some bad_payload
    ]

-- `Validate`; a nil registry and an empty one accept every event with a kind.
unfoldable pub validate : Registry → Event → Option ThreadError
unfolding validate_payload
validate r event =
    if event.kind == ""
    then some kind_required
    else elim (lookup event.kind r) [ none ↦ none | some d ↦ validate_payload d event.payload ]

abbrev pub is_object : Payload → Bool
is_object absent = false
is_object (malformed _) = false
is_object _ = true

abbrev pub core_event_definitions : List EventDefinition
core_event_definitions =
    define_event is_object thread_created
    ∷ define_empty_event "thread.metadata_updated"
    ∷ define_empty_event thread_archived
    ∷ define_empty_event thread_unarchived
    ∷ define_event is_object branch_created
    ∷ define_empty_event "branch.head_moved"
    ∷ []
