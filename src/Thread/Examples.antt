-- ===== src/Thread/Examples.antt =====
-- The store of threads on a small session.
use agentsdk.Prelude.{
  ℕ, String, true, false, Option, none, some, List, [], ◌∷◌, ◌++◌, map, ◌≡◌, ◌≢◌, refl, ◌⊎◌, All,
  is_some, nat_eq, if◌then◌else◌, take,
}
use mathlib.Core.List.{Permᴰ}
use agentsdk.Prelude.Dict.{lookup, insert, erase}
use agentsdk.Prelude.Result.{Result, ok, err}
use agentsdk.Thread.{
  branch_payload, no_source, Event, bare_event, Stored, ThreadError, bad_payload, branch_created,
}
use agentsdk.Thread.Registry.{
  EventDefinition, Registry, register, validate, validate_payload, new_event_registry,
  core_event_definitions,
}
use agentsdk.Thread.Registry.Lookup.{register-lookup}
use agentsdk.Thread.Windows.{
  events_for_branch, events_in, in_window, branch_windows, path_windows, ancestors, branch_windows,
}
use agentsdk.Thread.Windows.Seen.{IsLineage, seen}
use agentsdk.Thread.Windows.Rooted.{name_of}
use agentsdk.Prelude.{zero, suc}
use agentsdk.Thread.{Branch, branch_not_found}
use agentsdk.Thread.Memory.{
  MemoryThread, Store, Live, new_store, validate_event, snapshot, append_locked, CreateParams,
  create, ForkParams, fork, open_live, batch, append, set_archived, listed, insert_by_time,
  sort_by_time, list,
}
use agentsdk.Thread.Memory.Import.{import_log, import_events, import_event, import_valid}
use agentsdk.Thread.Memory.Import.Logs.{events_of, own_events, AreStoredAs, import_events-events}
use agentsdk.Thread.Memory.Sequence.{IsSoundStore}
use agentsdk.Thread.Memory.Reachable.{
  IsReachable, start, after, create_call, append_call, fork_call, IsReachable-IsSoundStore,
  IsReachable-events_for_branch,
}
use agentsdk.Thread.Memory.Appending.{Logged, append_atomic}
use agentsdk.Thread.Memory.Listing.{IsNewestFirst, shown, list_lem}

program : Unit {0}
unfolding register validate validate_payload events_for_branch events_in in_window branch_windows
    path_windows ancestors validate_event snapshot append_locked create fork batch append
    set_archived listed insert_by_time sort_by_time list import_events import_event import_valid
    lookup insert erase
program = tt

abbrev registry : Registry
registry = (new_event_registry core_event_definitions).0

abbrev empty : Store
empty = new_store (some registry)

abbrev params : CreateParams
params = record { id = "t"; branch_id = ""; metadata = none; source = no_source; now = 3 }

abbrev created : Store
created = (create false "aa" "bb" 3 params empty).0

abbrev live : Live
live = open_live "t" "main" no_source

abbrev event_hex : ℕ → String
event_hex i = "cc"

abbrev note : Event
note = bare_event "note"

abbrev noted : Store
noted = (append false event_hex 4 live (note ∷ note ∷ []) created).0

abbrev fork_params : ForkParams
fork_params = record { id = "t"; from_branch_id = ""; to_branch_id = "side"; source = no_source }

abbrev forked : Store
forked = (fork false "dd" event_hex 5 fork_params noted).0

abbrev thread_of : Store → MemoryThread
thread_of s = elim (lookup "t" s.threads) [
  | some t ↦ t
  | none ↦ record {
    id = "";
    branch_id = "";
    branches = [];
    metadata = none;
    archived = false;
    created_at = 0;
    updated_at = 0;
    next_seq = 0;
    events = [];
  }
]

abbrev seqs : Option (Result ThreadError (List Event)) → List ℕ
seqs (some (ok events)) = map (λ (e : Event). e.seq) events
seqs _ = []

-- After the fork one more note goes to each branch: the new branch does not see the old one's.
abbrev apart : Store
apart =
    (append false event_hex 6 (open_live "t" "side" no_source) (note ∷ [])
      (append false event_hex 6 live (note ∷ []) forked).0).0

main_sees : seqs (events_for_branch (snapshot (thread_of apart)) "") ≡ 1 ∷ 2 ∷ 3 ∷ 5 ∷ []
unfolding program
main_sees = refl

side_sees : seqs (events_for_branch (snapshot (thread_of apart)) "side") ≡ 1 ∷ 2 ∷ 3 ∷ 4 ∷ 6 ∷ []
unfolding program
side_sees = refl

-- A registry that refuses the event of a fork or of an archive leaves the branch or the flag.
abbrev refusing : Registry
refusing =
    (
      branch_created,
      record { kind = branch_created; accepts = some (λ p. false); allow_empty = false },
    )
    ∷ []

abbrev refused : Store × Result ThreadError Live
refused = fork false "dd" event_hex 5 fork_params (record noted { registry = some refusing })

refused_fork_leaves_branch :
    (refused.1 ≡ err bad_payload) × (is_some (lookup "side" (thread_of refused.0).branches) ≡ true)
unfolding program
refused_fork_leaves_branch = (refl, refl)

-- The log of a branch whose parent is itself: the loop over the parents does not end.
abbrev ring : Store
ring =
    (import_log false
      (record (bare_event branch_created) {
        thread_id = "t";
        branch_id = "b";
        payload = branch_payload "b" "b" 0;
        seq = 1;
        at = 1;
      }
        ∷ [])
      (new_store none)).0

branches_in_a_ring : (fuel : ℕ) → ancestors fuel (thread_of ring).branches "b" ≡ none
unfolding program
branches_in_a_ring zero = refl
branches_in_a_ring (suc fuel) = rw (branches_in_a_ring fuel) refl

forked-IsReachable : IsReachable (some registry) forked
forked-IsReachable =
    after
      (after (after start (create_call false "aa" "bb" 3 params refl))
        (append_call false event_hex 4 live (note ∷ note ∷ []) refl))
      (fork_call false "dd" event_hex 5 fork_params refl)

thread_forked : lookup "t" forked.threads ≡ some (thread_of forked)
unfolding program
thread_forked = refl

IsReachable-events_for_branch_example :
    let t = thread_of forked in
    let name = name_of (snapshot t) "side" in
    (is_some (lookup name t.branches) ≡ false)
      × (events_for_branch (snapshot t) "side" ≡ some (err (branch_not_found name)))
    ⊎ (is_some (lookup name t.branches) ≡ true)
      × (lineage : List Branch) × IsLineage t.branches name lineage
      × (events_for_branch (snapshot t) "side" ≡ some (ok (seen lineage t.events)))
unfolding snapshot
IsReachable-events_for_branch_example =
    IsReachable-events_for_branch "t" "side" (thread_of forked) forked-IsReachable thread_forked

IsReachable-IsSoundStore_example : IsSoundStore forked
IsReachable-IsSoundStore_example = IsReachable-IsSoundStore forked-IsReachable

thread_found : lookup "t" noted.threads ≡ some (thread_of noted)
unfolding program
thread_found = refl

append_atomic_example :
    let o = append false event_hex 6 live (note ∷ []) noted in
    ((e : ThreadError) × (o.1 ≡ some e) × (o.0 ≡ noted))
    ⊎ ((o.1 ≡ none)
        × (u : MemoryThread) × (lookup "t" o.0.threads ≡ some u)
        × Logged (thread_of noted) u (note ∷ [])
        × ((id : String) → "t" ≢ id → lookup id o.0.threads ≡ lookup id noted.threads))
append_atomic_example =
    append_atomic false event_hex 6 live (note ∷ []) noted (thread_of noted) thread_found

abbrev limit : ℕ
limit = 5

list_example :
    (all : List Stored) × Permᴰ all (shown false noted.threads)
    × IsNewestFirst all
    × (list false false limit noted ≡ ok (if nat_eq limit 0 then all else take limit all))
list_example = list_lem false limit noted

registered : (register core_event_definitions []).1 ≡ none
unfolding program
registered = refl

register-lookup_example :
    ((kind : String) (d : EventDefinition)
      → lookup kind [] ≡ some d
      → lookup kind (register core_event_definitions []).0 ≡ some d)
    × All
        (λ d. lookup d.kind (register core_event_definitions []).0 ≡ some d)
        core_event_definitions
register-lookup_example = register-lookup core_event_definitions [] registered

abbrev elsewhere : Event
elsewhere = record note { thread_id = "u"; seq = 1 }

abbrev mixed : List Event
mixed = elsewhere ∷ record note { thread_id = "t"; seq = 4; branch_id = "side" } ∷ elsewhere ∷ []

abbrev imported : Store
imported = (import_log false mixed noted).0

import_accepted : import_events mixed noted ≡ (imported, none)
unfolding program
import_accepted = refl

import_events-events_example :
    (added : List Event) × (events_of "u" imported ≡ events_of "u" noted ++ added)
    × AreStoredAs (own_events "u" mixed) added
import_events-events_example = import_events-events mixed noted imported "u" import_accepted
