-- ===== src/Thread/Windows.antt =====
-- `EventsForBranch` and `branchWindows` of thread/store.go: the events that a branch sees are its own
-- and those of its ancestors up to where it forked off.
pub mod Rooted
pub mod Seen
use agentsdk.Prelude.{
  ℕ, zero, suc, String, Bool, false, not, Option, none, some, List, [], ◌∷◌, reverse, ◌==◌, ◌&&◌,
  ◌||◌, if◌then◌else◌, ltb, leb, length,
}
use agentsdk.Prelude.Dict.{Dict, lookup, insert}
use agentsdk.Prelude.Result.{Result, ok, err}
use agentsdk.Thread.{Event, Branch, Stored, ThreadError, branch_not_found, main_branch, or_else}

pub record Window : Type 0 where
  pub after : ℕ
  pub until : ℕ

abbrev pub put_first :
    Branch → Option (Result ThreadError (List Branch)) → Option (Result ThreadError (List Branch))
put_first b none = none
put_first b (some (err e)) = some (err e)
put_first b (some (ok branches)) = some (ok (b ∷ branches))

-- The loop over the parents, the branch itself first; `none`: the fuel ran out.
unfoldable pub ancestors : ℕ → Dict Branch → String → Option (Result ThreadError (List Branch))
ancestors zero branches current = if current == "" then some (ok []) else none
ancestors (suc fuel) branches current =
    if current == "" then some (ok []) else elim (lookup current branches) [
      | none ↦ some (err (branch_not_found current))
      | some branch ↦ put_first branch (ancestors fuel branches branch.parent)
    ]

-- The loop over the path from the root: each window ends where the next branch begins.
unfoldable pub path_windows : List Branch → Dict Window → Dict Window
path_windows [] windows = windows
path_windows (b ∷ []) windows = insert b.id (record { after = b.fork_seq; until = 0 }) windows
path_windows (b ∷ next ∷ path) windows =
    path_windows (next ∷ path)
      (insert b.id (record { after = b.fork_seq; until = next.fork_seq }) windows)

abbrev pub main_window : Dict Window
main_window = (main_branch, record { after = 0; until = 0 }) ∷ []

abbrev pub windows_of :
    Option (Result ThreadError (List Branch)) → Option (Result ThreadError (Dict Window))
windows_of none = none
windows_of (some (err e)) = some (err e)
windows_of (some (ok reversed)) = some (ok (path_windows (reverse reversed) []))

-- The fuel is the number of branches.
unfoldable pub branch_windows : String → Dict Branch → Option (Result ThreadError (Dict Window))
unfolding ancestors path_windows
branch_windows branch_id [] =
    if branch_id == main_branch || branch_id == ""
    then some (ok main_window)
    else some (err (branch_not_found branch_id))
branch_windows branch_id (b ∷ branches) =
    windows_of (ancestors (length (b ∷ branches)) (b ∷ branches) branch_id)

unfoldable pub in_window : Dict Window → Event → Bool
in_window windows event = elim (lookup event.branch_id windows) [
  | none ↦ false
  | some w ↦ not (leb event.seq w.after) && not (ltb 0 w.until && ltb w.until event.seq)
]

unfoldable pub events_in : Dict Window → List Event → List Event
events_in windows [] = []
events_in windows (e ∷ events) =
    let rest = events_in windows events in if in_window windows e then e ∷ rest else rest

abbrev pub seen_events :
    List Event
    → Option (Result ThreadError (Dict Window))
    → Option (Result ThreadError (List Event))
seen_events events none = none
seen_events events (some (err e)) = some (err e)
seen_events events (some (ok windows)) = some (ok (events_in windows events))

unfoldable pub events_for_branch : Stored → String → Option (Result ThreadError (List Event))
unfolding branch_windows events_in
events_for_branch s branch_id =
    seen_events s.events
      (branch_windows (or_else (or_else branch_id s.branch_id) main_branch) s.branches)
