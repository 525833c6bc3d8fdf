-- ===== src/Thread/Memory/Reachable.antt =====
-- The stores that sequences of calls of thread/memorystore.go can build.
use agentsdk.Prelude.{
  ℕ, String, Bool, true, false, Option, some, List, ◌≡◌, refl, ◌⊎◌, inl, inr, ◌==◌, arith,
  Bool-cases, List-cases, is_some, length, ap, ◌∙◌,
}
use agentsdk.Prelude.Result.{ok, err}
use agentsdk.Thread.Windows.{events_for_branch}
use agentsdk.Thread.Windows.Rooted.{name_of, IsRooted-events_for_branch}
use agentsdk.Thread.Windows.Seen.{IsLineage, seen, ancestors-IsLineage, events_in-seen}
use agentsdk.Prelude.Dict.{lookup}
use agentsdk.Thread.{Branch, Event, branch_not_found, main_branch, or_else}
use agentsdk.Thread.Registry.{Registry}
use agentsdk.Thread.Memory.{
  MemoryThread, snapshot, Store, Live, CreateParams, create, ForkParams, fork, set_archived, append,
  discard_thread, discard, new_store,
}
use agentsdk.Thread.Memory.Sequence.{IsSoundStore}
use agentsdk.Thread.Memory.Keeping.{
  create-IsSoundStore, fork-IsSoundStore, set_archived-IsSoundStore, append-IsSoundStore,
  erase-IsSoundStore,
}

-- One call of the store, whatever its arguments and whether it succeeds.
pub data Call (s u : Store) : Type 0 where
  create_call :
      (ctx_err : Bool) (hex event_hex : String) (clock : ℕ) (p : CreateParams)
      → u ≡ (create ctx_err hex event_hex clock p s).0
      → Call s u
  fork_call :
      (ctx_err : Bool) (hex : String) (event_hex : ℕ → String) (now : ℕ) (p : ForkParams)
      → u ≡ (fork ctx_err hex event_hex now p s).0
      → Call s u
  archive_call :
      (ctx_err archived : Bool) (hex : ℕ → String) (now : ℕ) (id : String)
      → u ≡ (set_archived ctx_err archived hex now id s).0
      → Call s u
  append_call :
      (ctx_err : Bool) (hex : ℕ → String) (now : ℕ) (l : Live) (events : List Event)
      → u ≡ (append ctx_err hex now l events s).0
      → Call s u
  discard_call : (l : Live) → u ≡ (discard l s).1 → Call s u
  delete_call : (ctx_err : Bool) (id : String) → u ≡ (discard_thread ctx_err id s).0 → Call s u

pub data IsReachable (registry : Option Registry) : Store → Type 0 where
  start : IsReachable registry (new_store registry)
  after : {s u : Store} → IsReachable registry s → Call s u → IsReachable registry u

Call-IsSoundStore : (s u : Store) → Call s u → IsSoundStore s → IsSoundStore u
unfolding discard discard_thread
Call-IsSoundStore s u (create_call c hex event_hex clock p e) w =
    rw e (create-IsSoundStore c hex event_hex clock p s w)
Call-IsSoundStore s u (fork_call c hex event_hex now p e) w =
    rw e (fork-IsSoundStore c hex event_hex now p s w)
Call-IsSoundStore s u (archive_call c archived hex now id e) w =
    rw e (set_archived-IsSoundStore c archived hex now id s w)
Call-IsSoundStore s u (append_call c hex now l events e) w =
    rw e (append-IsSoundStore c hex now l events s w)
Call-IsSoundStore s u (discard_call l e) w = rw e (erase-IsSoundStore s l.thread_id w)
Call-IsSoundStore s u (delete_call true id e) w = rw e w
Call-IsSoundStore s u (delete_call false id e) w = rw e (erase-IsSoundStore s id w)

new_store-IsSoundStore : (registry : Option Registry) → IsSoundStore (new_store registry)
unfolding lookup
new_store-IsSoundStore registry = record {
  at_id = λ id t h. absurd (cc);
  named = λ id t h. absurd (cc);
}

-- In a store built by any sequence of calls, imports apart, and failing calls included, a thread
-- stands under its own id; its events carry that id and the numbers 1, 2, 3 and so on without a gap,
-- up to the thread's next number; its own branch is there, and every branch's parent was there
-- before the branch.
pub IsReachable-IsSoundStore :
    {registry : Option Registry} {s : Store} → IsReachable registry s → IsSoundStore s
IsReachable-IsSoundStore {registry} start = new_store-IsSoundStore registry
IsReachable-IsSoundStore (after {s = s} {u = u} r c) =
    Call-IsSoundStore s u c (IsReachable-IsSoundStore r)

main_branch_named : (x : String) → (or_else x main_branch == "") ≡ false
main_branch_named x = elim (Bool-cases (x == "")) [
  | inl empty ↦ rw empty refl
  | inr named ↦ rw named named
]

-- In a store built by any sequence of calls, imports apart, and failing calls included, the loop of
-- `EventsForBranch` over a branch's parents ends for every thread and every branch. An unknown branch
-- is the only error. A branch that is there sees, in the log's order, the events of its own that are
-- numbered after its fork, those of its parent numbered after the parent's fork and up to the branch's
-- fork, and so on to the root; a fork at number 0 sets no upper end.
pub IsReachable-events_for_branch :
    {registry : Option Registry} {s : Store} (id branch : String) (t : MemoryThread)
    → IsReachable registry s
    → lookup id s.threads ≡ some t
    → let name = name_of (snapshot t) branch in
      (is_some (lookup name t.branches) ≡ false)
        × (events_for_branch (snapshot t) branch ≡ some (err (branch_not_found name)))
      ⊎ (is_some (lookup name t.branches) ≡ true)
        × (lineage : List Branch) × IsLineage t.branches name lineage
        × (events_for_branch (snapshot t) branch ≡ some (ok (seen lineage t.events)))
unfolding snapshot lookup
IsReachable-events_for_branch {registry} {s} id branch t r h =
    let v = (IsReachable-IsSoundStore r).at_id id t h in
    let named = main_branch_named (or_else branch t.branch_id) in
    elim (List-cases t.branches) [
      | inl none_there ↦ absurd (cc (rw none_there at v.branched.default))
      | inr ((k, b), d, e) ↦
          elim (IsRooted-events_for_branch (snapshot t) branch e v.branched.rooted) [
            | inl (unknown, end) ↦ inl (ground (arith, unknown, named), end)
            | inr (known, p, done, end) ↦ inr (
              ground (arith, known, named),
              p,
              ancestors-IsLineage (length t.branches) t.branches (name_of (snapshot t) branch) done,
              end ∙ ap (λ l. some (ok l)) (events_in-seen p t.events),
            )
          ]
    ]
