-- ===== src/Tree.antt =====
-- conversation/tree.go and conversation/ids.go: the tree of conversation nodes, its branches and
-- their compaction floors. A method that changes the tree returns the new one; the mutex makes
-- each call one step. `draw` gives the random hex text and the clock reading that each round of a
-- loop meets in `NewNodeID` and `time.Now`. A time is a number, and 0 is the zero time.
pub mod Chain
pub mod Invariant
pub mod Paths
pub mod Isolation
pub mod Reachable
mod Examples
use Prim.Native.String.{◌++◌ as join}
use agentsdk.Prelude.{
  ℕ, zero, suc, String, Bool, true, false, not, Option, none, some, List, [], ◌∷◌, reverse, ◌==◌,
  if◌then◌else◌, is_some, length, nat_eq,
}
use agentsdk.Prelude.Dict.{Dict, lookup, lookup_or, insert, erase}
use agentsdk.Prelude.Result.{Result, ok, err, guard, ◌>>=◌, ◌>>◌}

abbrev pub main_branch : String
main_branch = "main"

pub record Draw : Type 0 where
  pub hex : String
  pub now : ℕ

abbrev pub new_node_id : String → String
new_node_id hex = join "node_" hex

abbrev pub new_branch_id : String → String
new_branch_id hex = join "branch_" hex

-- `payload` is an interface value, which may be nil.
pub record Node (P : Type 0) : Type 0 where
  pub id : String
  pub parent : String
  pub payload : Option P
  pub created_at : ℕ

pub record Tree (P : Type 0) : Type 0 where
  pub nodes : Dict (Node P)
  pub branches : Dict String
  pub floors : Dict String

pub data TreeError : Type 0 where
  no_payloads payload_required node_id_required : TreeError
  branch_not_found branch_already_exists node_not_found node_already_exists parent_not_found :
      String → TreeError

-- `if branch == "" { branch = MainBranch }`
abbrev pub or_main : String → String
or_main branch = if branch == "" then main_branch else branch

-- `if to == "" { to = NewBranchID() }`
abbrev pub fork_target : String → String → String
fork_target hex target = if target == "" then new_branch_id hex else target

module _ {P : Type 0} where
  abbrev pub all_payloads : List (Option P) → Bool
  all_payloads [] = true
  all_payloads (none ∷ ps) = false
  all_payloads (some _ ∷ ps) = all_payloads ps

  abbrev pub has_parent : String → Dict (Node P) → Bool
  has_parent id nodes = if id == "" then true else is_some (lookup id nodes)

abbrev pub new_tree : {P : Type 0} → Tree P
new_tree = record { nodes = []; branches = (main_branch, "") ∷ []; floors = [] }

abbrev pub first_id : Result TreeError (List String) → Result TreeError String
first_id (err e) = err e
first_id (ok []) = err no_payloads
first_id (ok (id ∷ ids)) = ok id

module _ {P : Type 0} (draw : ℕ → Draw) where
  abbrev pub drawn_node : ℕ → String → Option P → Node P
  drawn_node i parent payload = record {
    id = new_node_id (draw i).hex;
    parent = parent;
    payload = payload;
    created_at = (draw i).now;
  }

  -- The loop over the payloads: the nodes, the last node's id, and the new ids in order.
  unfoldable pub append_nodes :
      ℕ → String → List (Option P) → Dict (Node P) → Dict (Node P) × String × List String
  append_nodes i parent [] nodes = (nodes, parent, [])
  append_nodes i parent (payload ∷ payloads) nodes =
      let node = drawn_node i parent payload in
      let (nodes', last, ids) = append_nodes (suc i) node.id payloads (insert node.id node nodes) in
      (nodes', last, node.id ∷ ids)

  abbrev pub append_found :
      Tree P → String → List (Option P) → String → Tree P × Result TreeError (List String)
  append_found t branch payloads parent =
      let (nodes, last, ids) = append_nodes 0 parent payloads t.nodes in
      (record t { nodes = nodes; branches = insert branch last t.branches }, ok ids)

  unfoldable pub append_many :
      String → List (Option P) → Tree P → Tree P × Result TreeError (List String)
  append_many branch [] t = (t, err no_payloads)
  append_many branch (p ∷ ps) t =
      if all_payloads (p ∷ ps)
      then (let name = or_main branch in
          elim (lookup name t.branches) [
            | none ↦ (t, err (branch_not_found name))
            | some parent ↦ append_found t name (p ∷ ps) parent
          ])
      else (t, err payload_required)

  unfoldable pub append : String → Option P → Tree P → Tree P × Result TreeError String
  unfolding append_many
  append branch payload t =
      let (t', result) = append_many branch (payload ∷ []) t in (t', first_id result)

module _ {P : Type 0} where
  unfoldable pub check_insert : Tree P → Node P → Result TreeError (Unit {0})
  check_insert t node = do
    guard (not (node.id == "")) node_id_required
    guard (is_some node.payload) payload_required
    guard (not (is_some (lookup node.id t.nodes))) (node_already_exists node.id)
    guard (has_parent node.parent t.nodes) (parent_not_found node.parent)

  abbrev pub stamped : ℕ → Node P → Node P
  stamped now node = if nat_eq node.created_at 0 then record node { created_at = now } else node

  -- The first write to `t.branches`, of "" for a new branch, is overwritten at once.
  unfoldable pub insert_node : ℕ → String → Node P → Tree P → Tree P × Result TreeError (Unit {0})
  insert_node now branch node t = elim (check_insert t node) [
    | err e ↦ (t, err e)
    | ok _ ↦ (
      record t {
        nodes = insert node.id (stamped now node) t.nodes;
        branches = insert (or_main branch) node.id t.branches;
      },
      ok tt,
    )
  ]

  unfoldable pub node_at : String → Tree P → Option (Node P)
  node_at id t = lookup id t.nodes

  -- The floor of `from` is not copied.
  unfoldable pub fork : String → String → String → Tree P → Tree P × Result TreeError (Unit {0})
  fork hex source target t =
      let from = or_main source in
      let to = fork_target hex target in
      elim (lookup from t.branches) [
        | none ↦ (t, err (branch_not_found from))
        | some head ↦
            if is_some (lookup to t.branches)
            then (t, err (branch_already_exists to))
            else (record t { branches = insert to head t.branches }, ok tt)
      ]

  unfoldable pub move_head : String → String → Tree P → Tree P × Result TreeError (Unit {0})
  move_head branch id t =
      let name = or_main branch in
      if is_some (lookup name t.branches)
      then (if has_parent id t.nodes
          then (record t { branches = insert name id t.branches }, ok tt)
          else (t, err (node_not_found id)))
      else (t, err (branch_not_found name))

  unfoldable pub head : String → Tree P → Option String
  head branch t = lookup (or_main branch) t.branches

  unfoldable pub set_floor : String → String → Tree P → Tree P
  set_floor branch id t =
      let name = or_main branch in
      if id == ""
      then record t { floors = erase name t.floors }
      else record t { floors = insert name id t.floors }

  -- `id, ok && id != ""`
  unfoldable pub floor : String → Tree P → String × Bool
  floor branch t = elim (lookup (or_main branch) t.floors) [
    | none ↦ ("", false)
    | some id ↦ (id, not (id == ""))
  ]

  abbrev pub put_first :
      Node P → Option (Result TreeError (List (Node P))) → Option (Result TreeError (List (Node P)))
  put_first node none = none
  put_first node (some (err e)) = some (err e)
  put_first node (some (ok nodes)) = some (ok (node ∷ nodes))

  -- The loop of `Path`: the list `reversed`, the head's node first. `none`: the fuel ran out.
  unfoldable pub walk :
      ℕ → Dict (Node P) → String → String → Option (Result TreeError (List (Node P)))
  walk zero nodes floor id = if id == "" then some (ok []) else none
  walk (suc fuel) nodes floor id = if id == "" then some (ok []) else elim (lookup id nodes) [
    | none ↦ some (err (node_not_found id))
    | some node ↦
        let rest = walk fuel nodes floor node.parent in
        put_first node (if id == floor then some (ok []) else rest)
  ]

  abbrev pub reversed :
      Option (Result TreeError (List (Node P))) → Option (Result TreeError (List (Node P)))
  reversed none = none
  reversed (some (err e)) = some (err e)
  reversed (some (ok nodes)) = some (ok (reverse nodes))

  -- The fuel is the number of nodes: no node of a well-formed tree is met twice.
  unfoldable pub path : String → Tree P → Option (Result TreeError (List (Node P)))
  unfolding walk
  path branch t =
      let name = or_main branch in
      elim (lookup name t.branches) [
        | none ↦ some (err (branch_not_found name))
        | some head ↦ reversed (walk (length t.nodes) t.nodes (lookup_or "" name t.floors) head)
      ]

  unfoldable pub branches : Tree P → Dict String
  branches t = t.branches
