-- ===== src/Tree/Reachable.antt =====
-- The trees that sequences of calls can build, and what holds of all of them.
use agentsdk.Prelude.{
  ℕ, String, Option, none, some, List, reverse, ◌≡◌, ◌⊎◌, inl, inr, Option-cases,
}
use agentsdk.Prelude.Dict.{lookup}
use agentsdk.Prelude.Result.{ok, err}
use agentsdk.Tree.{
  Draw, Node, Tree, branch_not_found, or_main, new_tree, append_many, insert_node, fork, move_head,
  set_floor, path,
}
use agentsdk.Tree.Chain.{Chain}
use agentsdk.Tree.Invariant.{
  IsValid, FreshDraws, new_tree-IsValid, append_many-IsValid, insert_node-IsValid, fork-IsValid,
  move_head-IsValid, set_floor-IsValid,
}
use agentsdk.Tree.Paths.{floor_of, path-Chain, path-unknown}

module _ {P : Type 0} where
  -- One call, whatever its arguments and whether it succeeds; the ids that it draws are new.
  pub data Call (t u : Tree P) : Type 0 where
    append_call :
        (draw : ℕ → Draw) (branch : String) (ps : List (Option P))
        → ((parent : String) → FreshDraws draw 0 parent ps t.nodes)
        → u ≡ (append_many draw branch ps t).0
        → Call t u
    insert_call :
        (now : ℕ) (branch : String) (node : Node P)
        → u ≡ (insert_node now branch node t).0
        → Call t u
    fork_call : (hex source target : String) → u ≡ (fork hex source target t).0 → Call t u
    move_call : (branch id : String) → u ≡ (move_head branch id t).0 → Call t u
    floor_call : (branch id : String) → u ≡ set_floor branch id t → Call t u

  pub data IsReachable : Tree P → Type 0 where
    start : IsReachable new_tree
    after : {t u : Tree P} → IsReachable t → Call t u → IsReachable u

  Call-IsValid : (t u : Tree P) → Call t u → IsValid t → IsValid u
  Call-IsValid t u (append_call draw branch ps f e) v =
      rw e (append_many-IsValid draw branch ps t f v)
  Call-IsValid t u (insert_call now branch node e) v =
      rw e (insert_node-IsValid now branch node t v)
  Call-IsValid t u (fork_call hex source target e) v = rw e (fork-IsValid hex source target t v)
  Call-IsValid t u (move_call branch id e) v = rw e (move_head-IsValid branch id t v)
  Call-IsValid t u (floor_call branch id e) v = rw e (set_floor-IsValid branch id t v)

  -- A tree built by any sequence of calls, failing ones included, is well formed, as long as no id
  -- is drawn twice.
  pub IsReachable-IsValid : {t : Tree P} → IsReachable t → IsValid t
  IsReachable-IsValid start = new_tree-IsValid
  IsReachable-IsValid (after {t = t} {u = u} r c) = Call-IsValid t u c (IsReachable-IsValid r)

  -- In every tree that calls can build which never draw an id twice, for every branch and floor,
  -- `Path` returns within its fuel: an unknown branch is its only error, and for a known branch it
  -- gives the chain of the head's ancestors, from the floor or the root down to the head.
  pub IsReachable-path :
      {t : Tree P} (branch : String)
      → IsReachable t
      → (lookup (or_main branch) t.branches ≡ none)
          × (path branch t ≡ some (err (branch_not_found (or_main branch))))
        ⊎ ((h : String) × (lookup (or_main branch) t.branches ≡ some h)
            × (ns : List (Node P)) × Chain t.nodes (floor_of t branch) h ns
            × (path branch t ≡ some (ok (reverse ns))))
  IsReachable-path {t} branch r = elim (Option-cases (lookup (or_main branch) t.branches)) [
    | inl missing ↦ inl (missing, path-unknown branch t missing)
    | inr (h, found) ↦
        let (ns, c, e) = path-Chain branch h t (IsReachable-IsValid r) found in
        inr (h, found, ns, c, e)
  ]
