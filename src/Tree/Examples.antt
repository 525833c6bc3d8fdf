-- ===== src/Tree/Examples.antt =====
-- The tree on a small conversation.
use agentsdk.Prelude.{
  ℕ, zero, suc, String, Option, none, some, List, [], ◌∷◌, ◌++◌, reverse, ◌≡◌, ◌≢◌, refl, ◌⊎◌,
  arith, eq_iff,
}
use agentsdk.Prelude.Dict.{lookup, lookup_or, insert, erase}
use agentsdk.Prelude.Result.{ok, err}
use agentsdk.Tree.{
  Draw, Node, Tree, branch_not_found, node_not_found, main_branch, or_main, new_tree, append_nodes,
  append_many, insert_node, fork, head, move_head, set_floor, walk, path,
}
use agentsdk.Tree.Chain.{Chain}
use agentsdk.Tree.Invariant.{IsValid, FreshDraws}
use agentsdk.Tree.Paths.{floor_of, drawn, path-Chain, append_many-path}
use agentsdk.Tree.Isolation.{append_many-path_other, fork-path}
use agentsdk.Tree.Reachable.{
  IsReachable, start, after, append_call, IsReachable-IsValid, IsReachable-path,
}

abbrev hex_at : ℕ → String
hex_at zero = "aa"
hex_at (suc zero) = "bb"
hex_at _ = "cc"

abbrev draw : ℕ → Draw
draw i = record { hex = hex_at i; now = 5 }

abbrev two : List (Option ℕ)
two = some 1 ∷ some 2 ∷ []

program : Unit {0}
unfolding append_many append_nodes insert_node fork head move_head set_floor path walk lookup
    lookup_or insert erase
program = tt

abbrev grown : Tree ℕ
grown = (append_many draw "" two new_tree).0

fresh_two : (parent : String) → FreshDraws {P = ℕ} draw 0 parent two []
unfolding program
fresh_two parent = (refl, (refl, tt))

grown-IsReachable : IsReachable grown
grown-IsReachable = after start (append_call draw "" two fresh_two refl)

ids_on_path : (path "" grown) ≡ some (ok (drawn draw 0 "" two))
unfolding program
ids_on_path = refl

unknown_branch : path "side" grown ≡ some (err (branch_not_found "side"))
unfolding program
unknown_branch = refl

move_to_unknown : (move_head "" "node_zz" grown).1 ≡ err (node_not_found "node_zz")
unfolding program
move_to_unknown = refl

-- With the floor at the second node the path starts there.
abbrev floored : Tree ℕ
floored = set_floor "" "node_bb" grown

floor_cuts : path "" floored ≡ some (ok (drawn draw 1 "node_aa" (some 2 ∷ [])))
unfolding program
floor_cuts = refl

IsReachable-IsValid_example : IsValid grown
IsReachable-IsValid_example = IsReachable-IsValid grown-IsReachable

main_head : lookup main_branch grown.branches ≡ some "node_bb"
unfolding program
main_head = refl

path-Chain_example :
    (ns : List (Node ℕ)) × Chain grown.nodes (floor_of grown "") "node_bb" ns
    × (path "" grown ≡ some (ok (reverse ns)))
path-Chain_example = path-Chain "" "node_bb" grown (IsReachable-IsValid grown-IsReachable) main_head

IsReachable-path_example :
    (lookup "side" grown.branches ≡ none)
      × (path "side" grown ≡ some (err (branch_not_found "side")))
    ⊎ ((h : String) × (lookup "side" grown.branches ≡ some h)
        × (ns : List (Node ℕ)) × Chain grown.nodes (floor_of grown "side") h ns
        × (path "side" grown ≡ some (ok (reverse ns))))
IsReachable-path_example = IsReachable-path "side" grown-IsReachable

abbrev later : ℕ → Draw
later i = record { hex = "dd"; now = 6 }

fresh_later : (parent : String) → FreshDraws {P = ℕ} later 0 parent (some 3 ∷ []) grown.nodes
unfolding program
fresh_later parent = (refl, tt)

append_many-path_example :
    (old : List (Node ℕ)) × (path "" grown ≡ some (ok old))
    × (path "" (append_many later "" (some 3 ∷ []) grown).0
        ≡ some (ok (old ++ drawn later 0 "node_bb" (some 3 ∷ []))))
    × ((append_many later "" (some 3 ∷ []) grown).1 ≡ ok ("node_dd" ∷ []))
append_many-path_example =
    append_many-path later "" "node_bb" (some 3) [] grown (IsReachable-IsValid grown-IsReachable)
      fresh_later refl (unfold program in refl) (unfold program in refl)

append_many-path_other_example :
    path "side" (append_many later "" (some 3 ∷ []) grown).0 ≡ path "side" grown
append_many-path_other_example =
    append_many-path_other later "" "side" (some 3 ∷ []) grown
      (IsReachable-IsValid grown-IsReachable) fresh_later
      (λ e. ground (arith, eq_iff "side" "main"))

fork-path_example :
    (lookup_or "" "side" grown.floors ≡ floor_of grown ""
      → path "side" (fork "ee" "" "side" grown).0 ≡ path "" grown)
    × ((other : String)
        → or_main other ≢ "side"
        → path other (fork "ee" "" "side" grown).0 ≡ path other grown)
fork-path_example =
    fork-path "ee" "" "side" "node_bb" grown (IsReachable-IsValid grown-IsReachable)
      (unfold program in refl) (unfold program in refl)

-- A fork does not take the floor of its source along: its path reaches below that floor.
fork_below_floor : path "side" (fork "ee" "" "side" floored).0 ≡ some (ok (drawn draw 0 "" two))
unfolding program
fork_below_floor = refl
