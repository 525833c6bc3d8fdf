-- ===== src/Tree/Invariant.antt =====
-- Every operation of the tree keeps it well formed.

use agentsdk.Prelude.{
  ℕ, suc, String, true, false, Option, none, some, List, [], ◌∷◌, ◌==◌, eq_iff, eq_refl, is_some,
  ◌≡◌, ◌≢◌, refl, inl, inr, arith, Bool-cases, Option-cases, sym, ◌∙◌,
}
use agentsdk.Prelude.Dict.{Dict, lookup, insert, lookup-insert, erase-fresh}
use text.Mathlib.TextLemmas.{cons≢nil, cons-append}
use agentsdk.Prelude.Result.{Result-cases, ok}
use agentsdk.Tree.{
  Draw, Node, Tree, main_branch, new_node_id, or_main, new_tree, has_parent, all_payloads,
  drawn_node, append_nodes, append_many, check_insert, stamped, insert_node, fork_target, fork,
  move_head, set_floor,
}
use agentsdk.Tree.Chain.{IsEntry, IsLinked}

new_node_id-ne_nil : (hex : String) → new_node_id hex ≢ ""
new_node_id-ne_nil hex e = cons≢nil (sym (cons-append "n" "ode_" hex) ∙ e)

pub new_node_id-ne_empty : (hex : String) → (new_node_id hex == "") ≡ false
new_node_id-ne_empty hex = ground (arith, eq_iff (new_node_id hex) "", new_node_id-ne_nil hex)

new_tree_head : (b h : String) → lookup b ((main_branch, "") ∷ []) ≡ some h → (h == "") ≡ true
unfolding lookup
new_tree_head b h e = ground (arith, eq_iff h "", eq_refl "")

module _ {P : Type 0} where
  pub record IsValid (t : Tree P) : Type 0 where
    pub linked : IsLinked t.nodes
    pub heads :
        (branch head : String)
        → lookup branch t.branches ≡ some head
        → has_parent head t.nodes ≡ true
    pub has_main : is_some (lookup main_branch t.branches) ≡ true

  -- Each id that the loop draws is new to the nodes that it meets.
  abbrev pub FreshDraws : (ℕ → Draw) → ℕ → String → List (Option P) → Dict (Node P) → Type 0
  FreshDraws draw i parent [] nodes = Unit
  FreshDraws draw i parent (p ∷ ps) nodes =
      let node = drawn_node draw i parent p in
      (lookup node.id nodes ≡ none) × FreshDraws draw (suc i) node.id ps (insert node.id node nodes)

  pub has_parent-insert :
      (id k : String) (v : Node P) (d : Dict (Node P))
      → has_parent id d ≡ true
      → has_parent id (insert k v d) ≡ true
  has_parent-insert id k v d h = ground (arith, lookup-insert k id v d)

  pub has_parent-insert_self :
      (k : String) (v : Node P) (d : Dict (Node P)) → has_parent k (insert k v d) ≡ true
  has_parent-insert_self k v d = ground (arith, lookup-insert k k v d, eq_iff k k)

  pub IsLinked-insert :
      (k : String) (v : Node P) (d : Dict (Node P))
      → IsEntry k v d
      → IsLinked d
      → IsLinked (insert k v d)
  unfolding insert
  IsLinked-insert k v d e l = rw (erase-fresh k d e.fresh) (e, l)

  drawn_node-IsEntry :
      (draw : ℕ → Draw) (i : ℕ) (parent : String) (p : P) (d : Dict (Node P))
      → lookup (new_node_id (draw i).hex) d ≡ none
      → has_parent parent d ≡ true
      → IsEntry (new_node_id (draw i).hex) (drawn_node draw i parent (some p)) d
  drawn_node-IsEntry draw i parent p d h k = record {
    named = refl;
    nonempty = new_node_id-ne_empty (draw i).hex;
    filled = refl;
    fresh = h;
    parented = k;
  }

  pub record Appended (nodes nodes' : Dict (Node P)) (last : String) : Type 0 where
    pub linked : IsLinked nodes'
    pub ends : has_parent last nodes' ≡ true
    pub keeps : (id : String) → has_parent id nodes ≡ true → has_parent id nodes' ≡ true

  pub append_nodes-Appended :
      (draw : ℕ → Draw) (i : ℕ) (parent : String) (ps : List (Option P)) (d : Dict (Node P))
      → all_payloads ps ≡ true
      → FreshDraws draw i parent ps d
      → IsLinked d
      → has_parent parent d ≡ true
      → Appended d (append_nodes draw i parent ps d).0 (append_nodes draw i parent ps d).1
  unfolding append_nodes
  append_nodes-Appended draw i parent [] d a f l h = record {
    linked = l;
    ends = h;
    keeps = λ id k. k;
  }
  append_nodes-Appended draw i parent (none ∷ ps) d a f l h = cc
  append_nodes-Appended draw i parent (some p ∷ ps) d a f l h =
      let k = new_node_id (draw i).hex in
      let node = drawn_node draw i parent (some p) in
      let rest =
        append_nodes-Appended draw (suc i) k ps (insert k node d) a f.1
          (IsLinked-insert k node d (drawn_node-IsEntry draw i parent p d f.0 h) l)
          (has_parent-insert_self k node d) in
      record {
        linked = rest.linked;
        ends = rest.ends;
        keeps = λ id m. rest.keeps id (has_parent-insert id k node d m);
      }

  -- A new head for one branch, over nodes that hold those of before.
  set_head-IsValid :
      (t : Tree P) (nodes : Dict (Node P)) (branch head : String)
      → IsValid t
      → Appended t.nodes nodes head
      → IsValid (record t { nodes = nodes; branches = insert branch head t.branches })
  set_head-IsValid t nodes branch head v a = record {
    linked = a.linked;
    heads = λ b h e.
        ground (arith, lookup-insert branch b head t.branches, a.ends, a.keeps h, v.heads b h);
    has_main = ground (arith, lookup-insert branch main_branch head t.branches, v.has_main);
  }

  kept :
      (t : Tree P) (head : String)
      → IsValid t
      → has_parent head t.nodes ≡ true
      → Appended t.nodes t.nodes head
  kept t head v h = record { linked = v.linked; ends = h; keeps = λ id k. k }

  pub append_many-IsValid :
      (draw : ℕ → Draw) (branch : String) (ps : List (Option P)) (t : Tree P)
      → ((parent : String) → FreshDraws draw 0 parent ps t.nodes)
      → IsValid t
      → IsValid (append_many draw branch ps t).0
  unfolding append_many
  append_many-IsValid draw branch [] t f v = v
  append_many-IsValid draw branch (p ∷ ps) t f v = elim (Bool-cases (all_payloads (p ∷ ps))) [
    | inr bad ↦ rw bad v
    | inl good ↦ rw good (elim (Option-cases (lookup (or_main branch) t.branches)) [
      | inl missing ↦ rw missing v
      | inr (parent, found) ↦ rw found (
          set_head-IsValid t _ (or_main branch) _ v (
            append_nodes-Appended draw 0 parent (p ∷ ps) t.nodes good (f parent) v.linked
              (v.heads (or_main branch) parent found)))
    ])
  ]

  check_insert-IsEntry :
      (now : ℕ) (t : Tree P) (node : Node P)
      → check_insert t node ≡ ok tt
      → IsEntry node.id (stamped now node) t.nodes
  unfolding check_insert
  check_insert-IsEntry now t node h = ground arith

  pub insert_node-IsValid :
      (now : ℕ) (branch : String) (node : Node P) (t : Tree P)
      → IsValid t
      → IsValid (insert_node now branch node t).0
  unfolding insert_node
  insert_node-IsValid now branch node t v = elim (Result-cases (check_insert t node)) [
    | inl (e, refused) ↦ rw (refused, insert_node) v
    | inr (_, passed) ↦
        let entry = check_insert-IsEntry now t node passed in
        rw (passed, insert_node)
          (set_head-IsValid t _ (or_main branch) node.id v (record {
            linked = IsLinked-insert node.id (stamped now node) t.nodes entry v.linked;
            ends = has_parent-insert_self node.id (stamped now node) t.nodes;
            keeps = λ id k. has_parent-insert id node.id (stamped now node) t.nodes k;
          }))
  ]

  pub fork-IsValid :
      (hex source target : String) (t : Tree P) → IsValid t → IsValid (fork hex source target t).0
  unfolding fork
  fork-IsValid hex source target t v = elim (Option-cases (lookup (or_main source) t.branches)) [
    | inl missing ↦ rw (missing, fork) v
    | inr (h, found) ↦
        let to = fork_target hex target in
        elim (Bool-cases (is_some (lookup to t.branches))) [
          | inl taken ↦ rw (found, fork) (rw taken v)
          | inr free ↦
              rw (found, fork)
                (rw free (
                  set_head-IsValid t t.nodes to h v
                    (kept t h v (v.heads (or_main source) h found))))
        ]
  ]

  pub move_head-IsValid :
      (branch id : String) (t : Tree P) → IsValid t → IsValid (move_head branch id t).0
  unfolding move_head
  move_head-IsValid branch id t v = elim (Bool-cases (has_parent id t.nodes)) [
    | inl known ↦ elim (Bool-cases (is_some (lookup (or_main branch) t.branches))) [
      | inl there ↦
          rw (there, known) (set_head-IsValid t t.nodes (or_main branch) id v (kept t id v known))
      | inr missing ↦ rw missing v
    ]
    | inr unknown ↦ ground arith
  ]

  pub set_floor-IsValid :
      (branch id : String) (t : Tree P) → IsValid t → IsValid (set_floor branch id t)
  unfolding set_floor
  set_floor-IsValid branch id t v = ground arith

  pub new_tree-IsValid : IsValid (new_tree {P = P})
  unfolding lookup
  new_tree-IsValid = record {
    linked = tt;
    heads = λ b h e. ground (arith, new_tree_head b h e);
    has_main = refl;
  }
