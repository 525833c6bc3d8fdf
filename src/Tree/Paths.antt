-- ===== src/Tree/Paths.antt =====
-- What `Path` returns, and how the operations change it.
use mathlib.Core.List.{append-nil, reverse-append, append_assoc}
use agentsdk.Prelude.{
  ℕ, suc, ◌+◌, String, true, Option, none, some, List, [], ◌∷◌, ◌++◌, reverse, eq_iff, length, ◌≡◌,
  refl, arith, ap, sym, ◌∙◌, map,
}
use agentsdk.Prelude.Dict.{Dict, lookup, lookup_or, insert, lookup-insert, erase-fresh}
use agentsdk.Prelude.Result.{ok, err}
use agentsdk.Tree.{
  Draw, Node, Tree, branch_not_found, or_main, has_parent, all_payloads, drawn_node, append_nodes,
  append_found, append_many, head, reversed, path,
}
use agentsdk.Tree.Chain.{Chain, link, Chain-cons, Chain-exists, walk-eq-Chain}
use agentsdk.Tree.Invariant.{
  IsValid, FreshDraws, has_parent-insert, append_many-IsValid, new_node_id-ne_empty,
}

module _ {P : Type 0} where
  abbrev pub floor_of : Tree P → String → String
  floor_of t branch = lookup_or "" (or_main branch) t.floors

  -- On a well-formed tree, whatever the floors, `Path` of a known branch returns: it gives the
  -- chain of nodes from the branch's head, oldest first.
  pub path-Chain :
      (branch head : String) (t : Tree P)
      → IsValid t
      → lookup (or_main branch) t.branches ≡ some head
      → (ns : List (Node P)) × Chain t.nodes (floor_of t branch) head ns
        × (path branch t ≡ some (ok (reverse ns)))
  unfolding path
  path-Chain branch head t v found =
      let (ns, c, short) =
        Chain-exists t.nodes (floor_of t branch) head v.linked (v.heads _ head found) in
      (
        ns,
        c,
        rw (found, path)
            (ap reversed
              (walk-eq-Chain (length t.nodes) t.nodes (floor_of t branch) head ns short c)),
      )

  -- A chain of given ends is unique.
  Chain-unique :
      (d : Dict (Node P)) (floor id : String) (ns ms : List (Node P))
      → Chain d floor id ns
      → Chain d floor id ms
      → ns ≡ ms
  Chain-unique d floor id ns ms c e =
      let fuel = length ns + length ms in
      cc (
        walk-eq-Chain fuel d floor id ns (omega arith) c,
        walk-eq-Chain fuel d floor id ms (omega arith) e,
      )

  pub path_of_Chain :
      (branch head : String) (t : Tree P) (ns : List (Node P))
      → IsValid t
      → lookup (or_main branch) t.branches ≡ some head
      → Chain t.nodes (floor_of t branch) head ns
      → path branch t ≡ some (ok (reverse ns))
  path_of_Chain branch head t ns v found c =
      let (ms, e, p) = path-Chain branch head t v found in
      rw (Chain-unique t.nodes (floor_of t branch) head ns ms c e) p

  pub path-unknown :
      (branch : String) (t : Tree P)
      → lookup (or_main branch) t.branches ≡ none
      → path branch t ≡ some (err (branch_not_found (or_main branch)))
  unfolding path
  path-unknown branch t missing = rw (missing, path)

  -- The nodes that `AppendMany` makes, the newest first, on top of `older`.
  abbrev pub drawn_onto : (ℕ → Draw) → ℕ → String → List (Option P) → List (Node P) → List (Node P)
  drawn_onto draw i parent [] older = older
  drawn_onto draw i parent (p ∷ ps) older =
      let node = drawn_node draw i parent p in drawn_onto draw (suc i) node.id ps (node ∷ older)

  -- The same nodes in the order of the payloads, each the parent of the next.
  abbrev pub drawn : (ℕ → Draw) → ℕ → String → List (Option P) → List (Node P)
  drawn draw i parent [] = []
  drawn draw i parent (p ∷ ps) =
      let node = drawn_node draw i parent p in node ∷ drawn draw (suc i) node.id ps

  reverse-drawn_onto :
      (draw : ℕ → Draw) (i : ℕ) (parent : String) (ps : List (Option P)) (older : List (Node P))
      → reverse (drawn_onto draw i parent ps older) ≡ reverse older ++ drawn draw i parent ps
  reverse-drawn_onto draw i parent [] older = sym (append-nil (reverse older))
  reverse-drawn_onto draw i parent (p ∷ ps) older =
      let node = drawn_node draw i parent p in
      reverse-drawn_onto draw (suc i) node.id ps (node ∷ older)
      ∙ (ap (λ l. l ++ drawn draw (suc i) node.id ps) (reverse-append (node ∷ []) older)
          ∙ append_assoc (reverse older) (node ∷ []) (drawn draw (suc i) node.id ps))

  Chain-insert :
      (k : String) (v : Node P) (d : Dict (Node P)) (floor id : String) (ns : List (Node P))
      → lookup k d ≡ none
      → Chain d floor id ns
      → Chain (insert k v d) floor id ns
  unfolding insert
  Chain-insert k v d floor id ns h c = rw (erase-fresh k d h) (Chain-cons k v d floor id ns h c)

  append_nodes-Chain :
      (draw : ℕ → Draw) (i : ℕ) (parent : String) (ps : List (Option P)) (d : Dict (Node P))
      (floor : String) (ns : List (Node P))
      → FreshDraws draw i parent ps d
      → has_parent floor d ≡ true
      → Chain d floor parent ns
      → let (d', last, _) = append_nodes draw i parent ps d in
        Chain d' floor last (drawn_onto draw i parent ps ns)
  unfolding append_nodes
  append_nodes-Chain draw i parent [] d floor ns f k c = c
  append_nodes-Chain draw i parent (p ∷ ps) d floor ns f k c =
      let node = drawn_node draw i parent p in
      append_nodes-Chain draw (suc i) node.id ps (insert node.id node d) floor (node ∷ ns) f.1
        (has_parent-insert floor node.id node d k)
        (link node.id node ns (new_node_id-ne_empty (draw i).hex)
          (ground (arith, lookup-insert node.id node.id node d, eq_iff node.id node.id))
          (ground
            (arith, eq_iff node.id floor, f.0, eq_iff floor "", new_node_id-ne_empty (draw i).hex))
          (Chain-insert node.id node d floor parent ns f.0 c))

  pub append_nodes_keeps-Chain :
      (draw : ℕ → Draw) (i : ℕ) (parent : String) (ps : List (Option P)) (d : Dict (Node P))
      (floor id : String) (ns : List (Node P))
      → FreshDraws draw i parent ps d
      → Chain d floor id ns
      → Chain (append_nodes draw i parent ps d).0 floor id ns
  unfolding append_nodes
  append_nodes_keeps-Chain draw i parent [] d floor id ns f c = c
  append_nodes_keeps-Chain draw i parent (p ∷ ps) d floor id ns f c =
      let node = drawn_node draw i parent p in
      append_nodes_keeps-Chain draw (suc i) node.id ps (insert node.id node d) floor id ns f.1
        (Chain-insert node.id node d floor id ns f.0 c)

  -- The tree after a successful call.
  append_many-eq :
      (draw : ℕ → Draw) (branch parent : String) (p : Option P) (ps : List (Option P)) (t : Tree P)
      → all_payloads (p ∷ ps) ≡ true
      → head branch t ≡ some parent
      → append_many draw branch (p ∷ ps) t ≡ append_found draw t (or_main branch) (p ∷ ps) parent
  unfolding append_many head
  append_many-eq draw branch parent p ps t good found = rw good (rw (found, append_many))

  ids-append_nodes :
      (draw : ℕ → Draw) (i : ℕ) (parent : String) (ps : List (Option P)) (d : Dict (Node P))
      → (append_nodes draw i parent ps d).2 ≡ map (λ n. n.id) (drawn draw i parent ps)
  unfolding append_nodes
  ids-append_nodes draw i parent [] d = refl
  ids-append_nodes draw i parent (p ∷ ps) d =
      let node = drawn_node draw i parent p in
      ap (λ l. node.id ∷ l) (ids-append_nodes draw (suc i) node.id ps (insert node.id node d))

  -- Appending payloads to a known branch of a well-formed tree, whose floor is a known node or
  -- none, returns the new ids, and `Path` then gives what it gave before followed by the new nodes
  -- in order.
  pub append_many-path :
      (draw : ℕ → Draw) (branch parent : String) (p : Option P) (ps : List (Option P)) (t : Tree P)
      → IsValid t
      → ((id : String) → FreshDraws draw 0 id (p ∷ ps) t.nodes)
      → all_payloads (p ∷ ps) ≡ true
      → head branch t ≡ some parent
      → has_parent (floor_of t branch) t.nodes ≡ true
      → let (t', result) = append_many draw branch (p ∷ ps) t in
        let news = drawn draw 0 parent (p ∷ ps) in
        (old : List (Node P)) × (path branch t ≡ some (ok old))
        × (path branch t' ≡ some (ok (old ++ news)))
        × (result ≡ ok (map (λ n. n.id) news))
  append_many-path draw branch parent p ps t v f good found k =
      let (ns, c, before) = path-Chain branch parent t v (unfold head in found) in
      let t' = (append_found draw t (or_main branch) (p ∷ ps) parent).0 in
      let e = append_many-eq draw branch parent p ps t good found in
      let v' : IsValid t' = rw e at (append_many-IsValid draw branch (p ∷ ps) t f v) in
      let last = (append_nodes draw 0 parent (p ∷ ps) t.nodes).1 in
      let now : lookup (or_main branch) t'.branches ≡ some last = ground (
        arith,
        lookup-insert (or_main branch) (or_main branch) last t.branches,
        eq_iff (or_main branch) (or_main branch),
      ) in
      let after =
        path_of_Chain branch last t' (drawn_onto draw 0 parent (p ∷ ps) ns) v' now (
          append_nodes-Chain draw 0 parent (p ∷ ps) t.nodes (floor_of t branch) ns (f parent) k
            c) in
      (
        reverse ns,
        before,
        rw e (after ∙ ap (λ l. some (ok l)) (reverse-drawn_onto draw 0 parent (p ∷ ps) ns)),
        rw e (ap ok (ids-append_nodes draw 0 parent (p ∷ ps) t.nodes)),
      )
