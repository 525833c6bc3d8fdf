-- ===== src/Tree/Isolation.antt =====
-- What an operation on one branch leaves alone, and what a fork shares.
use text.Mathlib.TextLemmas.{cons≢nil, cons-append}
use agentsdk.Prelude.{
  ℕ, String, false, Option, some, List, [], ◌∷◌, ◌==◌, eq_iff, ◌≡◌, refl, inl, inr, arith,
  Bool-cases, Option-cases, sym, ◌∙◌, ◌≢◌,
}
use agentsdk.Prelude.Dict.{lookup, lookup_or, insert, lookup-insert}
use agentsdk.Prelude.Result.{ok}
use agentsdk.Tree.{
  Draw, Tree, new_branch_id, or_main, all_payloads, append_nodes, append_found, append_many,
  fork_target, fork, head, path,
}
use agentsdk.Tree.Invariant.{IsValid, FreshDraws, append_many-IsValid, fork-IsValid}
use agentsdk.Tree.Paths.{
  floor_of, path-Chain, path_of_Chain, path-unknown, append_nodes_keeps-Chain,
}

new_branch_id-ne_empty : (hex : String) → (new_branch_id hex == "") ≡ false
new_branch_id-ne_empty hex =
    let ne : new_branch_id hex ≢ "" = λ e. cons≢nil (sym (cons-append "b" "ranch_" hex) ∙ e) in
    ground (arith, eq_iff (new_branch_id hex) "", ne)

or_main-fork_target :
    (hex target : String) → or_main (fork_target hex target) ≡ fork_target hex target
or_main-fork_target hex target = ground (arith, new_branch_id-ne_empty hex)

module _ {P : Type 0} where
  append_found-path_other :
      (draw : ℕ → Draw) (branch other parent : String) (ps : List (Option P)) (t : Tree P)
      → IsValid t
      → IsValid (append_found draw t (or_main branch) ps parent).0
      → FreshDraws draw 0 parent ps t.nodes
      → or_main other ≢ or_main branch
      → path other (append_found draw t (or_main branch) ps parent).0 ≡ path other t
  append_found-path_other draw branch other parent ps t v v' f ne =
      let t' = (append_found draw t (or_main branch) ps parent).0 in
      let last = (append_nodes draw 0 parent ps t.nodes).1 in
      let same : lookup (or_main other) t'.branches ≡ lookup (or_main other) t.branches = ground (
        arith,
        lookup-insert (or_main branch) (or_main other) last t.branches,
        eq_iff (or_main branch) (or_main other),
      ) in
      elim (Option-cases (lookup (or_main other) t.branches)) [
        | inl missing ↦ path-unknown other t' (same ∙ missing) ∙ sym (path-unknown other t missing)
        | inr (h, found) ↦
            let (ns, c, before) = path-Chain other h t v found in
            path_of_Chain other h t' ns v' (same ∙ found)
              (append_nodes_keeps-Chain draw 0 parent ps t.nodes (floor_of t other) h ns f c)
            ∙ sym before
      ]

  -- On a well-formed tree, with fresh ids, `AppendMany` to one branch, successful or not, changes
  -- what `Path` returns for no other branch.
  pub append_many-path_other :
      (draw : ℕ → Draw) (branch other : String) (ps : List (Option P)) (t : Tree P)
      → IsValid t
      → ((parent : String) → FreshDraws draw 0 parent ps t.nodes)
      → or_main other ≢ or_main branch
      → path other (append_many draw branch ps t).0 ≡ path other t
  unfolding append_many
  append_many-path_other draw branch other [] t v f ne = refl
  append_many-path_other draw branch other (p ∷ ps) t v f ne =
      elim (Bool-cases (all_payloads (p ∷ ps))) [
        | inr bad ↦ rw bad
        | inl good ↦ elim (Option-cases (lookup (or_main branch) t.branches)) [
          | inl missing ↦ rw good (rw (missing, append_many))
          | inr (parent, found) ↦
              let v' : IsValid (append_found draw t (or_main branch) (p ∷ ps) parent).0 =
                rw found at (rw good at (append_many-IsValid draw branch (p ∷ ps) t f v)) in
              rw good (
                rw (found, append_many)
                  (append_found-path_other draw branch other parent (p ∷ ps) t v v' (f parent) ne))
        ]
      ]

  forked_path :
      (other to h : String) (t : Tree P)
      → or_main other ≢ to
      → path other (record t { branches = insert to h t.branches }) ≡ path other t
  unfolding path
  forked_path other to h t ne =
      let same : lookup (or_main other) (insert to h t.branches)
          ≡ lookup (or_main other) t.branches =
        ground (arith, lookup-insert to (or_main other) h t.branches, eq_iff to (or_main other)) in
      elim (Option-cases (lookup (or_main other) t.branches)) [
        | inl missing ↦ rw (same ∙ missing, path) (rw (missing, path))
        | inr (g, found) ↦ rw (same ∙ found, path) (rw (found, path))
      ]

  fork-eq :
      (hex source target h : String) (t : Tree P)
      → head source t ≡ some h
      → (fork hex source target t).1 ≡ ok tt
      → (fork hex source target t).0
        ≡ record t { branches = insert (fork_target hex target) h t.branches }
  unfolding fork head
  fork-eq hex source target h t found done = ground arith

  -- A successful `Fork` of a well-formed tree makes a branch with the same `Path` as its source,
  -- provided the two have the same floor; every other branch keeps its `Path`.
  pub fork-path :
      (hex source target h : String) (t : Tree P)
      → IsValid t
      → head source t ≡ some h
      → (fork hex source target t).1 ≡ ok tt
      → let t' = (fork hex source target t).0 in
        let to = fork_target hex target in
        (lookup_or "" to t.floors ≡ floor_of t source → path to t' ≡ path source t)
        × ((other : String) → or_main other ≢ to → path other t' ≡ path other t)
  fork-path hex source target h t v found done =
      let to = fork_target hex target in
      let t' : Tree P = record t { branches = insert to h t.branches } in
      let v' : IsValid t' =
        rw (fork-eq hex source target h t found done) at (fork-IsValid hex source target t v) in
      let (ns, c, before) = path-Chain source h t v (unfold head in found) in
      rw (fork-eq hex source target h t found done) (
        (λ floors.
            path_of_Chain to h t' ns v'
              (rw or_main-fork_target
                (ground (arith, lookup-insert to to h t.branches, eq_iff to to)))
              (rw or_main-fork_target (rw floors c))
            ∙ sym before),
        (λ other ne. forked_path other to h t ne),
      )
