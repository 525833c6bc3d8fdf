-- ===== src/Tree/Chain.antt =====
-- What the loop of `Path` walks over: nodes whose parents were there before them, and the chains of
-- such nodes, described without the loop.
use agentsdk.Prelude.{
  ℕ, zero, suc, ◌≤◌, String, true, false, none, some, List, [], ◌∷◌, ◌==◌, eq_iff, is_some, length,
  ◌≡◌, inl, inr, arith, Bool-cases,
}
use agentsdk.Prelude.Dict.{Dict, lookup}
use agentsdk.Prelude.Result.{ok}
use agentsdk.Tree.{Node, walk, has_parent}

module _ {P : Type 0} where
  pub record IsEntry (key : String) (node : Node P) (older : Dict (Node P)) : Type 0 where
    pub named : node.id ≡ key
    pub nonempty : (key == "") ≡ false
    pub filled : is_some node.payload ≡ true
    pub fresh : lookup key older ≡ none
    pub parented : has_parent node.parent older ≡ true

  -- Every node has its own id for a key, and a parent among the older nodes.
  abbrev pub IsLinked : Dict (Node P) → Type 0
  IsLinked [] = Unit
  IsLinked ((k, n) ∷ older) = IsEntry k n older × IsLinked older

  -- The nodes from `id` towards the root, each the parent of the one before, down to the node
  -- `floor` or to one without a parent.
  pub data Chain (nodes : Dict (Node P)) (floor : String) : String → List (Node P) → Type 0 where
    root : (id : String) → (id == "") ≡ true → Chain nodes floor id []
    stop :
        (id : String) (n : Node P)
        → (id == "") ≡ false
        → lookup id nodes ≡ some n
        → (id == floor) ≡ true
        → Chain nodes floor id (n ∷ [])
    link :
        (id : String) (n : Node P) (rest : List (Node P))
        → (id == "") ≡ false
        → lookup id nodes ≡ some n
        → (id == floor) ≡ false
        → Chain nodes floor n.parent rest
        → Chain nodes floor id (n ∷ rest)

  lookup-older :
      (k id : String) (v n : Node P) (d : Dict (Node P))
      → lookup k d ≡ none
      → lookup id d ≡ some n
      → lookup id ((k, v) ∷ d) ≡ some n
  unfolding lookup
  lookup-older k id v n d h e = ground (arith, eq_iff k id)

  -- A node that comes new leaves every chain as it was.
  pub Chain-cons :
      (k : String) (v : Node P) (d : Dict (Node P)) (floor id : String) (ns : List (Node P))
      → lookup k d ≡ none
      → Chain d floor id ns
      → Chain ((k, v) ∷ d) floor id ns
  Chain-cons k v d floor id ns h (root _ e) = root id e
  Chain-cons k v d floor id ns h (stop _ n e l f) = stop id n e (lookup-older k id v n d h l) f
  Chain-cons k v d floor id ns h (link _ n rest e l f c) =
      link id n rest e (lookup-older k id v n d h l) f (Chain-cons k v d floor n.parent rest h c)

  -- From every known id there is a chain, no longer than the number of nodes.
  pub Chain-exists :
      (d : Dict (Node P)) (floor id : String)
      → IsLinked d
      → has_parent id d ≡ true
      → (ns : List (Node P)) × Chain d floor id ns × (length ns ≤ length d)
  unfolding lookup
  Chain-exists [] floor id _ h = ([], root id (ground arith), omega arith)
  Chain-exists ((k, v) ∷ d) floor id (e, linked) h = elim (Bool-cases (id == "")) [
    | inl empty ↦ ([], root id empty, omega arith)
    | inr given ↦ elim (Bool-cases (k == id)) [
      | inl same ↦
          let found : lookup id ((k, v) ∷ d) ≡ some v = rw (lookup, same) in
          elim (Bool-cases (id == floor)) [
            | inl at_floor ↦ (v ∷ [], stop id v given found at_floor, omega arith)
            | inr above ↦
                let (ns, c, short) = Chain-exists d floor v.parent linked e.parented in
                (
                  v ∷ ns,
                  link id v ns given found above (Chain-cons k v d floor v.parent ns e.fresh c),
                  omega arith,
                )
          ]
      | inr other ↦
          let (ns, c, short) = Chain-exists d floor id linked (ground arith) in
          (ns, Chain-cons k v d floor id ns e.fresh c, omega arith)
    ]
  ]

  -- With fuel for its nodes the loop finds the chain.
  pub walk-eq-Chain :
      (fuel : ℕ) (nodes : Dict (Node P)) (floor id : String) (ns : List (Node P))
      → length ns ≤ fuel
      → Chain nodes floor id ns
      → walk fuel nodes floor id ≡ some (ok ns)
  unfolding walk
  walk-eq-Chain zero nodes floor id ns h (root _ e) = rw e
  walk-eq-Chain zero nodes floor id ns h (stop _ n e l f) = absurd (omega arith)
  walk-eq-Chain zero nodes floor id ns h (link _ n rest e l f c) = absurd (omega arith)
  walk-eq-Chain (suc fuel) nodes floor id ns h (root _ e) = rw e
  walk-eq-Chain (suc fuel) nodes floor id ns h (stop _ n e l f) = ground arith
  walk-eq-Chain (suc fuel) nodes floor id ns h (link _ n rest e l f c) =
      ground (arith, walk-eq-Chain fuel nodes floor n.parent rest (omega arith) c)
