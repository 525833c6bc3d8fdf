-- ===== src/Thread/Registry/Lookup.antt =====
-- What a registry holds after `Register` of thread/event_registry.go.
use agentsdk.Prelude.{
  String, false, Option, none, some, List, [], ◌∷◌, ◌==◌, eq_iff, ◌≡◌, ap, sym, subst, arith, inl,
  inr, Bool-cases, is_some, All,
}
use agentsdk.Prelude.Dict.{lookup, insert, lookup-insert}
use agentsdk.Thread.{ThreadError}
use agentsdk.Thread.Registry.{EventDefinition, Registry, register}

kept_entry :
    (d : EventDefinition) (kind : String) (x : EventDefinition) (r : Registry)
    → is_some (lookup d.kind r) ≡ false
    → lookup kind r ≡ some x
    → lookup kind (insert d.kind d r) ≡ some x
kept_entry d kind x r free h = elim (Bool-cases (d.kind == kind)) [
  | inr other ↦ ground (arith, h, other, lookup-insert d.kind kind d r)
  | inl same ↦
      let e : d.kind ≡ kind = ground (arith, same, eq_iff d.kind kind) in
      absurd (ground (arith, h, free, e, ap (λ k. lookup k r) e))
]

-- Registration that succeeds keeps every definition of before and holds every definition given, each
-- under its kind.
pub register-lookup :
    (definitions : List EventDefinition) (r : Registry)
    → (register definitions r).1 ≡ none
    → ((kind : String) (d : EventDefinition)
        → lookup kind r ≡ some d
        → lookup kind (register definitions r).0 ≡ some d)
      × All (λ d. lookup d.kind (register definitions r).0 ≡ some d) definitions
unfolding register
register-lookup [] r h = (λ kind d k. k, tt)
register-lookup (d ∷ definitions) r h = elim (Bool-cases (d.kind == "")) [
  | inl empty ↦ absurd (ground (arith, h, empty))
  | inr named ↦ elim (Bool-cases (is_some (lookup d.kind r))) [
    | inl taken ↦ absurd (ground (arith, h, named, taken))
    | inr free ↦
        let r' = insert d.kind d r in
        let rest = register-lookup definitions r' (ground (arith, h, named, free)) in
        let here : lookup d.kind r' ≡ some d =
          ground (arith, lookup-insert d.kind d.kind d r, eq_iff d.kind d.kind) in
        let after : register (d ∷ definitions) r ≡ register definitions r' =
          ground (arith, named, free) in
        (
          λ kind x k. rw after (rest.0 kind x (kept_entry d kind x r free k)),
          (
            rw after (rest.0 d.kind d here),
            subst
                (λ (q : Registry × Option ThreadError).
                  All (λ x. lookup x.kind q.0 ≡ some x) definitions)
                (sym after) rest.1,
          ),
        )
  ]
]
