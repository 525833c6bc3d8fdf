-- ===== src/Activation/Registering.antt =====
-- What `Register` of toolactivation/activation.go adds, and what it keeps.
use agentsdk.Prelude.{
  String, Bool, true, false, not, Option, none, some, List, [], ◌∷◌, ◌++◌, ◌==◌, eq_iff, ◌&&◌, ◌||◌,
  if◌then◌else◌, ◌≡◌, refl, ap, sym, ◌∙◌, arith, inl, inr, Bool-cases,
}
use mathlib.Core.List.{append_assoc, append-nil}
use agentsdk.Prelude.Dict.{Dict, lookup, lookup_or, insert, lookup_or-insert}
use agentsdk.Activation.{Tool, Manager, seen_names, add_tool, register_tools, register}
use agentsdk.Activation.Marks.{is_registered, IsUniquelyNamed}

unseen : (name : String) → lookup_or false name [] ≡ false
unfolding lookup_or lookup
unseen name = refl

module _ {B : Type 0} where
  -- A tool of the name stands in the list, nil ones left out.
  abbrev pub is_offered : List (Option (Tool B)) → String → Bool
  is_offered [] name = false
  is_offered (none ∷ tools) name = is_offered tools name
  is_offered (some t ∷ tools) name = t.name == name || is_offered tools name

  is_registered-snoc :
      (tools : List (Tool B)) (t : Tool B) (name : String)
      → is_registered (tools ++ t ∷ []) name ≡ (is_registered tools name || t.name == name)
  is_registered-snoc [] t name = ground arith
  is_registered-snoc (u ∷ tools) t name = ground (arith, is_registered-snoc tools t name)

  IsUniquelyNamed-snoc :
      (tools : List (Tool B)) (t : Tool B)
      → IsUniquelyNamed tools
      → is_registered tools t.name ≡ false
      → IsUniquelyNamed (tools ++ t ∷ [])
  IsUniquelyNamed-snoc [] t u h = (refl, tt)
  IsUniquelyNamed-snoc (x ∷ tools) t u h = (
    ground (
      arith,
      h,
      u.0,
      is_registered-snoc tools t x.name,
      eq_iff x.name t.name,
      eq_iff t.name x.name,
    ),
    IsUniquelyNamed-snoc tools t u.1 (ground (arith, h)),
  )

  seen_names-is_registered :
      (tools : List (Tool B)) (seen : Dict Bool) (name : String)
      → lookup_or false name (seen_names tools seen)
        ≡ (is_registered tools name || lookup_or false name seen)
  unfolding seen_names
  seen_names-is_registered [] seen name = refl
  seen_names-is_registered (t ∷ tools) seen name = ground (
    arith,
    seen_names-is_registered tools (insert t.name true seen) name,
    lookup_or-insert false t.name name true seen,
  )

  -- What registration makes of a manager.
  pub record Registered (tools : List (Option (Tool B))) (m n : Manager B) : Type 0 where
    pub unique : IsUniquelyNamed n.all_tools
    pub extends : (added : List (Tool B)) × (n.all_tools ≡ m.all_tools ++ added)
    pub names :
        (name : String)
        → is_registered n.all_tools name ≡ (is_registered m.all_tools name || is_offered tools name)
    pub marks :
        (name : String)
        → lookup_or false name n.active_set ≡ (
            if is_registered m.all_tools name
            then lookup_or false name m.active_set
            else is_offered tools name || lookup_or false name m.active_set)

  known_name :
      (t : Tool B) (tools : List (Tool B)) (name : String)
      → is_registered tools t.name ≡ true
      → (t.name == name && not (is_registered tools name)) ≡ false
  known_name t tools name k = elim (Bool-cases (t.name == name)) [
    | inr other ↦ ground (arith, other)
    | inl same ↦
        let e : t.name ≡ name = ground (arith, same, eq_iff t.name name) in
        ground (arith, k, ap (is_registered tools) e)
  ]

  fresh_name :
      (t : Tool B) (tools : List (Tool B)) (name : String)
      → is_registered tools t.name ≡ false
      → (t.name == name && is_registered tools name) ≡ false
  fresh_name t tools name k = elim (Bool-cases (t.name == name)) [
    | inr other ↦ ground (arith, other)
    | inl same ↦
        let e : t.name ≡ name = ground (arith, same, eq_iff t.name name) in
        ground (arith, k, ap (is_registered tools) e)
  ]

  register_tools-Registered :
      (tools : List (Option (Tool B))) (seen : Dict Bool) (m : Manager B)
      → ((name : String) → lookup_or false name seen ≡ is_registered m.all_tools name)
      → IsUniquelyNamed m.all_tools
      → Registered tools m (register_tools tools seen m)
  unfolding register_tools
  register_tools-Registered [] seen m s u = record {
    unique = u;
    extends = ([], sym (append-nil m.all_tools));
    names = λ name. ground arith;
    marks = λ name. ground arith;
  }
  register_tools-Registered (none ∷ tools) seen m s u =
      let r = register_tools-Registered tools seen m s u in
      record { unique = r.unique; extends = r.extends; names = r.names; marks = r.marks }
  register_tools-Registered (some t ∷ tools) seen m s u =
      elim (Bool-cases (lookup_or false t.name seen)) [
        | inl known ↦ rw known (
            let r = register_tools-Registered tools seen m s u in
            let k : is_registered m.all_tools t.name ≡ true = sym (s t.name) ∙ known in
            record {
              unique = r.unique;
              extends = r.extends;
              names = λ name. ground (arith, r.names name, known_name t m.all_tools name k);
              marks = λ name. ground (arith, r.marks name, known_name t m.all_tools name k);
            })
        | inr fresh ↦ rw fresh (
            let k : is_registered m.all_tools t.name ≡ false = sym (s t.name) ∙ fresh in
            let r =
              register_tools-Registered tools (insert t.name true seen) (add_tool t m)
                (λ name. ground (
                  arith,
                  s name,
                  lookup_or-insert false t.name name true seen,
                  is_registered-snoc m.all_tools t name,
                ))
                (IsUniquelyNamed-snoc m.all_tools t u k) in
            let (added, split) = r.extends in
            record {
              unique = r.unique;
              extends = (t ∷ added, split ∙ append_assoc m.all_tools (t ∷ []) added);
              names = λ name. ground (arith, r.names name, is_registered-snoc m.all_tools t name);
              marks = λ name. ground (
                arith,
                r.marks name,
                is_registered-snoc m.all_tools t name,
                lookup_or-insert false t.name name true m.active_set,
                fresh_name t m.all_tools name k,
              );
            })
      ]

  -- `Register` on a manager whose tools have different names keeps them different. The tools of
  -- before stay in front, in their order and with their marks, also where they are offered again;
  -- the names offered, nil tools left out, are registered and no other; and a new tool is active.
  pub register-Registered :
      (tools : List (Option (Tool B))) (m : Manager B)
      → IsUniquelyNamed m.all_tools
      → Registered tools m (register tools m)
  unfolding register
  register-Registered tools m u =
      register_tools-Registered tools (seen_names m.all_tools []) m
        (λ name. ground (arith, seen_names-is_registered m.all_tools [] name, unseen name)) u
