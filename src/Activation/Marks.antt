-- ===== src/Activation/Marks.antt =====
-- What `Activate` and `Deactivate` of toolactivation/activation.go change.
use agentsdk.Prelude.{
  String, Bool, false, Option, none, some, List, [], ◌∷◌, ◌==◌, eq_iff, ◌&&◌, ◌||◌, if◌then◌else◌,
  ◌≡◌, refl, arith, inl, inr, Bool-cases,
}
use agentsdk.Prelude.Dict.{Dict, lookup_or, insert, lookup_or-insert}
use agentsdk.Activation.{Tool, Manager, matches_pattern, differs, mark_one, mark_tools, set_marks}

module _ {B : Type 0} where
  abbrev pub is_registered : List (Tool B) → String → Bool
  is_registered [] name = false
  is_registered (t ∷ tools) name = t.name == name || is_registered tools name

  abbrev pub IsUniquelyNamed : List (Tool B) → Type 0
  IsUniquelyNamed [] = Unit
  IsUniquelyNamed (t ∷ tools) = (is_registered tools t.name ≡ false) × IsUniquelyNamed tools

module _ (glob : String → String → Option Bool) where
  abbrev pub matches_any : List String → String → Bool
  matches_any [] name = false
  matches_any (pattern ∷ patterns) name =
      matches_pattern glob name pattern || matches_any patterns name

  abbrev pub will_change : Bool → List String → Dict Bool → String → Bool
  will_change want patterns active name = matches_any patterns name && differs glob want name active

  mark_one-will_change :
      (want : Bool) (patterns : List String) (name : String) (active : Dict Bool)
      → mark_one glob want patterns name active
        ≡ (if will_change want patterns active name then some (insert name want active) else none)
  unfolding mark_one
  mark_one-will_change want [] name active = refl
  mark_one-will_change want (pattern ∷ patterns) name active =
      ground (arith, mark_one-will_change want patterns name active)

module _ {B : Type 0} (glob : String → String → Option Bool) where
  mark_tools-active :
      (want : Bool) (patterns : List String) (tools : List (Tool B)) (active : Dict Bool)
      (name : String)
      → lookup_or false name (mark_tools glob want patterns tools active).0 ≡ (
          if is_registered tools name && matches_any glob patterns name
          then want
          else lookup_or false name active)
  unfolding mark_tools
  mark_tools-active want patterns [] active name = refl
  mark_tools-active want patterns (t ∷ tools) active name =
      elim (Bool-cases (will_change glob want patterns active t.name)) [
        | inl change ↦ ground (
          arith,
          change,
          mark_one-will_change glob want patterns t.name active,
          mark_tools-active want patterns tools (insert t.name want active) name,
          lookup_or-insert false t.name name want active,
          eq_iff t.name name,
        )
        | inr same ↦ ground (
          arith,
          same,
          mark_one-will_change glob want patterns t.name active,
          mark_tools-active want patterns tools active name,
          eq_iff t.name name,
        )
      ]

  -- The names of the tools that a call changes, as the marks stand before it.
  abbrev pub names_to_change : Bool → List String → List (Tool B) → Dict Bool → List String
  names_to_change want patterns [] active = []
  names_to_change want patterns (t ∷ tools) active =
      let rest = names_to_change want patterns tools active in
      if will_change glob want patterns active t.name then t.name ∷ rest else rest

  names_to_change-insert :
      (want : Bool) (patterns : List String) (tools : List (Tool B)) (active : Dict Bool)
      (name : String)
      → is_registered tools name ≡ false
      → names_to_change want patterns tools (insert name want active)
        ≡ names_to_change want patterns tools active
  names_to_change-insert want patterns [] active name h = refl
  names_to_change-insert want patterns (t ∷ tools) active name h = ground (
    arith,
    h,
    names_to_change-insert want patterns tools active name,
    lookup_or-insert false name t.name want active,
    eq_iff name t.name,
    eq_iff t.name name,
  )

  mark_tools-names :
      (want : Bool) (patterns : List String) (tools : List (Tool B)) (active : Dict Bool)
      → IsUniquelyNamed tools
      → (mark_tools glob want patterns tools active).1 ≡ names_to_change want patterns tools active
  unfolding mark_tools
  mark_tools-names want patterns [] active u = refl
  mark_tools-names want patterns (t ∷ tools) active u = ground (
    arith,
    mark_one-will_change glob want patterns t.name active,
    mark_tools-names want patterns tools active u.1,
    mark_tools-names want patterns tools (insert t.name want active) u.1,
    names_to_change-insert want patterns tools active t.name u.0,
  )

  -- `Activate`, with `want` true, and `Deactivate`, with `want` false: a registered tool that a
  -- pattern matches gets the mark, every other name keeps its own, the tools stay, and, if no two
  -- tools share a name, the call returns the names of the tools whose mark it changed, in the order
  -- of registration.
  pub set_marks_lem :
      (want : Bool) (patterns : List String) (m : Manager B)
      → IsUniquelyNamed m.all_tools
      → let o = set_marks glob want patterns m in
        (o.0.all_tools ≡ m.all_tools)
        × ((name : String)
            → lookup_or false name o.0.active_set ≡ (
                if is_registered m.all_tools name && matches_any glob patterns name
                then want
                else lookup_or false name m.active_set))
        × (o.1 ≡ names_to_change want patterns m.all_tools m.active_set)
  set_marks_lem want patterns m u = (
    refl,
    mark_tools-active want patterns m.all_tools m.active_set,
    mark_tools-names want patterns m.all_tools m.active_set u,
  )
