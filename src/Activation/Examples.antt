-- ===== src/Activation/Examples.antt =====
-- The tool manager on three tools.
use agentsdk.Prelude.{
  ℕ, String, Bool, true, false, Option, none, some, List, [], ◌∷◌, ◌==◌, ◌&&◌, if◌then◌else◌, ◌≡◌,
  refl,
}
use agentsdk.Prelude.Dict.{lookup, lookup_or, insert, erase}
use agentsdk.Activation.{
  Tool, Manager, seen_names, register_tools, register, new_manager, active_tools, mark_one,
  mark_tools, activate, deactivate, set_marks,
}
use agentsdk.Activation.Marks.{
  is_registered, matches_any, IsUniquelyNamed, names_to_change, set_marks_lem,
}
use agentsdk.Activation.Registering.{Registered, register-Registered}

-- A pattern matches itself, and "*" every name.
abbrev glob : String → String → Option Bool
glob pattern name = if pattern == "*" then some true else some (pattern == name)

abbrev tool : String → ℕ → Tool ℕ
tool name body = record { name = name; body = body }

abbrev offered : List (Option (Tool ℕ))
offered = some (tool "read" 1) ∷ none ∷ some (tool "bash" 2) ∷ some (tool "read" 3) ∷ []

program : Unit {0}
unfolding new_manager register register_tools seen_names mark_one mark_tools active_tools lookup
    lookup_or insert erase
program = tt

abbrev managed : Manager ℕ
managed = new_manager offered

first_of_a_name : managed.all_tools ≡ tool "read" 1 ∷ tool "bash" 2 ∷ []
unfolding program
first_of_a_name = refl

abbrev quiet : Manager ℕ
quiet = (deactivate glob ("bash" ∷ []) managed).0

deactivated : active_tools quiet.all_tools quiet.active_set ≡ tool "read" 1 ∷ []
unfolding program
deactivated = refl

activated_names : (activate glob ("*" ∷ []) quiet).1 ≡ "bash" ∷ []
unfolding program
activated_names = refl

unique_tools : IsUniquelyNamed managed.all_tools
unfolding program
unique_tools = (refl, (refl, tt))

set_marks_example :
    let o = set_marks glob false ("bash" ∷ []) managed in
    (o.0.all_tools ≡ managed.all_tools)
    × ((name : String)
        → lookup_or false name o.0.active_set ≡ (
            if is_registered managed.all_tools name && matches_any glob ("bash" ∷ []) name
            then false
            else lookup_or false name managed.active_set))
    × (o.1 ≡ names_to_change glob false ("bash" ∷ []) managed.all_tools managed.active_set)
set_marks_example = set_marks_lem glob false ("bash" ∷ []) managed unique_tools

register-Registered_example :
    Registered
      (some (tool "bash" 9) ∷ some (tool "edit" 4) ∷ [])
      managed
      (register (some (tool "bash" 9) ∷ some (tool "edit" 4) ∷ []) managed)
register-Registered_example =
    register-Registered (some (tool "bash" 9) ∷ some (tool "edit" 4) ∷ []) managed unique_tools
