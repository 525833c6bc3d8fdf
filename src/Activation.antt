-- ===== src/Activation.antt =====
-- toolactivation/activation.go: the tools that are registered and those of them that are active.
-- The lock makes each call one step. `filepath.Match` is the parameter `glob`, which takes a
-- pattern and a name; an error of it counts as no match.
pub mod Marks
pub mod Registering
mod Examples
use agentsdk.Prelude.{
  String, Bool, true, false, not, Option, none, some, List, [], ◌∷◌, ◌++◌, ◌==◌, ◌&&◌,
  if◌then◌else◌,
}
use agentsdk.Prelude.Dict.{Dict, lookup_or, insert}

-- A tool is read by its name only.
pub record Tool (B : Type 0) : Type 0 where
  pub name : String
  pub body : B

pub record Manager (B : Type 0) : Type 0 where
  pub all_tools : List (Tool B)
  pub active_set : Dict Bool

module _ {B : Type 0} where
  unfoldable pub seen_names : List (Tool B) → Dict Bool → Dict Bool
  seen_names [] seen = seen
  seen_names (t ∷ tools) seen = seen_names tools (insert t.name true seen)

  abbrev pub add_tool : Tool B → Manager B → Manager B
  add_tool t m = record {
    all_tools = m.all_tools ++ t ∷ [];
    active_set = insert t.name true m.active_set;
  }

  -- The loop of `Register` over the tools; `none` is a nil tool.
  unfoldable pub register_tools : List (Option (Tool B)) → Dict Bool → Manager B → Manager B
  register_tools [] seen m = m
  register_tools (none ∷ tools) seen m = register_tools tools seen m
  register_tools (some t ∷ tools) seen m =
      let known = register_tools tools seen m in
      let added = register_tools tools (insert t.name true seen) (add_tool t m) in
      if lookup_or false t.name seen then known else added

  unfoldable pub register : List (Option (Tool B)) → Manager B → Manager B
  unfolding seen_names register_tools
  register tools m = register_tools tools (seen_names m.all_tools []) m

  unfoldable pub new_manager : List (Option (Tool B)) → Manager B
  unfolding register
  new_manager tools = register tools (record { all_tools = []; active_set = [] })

  unfoldable pub active_tools : List (Tool B) → Dict Bool → List (Tool B)
  active_tools [] active = []
  active_tools (t ∷ tools) active =
      let rest = active_tools tools active in
      if lookup_or false t.name active then t ∷ rest else rest

abbrev pub marked : String → Dict Bool × List String → Dict Bool × List String
marked name (active, names) = (active, name ∷ names)

module _ (glob : String → String → Option Bool) where
  -- `matchesPattern`
  abbrev pub matches_pattern : String → String → Bool
  matches_pattern name pattern = elim (glob pattern name) [ none ↦ false | some b ↦ b ]

  -- The tool is not as wanted: `!m.activeSet[name]` in `Activate`, `m.activeSet[name]` in
  -- `Deactivate`.
  abbrev pub differs : Bool → String → Dict Bool → Bool
  differs want name active =
      if want then not (lookup_or false name active) else lookup_or false name active

  -- The loop over the patterns: the new set at the first pattern that changes it.
  unfoldable pub mark_one : Bool → List String → String → Dict Bool → Option (Dict Bool)
  mark_one want [] name active = none
  mark_one want (pattern ∷ patterns) name active =
      let rest = mark_one want patterns name active in
      if matches_pattern name pattern && differs want name active
      then some (insert name want active)
      else rest

module _ {B : Type 0} (glob : String → String → Option Bool) where
  -- The loop over the tools, with the names that it changed.
  unfoldable pub mark_tools :
      Bool → List String → List (Tool B) → Dict Bool → Dict Bool × List String
  mark_tools want patterns [] active = (active, [])
  mark_tools want patterns (t ∷ tools) active = elim (mark_one glob want patterns t.name active) [
    | none ↦ mark_tools want patterns tools active
    | some active' ↦ marked t.name (mark_tools want patterns tools active')
  ]

  abbrev pub set_marks : Bool → List String → Manager B → Manager B × List String
  set_marks want patterns m =
      let o = mark_tools want patterns m.all_tools m.active_set in
      (record m { active_set = o.0 }, o.1)

  abbrev pub activate : List String → Manager B → Manager B × List String
  activate patterns m = set_marks true patterns m

  abbrev pub deactivate : List String → Manager B → Manager B × List String
  deactivate patterns m = set_marks false patterns m
