-- ===== src/Workflow/Order.antt =====
-- `validateAndOrder` of workflow/workflow.go: the steps of a workflow in the order of their
-- dependencies, by a search in depth.
pub mod Placing
pub mod Checked
pub mod Correct
pub mod Fuel
pub mod Acyclic
use agentsdk.Prelude.{
  ℕ, zero, suc, String, Bool, true, false, Option, none, some, List, [], ◌∷◌, ◌++◌, ◌==◌,
  if◌then◌else◌, length, is_some,
}
use agentsdk.Prelude.Dict.{Dict, lookup, lookup_or, insert}
use agentsdk.Prelude.Result.{Result, ok, err, ◌>>=◌}
use agentsdk.Workflow.{Step}

pub data OrderError : Type 0 where
  id_required : OrderError
  action_required duplicate cycle not_found : String → OrderError
  unknown_dependency : (id dep : String) → OrderError
  out_of_fuel : OrderError

module _ {V : Type 0} where
  -- The loop that fills `byID`.
  unfoldable pub check_steps : Dict (Step V) → List (Step V) → Result OrderError (Dict (Step V))
  unfolding lookup insert
  check_steps by_id [] = ok by_id
  check_steps by_id (step ∷ steps) =
      let rest = check_steps (insert step.id step by_id) steps in
      if step.id == ""
      then err id_required
      else if step.action.name == ""
      then err (action_required step.id)
      else if is_some (lookup step.id by_id)
      then err (duplicate step.id)
      else rest

-- The variables that `visit` changes.
pub record Visits (V : Type 0) : Type 0 where
  pub ordered : List (Step V)
  pub visiting : Dict Bool
  pub visited : Dict Bool

module _ {V : Type 0} where
  unfoldable pub enter : String → Visits V → Visits V
  unfolding insert
  enter id s = record s { visiting = insert id true s.visiting }

  unfoldable pub leave : Step V → String → Visits V → Visits V
  unfolding insert
  leave step id s = record {
    ordered = s.ordered ++ step ∷ [];
    visiting = insert id false s.visiting;
    visited = insert id true s.visited;
  }

  -- The loop over the dependencies of the step `id`; `visit` is the recursive call.
  unfoldable pub visit_deps :
      (String → Visits V → Result OrderError (Visits V))
      → Dict (Step V)
      → String
      → List String
      → Visits V
      → Result OrderError (Visits V)
  unfolding lookup
  visit_deps visit by_id id [] s = ok s
  visit_deps visit by_id id (dep ∷ deps) s = elim (lookup dep by_id) [
    | none ↦ err (unknown_dependency id dep)
    | some _ ↦ visit dep s >>= λ t. visit_deps visit by_id id deps t
  ]

  -- `visit`, as deep as the fuel lets it.
  unfoldable pub visit : ℕ → Dict (Step V) → String → Visits V → Result OrderError (Visits V)
  unfolding lookup lookup_or enter leave visit_deps
  visit zero by_id id s = err out_of_fuel
  visit (suc fuel) by_id id s = elim (lookup_or false id s.visited) [
    | true ↦ ok s
    | false ↦ elim (lookup_or false id s.visiting) [
      | true ↦ err (cycle id)
      | false ↦ elim (lookup id by_id) [
        | none ↦ err (not_found id)
        | some step ↦ visit_deps (visit fuel by_id) by_id id step.depends_on (enter id s) >>= λ t.
            ok (leave step id t)
      ]
    ]
  ]

  -- The last loop.
  unfoldable pub visit_steps :
      ℕ → Dict (Step V) → List (Step V) → Visits V → Result OrderError (Visits V)
  unfolding visit
  visit_steps fuel by_id [] s = ok s
  visit_steps fuel by_id (step ∷ steps) s =
      visit fuel by_id step.id s >>= λ t. visit_steps fuel by_id steps t

  abbrev pub no_visits : Visits V
  no_visits = record { ordered = []; visiting = []; visited = [] }

  -- A path of the search holds each step once, so one more than the steps is fuel enough.
  unfoldable pub validate_and_order : List (Step V) → Result OrderError (List (Step V))
  unfolding check_steps visit_steps
  validate_and_order steps = check_steps [] steps >>= λ by_id.
      visit_steps (suc (length steps)) by_id steps no_visits >>= λ s. ok s.ordered
