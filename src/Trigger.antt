-- ===== src/Trigger.antt =====
-- trigger/types.go and trigger/matcher.go: events, rules and matchers. `D` is the data of an event;
-- `glob` is filepath.Match, with nothing for a pattern that is not well formed.
pub mod Scheduler
mod Examples
use agentsdk.Prelude.{
  ℕ, String, Bool, true, false, Option, none, some, List, [], ◌∷◌, ◌==◌, if◌then◌else◌,
}
use agentsdk.Prelude.Text.{trim_space}
use agentsdk.Prelude.Result.{Result, ok, err}

pub record Event (D : Type 0) : Type 0 where
  pub id : String
  pub type : String
  pub source_id : String
  pub subject : String
  pub at : ℕ
  pub payload : D

pub data TargetKind : Type 0 where
  target_workflow target_agent_prompt target_action : TargetKind
  target_other : String → TargetKind

pub record Target : Type 0 where
  pub kind : TargetKind
  pub workflow_name : String
  pub agent_name : String
  pub prompt : String
  pub action_name : String
  pub include_event : Bool

unfoldable pub target_name : Target → String
target_name t = elim t.kind [
  | target_workflow ↦ t.workflow_name
  | target_agent_prompt ↦ t.agent_name
  | target_action ↦ t.action_name
  | target_other _ ↦ ""
]

pub record SessionPolicy : Type 0 where
  pub mode : String
  pub name : String
  pub agent_name : String

pub record JobPolicy : Type 0 where
  pub overlap : String
  pub timeout : ℕ

abbrev pub overlap_skip_if_running : String
overlap_skip_if_running = "skip_if_running"

-- The matchers of the package, and lists of them, in which some may be nil.
mutual
  pub data Matcher : Type 0 where
    match_all : Matcher
    event_type source_is subject_glob : String → Matcher
    all_of any_of : Matchers → Matcher

  pub data Matchers : Type 0 where
    no_more : Matchers
    nil_then : Matchers → Matchers
    then_more : Matcher → Matchers → Matchers

pub data TriggerError : Type 0 where
  bad_pattern : TriggerError
  executor_required id_required source_required : TriggerError
  job_exists job_not_found : String → TriggerError

abbrev pub glob_result : Option Bool → Result TriggerError Bool
glob_result none = err bad_pattern
glob_result (some b) = ok b

abbrev pub and_then : Result TriggerError Bool → Result TriggerError Bool → Result TriggerError Bool
and_then (err e) rest = err e
and_then (ok false) rest = ok false
and_then (ok true) rest = rest

abbrev pub or_else : Result TriggerError Bool → Result TriggerError Bool → Result TriggerError Bool
or_else (err e) rest = err e
or_else (ok true) rest = ok true
or_else (ok false) rest = rest

module _ {D : Type 0} (glob : String → String → Option Bool) where
  unfoldable mutual
    unfolding trim_space

    pub matches : Matcher → Event D → Result TriggerError Bool
    matches match_all e = ok true
    matches (event_type t) e = ok (e.type == t)
    matches (source_is s) e = ok (e.source_id == s)
    matches (subject_glob g) e =
        if trim_space g == "" then ok true else glob_result (glob g e.subject)
    matches (all_of ms) e = matches_all ms e
    matches (any_of ms) e = matches_any ms e

    pub matches_all : Matchers → Event D → Result TriggerError Bool
    matches_all no_more e = ok true
    matches_all (nil_then ms) e = matches_all ms e
    matches_all (then_more m ms) e = and_then (matches m e) (matches_all ms e)

    pub matches_any : Matchers → Event D → Result TriggerError Bool
    matches_any no_more e = ok false
    matches_any (nil_then ms) e = matches_any ms e
    matches_any (then_more m ms) e = or_else (matches m e) (matches_any ms e)

-- A source by its id and the type of its events, which is empty where it has none.
pub record Source : Type 0 where
  pub id : String
  pub event_type : String

pub record Rule : Type 0 where
  pub id : String
  pub source : Option Source
  pub matcher : Option Matcher
  pub target : Target
  pub session : SessionPolicy
  pub policy : JobPolicy

abbrev pub or_text : String → String → String
or_text text other = if text == "" then other else text

unfoldable pub normalized : Rule → Rule
normalized r = record r {
  matcher = elim r.matcher [ none ↦ some match_all | some m ↦ some m ];
  policy = record r.policy { overlap = or_text r.policy.overlap overlap_skip_if_running };
  session = record r.session { mode = or_text r.session.mode "trigger_owned" };
}
