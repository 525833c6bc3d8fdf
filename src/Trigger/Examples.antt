-- ===== src/Trigger/Examples.antt =====
-- A job of trigger/scheduler.go that is asked to run while it runs.
use agentsdk.Prelude.{
  ℕ, ◌+◌, String, Bool, true, false, Option, some, List, [], ◌∷◌, ◌==◌, ◌≡◌, refl,
}
use agentsdk.Prelude.Dict.{lookup, insert, erase}
use agentsdk.Prelude.Text.{trim_space}
use agentsdk.Prelude.Result.{ok, err}
use agentsdk.Trigger.{
  Event, Rule, TriggerError, job_exists, target_workflow, event_type, subject_glob, all_of, any_of,
  no_more, nil_then, then_more, matches, normalized,
}
use agentsdk.Trigger.Scheduler.{
  JobRuns, Action, arrives, source_starts, returns, finishes, Scheduler, try_start_run, finish_run,
  handle_event, settle, step, run, new_runs, add_rule, stop_job,
}
use agentsdk.Trigger.Scheduler.Overlap.{in_flight, hits, run-overlap}

program : Unit {0}
unfolding matches trim_space normalized try_start_run finish_run handle_event settle step run
    add_rule stop_job lookup insert erase hits
program = tt

abbrev glob : String → String → Option Bool
glob pattern text = some (pattern == text)

abbrev error_text : TriggerError → String
error_text x = "syntax error in pattern"

abbrev event : String → ℕ → Event ℕ
event type n = record { id = "e"; type = type; source_id = "s"; subject = "x"; at = n; payload = n }

abbrev rule : Rule
rule = record {
  id = "r";
  source = some (record { id = "s"; event_type = "tick" });
  matcher =
      some
        (all_of (then_more (event_type "tick") (nil_then (then_more (subject_glob " ") no_more))));
  target = record {
    kind = target_workflow;
    workflow_name = "w";
    agent_name = "";
    prompt = "";
    action_name = "";
    include_event = false;
  };
  session = record { mode = ""; name = ""; agent_name = "" };
  policy = record { overlap = ""; timeout = 0 };
}

-- Two ticks, of which the second comes while the first runs, and one after.
abbrev actions : List (Action ℕ ℕ)
actions =
    source_starts
    ∷ arrives (event "tick" 1)
    ∷ arrives (event "tick" 2)
    ∷ arrives (event "tock" 3)
    ∷ returns 0 (ok 7)
    ∷ finishes 0
    ∷ arrives (event "tick" 4)
    ∷ []

abbrev after : JobRuns ℕ ℕ
after = run glob error_text actions (new_runs (normalized rule))

one_skipped : after.job.skipped ≡ 1
unfolding program
one_skipped = refl

two_matched : after.job.matched ≡ 2
unfolding program
two_matched = refl

abbrev empty_scheduler : Scheduler ℕ ℕ
empty_scheduler = record { has_executor = true; jobs = [] }

twice_refused : (add_rule rule (add_rule rule empty_scheduler).0).1 ≡ err (job_exists "r")
unfolding program
twice_refused = refl

added_again : (add_rule rule (stop_job "r" (add_rule rule empty_scheduler).0).0).1 ≡ ok tt
unfolding program
added_again = refl

any_of_none : matches glob (any_of (nil_then no_more)) (event "tick" 1) ≡ ok false
unfolding program
any_of_none = refl

run-overlap_example :
    ((after.job.running ≡ true → in_flight glob error_text after ≡ 1)
      × (after.job.running ≡ false → in_flight glob error_text after ≡ 0))
    × (after.job.matched ≡ after.finished + in_flight glob error_text after)
    × (after.job.matched + after.job.skipped ≡ hits glob error_text (normalized rule) actions)
run-overlap_example = run-overlap glob error_text rule actions refl
