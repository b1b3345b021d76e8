-- ===== src/Planning/Samples.antt =====
-- Plans of davinci/planning.py, and the theorems at them.
use davinci_agent.Prelude.{◌≡◌, refl, true, false, none, some, [], ◌∷◌}
use davinci_agent.Planning.Defs.{
  pending, in_progress, done, failed, skipped, PlanStep, Plan, next_pending, is_complete,
  has_failures, count_status,
}
use davinci_agent.Planning.Ops.{
  new_plan, add_step, get_step, start, complete, fail, count_attempt, replan_failed, heuristic_plan,
}
use davinci_agent.Planning.Status.{is_some, queries_by_counts}
use davinci_agent.Planning.Numbering.{IsNumbered}
use davinci_agent.Planning.Replan.{replan_failed_counts}
use davinci_agent.Planning.Edits.{
  add, starting, failing, replanning, edit, edit_all, edit_all-IsNumbered, writes_raise,
}

abbrev first : PlanStep
first = record {
  id = 1;
  title = "read";
  category = "analysis";
  rationale = "";
  status = done;
  result = some "ok";
  attempts = 1;
}

abbrev second : PlanStep
second = record {
  id = 2;
  title = "write";
  category = "code";
  rationale = "";
  status = failed;
  result = some "no";
  attempts = 1;
}

abbrev finished_plan : Plan
finished_plan = record {
  objective = "report";
  steps = first ∷ [];
  created_at_utc = "now";
  revision = 0;
  next_id = 2;
}

abbrev failed_plan : Plan
failed_plan = record {
  objective = "report";
  steps = first ∷ second ∷ [];
  created_at_utc = "now";
  revision = 0;
  next_id = 3;
}

failed_plan-IsNumbered : IsNumbered failed_plan
failed_plan-IsNumbered = record { numbers = (refl, (refl, tt)); next = refl }

queries_by_counts_example :
    (has_failures failed_plan ≡ true)
    × (is_some (next_pending failed_plan) ≡ false)
    × (is_complete failed_plan ≡ false)
unfolding count_status
queries_by_counts_example = queries_by_counts failed_plan

replan_failed_counts_example :
    (count_status failed (replan_failed failed_plan ("again" ∷ [])).steps ≡ 0)
    × (count_status skipped (replan_failed failed_plan ("again" ∷ [])).steps ≡ 1)
    × (count_status pending (replan_failed failed_plan ("again" ∷ [])).steps ≡ 1)
    × (count_status done (replan_failed failed_plan ("again" ∷ [])).steps ≡ 1)
    × (count_status in_progress (replan_failed failed_plan ("again" ∷ [])).steps ≡ 0)
    × ((replan_failed failed_plan ("again" ∷ [])).revision ≡ 1)
unfolding count_status
replan_failed_counts_example = replan_failed_counts failed_plan ("again" ∷ [])

abbrev edited : Plan
edited = record {
  objective = "report";
  steps =
      record {
        id = 1;
        title = "read";
        category = "analysis";
        rationale = "";
        status = skipped;
        result = some "no";
        attempts = 0;
      }
      ∷ record {
        id = 2;
        title = "again";
        category = "replan";
        rationale = "Inserted by replan-on-failure";
        status = pending;
        result = none;
        attempts = 0;
      }
      ∷ [];
  created_at_utc = "now";
  revision = 1;
  next_id = 3;
}

edits_give :
    edit_all
      (new_plan "report" "now")
      (add "read" "analysis" "" ∷ starting 1 ∷ failing 1 "no" ∷ replanning ("again" ∷ []) ∷ [])
    ≡ some edited
unfolding edit_all edit start davinci_agent.Planning.Ops.update_step add_step fail replan_failed
edits_give = refl

edit_all-IsNumbered_example : IsNumbered edited
edit_all-IsNumbered_example =
    edit_all-IsNumbered "report" "now"
      (add "read" "analysis" "" ∷ starting 1 ∷ failing 1 "no" ∷ replanning ("again" ∷ []) ∷ [])
      edited edits_give

writes_raise_example :
    (is_some (start failed_plan 3) ≡ false)
    × (is_some (complete failed_plan 3 "ok") ≡ false)
    × (is_some (fail failed_plan 3 "ok") ≡ false)
writes_raise_example = writes_raise failed_plan 3 "ok" failed_plan-IsNumbered

abbrev completed_plan : Plan
completed_plan = record failed_plan {
  steps = first ∷ record second { status = done; result = some "ok" } ∷ [];
}

complete_gives : complete failed_plan 2 "ok" ≡ some completed_plan
unfolding complete davinci_agent.Planning.Ops.update_step
complete_gives = refl
