-- ===== src/Orchestrator/Hierarchy.antt =====
-- `plan_hierarchical_execution` of `MasterWorkerOrchestrator` (caspar_orchestrator.py). `none` is a
-- `KeyError`.
use davinci_agent.Prelude.{
  String, ◌<>◌, Bool, false, ◌||◌, Option, none, some, List, [], ◌∷◌, ◌++◌, map, any, find?, ◌==◌,
  if◌then◌else◌,
}
use davinci_agent.Prelude.Text
use davinci_agent.Prelude.Text.{lower, replace, join}
use davinci_agent.Prelude.Dict.{lookup, has, insert, values}
use davinci_agent.Orchestrator.Defs.{ExecutionPlan, WorkerTemplate}
use davinci_agent.Orchestrator.Planner.{is_filled}
use davinci_agent.Orchestrator.Workers.{
  Master, launch_worker, Run, provision_action, delegate_action, cleanup_action,
}

-- task.lower().replace(" ", "-")[:48] or "task"
unfoldable pub task_id_of : String → String
task_id_of task =
    let s = Text.take 48 (replace " " "-" (lower task)) in if s == "" then "task" else s

abbrev pub covers : String → WorkerTemplate → Bool
covers category t = any (λ c. c == category) t.categories

-- a worker for the template, unless it has one
unfoldable pub provision : String → String → WorkerTemplate → Run → Option Run
unfolding provision_action
provision task_id category t run =
    if has t.role run.launched
    then some run
    else elim (launch_worker t.role task_id none run.master) [
      | none ↦ none
      | some (worker, m) ↦ some (record run {
        master = m;
        launched = insert t.role worker run.launched;
        actions = run.actions ++ provision_action t worker category ∷ [];
        high_risk = run.high_risk || t.risk_level == "high";
      })
    ]

unfoldable pub delegate : String → String → WorkerTemplate → Run → Option Run
unfolding delegate_action
delegate task category t run = elim (lookup t.role run.launched) [
  | none ↦ none
  | some worker ↦
      some (record run { actions = run.actions ++ delegate_action worker task category ∷ [] })
]

-- one turn of the loop
unfoldable pub plan_category : String → String → String → Run → Option Run
unfolding provision delegate
plan_category task task_id category run =
    elim (find? (covers category) (values run.master.templates)) [
      | none ↦ some (record run { missing = run.missing ++ category ∷ [] })
      | some t ↦ elim (provision task_id category t run) [
        | none ↦ none
        | some run' ↦ delegate task category t run'
      ]
    ]

unfoldable pub plan_categories : String → String → List String → Run → Option Run
unfolding plan_category
plan_categories task task_id [] run = some run
plan_categories task task_id (category ∷ categories) run =
    elim (plan_category task task_id category run) [
      | none ↦ none
      | some run' ↦ plan_categories task task_id categories run'
    ]

unfoldable pub hierarchy_of : String → Run → ExecutionPlan
unfolding cleanup_action
hierarchy_of task run = record {
  task = task;
  actions = run.actions ++ map cleanup_action (values run.launched);
  human_review_required = run.high_risk || is_filled run.missing;
  rationale =
      if is_filled run.missing
      then "Missing worker templates for categories: " <> join ", " run.missing
      else "Master-worker orchestration plan generated with lifecycle control via runVm/terminateVm.";
}

unfoldable pub first_run : Master → Run
first_run m = record { master = m; launched = []; actions = []; missing = []; high_risk = false }

-- `plan_hierarchical_execution`: the plan, and the master, which has launched the workers
unfoldable pub plan_hierarchical_execution :
    String → List String → Master → Option (ExecutionPlan × Master)
unfolding first_run plan_categories hierarchy_of
plan_hierarchical_execution task required_categories m =
    elim (plan_categories task (task_id_of task) required_categories (first_run m)) [
      | none ↦ none
      | some run ↦ some (hierarchy_of task run, run.master)
    ]
