-- ===== src/Orchestrator/Ephemeral.antt =====
-- The workers of a hierarchical plan (caspar_orchestrator.py), from their launch to their end.
use davinci_agent.Prelude.{
  String, ◌≡◌, refl, sym, ap, ◌∙◌, Option, some, List, [], ◌∷◌, ◌++◌, map, append-nil, append_assoc,
  filter, All, All-append, ◌==◌, arith, Bool-cases, inl, inr, if◌then◌else◌,
}
use davinci_agent.Prelude.Dict.{Dict, insert, values}
use davinci_agent.Prelude.Value.{Value, string, dict, get}
use davinci_agent.Orchestrator.Defs.{
  ExecutionAction, ExecutionPlan, WorkerTemplate, WorkerInstance, object,
}
use davinci_agent.Orchestrator.Client.{host_call, execute_actions, execute_plan}
use davinci_agent.Orchestrator.Workers.{
  Run, Master, add_templates, new_master, register_template, cleanup_action,
}
use davinci_agent.Orchestrator.Hierarchy.{
  hierarchy_of, first_run, task_id_of, plan_hierarchical_execution,
}
use davinci_agent.Orchestrator.Machines.{
  gather-append, gather-snoc, named, provisioned, cleaned_up, delegated, run_of, started, machines,
  IsKeyed,
}
use davinci_agent.Orchestrator.Lifecycle.{IsRun, IsTracked, Goes, is_covered, plan_categories-Goes}

insert-IsKeyed :
    (t : WorkerTemplate) (d : Dict WorkerTemplate) → IsKeyed d → IsKeyed (insert t.role t d)
unfolding insert
insert-IsKeyed t [] h = (refl, tt)
insert-IsKeyed t ((k, u) ∷ d) h = elim (Bool-cases (k == t.role)) [
  | inl same ↦ rw (insert, same) (refl, h.1)
  | inr other ↦ rw (insert, other) (h.0, insert-IsKeyed t d h.1)
]

add_templates-IsKeyed :
    (ts : List WorkerTemplate) (d : Dict WorkerTemplate) → IsKeyed d → IsKeyed (add_templates ts d)
add_templates-IsKeyed [] d h = h
add_templates-IsKeyed (t ∷ ts) d h =
    add_templates-IsKeyed ts (insert t.role t d) (insert-IsKeyed t d h)

pub new_master-IsKeyed :
    (ts : List WorkerTemplate) (sent : List Value) → IsKeyed (new_master ts sent).templates
unfolding new_master
new_master-IsKeyed ts sent = add_templates-IsKeyed ts [] tt

pub register_template-IsKeyed :
    (t : WorkerTemplate) (m : Master)
    → IsKeyed m.templates
    → IsKeyed (register_template t m).templates
unfolding register_template
register_template-IsKeyed t m h = insert-IsKeyed t m.templates h

-- the actions that clean up
cleanup_machines :
    (d : Dict WorkerInstance) → cleaned_up (map cleanup_action (values d)) ≡ machines d
unfolding cleanup_action get
cleanup_machines [] = refl
cleanup_machines ((k, w) ∷ d) = ap (λ l. w.machine_id ∷ l) (cleanup_machines d)

cleanup_provisions : (d : Dict WorkerInstance) → provisioned (map cleanup_action (values d)) ≡ []
unfolding cleanup_action get
cleanup_provisions [] = refl
cleanup_provisions ((k, w) ∷ d) = cleanup_provisions d

cleanup_delegates : (d : Dict WorkerInstance) → delegated (map cleanup_action (values d)) ≡ []
unfolding cleanup_action
cleanup_delegates [] = refl
cleanup_delegates ((k, w) ∷ d) = cleanup_delegates d

cleanup-IsRun : (d : Dict WorkerInstance) → All IsRun (map cleanup_action (values d))
unfolding cleanup_action get
cleanup-IsRun [] = tt
cleanup-IsRun ((k, w) ∷ d) = (refl, cleanup-IsRun d)

cleanup-phase :
    (d : Dict WorkerInstance)
    → All (λ a. a.phase ≡ "cleanup_worker") (map cleanup_action (values d))
unfolding cleanup_action
cleanup-phase [] = tt
cleanup-phase ((k, w) ∷ d) = (refl, cleanup-phase d)

execute-started :
    (actions : List ExecutionAction) (sent : List Value)
    → All IsRun actions
    → started (execute_actions actions sent).1 ≡ started sent ++ provisioned actions
unfolding execute_actions host_call
execute-started [] sent h = sym (append-nil (started sent))
execute-started (a ∷ actions) sent h =
    let payload = object (
      ("op", string a.host_function)
      ∷ ("key", string a.host_function)
      ∷ ("input", dict a.input_payload)
      ∷ []) in
    execute-started actions (sent ++ payload ∷ []) h.1
    ∙ ap (λ l. l ++ provisioned actions)
        (gather-snoc run_of sent payload ∙ ap (λ l. started sent ++ l) h.0)
    ∙ append_assoc (started sent) (named "provision_worker" "name" a) (provisioned actions)

-- how a hierarchical plan and the master after it stand to the master before
pub record IsEphemeral (categories : List String) (old : Master) (p : ExecutionPlan) (m : Master)
    : Type 0 where
  pub launched : started m.sent ≡ started old.sent ++ provisioned p.actions
  pub cleaned : cleaned_up p.actions ≡ provisioned p.actions
  -- the actions that clean up stand after all others
  pub work : List ExecutionAction
  pub ends : List ExecutionAction
  pub ordered : p.actions ≡ work ++ ends
  pub works_on : cleaned_up work ≡ []
  pub only_ends : All (λ a. a.phase ≡ "cleanup_worker") ends
  pub signalled : delegated p.actions ≡ filter (is_covered old.templates) categories
  pub started_again :
      started (execute_plan p m.sent).1
      ≡ started old.sent ++ (provisioned p.actions ++ provisioned p.actions)

hierarchy_of-IsEphemeral :
    (task : String) (categories : List String) (m : Master)
    → {result : Option Run}
    → (g : Goes m.sent (first_run m) result (filter (is_covered m.templates) categories))
    → IsEphemeral categories m (hierarchy_of task g.run) g.run.master
unfolding hierarchy_of execute_plan first_run
hierarchy_of-IsEphemeral task categories m g =
    let actions = g.run.actions in
    let ends = map cleanup_action (values g.run.launched) in
    let provisions : provisioned (actions ++ ends) ≡ provisioned actions =
      gather-append (named "provision_worker" "name") actions ends
      ∙ ap (λ l. provisioned actions ++ l) (cleanup_provisions g.run.launched)
      ∙ append-nil (provisioned actions) in
    let starts : started g.run.master.sent ≡ started m.sent ++ provisioned (actions ++ ends) =
      g.tracked.started_all
      ∙ ap (λ l. started m.sent ++ l) (sym (provisions ∙ g.tracked.provisioned_all)) in
    record {
      launched = starts;
      cleaned =
          gather-append (named "cleanup_worker" "machineId") actions ends
          ∙ ap (λ l. l ++ cleaned_up ends) g.tracked.cleaned_none
          ∙ cleanup_machines g.run.launched
          ∙ sym (provisions ∙ g.tracked.provisioned_all);
      work = actions;
      ends = ends;
      ordered = refl;
      works_on = g.tracked.cleaned_none;
      only_ends = cleanup-phase g.run.launched;
      signalled =
          gather-append (λ a. if a.phase == "signal_request" then a.category ∷ [] else []) actions
            ends
          ∙ ap (λ l. delegated actions ++ l) (cleanup_delegates g.run.launched)
          ∙ append-nil (delegated actions)
          ∙ g.delegated_more;
      started_again =
          execute-started (actions ++ ends) g.run.master.sent
            (All-append IsRun actions ends g.tracked.runs (cleanup-IsRun g.run.launched))
          ∙ ap (λ l. l ++ provisioned (actions ++ ends)) starts
          ∙ append_assoc (started m.sent) (provisioned (actions ++ ends))
              (provisioned (actions ++ ends));
    }

-- A master whose templates are kept under their roles makes a hierarchical plan. While it plans it
-- sends `runVm` for exactly the machines that the plan's actions provision, in their order; the plan
-- delegates exactly the required categories that a template covers, in their order, and cleans up
-- every machine that it provisions, once, after all its other actions. Executing it sends `runVm` for
-- each of these machines a second time.
pub plan_hierarchical_execution-IsEphemeral :
    (task : String) (categories : List String) (m : Master)
    → IsKeyed m.templates
    → (p : ExecutionPlan) × (m' : Master) × (plan_hierarchical_execution task categories m
        ≡ some (p, m'))
      × IsEphemeral categories m p m'
unfolding plan_hierarchical_execution first_run
plan_hierarchical_execution-IsEphemeral task categories m keyed =
    let tracked : IsTracked m.sent (first_run m) = record {
      keyed = keyed;
      provisioned_all = refl;
      started_all = sym (append-nil (started m.sent));
      cleaned_none = refl;
      runs = tt;
    } in
    let g = plan_categories-Goes m.sent task (task_id_of task) categories (first_run m) tracked in
    (
      hierarchy_of task g.run,
      g.run.master,
      ground (arith, g.returned),
      hierarchy_of-IsEphemeral task categories m g,
    )
