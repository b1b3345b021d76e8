-- ===== src/Orchestrator/Workers.antt =====
-- `MasterWorkerOrchestrator` of caspar_orchestrator.py. `none` is a `KeyError`.
use davinci_agent.Prelude.{
  String, ◌<>◌, Bool, Option, none, some, List, [], ◌∷◌, ◌==◌, if◌then◌else◌,
}
use davinci_agent.Prelude.Dict.{Dict, lookup, insert, remove, values}
use davinci_agent.Prelude.Json.{dumps}
use davinci_agent.Prelude.Value.{Value, string, list, Fields, repr as repr_value}
use davinci_agent.Orchestrator.Defs.{
  ExecutionAction, WorkerTemplate, WorkerInstance, fields, object, strings, signal_fn, run_vm_fn,
  terminate_vm_fn,
}
use davinci_agent.Orchestrator.Client.{host_call}

pub record Master : Type 0 where
  pub templates : Dict WorkerTemplate
  pub workers : Dict WorkerInstance
  -- the payloads that its client has sent
  pub sent : List Value

abbrev pub add_templates : List WorkerTemplate → Dict WorkerTemplate → Dict WorkerTemplate
add_templates [] d = d
add_templates (t ∷ ts) d = add_templates ts (insert t.role t d)

-- `__init__`
unfoldable pub new_master : List WorkerTemplate → List Value → Master
new_master templates sent = record {
  templates = add_templates templates [];
  workers = [];
  sent = sent;
}

-- `register_template`
unfoldable pub register_template : WorkerTemplate → Master → Master
register_template t m = record m { templates = insert t.role t m.templates }

-- `list_workers`
abbrev pub list_workers : Master → List WorkerInstance
list_workers m = values m.workers

-- `x or y` for texts
abbrev or_text : Option String → String → String
or_text none d = d
or_text (some s) d = if s == "" then d else s

abbrev texts : Dict String → List (String × Value)
texts [] = []
texts ((k, s) ∷ d) = (k, string s) ∷ texts d

unfoldable pub run_payload : WorkerTemplate → String → String → Fields
run_payload t machine_id task_id = fields (
    ("name", string machine_id)
    ∷ ("type", string t.vm_type)
    ∷ ("imageName", string t.image_name)
    ∷ ("cmd", string (or_text t.startup_command ""))
    ∷ ("envs", object (texts t.env))
    ∷ (
      "metadata",
      object (
          ("role", string t.role)
          ∷ ("taskId", string task_id)
          ∷ ("requestPoint", string t.request_point)
          ∷ ("responsePoint", string t.response_point)
          ∷ []),
    )
    ∷ [])

unfoldable pub worker_of : WorkerTemplate → String → String → WorkerInstance
worker_of t worker_id task_id = record {
  worker_id = worker_id;
  role = t.role;
  vm_name = t.vm_name;
  machine_id = t.vm_name <> "-" <> worker_id;
  request_point = t.request_point;
  response_point = t.response_point;
  task_id = task_id;
  categories = t.categories;
  risk_level = t.risk_level;
}

-- the worker of a template, launched
unfoldable pub launch : WorkerTemplate → String → String → Master → WorkerInstance × Master
unfolding host_call run_payload worker_of
launch t worker_id task_id m =
    let worker = worker_of t worker_id task_id in
    let (result, sent) = host_call run_vm_fn (run_payload t worker.machine_id task_id) m.sent in
    (worker, record m { workers = insert worker_id worker m.workers; sent = sent })

-- `launch_worker`
unfoldable pub launch_worker :
    String → String → Option String → Master → Option (WorkerInstance × Master)
unfolding launch
launch_worker role task_id worker_id m = elim (lookup role m.templates) [
  | none ↦ none
  | some t ↦ some (launch t (or_text worker_id (role <> "-" <> task_id)) task_id m)
]

-- `assign_task`
unfoldable pub assign_task :
    String → String → String → String → String → Master → Option (Fields × Master)
unfolding host_call
assign_task worker_id task category function_name user_id m = elim (lookup worker_id m.workers) [
  | none ↦ none
  | some worker ↦
      let message = object (
        ("workerId", string worker.worker_id)
        ∷ ("machineId", string worker.machine_id)
        ∷ ("role", string worker.role)
        ∷ ("taskId", string worker.task_id)
        ∷ ("category", string category)
        ∷ ("function", string function_name)
        ∷ ("task", string task)
        ∷ ("expectedResponsePoint", string worker.response_point)
        ∷ []) in
      let (result, sent) =
        host_call signal_fn
          (fields (
            ("type", string "machine")
            ∷ ("machineId", string worker.machine_id)
            ∷ ("userId", string user_id)
            ∷ ("data", string (dumps message))
            ∷ []))
          m.sent in
      some (result, record m { sent = sent })
]

-- `terminate_worker`
unfoldable pub terminate_worker : String → Master → Option (Fields × Master)
unfolding host_call
terminate_worker worker_id m = elim (lookup worker_id m.workers) [
  | none ↦ none
  | some worker ↦
      let (result, sent) =
        host_call terminate_vm_fn (fields (("machineId", string worker.machine_id) ∷ [])) m.sent in
      some (result, record m { workers = remove worker_id m.workers; sent = sent })
]

-- what `plan_hierarchical_execution` keeps over its loop
pub record Run : Type 0 where
  pub master : Master
  pub launched : Dict WorkerInstance
  pub actions : List ExecutionAction
  pub missing : List String
  pub high_risk : Bool

unfoldable pub provision_action : WorkerTemplate → WorkerInstance → String → ExecutionAction
provision_action t worker category = record {
  phase = "provision_worker";
  tool_id = t.role;
  vm_name = t.vm_name;
  category = category;
  host_function = run_vm_fn;
  input_payload = fields (
      ("name", string worker.machine_id)
      ∷ ("type", string t.vm_type)
      ∷ ("imageName", string t.image_name)
      ∷ []);
  reason =
      "Provision worker role "
      <> t.role
      <> " for categories "
      <> repr_value (list (strings t.categories))
      <> ".";
}

unfoldable pub delegate_action : WorkerInstance → String → String → ExecutionAction
delegate_action worker task category = record {
  phase = "signal_request";
  tool_id = worker.worker_id;
  vm_name = worker.vm_name;
  category = category;
  host_function = signal_fn;
  input_payload = fields (
      ("type", string "machine")
      ∷ ("machineId", string worker.machine_id)
      ∷ ("userId", string "davinci-master")
      ∷ (
        "data",
        string (
            dumps (
              object (
                ("workerId", string worker.worker_id)
                ∷ ("taskId", string worker.task_id)
                ∷ ("category", string category)
                ∷ ("task", string task)
                ∷ ("expectedResponsePoint", string worker.response_point)
                ∷ []))),
      )
      ∷ []);
  reason = "Delegate " <> category <> " to worker role " <> worker.role <> ".";
}

unfoldable pub cleanup_action : WorkerInstance → ExecutionAction
cleanup_action worker = record {
  phase = "cleanup_worker";
  tool_id = worker.worker_id;
  vm_name = worker.vm_name;
  category = "lifecycle";
  host_function = terminate_vm_fn;
  input_payload = fields (("machineId", string worker.machine_id) ∷ []);
  reason = "Terminate ephemeral worker " <> worker.worker_id <> " after task completion.";
}
