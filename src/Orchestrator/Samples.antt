-- ===== src/Orchestrator/Samples.antt =====
-- Tools, templates and catalogs of caspar_orchestrator.py, and the theorems at them.
use davinci_agent.Prelude.{◌≡◌, refl, true, false, none, some, [], ◌∷◌, All}
use davinci_agent.Prelude.Value.{null, bool, string, list, nil, cons, Fields}
use davinci_agent.Prelude.Dict.{insert}
use davinci_agent.Orchestrator.Groups.{key_of}
use davinci_agent.Orchestrator.Defs.{
  fields, object, ToolCapability, ActionRequest, ExecutionPlan, WorkerTemplate,
}
use davinci_agent.Orchestrator.Planner.{Vms, register_vm, list_tools, plan}
use davinci_agent.Orchestrator.Plans.{IsPlanned, plan-IsPlanned}
use davinci_agent.Orchestrator.Workers.{Master, new_master}
use davinci_agent.Orchestrator.Hierarchy.{plan_hierarchical_execution}
use davinci_agent.Orchestrator.Ephemeral.{
  new_master-IsKeyed, IsEphemeral, plan_hierarchical_execution-IsEphemeral,
}
use davinci_agent.Orchestrator.Discovery.{discover_tool_capabilities}
use davinci_agent.Orchestrator.Described.{IsDescribed, discover_tool_capabilities-IsDescribed}
use davinci_agent.Permissions.Defs.{ToolAction, low}
use davinci_agent.Registry.Defs.{ToolDescriptor}
use davinci_agent.Orchestrator.Executor.{index_names, execute}
use davinci_agent.Orchestrator.Execution.{IsExecuted, execute-IsExecuted}
use davinci_agent.Orchestrator.Client.{Failure}
use davinci_agent.Engine.Defs.{Result}

abbrev search_tool : ToolCapability
search_tool = record {
  tool_id = "search";
  categories = string "web" ∷ [];
  functions = fields (("web", string "query") ∷ []);
  description = "";
  vm_name = "vm";
  container = record {
    machine_id = "m1";
    image_name = "";
    container_name = "";
    tool_root = "tools/search";
    dockerfile_path = "tools/search/Dockerfile";
    vm_type = "docker";
  };
  request_point = "";
  response_point = "";
  risk_level = "low";
  requires_network = true;
  prompt = none;
  function_schemas = [];
}

abbrev two_tools : Vms
two_tools =
    register_vm
      (record {
        name = "vm";
        tools = record search_tool { tool_id = "browse"; risk_level = "high" } ∷ search_tool ∷ [];
      })
      []

abbrev web_request : ActionRequest
web_request = record {
  task = "look up";
  required_categories = "web" ∷ "mail" ∷ [];
  risk_tolerance = "medium";
}

plan-IsPlanned_example :
    (p : ExecutionPlan) × (plan web_request two_tools ≡ some p)
    × IsPlanned web_request (list_tools two_tools) p
unfolding register_vm insert key_of
plan-IsPlanned_example =
    plan-IsPlanned web_request two_tools ((("text web", refl), tt), ((("text web", refl), tt), tt))

abbrev coder : WorkerTemplate
coder = record {
  role = "coder";
  image_name = "img";
  vm_name = "vm";
  request_point = "in";
  response_point = "out";
  categories = "code" ∷ "test" ∷ [];
  startup_command = none;
  env = [];
  vm_type = "docker";
  risk_level = "high";
}

abbrev coders : Master
coders = new_master (coder ∷ []) []

plan_hierarchical_execution-IsEphemeral_example :
    (p : ExecutionPlan) × (m : Master) × (plan_hierarchical_execution "Fix it"
        ("code" ∷ "mail" ∷ "test" ∷ [])
        coders
      ≡ some (p, m))
    × IsEphemeral ("code" ∷ "mail" ∷ "test" ∷ []) coders p m
plan_hierarchical_execution-IsEphemeral_example =
    plan_hierarchical_execution-IsEphemeral "Fix it" ("code" ∷ "mail" ∷ "test" ∷ []) coders
      (new_master-IsKeyed (coder ∷ []) [])

abbrev mail_catalog : Fields
mail_catalog = fields (
    (
      "machines",
      object (
          (
            "a",
            object (
                ("userId", string "u")
                ∷ (
                  "metadata",
                  object (
                      ("isMcp", bool true)
                      ∷ ("tools", list (cons (object (("name", string "send") ∷ [])) nil))
                      ∷ []),
                )
                ∷ []),
          )
          ∷ []),
    )
    ∷ [])

discover_tool_capabilities-IsDescribed_example :
    All IsDescribed (discover_tool_capabilities mail_catalog)
discover_tool_capabilities-IsDescribed_example = discover_tool_capabilities-IsDescribed mail_catalog

abbrev search_entry : ToolDescriptor
search_entry = record {
  name = "caspar__search";
  description = "";
  category = "web";
  risk = "low";
  requires_network = true;
  server = "caspar";
  schema_loader = none;
  loaded = none;
}

abbrev search_action : ToolAction
search_action = record {
  tool_id = "caspar__search";
  category = "web";
  risk = low;
  args = ("task", string "find it") ∷ [];
  requires_network = true;
}

-- a transport that cannot reach its host
abbrev refused : Failure
refused sent payload = some "Connection refused"

execute-IsExecuted_example :
    IsExecuted refused "davinci-agent" search_entry search_action [] (search_tool ∷ []) (
      execute refused "davinci-agent" search_entry
        (index_names (search_tool ∷ []) [])
        search_action
        [])
execute-IsExecuted_example =
    execute-IsExecuted refused "davinci-agent" search_entry search_action [] (search_tool ∷ [])

refused_fails :
    (execute refused "davinci-agent" search_entry
      (index_names (search_tool ∷ []) [])
      search_action
      []).0
    ≡ Result.ok (record { succeeded = false; output = null; error = "Connection refused" })
unfolding execute index_names davinci_agent.Prelude.Dict.lookup insert
refused_fails = refl
