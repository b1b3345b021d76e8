-- ===== src/Orchestrator/Defs.antt =====
-- The data of caspar_orchestrator.py.
use davinci_agent.Prelude.{String, Bool, Option, List, [], ◌∷◌}
use davinci_agent.Prelude.Dict.{Dict}
pub use davinci_agent.Prelude.Value.{fields, object}
use davinci_agent.Prelude.Value.{Value, string, Fields, Items, nil, cons}

-- a list of strings as a value
abbrev pub strings : List String → Items
strings [] = nil
strings (s ∷ ss) = cons (string s) (strings ss)

pub record ToolContainerSpec : Type 0 where
  pub machine_id : String
  pub image_name : String
  pub container_name : String
  pub tool_root : String
  pub dockerfile_path : String
  pub vm_type : String

-- The categories and the functions come from a JSON text that nothing checks, so they can be any
-- values.
pub record ToolCapability : Type 0 where
  pub tool_id : String
  pub categories : List Value
  pub functions : Fields
  pub description : String
  pub vm_name : String
  pub container : ToolContainerSpec
  pub request_point : String
  pub response_point : String
  pub risk_level : String
  pub requires_network : Bool
  pub prompt : Option Value
  pub function_schemas : Dict Value

pub record VmDescriptor : Type 0 where
  pub name : String
  pub tools : List ToolCapability

pub record ActionRequest : Type 0 where
  pub task : String
  pub required_categories : List String
  pub risk_tolerance : String

pub record ExecutionAction : Type 0 where
  pub phase : String
  pub tool_id : String
  pub vm_name : String
  pub category : String
  pub host_function : String
  pub input_payload : Fields
  pub reason : String

pub record ExecutionPlan : Type 0 where
  pub task : String
  pub actions : List ExecutionAction
  pub human_review_required : Bool
  pub rationale : String

pub record WorkerTemplate : Type 0 where
  pub role : String
  pub image_name : String
  pub vm_name : String
  pub request_point : String
  pub response_point : String
  pub categories : List String
  pub startup_command : Option String
  pub env : Dict String
  pub vm_type : String
  pub risk_level : String

pub record WorkerInstance : Type 0 where
  pub worker_id : String
  pub role : String
  pub vm_name : String
  pub machine_id : String
  pub request_point : String
  pub response_point : String
  pub task_id : String
  pub categories : List String
  pub risk_level : String

-- the host functions that are called
abbrev pub signal_fn : String
signal_fn = "signal"

abbrev pub protocol_api_fn : String
protocol_api_fn = "protocolApi"

abbrev pub run_vm_fn : String
run_vm_fn = "runVm"

abbrev pub terminate_vm_fn : String
terminate_vm_fn = "terminateVm"
