-- ===== src/Orchestrator/Discovery.antt =====
-- `discover_tool_capabilities` of caspar_orchestrator.py.
use davinci_agent.Prelude.{
  String, ◌<>◌, false, Option, none, some, List, [], ◌∷◌, ◌++◌, map, any, all, or_else, ◌==◌,
  if◌then◌else◌,
}
use davinci_agent.Prelude.Text.{strip}
use davinci_agent.Prelude.Dict.{Dict, insert}
use davinci_agent.Prelude.Value.{
  Value, bool, string, list, dict, Fields, end, get, put, str, truthy, or_value,
}
use davinci_agent.Orchestrator.Defs.{ToolCapability, object}
use davinci_agent.Orchestrator.Metadata.{
  items, is_in, text_at, listed, iter_entities, capability_from_entity_metadata,
}

-- what the loop over a list of functions collects
pub record Routes : Type 0 where
  pub categories : List String
  pub functions : Fields
  pub schemas : Dict Value

-- x or "invoke"
abbrev or_invoke : String → String
or_invoke s = if s == "" then "invoke" else s

-- a function under its category
unfoldable pub route : String → String → Fields → Routes → Routes
unfolding put
route category name fn r = record {
  categories =
      if any (λ c. c == category) r.categories then r.categories else r.categories ++ category ∷ [];
  functions = put category (string name) r.functions;
  schemas =
      insert category
        (object (
          ("name", string name)
          ∷ ("description", string (text_at "description" "" fn))
          ∷ ("input_schema", or_else (get "input_schema" fn) (dict end))
          ∷ ("output_schema", or_else (get "output_schema" fn) (dict end))
          ∷ []))
        r.schemas;
}

unfoldable pub route_function : Value → Routes → Routes
unfolding route
route_function (dict fn) r =
    let category = strip (text_at "category" "" fn) in
    if category == ""
    then r
    else route category (or_invoke (strip (text_at "name" "invoke" fn))) fn r
route_function v r = r

unfoldable pub route_functions : List Value → Routes → Routes
unfolding route_function
route_functions [] r = r
route_functions (v ∷ vs) r = route_functions vs (route_function v r)

abbrev pub required_keys : List String
required_keys = "tool_id" ∷ "vm_name" ∷ "description" ∷ "request_point" ∷ "response_point" ∷ []

unfoldable pub tool_capability : Fields → Fields → List Value → Fields → Dict Value → ToolCapability
tool_capability entity tool categories functions schemas =
    let tool_id = text_at "tool_id" "" tool in
    record {
      tool_id = tool_id;
      categories = categories;
      functions = functions;
      description = text_at "description" "" tool;
      vm_name = text_at "vm_name" "" tool;
      container = record {
        machine_id =
            str (or_value (get "machine_id" tool) (or_else (get "userId" entity) (string "")));
        image_name = text_at "image_name" "" tool;
        container_name = text_at "container_name" "" tool;
        tool_root = "tools/" <> tool_id;
        dockerfile_path = "tools/" <> tool_id <> "/Dockerfile";
        vm_type = text_at "vm_type" "docker" tool;
      };
      request_point = text_at "request_point" "" tool;
      response_point = text_at "response_point" "" tool;
      risk_level = text_at "risk_level" "medium" tool;
      requires_network = truthy (or_else (get "requires_network" tool) (bool false));
      prompt = get "prompt" tool;
      function_schemas = schemas;
    }

unfoldable pub no_routes : Routes
no_routes = record { categories = []; functions = end; schemas = [] }

-- by the functions and the categories of a tool
unfoldable pub routed_capability :
    Fields → Fields → Option Value → Option Value → Option ToolCapability
unfolding tool_capability route_functions no_routes
routed_capability entity tool (some (list fs)) categories =
    let r = route_functions (items fs) no_routes in
    some (tool_capability entity tool (map string r.categories) r.functions r.schemas)
routed_capability entity tool (some (dict functions)) (some (list cs)) =
    some (tool_capability entity tool (items cs) functions [])
routed_capability entity tool functions categories = none

unfoldable pub capability_of_tool : Fields → Value → Option ToolCapability
unfolding routed_capability
capability_of_tool entity (dict tool) =
    if all (λ k. is_in k tool) required_keys
    then routed_capability entity tool (get "functions" tool) (get "categories" tool)
    else none
capability_of_tool entity v = none

unfoldable pub capabilities_of_tools : Fields → List Value → List ToolCapability
unfolding capability_of_tool
capabilities_of_tools entity [] = []
capabilities_of_tools entity (v ∷ vs) =
    let rest = capabilities_of_tools entity vs in
    elim (capability_of_tool entity v) [ none ↦ rest | some c ↦ c ∷ rest ]

unfoldable pub capabilities_of_metadata : Fields → Value → List ToolCapability
unfolding capabilities_of_tools
capabilities_of_metadata entity (dict metadata) =
    elim (capability_from_entity_metadata entity metadata) [
      | none ↦ capabilities_of_tools entity (listed (get "tools" metadata))
      | some c ↦ c ∷ []
    ]
capabilities_of_metadata entity v = []

unfoldable pub capabilities_of_entity : Value → List ToolCapability
unfolding capabilities_of_metadata
capabilities_of_entity (dict entity) =
    capabilities_of_metadata entity (or_else (get "metadata" entity) (dict end))
capabilities_of_entity v = []

unfoldable pub capabilities_of_entities : List Value → List ToolCapability
unfolding capabilities_of_entity
capabilities_of_entities [] = []
capabilities_of_entities (v ∷ vs) = capabilities_of_entity v ++ capabilities_of_entities vs

-- `discover_tool_capabilities`
unfoldable pub discover_tool_capabilities : Fields → List ToolCapability
unfolding capabilities_of_entities
discover_tool_capabilities catalog = capabilities_of_entities (iter_entities catalog)
