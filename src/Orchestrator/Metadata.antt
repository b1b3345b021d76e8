-- ===== src/Orchestrator/Metadata.antt =====
-- `_iter_entities`, `_tool_arg_spec_to_schema` and `_capability_from_entity_metadata` of
-- caspar_orchestrator.py.
use Prim.Native.Char.{code}
use davinci_agent.Prelude.{
  ◌-◌, String, ◌<>◌, Bool, true, false, ◌&&◌, Option, none, some, List, [], ◌∷◌, ◌++◌, map, all,
  leb, or_else, if◌then◌else◌,
}
use davinci_agent.Prelude.Text.{nth}
use davinci_agent.Prelude.Dict.{Dict, lookup, insert}
use davinci_agent.Prelude.Value.{
  Value, null, bool, string, list, dict, Items, nil, cons, Fields, end, field, get, put, str,
  truthy, or_value,
}
use davinci_agent.Orchestrator.Defs.{ToolCapability, fields, object, strings}

-- list(vs)
abbrev pub items : Items → List Value
items nil = []
items (cons v vs) = v ∷ items vs

-- d.values()
abbrev pub field_values : Fields → List Value
field_values end = []
field_values (field k v fs) = v ∷ field_values fs

-- k in d
abbrev pub is_in : String → Fields → Bool
is_in k fs = elim (get k fs) [ none ↦ false | some v ↦ true ]

-- the dicts among the values
abbrev pub dicts : List Value → List Fields
dicts [] = []
dicts (dict m ∷ vs) = m ∷ dicts vs
dicts (v ∷ vs) = dicts vs

unfoldable pub group_of : Option Value → List Value
group_of (some (dict m)) = field_values m
group_of (some (list vs)) = items vs
group_of _ = []

-- `_iter_entities`
unfoldable pub iter_entities : Fields → List Value
unfolding group_of
iter_entities catalog =
    group_of (get "machines" catalog)
    ++ (group_of (get "apps" catalog) ++ group_of (get "programs" catalog))

-- s.upper(), on ASCII letters
unfoldable pub upper : String → String
upper String.[] = ""
upper (String.◌∷◌ c s) =
    let rest = upper s in
    if leb b'a' (code c) && leb (code c) b'z'
    then String.◌∷◌ (nth (code c - b'a') c "ABCDEFGHIJKLMNOPQRSTUVWXYZ") rest
    else String.◌∷◌ c rest

abbrev type_map : Dict String
type_map =
    ("STRING", "string")
    ∷ ("NUMBER", "number")
    ∷ ("INTEGER", "integer")
    ∷ ("BOOLEAN", "boolean")
    ∷ ("ARRAY", "array")
    ∷ ("OBJECT", "object")
    ∷ []

unfoldable pub arg_schema : Fields → Value
unfolding upper
arg_schema meta =
    let raw_type = upper (str (or_else (get "type" meta) (string "STRING"))) in
    object (
      ("type", string (or_else (lookup raw_type type_map) "string"))
      ∷ ("description", string (str (or_else (get "desc" meta) (string ""))))
      ∷ [])

-- the properties and the required names, from the arguments on
unfoldable pub arg_schemas : Fields → Fields × List String → Fields × List String
unfolding arg_schema put
arg_schemas end so_far = so_far
arg_schemas (field name (dict meta) args) (properties, required) =
    arg_schemas args (put name (arg_schema meta) properties, required ++ name ∷ [])
arg_schemas (field name v args) so_far = arg_schemas args so_far

unfoldable pub schema_of : Fields × List String → Fields
schema_of (properties, []) =
    fields (("type", string "object") ∷ ("properties", dict properties) ∷ [])
schema_of (properties, r ∷ rs) = fields (
    ("type", string "object")
    ∷ ("properties", dict properties)
    ∷ ("required", list (strings (r ∷ rs)))
    ∷ [])

-- `_tool_arg_spec_to_schema`
unfoldable pub tool_arg_spec_to_schema : Value → Fields
unfolding arg_schemas schema_of
tool_arg_spec_to_schema (dict args) = schema_of (arg_schemas args (end, []))
tool_arg_spec_to_schema v = schema_of (end, [])

-- str(d.get(k, default))
abbrev pub text_at : String → String → Fields → String
text_at k default m = str (or_else (get k m) (string default))

-- the routes, with their keys and values as texts
unfoldable pub routes_of : Fields → Fields → Fields
unfolding put
routes_of end so_far = so_far
routes_of (field k v fs) so_far = routes_of fs (put k (string (str v)) so_far)

-- {str(category): function for category in categories}
unfoldable pub route_all : List Value → String → Fields → Fields
unfolding put
route_all [] function so_far = so_far
route_all (v ∷ vs) function so_far = route_all vs function (put (str v) (string function) so_far)

unfoldable pub functions_of : Option Value → List Value → Fields → Fields
unfolding routes_of route_all
functions_of (some (dict routes)) categories first = routes_of routes end
functions_of _ categories first = route_all categories (text_at "name" "invoke" first) end

-- {str(t.get("name")): t for t in tools}
unfoldable pub tool_index : List Fields → Dict Fields → Dict Fields
tool_index [] so_far = so_far
tool_index (t ∷ ts) so_far = tool_index ts (insert (str (or_else (get "name" t) null)) t so_far)

unfoldable pub function_schema : Dict Fields → String → Value
unfolding tool_arg_spec_to_schema
function_schema index name =
    let meta = or_else (lookup name index) end in
    object (
      ("name", string name)
      ∷ ("description", string (text_at "desc" "" meta))
      ∷ ("input_schema", dict (tool_arg_spec_to_schema (or_else (get "args" meta) (dict end))))
      ∷ (
        "output_schema",
        or_else (get "output_schema" meta) (object (("type", string "object") ∷ [])),
      )
      ∷ [])

-- for category, fn_name in functions.items(): the names are texts
unfoldable pub function_schemas_of : Dict Fields → Fields → Dict Value → Dict Value
unfolding function_schema
function_schemas_of index end so_far = so_far
function_schemas_of index (field category name fs) so_far =
    function_schemas_of index fs (insert category (function_schema index (str name)) so_far)

-- the categories of the metadata, or ["mcp"]
abbrev pub categories_of : Option Value → List Value
categories_of (some (list (cons v vs))) = v ∷ items vs
categories_of _ = string "mcp" ∷ []

-- the capability of an entity with at least one tool
unfoldable pub mcp_capability : Fields → Fields → Fields → List Fields → ToolCapability
unfolding functions_of tool_index function_schemas_of
mcp_capability entity metadata first more =
    let tool_id = str (
      or_value (get "tool_id" metadata)
        (or_value (get "username" entity) (or_value (get "userId" entity) (string "mcp_tool")))) in
    let categories = categories_of (get "categories" metadata) in
    let functions = functions_of (get "routes" metadata) categories first in
    record {
      tool_id = tool_id;
      categories = map (λ c. string (str c)) categories;
      functions = functions;
      description = text_at "description" (text_at "desc" tool_id metadata) metadata;
      vm_name = text_at "vm_name" "mcp-vm" metadata;
      container = record {
        machine_id =
            str (or_value (get "machine_id" metadata) (or_else (get "userId" entity) (string "")));
        image_name = text_at "image_name" "" metadata;
        container_name = text_at "container_name" "" metadata;
        tool_root = "tools/" <> tool_id;
        dockerfile_path = "tools/" <> tool_id <> "/Dockerfile";
        vm_type = text_at "vm_type" "docker" metadata;
      };
      request_point = text_at "request_point" ("tool::" <> tool_id <> "::request") metadata;
      response_point = text_at "response_point" ("tool::" <> tool_id <> "::response") metadata;
      risk_level = text_at "risk_level" "medium" metadata;
      requires_network = truthy (or_else (get "requires_network" metadata) (bool false));
      prompt = get "prompt" metadata;
      function_schemas = function_schemas_of (tool_index (first ∷ more) []) functions [];
    }

-- d.get("isMcp") is True
abbrev pub is_true : Option Value → Bool
is_true (some (bool b)) = b
is_true _ = false

unfoldable pub capability_of_tools : Fields → Fields → List Fields → Option ToolCapability
unfolding mcp_capability
capability_of_tools entity metadata [] = none
capability_of_tools entity metadata (first ∷ more) =
    if is_true (get "isMcp" metadata) && all (is_in "name") (first ∷ more)
    then some (mcp_capability entity metadata first more)
    else none

-- the values of a list; a value that is none has no dict in it
abbrev pub listed : Option Value → List Value
listed (some (list vs)) = items vs
listed _ = []

-- `_capability_from_entity_metadata`
unfoldable pub capability_from_entity_metadata : Fields → Fields → Option ToolCapability
unfolding capability_of_tools
capability_from_entity_metadata entity metadata =
    capability_of_tools entity metadata (dicts (listed (get "tools" metadata)))
