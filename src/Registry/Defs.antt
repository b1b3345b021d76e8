-- ===== src/Registry/Defs.antt =====
-- `ToolDescriptor` and the plain operations of `ToolRegistry`, of davinci/mcp.py.
use davinci_agent.Prelude.{String, Bool, Option, none, some, List, filter, ◌==◌}
use davinci_agent.Prelude.Dict.{Dict, lookup, insert, values}
use davinci_agent.Prelude.Value.{Value, string, dict, end, field}

-- The schema is loaded on demand, and then kept.
pub record ToolDescriptor : Type 0 where
  pub name : String
  pub description : String
  pub category : String
  pub risk : String
  pub requires_network : Bool
  pub server : String
  pub schema_loader : Option (Unit {0} → Value)
  pub loaded : Option Value

unfoldable pub empty_schema : Value
empty_schema = dict (field "type" (string "object") (field "properties" (dict end) end))

-- `ToolDescriptor.schema`: the schema, and the descriptor that keeps it
unfoldable pub schema : ToolDescriptor → Value × ToolDescriptor
unfolding empty_schema
schema t = elim t.loaded [
  | some v ↦ (v, t)
  | none ↦ elim t.schema_loader [
    | none ↦ (empty_schema, record t { loaded = some empty_schema })
    | some load ↦ let v = load tt in (v, record t { loaded = some v })
  ]
]

unfoldable pub stub : ToolDescriptor → Value
stub t = dict (
    field "name" (string t.name) (
      field "description" (string t.description) (
        field "category" (string t.category)
          (field "risk" (string t.risk) (field "server" (string t.server) end)))))

abbrev pub ToolRegistry : Type 0
ToolRegistry = Dict ToolDescriptor

unfoldable pub register : ToolDescriptor → ToolRegistry → ToolRegistry
register t r = insert t.name t r

unfoldable pub get : String → ToolRegistry → Option ToolDescriptor
get name r = lookup name r

-- `ToolRegistry.all`
unfoldable pub all_tools : ToolRegistry → List ToolDescriptor
all_tools r = values r

unfoldable pub by_category : String → ToolRegistry → List ToolDescriptor
by_category category r = filter (λ t. t.category == category) (values r)
