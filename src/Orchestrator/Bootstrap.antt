-- ===== src/Orchestrator/Bootstrap.antt =====
-- `_load_catalog_from_env` and `bootstrap_default_registry` of caspar_orchestrator.py.
use Prim.Native.Nat.{Ordering}
use Prim.Native.String.{compare}
use davinci_agent.Prelude.{
  String, Bool, true, false, not, ◌&&◌, Option, none, some, List, [], ◌∷◌, ◌++◌, or_else, ◌==◌,
  if◌then◌else◌,
}
use davinci_agent.Prelude.Text.{strip}
use davinci_agent.Prelude.Dict.{Dict, lookup, insert, keys}
use davinci_agent.Prelude.Value.{Value, dict, end, truthy}
use davinci_agent.Orchestrator.Defs.{ToolCapability}
use davinci_agent.Orchestrator.Client.{list_point_apps}
use davinci_agent.Orchestrator.Discovery.{discover_tool_capabilities}
use davinci_agent.Orchestrator.Planner.{Vms, register_vm}

-- `_load_catalog_from_env`, for the variable's value and for what `json.loads` gives; `none` there
-- is a `JSONDecodeError`
unfoldable pub load_catalog : (String → Option Value) → Option String → Value
load_catalog loads env =
    let raw = strip (or_else env "") in
    if raw == "" then dict end else or_else (loads raw) (dict end)

-- grouped.setdefault(vm_name, []).append(capability)
unfoldable pub add_capability :
    ToolCapability → Dict (List ToolCapability) → Dict (List ToolCapability)
add_capability c d = insert c.vm_name (or_else (lookup c.vm_name d) [] ++ c ∷ []) d

unfoldable pub grouped :
    List ToolCapability → Dict (List ToolCapability) → Dict (List ToolCapability)
unfolding add_capability
grouped [] d = d
grouped (c ∷ cs) d = grouped cs (add_capability c d)

abbrev not_after : String → String → Bool
not_after s t = elim (compare s t) [ Ordering.gt ↦ false | _ ↦ true ]

-- a stable sort by a text
module _ {A : Type 0} (key : A → String) where
  unfoldable pub place_by : A → List A → List A
  place_by x [] = x ∷ []
  place_by x (y ∷ ys) = if not_after (key x) (key y) then x ∷ y ∷ ys else y ∷ place_by x ys

  unfoldable pub sorted_by : List A → List A
  unfolding place_by
  sorted_by [] = []
  sorted_by (x ∷ xs) = place_by x (sorted_by xs)

unfoldable pub register_all : List String → Dict (List ToolCapability) → Vms → Vms
unfolding register_vm sorted_by
register_all [] d vms = vms
register_all (name ∷ names) d vms = register_all names d (
    register_vm
      (record {
        name = name;
        tools = sorted_by (λ (t : ToolCapability). t.tool_id) (or_else (lookup name d) []);
      })
      vms)

unfoldable pub register_capabilities : List ToolCapability → Vms
unfolding grouped register_all sorted_by
register_capabilities cs =
    let d = grouped cs [] in register_all (sorted_by (λ name. name) (keys d)) d []

-- `catalog or {}`; a catalog that is no dict is an `AttributeError`, which is `none`
unfoldable pub registry_of : Value → Option Vms
unfolding register_capabilities discover_tool_capabilities
registry_of (dict catalog) = some (register_capabilities (discover_tool_capabilities catalog))
registry_of v =
    if truthy v then none else some (register_capabilities (discover_tool_capabilities end))

-- the catalog is fetched if it is empty and a point is given
unfoldable pub resolve_catalog : Option String → Value → List Value → Value × List Value
unfolding list_point_apps
resolve_catalog none catalog sent = (catalog, sent)
resolve_catalog (some point_id) catalog sent =
    let (apps, sent') = list_point_apps point_id sent in
    if not (truthy catalog) && not (point_id == "") then (dict apps, sent') else (catalog, sent)

-- `bootstrap_default_registry`: the registry, and what the client has sent
unfoldable pub bootstrap_default_registry :
    (String → Option Value)
    → Option String
    → Option String
    → Option Value
    → List Value
    → Option Vms × List Value
unfolding load_catalog resolve_catalog registry_of
bootstrap_default_registry loads env point_id point_catalog sent =
    let catalog : Value = elim point_catalog [ none ↦ load_catalog loads env | some v ↦ v ] in
    let (resolved, sent') = resolve_catalog point_id catalog sent in (registry_of resolved, sent')
