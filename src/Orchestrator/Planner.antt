-- ===== src/Orchestrator/Planner.antt =====
-- `DavinciToolRegistry` and `DavinciPlanner` of caspar_orchestrator.py, and
-- `summarize_tool_coverage`.
use Prim.Native.Nat.{Ordering}
use Prim.Native.String.{compare}
use davinci_agent.Prelude.{
  ℕ, String, ◌<>◌, Bool, true, false, ◌&&◌, ◌||◌, Option, none, some, List, [], ◌∷◌, ◌++◌, ltb, eqb,
  or_else, ◌==◌, if◌then◌else◌,
}
use davinci_agent.Prelude.Text.{join}
use davinci_agent.Prelude.Dict.{Dict, insert, values}
use davinci_agent.Prelude.Json.{dumps}
use davinci_agent.Prelude.Value.{Value, null, string, get, str}
use davinci_agent.Orchestrator.Defs.{
  ToolCapability, VmDescriptor, ActionRequest, ExecutionAction, ExecutionPlan, fields, object,
  signal_fn,
}
use davinci_agent.Orchestrator.Groups.{Groups, members, group, group_all}

-- `_vms`
abbrev pub Vms : Type 0
Vms = Dict VmDescriptor

-- `register_vm`
unfoldable pub register_vm : VmDescriptor → Vms → Vms
register_vm vm vms = insert vm.name vm vms

-- `list_vms`
abbrev pub list_vms : Vms → List VmDescriptor
list_vms vms = values vms

abbrev pub all_tools : List VmDescriptor → List ToolCapability
all_tools [] = []
all_tools (vm ∷ vms) = vm.tools ++ all_tools vms

-- `list_tools`
abbrev pub list_tools : Vms → List ToolCapability
list_tools vms = all_tools (list_vms vms)

-- `_risk_rank`
unfoldable pub risk_rank : String → ℕ
risk_rank level =
    if level == "low" then 0 else if level == "medium" then 1 else if level == "high" then 2 else 99

-- (risk rank, tool_id), in the order of Python's tuples
unfoldable pub comes_first : ToolCapability → ToolCapability → Bool
unfolding risk_rank
comes_first t u =
    let m = risk_rank t.risk_level in
    let n = risk_rank u.risk_level in
    ltb m n || (eqb m n && (elim (compare t.tool_id u.tool_id) [ Ordering.gt ↦ false | _ ↦ true ]))

-- a stable sort
unfoldable pub place : ToolCapability → List ToolCapability → List ToolCapability
place t [] = t ∷ []
place t (u ∷ us) = if comes_first t u then t ∷ u ∷ us else u ∷ place t us

unfoldable pub by_risk : List ToolCapability → List ToolCapability
unfolding place
by_risk [] = []
by_risk (t ∷ ts) = place t (by_risk ts)

-- the tools of each category; `none` is the `TypeError` of a category that is no key
unfoldable pub index_tools :
    List ToolCapability → Groups ToolCapability → Option (Groups ToolCapability)
unfolding group_all
index_tools [] g = some g
index_tools (t ∷ ts) g = elim (group_all t.categories t g) [
  | none ↦ none
  | some h ↦ index_tools ts h
]

-- the key of a category
abbrev pub category_key : String → String
category_key category = "text " <> category

abbrev pub function_of : ToolCapability → String → Value
function_of tool category = or_else (get category tool.functions) (string "invoke")

unfoldable pub signal_action : String → ToolCapability → String → ExecutionAction
signal_action task tool category = record {
  phase = "signal_request";
  tool_id = tool.tool_id;
  vm_name = tool.vm_name;
  category = category;
  host_function = signal_fn;
  input_payload = fields (
      ("type", string "machine")
      ∷ ("machineId", string tool.container.machine_id)
      ∷ ("userId", string "davinci-agent")
      ∷ (
        "data",
        string (
            dumps (
              object (
                ("task", string task)
                ∷ ("toolId", string tool.tool_id)
                ∷ ("category", string category)
                ∷ ("function", function_of tool category)
                ∷ ("containerName", string tool.container.container_name)
                ∷ ("expectedResponsePoint", string tool.response_point)
                ∷ []))),
      )
      ∷ []);
  reason =
      "Signal pre-running tool "
      <> tool.tool_id
      <> " ("
      <> str (function_of tool category)
      <> ") and wait for response on "
      <> tool.response_point
      <> ".";
}

-- what the loop over the categories collects
pub record Chosen : Type 0 where
  pub actions : List ExecutionAction
  pub missing : List String
  pub high_risk : Bool

unfoldable pub choose : String → String → List ToolCapability → Chosen → Chosen
unfolding signal_action
choose task category [] rest = record rest { missing = category ∷ rest.missing }
choose task category (tool ∷ _) rest = record {
  actions = signal_action task tool category ∷ rest.actions;
  missing = rest.missing;
  high_risk = tool.risk_level == "high" || rest.high_risk;
}

unfoldable pub choose_all : String → Groups ToolCapability → List String → Chosen
unfolding choose by_risk members
choose_all task index [] = record { actions = []; missing = []; high_risk = false }
choose_all task index (category ∷ categories) =
    choose task category (by_risk (members (category_key category) index))
      (choose_all task index categories)

-- bool(xs)
abbrev pub is_filled : List String → Bool
is_filled [] = false
is_filled (x ∷ xs) = true

unfoldable pub plan_of : ActionRequest → Chosen → ExecutionPlan
plan_of req chosen = record {
  task = req.task;
  actions = chosen.actions;
  human_review_required =
      chosen.high_risk || is_filled chosen.missing || req.risk_tolerance == "low";
  rationale =
      if is_filled chosen.missing
      then "Missing capabilities: " <> join ", " chosen.missing
      else "All required categories mapped to pre-running tools via machine signaling.";
}

-- `plan`
unfoldable pub plan : ActionRequest → Vms → Option ExecutionPlan
unfolding index_tools choose_all plan_of
plan req vms = elim (index_tools (list_tools vms) []) [
  | none ↦ none
  | some index ↦ some (plan_of req (choose_all req.task index req.required_categories))
]

abbrev pub none_text : Option Value → String
none_text o = str (or_else o null)

-- the line of a tool for one of its categories
abbrev pub coverage_line : ToolCapability → Option Value → String
coverage_line t function =
    t.vm_name
    <> ":"
    <> t.tool_id
    <> ":"
    <> none_text function
    <> ":"
    <> t.request_point
    <> "->"
    <> t.response_point

-- t.functions.get(category): only a string can be among the keys
abbrev pub function_at : Value → ToolCapability → Option Value
function_at (string category) t = get category t.functions
function_at v t = none

unfoldable pub cover : List Value → ToolCapability → Groups String → Option (Groups String)
unfolding group
cover [] t g = some g
cover (v ∷ vs) t g = elim (group v (coverage_line t (function_at v t)) g) [
  | none ↦ none
  | some h ↦ cover vs t h
]

unfoldable pub cover_all : List ToolCapability → Groups String → Option (Groups String)
unfolding cover
cover_all [] g = some g
cover_all (t ∷ ts) g = elim (cover t.categories t g) [ none ↦ none | some h ↦ cover_all ts h ]

-- `summarize_tool_coverage`
unfoldable pub summarize_tool_coverage : Vms → Option (Groups String)
unfolding cover_all
summarize_tool_coverage vms = cover_all (list_tools vms) []
