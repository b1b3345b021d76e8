-- ===== src/Orchestrator/Executor.antt =====
-- `CasparSignalExecutor` of davinci/caspar_executor.py, over the client of
-- caspar_orchestrator.py, whose transport can fail.
use davinci_agent.Prelude.{String, ◌<>◌, true, false, Option, none, some, or_else, List, [], ◌∷◌}
use davinci_agent.Prelude.Dict.{Dict, lookup, insert}
use davinci_agent.Prelude.Value.{Fields, Value, null, bool, string, dict, get, str}
use davinci_agent.Permissions.Defs.{ToolAction}
use davinci_agent.Registry.Defs.{ToolDescriptor}
use davinci_agent.Engine.Defs.{Result, ToolResult}
use davinci_agent.Orchestrator.Defs.{ToolCapability, fields}
use davinci_agent.Orchestrator.Groups.{key_of}
use davinci_agent.Orchestrator.Client.{Failure, try_signal_tool}

-- `_by_name`, as `__init__` fills it: each capability under its name in the registry of tools and
-- under its id
unfoldable pub index_names : List ToolCapability → Dict ToolCapability → Dict ToolCapability
index_names [] d = d
index_names (capability ∷ caps) d =
    index_names caps (
      insert capability.tool_id capability (insert ("caspar__" <> capability.tool_id) capability d))

-- cap.categories[0] if cap.categories else action.category
abbrev pub category_for : ToolCapability → ToolAction → Value
category_for capability action = elim capability.categories [
  | [] ↦ string action.category
  | c ∷ cs ↦ c
]

-- cap.functions.get(category, "invoke"), whose keys are texts; `none` is the `TypeError` of a value
-- that is no key
abbrev pub function_for : Value → ToolCapability → Option Value
function_for (string s) capability = some (or_else (get s capability.functions) (string "invoke"))
function_for v capability = elim (key_of v) [ none ↦ none | some k ↦ some (string "invoke") ]

-- str(action.args.get("task", ""))
abbrev pub task_of : ToolAction → String
task_of action = elim (lookup "task" action.args) [ none ↦ "" | some v ↦ str v ]

-- the text of that `TypeError`
abbrev unhashable : Value → String
unhashable (dict fs) = "unhashable type: 'dict'"
unhashable v = "unhashable type: 'list'"

-- the result of a call of the client
unfoldable pub result_of :
    ToolDescriptor → ToolCapability → Value → Value → Result Fields → ToolResult
result_of tool capability category function_name (Result.raised error) = record {
  succeeded = false;
  output = null;
  error = error;
}
result_of tool capability category function_name (Result.ok dispatch) = record {
  succeeded = true;
  output = dict (
      fields (
        ("dispatched", bool true)
        ∷ ("tool", string tool.name)
        ∷ ("category", category)
        ∷ ("function", function_name)
        ∷ ("response_point", string capability.response_point)
        ∷ ("signal", dict dispatch)
        ∷ []));
  error = "";
}

module _ (fails : Failure) (user_id : String) (tool : ToolDescriptor) where
  -- the signal of a function that was found
  unfoldable pub signalled :
      ToolCapability → Value → String → Option Value → List Value → Result ToolResult × List Value
  unfolding try_signal_tool result_of
  signalled capability category task none sent = (Result.raised (unhashable category), sent)
  signalled capability category task (some function_name) sent =
      let (dispatch, sent') =
        try_signal_tool fails capability category function_name task user_id sent in
      (Result.ok (result_of tool capability category function_name dispatch), sent')

  -- what is done with what `_by_name` has
  unfoldable pub executed :
      ToolAction → Option ToolCapability → List Value → Result ToolResult × List Value
  unfolding signalled
  executed action none sent = (
    Result.ok
        (record { succeeded = false; output = null; error = "unknown Caspar tool " <> tool.name }),
    sent,
  )
  executed action (some capability) sent =
      let category = category_for capability action in
      signalled capability category (task_of action) (function_for category capability) sent

  -- `execute`
  unfoldable pub execute :
      Dict ToolCapability → ToolAction → List Value → Result ToolResult × List Value
  unfolding executed
  execute by_name action sent = executed action (lookup tool.name by_name) sent
