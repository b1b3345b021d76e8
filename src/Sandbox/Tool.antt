-- ===== src/Sandbox/Tool.antt =====
-- The tool sandbox_pc (tools/sandbox_pc/tool.py), on the manager of its bridge.
use davinci_agent.Prelude.{String, ◌||◌, Option, none, some, or_else, ◌==◌, if◌then◌else◌}
use davinci_agent.Prelude.Text.{strip}
use davinci_agent.Prelude.Value.{Value, null, string, Fields, get, put, truthy}
use davinci_agent.Sandbox.Manager.{Manager, Host}
use davinci_agent.Sandbox.Actions.{dispatch}

abbrev explicit_action : Option Value → Option String
explicit_action (some (string s)) = if strip s == "" then none else some (strip s)
explicit_action _ = none

-- `_normalize_action`
unfoldable pub normalize_action : String → Fields → String
normalize_action function_name payload = elim (explicit_action (get "action" payload)) [
  | some action ↦ action
  | none ↦
      if function_name == "" || function_name == "invoke"
      then (if truthy (or_else (get "command" payload) null) then "exec" else "status")
      else function_name
]

-- result.setdefault(k, v)
abbrev set_default : String → Value → Fields → Fields
set_default k v d = elim (get k d) [ none ↦ put k v d | some w ↦ d ]

abbrev labelled : String → String → Option Fields → Option Fields
labelled function_name action none = none
labelled function_name action (some d) =
    some (set_default "action" (string action) (set_default "function" (string function_name) d))

-- `invoke`; an exception of the manager is `none`
unfoldable pub invoke : {W : Type 0} → Manager W → String → Fields → Host W → Option Fields × Host W
unfolding dispatch normalize_action
invoke m function_name payload h =
    let action = normalize_action function_name payload in
    let (result, h') = dispatch m action payload h in (labelled function_name action result, h')
