-- ===== src/Orchestrator/Client.antt =====
-- `CasparVmmTransport` and `CasparVmmClient` of caspar_orchestrator.py. What a client has sent is
-- the list of the payloads that it gave to its transport. The operations are those of a transport
-- that does not raise; `try_signal_tool` is `signal_tool` on one that can.
use davinci_agent.Prelude.{
  ℕ, String, true, ◌&&◌, Option, none, some, List, [], ◌∷◌, ◌++◌, length, ltb, if◌then◌else◌,
}
use davinci_agent.Prelude.Text.{codes}
use davinci_agent.Prelude.Json.{dumps}
use davinci_agent.Prelude.Value.{Value, bool, string, dict, Fields, end, get}
use davinci_agent.Bridge.Bytes.{Bytes, little_endian, room}
use davinci_agent.Engine.Defs.{Result}
use davinci_agent.Orchestrator.Defs.{
  ToolCapability, ExecutionAction, ExecutionPlan, fields, object, signal_fn, protocol_api_fn,
}

-- the frame of a body; `none` is the `OverflowError` of a number without room
unfoldable pub packet : Bytes → ℕ → Option Bytes
packet body callback_id =
    if ltb (length body) (room 4) && ltb callback_id (room 8)
    then some (little_endian 4 (length body) ++ little_endian 8 callback_id ++ body)
    else none

-- `CasparVmmTransport.send`: the bytes for the socket
unfoldable pub transport_send : Value → ℕ → Option Bytes
unfolding packet
transport_send payload callback_id = packet (codes (dumps payload)) callback_id

-- what `host_call` gives to the transport
abbrev pub host_payload : String → Fields → Value
host_payload key input_data =
    object (("op", string key) ∷ ("key", string key) ∷ ("input", dict input_data) ∷ [])

-- `host_call`: the result, and what has been sent
unfoldable pub host_call : String → Fields → List Value → Fields × List Value
host_call key input_data sent = (
  fields (("ok", bool true) ∷ ("key", string key) ∷ ("input", dict input_data) ∷ []),
  sent ++ host_payload key input_data ∷ [],
)

-- the `data` of a signal
abbrev pub signal_data : ToolCapability → Value → Value → String → Value
signal_data tool category function_name task = object (
    ("toolId", string tool.tool_id)
    ∷ ("machineId", string tool.container.machine_id)
    ∷ ("containerName", string tool.container.container_name)
    ∷ ("category", category)
    ∷ ("function", function_name)
    ∷ ("task", string task)
    ∷ ("expectedResponsePoint", string tool.response_point)
    ∷ [])

abbrev pub signal_input : ToolCapability → Value → Value → String → String → Fields
signal_input tool category function_name task user_id = fields (
    ("type", string "machine")
    ∷ ("machineId", string tool.container.machine_id)
    ∷ ("userId", string user_id)
    ∷ ("data", string (dumps (signal_data tool category function_name task)))
    ∷ [])

-- `signal_tool`
unfoldable pub signal_tool :
    ToolCapability → Value → Value → String → String → List Value → Fields × List Value
unfolding host_call
signal_tool tool category function_name task user_id sent =
    host_call signal_fn (signal_input tool category function_name task user_id) sent

-- what the transport raises for a payload, after those given to it before
abbrev pub Failure : Type 0
Failure = List Value → Value → Option String

-- the result of a call whose payload the transport has been given
abbrev pub answer : Fields → Option String → Result Fields
answer result none = Result.ok result
answer result (some error) = Result.raised error

-- `signal_tool` on a transport that can fail; what it raises is raised
unfoldable pub try_signal_tool :
    Failure
    → ToolCapability
    → Value
    → Value
    → String
    → String
    → List Value
    → Result Fields × List Value
unfolding signal_tool
try_signal_tool fails tool category function_name task user_id sent =
    let (result, sent') = signal_tool tool category function_name task user_id sent in
    let payload = host_payload signal_fn (signal_input tool category function_name task user_id) in
    (answer result (fails sent payload), sent')

unfoldable pub execute_actions : List ExecutionAction → List Value → List Fields × List Value
unfolding host_call
execute_actions [] sent = ([], sent)
execute_actions (action ∷ actions) sent =
    let (result, sent') = host_call action.host_function action.input_payload sent in
    let (results, sent'') = execute_actions actions sent' in (result ∷ results, sent'')

-- `execute_plan`
unfoldable pub execute_plan : ExecutionPlan → List Value → List Fields × List Value
unfolding execute_actions
execute_plan plan sent = execute_actions plan.actions sent

-- the `response` of a result, where it is a dict
unfoldable pub response_of : Option Value → Fields
response_of (some (dict m)) = m
response_of _ = end

-- `list_point_apps`
unfoldable pub list_point_apps : String → List Value → Fields × List Value
unfolding host_call response_of
list_point_apps point_id sent =
    let (result, sent') =
      host_call protocol_api_fn
        (fields (("apiKey", string "/points/listApps") ∷ ("pointId", string point_id) ∷ [])) sent in
    (response_of (get "response" result), sent')
