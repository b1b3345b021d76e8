-- ===== src/Sandbox/Manager.antt =====
-- `SandboxManager` of davinci/sandbox_core.py, over a bridge. `null` is `None`, and an
-- `AttributeError` is `none`.
use davinci_agent.Prelude.{
  String, ◌<>◌, true, false, Option, none, some, List, [], ◌∷◌, ◌++◌, or_else, ◌==◌, if◌then◌else◌,
}
use davinci_agent.Prelude.Int.{pos}
use davinci_agent.Prelude.Text
use davinci_agent.Prelude.Text.{strip}
use davinci_agent.Prelude.Value.{
  Value, null, bool, int, string, dict, Fields, end, field, fields, get, str, truthy,
}
use davinci_agent.Sandbox.Ids.{session_vm_id, runtime_of}

-- what a host call gives: a value, or an exception with its `repr`
pub data HostResult : Type 0 where
  returned : Value → HostResult
  raised : String → HostResult

-- the bridge, and what it makes of the world
pub record Bridge (W : Type 0) : Type 0 where
  pub call : String → Fields → W → HostResult × W
  pub session_id : Value

-- the manager; `loads` is `json.loads` on a text, and `none` there is its exception
pub record Manager (W : Type 0) : Type 0 where
  pub bridge : Option (Bridge W)
  pub machine_id : String
  pub default_runtime : String
  pub docker_image : String
  pub loads : String → Option Value

-- the world, and the host calls so far
pub record Host (W : Type 0) : Type 0 where
  pub world : W
  pub calls : List (String × Fields)

-- inp[k] = v, for a new key
abbrev pub with_field : String → Value → Fields → Fields
with_field k v end = field k v end
with_field k v (field j w fs) = field j w (with_field k v fs)

abbrev pub keepalive_cmd : String
keepalive_cmd = "sh -lc 'mkdir -p /data && tail -f /dev/null'"

abbrev pub keep_alive_seconds : Value
keep_alive_seconds = int (pos 1800)

abbrev failed : String → Fields
failed error = fields (("ok", bool false) ∷ ("error", string error) ∷ [])

-- the first text that is not blank
unfoldable pub first_text : List String → Fields → Option String
first_text [] payload = none
first_text (k ∷ ks) payload =
    let rest = first_text ks payload in
    elim (get k payload) [
      | some (string s) ↦ if strip s == "" then rest else some (strip s)
      | _ ↦ rest
    ]

abbrev session_keys : List String
session_keys = "session_id" ∷ "sessionId" ∷ "session" ∷ "vm_id" ∷ "vmId" ∷ []

abbrev session_of : {W : Type 0} → Option (Bridge W) → Value
session_of none = null
session_of (some b) = b.session_id

module _ {W : Type 0} (m : Manager W) where
  -- `_runtime`: a text, or a value that counts as none
  unfoldable pub runtime_for : Value → Option String
  runtime_for (string s) = some (runtime_of m.default_runtime (some s))
  runtime_for v = if truthy v then none else some (runtime_of m.default_runtime none)

  -- `_base`, for a runtime that is resolved
  unfoldable pub base : String → String → Value → Fields
  base session_id rt keep_alive = fields (
      ("runtime", string rt)
      ∷ ("machineId", string m.machine_id)
      ∷ ("targetCreatureId", string m.machine_id)
      ∷ ("vmId", string (session_vm_id session_id))
      ∷ ("persistent", bool true)
      ∷ ("entityId", string "sandbox")
      ∷ ("containerName", string "session")
      ∷ ("resources", dict (fields (("maxExecTimeSeconds", keep_alive) ∷ [])))
      ∷ [])

  unfoldable pub result_of : String → HostResult → Value
  result_of op (raised error) = dict (failed ("host call " <> Text.repr op <> " failed: " <> error))
  result_of op (returned (dict d)) = dict d
  result_of op (returned (string s)) =
      or_else (m.loads s) (dict (fields (("ok", bool true) ∷ ("raw", string s) ∷ [])))
  result_of op (returned v) = dict (fields (("ok", bool (truthy v)) ∷ ("raw", v) ∷ []))

  -- `_call`
  unfoldable pub call : String → Fields → Host W → Value × Host W
  unfolding result_of
  call op inp h = elim m.bridge [
    | none ↦ (dict (failed "bridge unavailable; cannot reach vmm host"), h)
    | some b ↦
        let (result, world) = b.call op inp h.world in
        (result_of op result, record { world = world; calls = h.calls ++ (op, inp) ∷ [] })
  ]

  unfoldable pub state_key : String → String
  state_key vm_id = "Json::Sandbox::" <> m.machine_id <> "::" <> vm_id

  -- the input of `_record`
  unfoldable pub record_input : String → String → String → Fields
  unfolding state_key
  record_input vm_id runtime last_action = fields (
      ("key", string (state_key vm_id))
      ∷ ("path", string "state")
      ∷ (
        "data",
        dict (
            fields (
              ("vmId", string vm_id)
              ∷ ("machineId", string m.machine_id)
              ∷ ("runtime", string runtime)
              ∷ ("lastAction", string last_action)
              ∷ [])),
      )
      ∷ ("merge", bool true)
      ∷ [])

  -- `_record`
  unfoldable pub record_state : String → String → String → Host W → Host W
  unfolding call record_input
  record_state vm_id runtime last_action h =
      (call "putJson" (record_input vm_id runtime last_action) h).1

  -- `resolve_session`
  unfoldable pub resolve_session : Fields → String
  unfolding first_text
  resolve_session payload =
      let sid = session_of m.bridge in
      or_else (first_text session_keys payload)
        (if truthy sid then "davinci-" <> str sid else "davinci-default")

-- the error of a host's answer that is not ok
abbrev error_of : Fields → Fields
error_of host =
    if truthy (or_else (get "error" host) null)
    then field "error" (or_else (get "error" host) null) end
    else end

-- `_wrap`, on the VM's id, its runtime and the host's answer
unfoldable pub wrap : String → String → String → Fields → Option Value → Fields
wrap action vm_id rt host status =
    let ok = truthy (or_else (get "ok" host) (bool false)) in
    field "ok" (bool ok) (
      field "action" (string action) (
        field "vmId" (string vm_id) (
          field "runtime" (string rt) (
            field "host" (dict host) (
              if ok
              then (elim status [
                | none ↦ end
                | some s ↦ field "status" (or_else (get "status" host) s) end
              ])
              else error_of host)))))

-- the answer, where the host's is a dict
unfoldable pub wrapped : String → String → String → Value → (Fields → Option Value) → Option Fields
unfolding wrap
wrapped action vm_id rt (dict host) status = some (wrap action vm_id rt host (status host))
wrapped action vm_id rt v status = none
