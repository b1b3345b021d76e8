-- ===== src/Sandbox/Actions.antt =====
-- The actions of `SandboxManager` (davinci/sandbox_core.py), and their dispatch. An
-- `AttributeError` is `none`.
use davinci_agent.Prelude.{
  String, ◌<>◌, Bool, true, false, Option, none, some, List, [], ◌∷◌, any, or_else, ◌==◌,
  if◌then◌else◌,
}
use davinci_agent.Prelude.Value.{
  Value, null, bool, string, dict, Fields, fields, get, truthy, or_value,
}
use davinci_agent.Sandbox.Ids.{session_vm_id}
use davinci_agent.Sandbox.Manager.{
  Manager, Host, with_field, keepalive_cmd, keep_alive_seconds, runtime_for, base, call, state_key,
  record_state, resolve_session, wrapped,
}

abbrev refused : String → String → Fields
refused action error =
    fields (("ok", bool false) ∷ ("error", string error) ∷ ("action", string action) ∷ [])

-- the answer with one field more
abbrev adding : String → Value → Option Fields → Option Fields
adding k v none = none
adding k v (some out) = some (with_field k v out)

-- host.get("output", "")
abbrev output_of : Value → Value
output_of (dict host) = or_else (get "output" host) (string "")
output_of v = string ""

abbrev pub is_one_of : String → List String → Bool
is_one_of action names = any (λ n. n == action) names

abbrev pub exec_names : List String
exec_names = "exec" ∷ "execCommand" ∷ "run" ∷ []

abbrev pub start_names : List String
start_names = "start" ∷ "resume" ∷ "wake" ∷ "runPc" ∷ []

abbrev pub write_names : List String
write_names = "write" ∷ "copyTo" ∷ []

abbrev pub suspend_names : List String
suspend_names = "suspend" ∷ "stop" ∷ "sleep" ∷ []

abbrev pub delete_names : List String
delete_names = "delete" ∷ "destroy" ∷ "terminate" ∷ "stopPc" ∷ []

module _ {W : Type 0} (m : Manager W) where
  -- the input of `runVm`
  abbrev pub run_input : String → String → Value → Value → Fields
  run_input session_id rt image keep_alive =
      let inp = base m session_id rt keep_alive in
      if rt == "docker"
      then with_field "command" (string keepalive_cmd)
          (with_field "imageRef" (or_value (some image) (string m.docker_image)) inp)
      else if truthy image
      then with_field "image" image inp
      else inp

  abbrev pub with_image : String → Fields → Fields
  with_image rt inp =
      if rt == "docker" then with_field "imageRef" (string m.docker_image) inp else inp

  unfoldable pub start_on : String → String → Value → Host W → Option Fields × Host W
  unfolding base call record_state wrapped
  start_on session_id rt image h =
      let vm_id = session_vm_id session_id in
      let (host, h1) = call m "runVm" (run_input session_id rt image keep_alive_seconds) h in
      (
        wrapped "start" vm_id rt host (λ d. some (or_else (get "status" d) (string "running"))),
        record_state m vm_id rt "start" h1,
      )

  unfoldable pub exec_on : String → String → Value → Host W → Option Fields × Host W
  unfolding base call record_state wrapped
  exec_on session_id rt command h =
      let vm_id = session_vm_id session_id in
      let inp =
        with_image rt (with_field "command" command (base m session_id rt keep_alive_seconds)) in
      let (host, h1) = call m "execVm" inp h in
      (
        adding "output" (output_of host)
            (wrapped "exec" vm_id rt host (λ d. some (string "running"))),
        record_state m vm_id rt "exec" h1,
      )

  unfoldable pub write_on :
      String → String → Value → Value → Value → Host W → Option Fields × Host W
  unfolding base call wrapped
  write_on session_id rt file_name content target_path h =
      let inp = with_image rt (
        with_field "content" (or_value (some content) (string "")) (
          with_field "targetPath" target_path
            (with_field "fileName" file_name (base m session_id rt keep_alive_seconds)))) in
      let (host, h1) = call m "copyToVm" inp h in
      (wrapped "write" (session_vm_id session_id) rt host (λ d. none), h1)

  -- what `suspend` and `delete` share
  unfoldable pub terminate_on :
      String → String → Bool → String → String → Host W → Option Fields × Host W
  unfolding base call record_state wrapped
  terminate_on action status purge session_id rt h =
      let vm_id = session_vm_id session_id in
      let inp = with_field "purge" (bool purge) (base m session_id rt keep_alive_seconds) in
      let (host, h1) = call m "terminateVm" inp h in
      (wrapped action vm_id rt host (λ d. some (string status)), record_state m vm_id rt action h1)

  unfoldable pub status_on : String → String → Host W → Option Fields × Host W
  unfolding call state_key
  status_on session_id rt h =
      let vm_id = session_vm_id session_id in
      let inp = fields (("key", string (state_key m vm_id)) ∷ ("path", string "state") ∷ []) in
      let (rec, h1) = call m "getJson" inp h in
      (
        some (
            fields (
              ("ok", bool true)
              ∷ ("action", string "status")
              ∷ ("vmId", string vm_id)
              ∷ ("runtime", string rt)
              ∷ ("state", rec)
              ∷ [])),
        h1,
      )

  -- an action on the runtime that the payload asks for
  unfoldable pub on_runtime :
      Value → (String → Host W → Option Fields × Host W) → Host W → Option Fields × Host W
  unfolding runtime_for
  on_runtime runtime action h = elim (runtime_for m runtime) [
    | none ↦ (none, h)
    | some rt ↦ action rt h
  ]

  -- `start`
  unfoldable pub start : String → Value → Value → Host W → Option Fields × Host W
  unfolding on_runtime start_on
  start session_id runtime image h = on_runtime runtime (λ rt. start_on session_id rt image) h

  -- `exec`
  unfoldable pub exec : String → Value → Value → Host W → Option Fields × Host W
  unfolding on_runtime exec_on
  exec session_id command runtime h =
      if truthy command
      then on_runtime runtime (λ rt. exec_on session_id rt command) h
      else (some (refused "exec" "command is required"), h)

  -- `write`
  unfoldable pub write : String → Value → Value → Value → Value → Host W → Option Fields × Host W
  unfolding on_runtime write_on
  write session_id file_name content target_path runtime h =
      if truthy file_name
      then on_runtime runtime (λ rt. write_on session_id rt file_name content target_path) h
      else (some (refused "write" "file_name is required"), h)

  -- `suspend`
  unfoldable pub suspend : String → Value → Host W → Option Fields × Host W
  unfolding on_runtime terminate_on
  suspend session_id runtime h =
      on_runtime runtime (terminate_on "suspend" "suspended" false session_id) h

  -- `delete`
  unfoldable pub delete : String → Value → Host W → Option Fields × Host W
  unfolding on_runtime terminate_on
  delete session_id runtime h =
      on_runtime runtime (terminate_on "delete" "deleted" true session_id) h

  -- `status`: the host is asked first
  unfoldable pub status : String → Value → Host W → Option Fields × Host W
  unfolding runtime_for status_on
  status session_id runtime h = elim (runtime_for m runtime) [
    | none ↦ (none, (status_on session_id "" h).1)
    | some rt ↦ status_on session_id rt h
  ]

  -- payload.get(k)
  abbrev at_key : String → Fields → Value
  at_key k payload = or_else (get k payload) null

  -- `dispatch`
  unfoldable pub dispatch : String → Fields → Host W → Option Fields × Host W
  unfolding resolve_session start exec write suspend delete status
  dispatch action payload h =
      let session_id = resolve_session m payload in
      let runtime = at_key "runtime" payload in
      if is_one_of action exec_names
      then exec session_id (or_else (get "command" payload) (string "")) runtime h
      else if is_one_of action start_names
      then start session_id runtime (at_key "image" payload) h
      else if is_one_of action write_names
      then write session_id
          (or_value (get "file_name" payload) (or_value (get "fileName" payload) (string "")))
          (or_value (get "content" payload) (string ""))
          (or_value (get "target_path" payload)
            (or_value (get "targetPath" payload) (string "/data")))
          runtime h
      else if is_one_of action suspend_names
      then suspend session_id runtime h
      else if is_one_of action delete_names
      then delete session_id runtime h
      else if action == "status"
      then status session_id runtime h
      else (some (refused action ("unknown sandbox action: " <> action)), h)
