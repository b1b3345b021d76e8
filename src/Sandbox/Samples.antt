-- ===== src/Sandbox/Samples.antt =====
-- Sessions of davinci/sandbox_core.py, and the theorems at them.
use davinci_agent.Prelude.{◌≡◌, ℕ, suc, refl, true, false, some, none, [], ◌∷◌, all, ◌==◌}
use davinci_agent.Prelude.Text.{codes}
use davinci_agent.Sandbox.Ids.{is_safe, sanitize_id, session_vm_id}
use davinci_agent.Prelude.Value.{string, bool, dict, Fields, fields}
use davinci_agent.Sandbox.Manager.{Manager, Bridge, returned, resolve_session}
use davinci_agent.Sandbox.Actions.{is_one_of, delete_names, dispatch}
use davinci_agent.Sandbox.Confined.{Calls, Ours}
use davinci_agent.Sandbox.Dispatch.{dispatch-Calls}
use davinci_agent.Sandbox.Sharing.{sanitize_id-safe, session_vm_id-sanitize_id}

sanitize_id-safe_example :
    (all is_safe (codes (sanitize_id "../a b")) ≡ true) × ((sanitize_id "../a b" == "") ≡ false)
sanitize_id-safe_example = sanitize_id-safe "../a b"

session_vm_id-sanitize_id_example : session_vm_id "a_b" ≡ session_vm_id "a/b"
unfolding sanitize_id
session_vm_id-sanitize_id_example = session_vm_id-sanitize_id "a/b" refl

-- a bridge whose world counts the calls
abbrev counting_bridge : Bridge ℕ
counting_bridge = record {
  call = λ op inp n. (returned (dict (fields (("ok", bool true) ∷ []))), suc n);
  session_id = string "s1";
}

abbrev counting_manager : Manager ℕ
counting_manager = record {
  bridge = some counting_bridge;
  machine_id = "sandbox";
  default_runtime = "fire";
  docker_image = "alpine:latest";
  loads = λ s. none;
}

abbrev delete_payload : Fields
delete_payload = fields (("session_id", string "a/b") ∷ ("runtime", string "docker") ∷ [])

dispatch-Calls_example :
    Calls
      (Ours counting_manager
        (resolve_session counting_manager delete_payload)
        (is_one_of "destroy" delete_names))
      2
      (record { world = 0; calls = [] })
      (dispatch counting_manager "destroy" delete_payload (record { world = 0; calls = [] })).1
dispatch-Calls_example =
    dispatch-Calls counting_manager "destroy" delete_payload (record { world = 0; calls = [] })
