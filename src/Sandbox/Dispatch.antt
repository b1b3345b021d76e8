-- ===== src/Sandbox/Dispatch.antt =====
-- The host calls that `SandboxManager.dispatch` (davinci/sandbox_core.py) makes.
use davinci_agent.Prelude.{
  ℕ, ◌≤◌, String, ◌≡◌, refl, sym, ◌∙◌, Bool, true, false, Option, ◌==◌, arith, Bool-cases,
  Option-cases, inl, inr, or_else,
}
use davinci_agent.Prelude.Value.{Value, null, Fields, get, truthy}
use davinci_agent.Sandbox.Manager.{Manager, Host, runtime_for, resolve_session}
use davinci_agent.Sandbox.Actions.{
  start_on, exec_on, write_on, terminate_on, on_runtime, start, exec, write, suspend, delete,
  status, is_one_of, exec_names, start_names, write_names, suspend_names, delete_names, dispatch,
}
use davinci_agent.Sandbox.Confined.{
  Calls, Ours, Calls-none, start_on-Calls, exec_on-Calls, write_on-Calls, terminate_on-Calls,
  status_on-Calls,
}

more_room :
    {W : Type 0} {P : String × Fields → Type 0} {j k : ℕ} {a b : Host W}
    → j ≤ k
    → Calls P j a b
    → Calls P k a b
more_room le x =
    let few = x.few in record { made = x.made; after = x.after; few = omega arith; each = x.each }

module _ {W : Type 0} (m : Manager W) where
  on_runtime-Calls :
      (P : String × Fields → Type 0) (n : ℕ) (runtime : Value)
      (action : String → Host W → Option Fields × Host W) (h : Host W)
      → ((rt : String) → Calls P n h (action rt h).1)
      → Calls P n h (on_runtime m runtime action h).1
  unfolding on_runtime
  on_runtime-Calls P n runtime action h each = elim (Option-cases (runtime_for m runtime)) [
    | inl no_ ↦ rw (on_runtime, no_) (Calls-none P n h)
    | inr (rt, is_rt) ↦ rw (on_runtime, is_rt) (each rt)
  ]

  module _ (session_id : String) (purging : Bool) (h : Host W) where
    abbrev Fine : Host W → Type 0
    Fine = Calls (Ours m session_id purging) 2 h

    exec-Calls : (command runtime : Value) → Fine (exec m session_id command runtime h).1
    unfolding exec
    exec-Calls command runtime = elim (Bool-cases (truthy command)) [
      | inl yes_ ↦
          rw (exec, yes_)
            (on_runtime-Calls (Ours m session_id purging) 2 runtime
              (λ rt. exec_on m session_id rt command) h
              (λ rt. exec_on-Calls m session_id purging rt command h))
      | inr no_ ↦ rw (exec, no_) (Calls-none (Ours m session_id purging) 2 h)
    ]

    write-Calls :
        (file_name content target_path runtime : Value)
        → Fine (write m session_id file_name content target_path runtime h).1
    unfolding write
    write-Calls file_name content target_path runtime = elim (Bool-cases (truthy file_name)) [
      | inl yes_ ↦
          rw (write, yes_)
            (on_runtime-Calls (Ours m session_id purging) 2 runtime
              (λ rt. write_on m session_id rt file_name content target_path) h
              (λ rt.
                more_room (omega arith)
                  (write_on-Calls m session_id purging rt file_name content target_path h)))
      | inr no_ ↦ rw (write, no_) (Calls-none (Ours m session_id purging) 2 h)
    ]

    start-Calls : (runtime image : Value) → Fine (start m session_id runtime image h).1
    unfolding start
    start-Calls runtime image =
        on_runtime-Calls (Ours m session_id purging) 2 runtime
          (λ rt. start_on m session_id rt image) h
          (λ rt. start_on-Calls m session_id purging rt image h)

    suspend-Calls : (runtime : Value) → Fine (suspend m session_id runtime h).1
    unfolding suspend
    suspend-Calls runtime =
        on_runtime-Calls (Ours m session_id purging) 2 runtime
          (terminate_on m "suspend" "suspended" false session_id) h
          (λ rt.
            terminate_on-Calls m session_id purging "suspend" "suspended" rt false h
              (λ e. ground arith))

    delete-Calls : (runtime : Value) → purging ≡ true → Fine (delete m session_id runtime h).1
    unfolding delete
    delete-Calls runtime may =
        on_runtime-Calls (Ours m session_id purging) 2 runtime
          (terminate_on m "delete" "deleted" true session_id) h
          (λ rt. terminate_on-Calls m session_id purging "delete" "deleted" rt true h (λ e. may))

    status-Calls : (runtime : Value) → Fine (status m session_id runtime h).1
    unfolding status
    status-Calls runtime = elim (Option-cases (runtime_for m runtime)) [
      | inl no_ ↦
          rw (status, no_) (more_room (omega arith) (status_on-Calls m session_id purging "" h))
      | inr (rt, is_rt) ↦
          rw (status, is_rt) (more_room (omega arith) (status_on-Calls m session_id purging rt h))
    ]

dispatched-Calls :
    {W : Type 0} (m : Manager W) (action : String) (payload : Fields) (h : Host W) (purging : Bool)
    → is_one_of action delete_names ≡ purging
    → Calls (Ours m (resolve_session m payload) purging) 2 h (dispatch m action payload h).1
unfolding dispatch
dispatched-Calls m action payload h purging is_purging =
    let s = resolve_session m payload in
    let runtime = or_else (get "runtime" payload) null in
    elim (Bool-cases (is_one_of action exec_names)) [
      | inl e ↦ rw (dispatch, e) (exec-Calls m s purging h _ runtime)
      | inr a ↦ elim (Bool-cases (is_one_of action start_names)) [
        | inl e ↦ rw (dispatch, a, e) (start-Calls m s purging h runtime _)
        | inr b ↦ elim (Bool-cases (is_one_of action write_names)) [
          | inl e ↦ rw (dispatch, a, b, e) (write-Calls m s purging h _ _ _ runtime)
          | inr c ↦ elim (Bool-cases (is_one_of action suspend_names)) [
            | inl e ↦ rw (dispatch, a, b, c, e) (suspend-Calls m s purging h runtime)
            | inr d ↦ elim (Bool-cases (is_one_of action delete_names)) [
              | inl e ↦
                  rw (dispatch, a, b, c, d, e)
                    (delete-Calls m s purging h runtime (sym is_purging ∙ e))
              | inr f ↦ elim (Bool-cases (action == "status")) [
                | inl e ↦ rw (dispatch, a, b, c, d, f, e) (status-Calls m s purging h runtime)
                | inr e ↦ rw (dispatch, a, b, c, d, f, e) (Calls-none (Ours m s purging) 2 h)
              ]
            ]
          ]
        ]
      ]
    ]

-- Whatever the action, the payload, the bridge and its answers: an action makes at most two host
-- calls, each about the one VM of the session that the payload resolves to, in the manager's
-- namespace, or about that VM's state record; and only the action that deletes asks for a purge.
pub dispatch-Calls :
    {W : Type 0} (m : Manager W) (action : String) (payload : Fields) (h : Host W)
    → Calls
        (Ours m (resolve_session m payload) (is_one_of action delete_names))
        2
        h
        (dispatch m action payload h).1
dispatch-Calls m action payload h =
    dispatched-Calls m action payload h (is_one_of action delete_names) refl
