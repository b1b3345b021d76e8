-- ===== src/Sandbox/Confined.antt =====
-- Which VM the host calls of an action (davinci/sandbox_core.py) are about.
use davinci_agent.Prelude.{
  ℕ, ◌+◌, ◌≤◌, String, ◌≡◌, refl, sym, ap, ◌∙◌, Bool, true, false, some, List, [], ◌∷◌, ◌++◌,
  append-nil, append_assoc, All, All-append, length, length-append, ◌⊎◌, inl, inr, ◌==◌, arith,
  Option-cases, if◌then◌else◌,
}
use davinci_agent.Prelude.Value.{Value, bool, string, Fields, get, truthy}
use davinci_agent.Sandbox.Ids.{session_vm_id}
use davinci_agent.Sandbox.Manager.{
  Manager, Host, keep_alive_seconds, base, call, state_key, record_state, record_input,
}
use davinci_agent.Sandbox.Actions.{
  run_input, start_on, exec_on, write_on, terminate_on, status_on, status,
}

pub either : {A : Type 0} (P : A → Type 0) (b : Bool) {x y : A} → P x → P y → P (if b then x else y)
either P true p q = p
either P false p q = q

-- A call that is about this VM, or about its state record, and that purges a disk only where that
-- is allowed.
pub record IsConfined {W : Type 0} (m : Manager W) (vm_id : String) (purging : Bool)
    (c : String × Fields) : Type 0 where
  pub about :
      (get "key" c.1 ≡ some (string (state_key m vm_id)))
      ⊎ ((get "vmId" c.1 ≡ some (string vm_id))
          × (get "machineId" c.1 ≡ some (string m.machine_id)))
  pub purges : get "purge" c.1 ≡ some (bool true) → purging ≡ true

-- the calls that are made: at most so many, each with the property
pub record Calls {W : Type 0} (P : String × Fields → Type 0) (n : ℕ) (old new : Host W)
    : Type 0 where
  pub made : List (String × Fields)
  pub after : new.calls ≡ old.calls ++ made
  pub few : length made ≤ n
  pub each : All P made

call_calls :
    {W : Type 0} (m : Manager W) (op : String) (inp : Fields) (h : Host W)
    → ((call m op inp h).1.calls ≡ h.calls)
      ⊎ ((call m op inp h).1.calls ≡ h.calls ++ (op, inp) ∷ [])
call_calls m op inp h = elim (Option-cases m.bridge) [
  | inl unavailable ↦ inl (
      ap (λ b. (call (record m { bridge = b }) op inp h).1.calls) unavailable ∙ unfold call in refl)
  | inr (b, there) ↦
      inr (ap (λ b. (call (record m { bridge = b }) op inp h).1.calls) there ∙ unfold call in refl)
]

module _ {W : Type 0} (P : String × Fields → Type 0) where
  pub Calls-none : (n : ℕ) (h : Host W) → Calls P n h h
  Calls-none n h = record {
    made = [];
    after = sym (append-nil h.calls);
    few = omega arith;
    each = tt;
  }

  Calls-then : (j k : ℕ) (a b c : Host W) → Calls P j a b → Calls P k b c → Calls P (j + k) a c
  Calls-then j k a b c x y = record {
    made = x.made ++ y.made;
    after = y.after ∙ ap (λ l. l ++ y.made) x.after ∙ append_assoc a.calls x.made y.made;
    few = omega (arith, length-append x.made y.made, x.few, y.few);
    each = All-append P x.made y.made x.each y.each;
  }

  one_call :
      (m : Manager W) (op : String) (inp : Fields) (h : Host W)
      → P (op, inp)
      → Calls P 1 h (call m op inp h).1
  one_call m op inp h p = elim (call_calls m op inp h) [
    | inl none_ ↦ record {
      made = [];
      after = none_ ∙ sym (append-nil h.calls);
      few = omega arith;
      each = tt;
    }
    | inr one ↦ record { made = (op, inp) ∷ []; after = one; few = omega arith; each = (p, tt) }
  ]

module _ {W : Type 0} (m : Manager W) (vm_id : String) (purging : Bool) where
  abbrev Good : String × Fields → Type 0
  Good = IsConfined m vm_id purging

  record_state-Calls :
      (runtime last_action : String) (h : Host W)
      → Calls Good 1 h (record_state m vm_id runtime last_action h)
  unfolding record_state record_input get
  record_state-Calls runtime last_action h =
      one_call Good m "putJson" _ h (record { about = inl refl; purges = λ e. ground arith })

module _ {W : Type 0} (m : Manager W) (session_id : String) (purging : Bool) where
  abbrev pub Ours : String × Fields → Type 0
  Ours = IsConfined m (session_vm_id session_id) purging

  recorded :
      (op rt action : String) (inp : Fields) (h : Host W)
      → Ours (op, inp)
      → Calls Ours 2 h (record_state m (session_vm_id session_id) rt action (call m op inp h).1)
  recorded op rt action inp h ours =
      Calls-then Ours 1 1 h (call m op inp h).1 _ (one_call Ours m op inp h ours)
        (record_state-Calls m (session_vm_id session_id) purging rt action (call m op inp h).1)

  pub start_on-Calls :
      (rt : String) (image : Value) (h : Host W)
      → Calls Ours 2 h (start_on m session_id rt image h).1
  unfolding start_on base get
  start_on-Calls rt image h =
      recorded "runVm" rt "start" (run_input m session_id rt image keep_alive_seconds) h (
        either (λ inp. Ours ("runVm", inp)) (rt == "docker")
          (record { about = inr (refl, refl); purges = λ e. ground arith })
          (either (λ inp. Ours ("runVm", inp)) (truthy image)
            (record { about = inr (refl, refl); purges = λ e. ground arith })
            (record { about = inr (refl, refl); purges = λ e. ground arith })))

  pub exec_on-Calls :
      (rt : String) (command : Value) (h : Host W)
      → Calls Ours 2 h (exec_on m session_id rt command h).1
  unfolding exec_on base get
  exec_on-Calls rt command h = recorded "execVm" rt "exec" _ h (
      either (λ inp. Ours ("execVm", inp)) (rt == "docker")
        (record { about = inr (refl, refl); purges = λ e. ground arith })
        (record { about = inr (refl, refl); purges = λ e. ground arith }))

  pub write_on-Calls :
      (rt : String) (file_name content target_path : Value) (h : Host W)
      → Calls Ours 1 h (write_on m session_id rt file_name content target_path h).1
  unfolding write_on base get
  write_on-Calls rt file_name content target_path h = one_call Ours m "copyToVm" _ h (
      either (λ inp. Ours ("copyToVm", inp)) (rt == "docker")
        (record { about = inr (refl, refl); purges = λ e. ground arith })
        (record { about = inr (refl, refl); purges = λ e. ground arith }))

  pub terminate_on-Calls :
      (action status rt : String) (purge : Bool) (h : Host W)
      → (purge ≡ true → purging ≡ true)
      → Calls Ours 2 h (terminate_on m action status purge session_id rt h).1
  unfolding terminate_on base get
  terminate_on-Calls action status rt purge h may =
      recorded "terminateVm" rt action _ h
        (record { about = inr (refl, refl); purges = λ e. may (ground arith) })

  pub status_on-Calls : (rt : String) (h : Host W) → Calls Ours 1 h (status_on m session_id rt h).1
  unfolding status_on get
  status_on-Calls rt h =
      one_call Ours m "getJson" _ h (record { about = inl refl; purges = λ e. ground arith })
