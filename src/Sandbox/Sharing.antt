-- ===== src/Sandbox/Sharing.antt =====
-- Which sessions meet in one sandbox VM (davinci/sandbox_core.py).
use Prim.Native.Char.{code}
use davinci_agent.Prelude.{◌≡◌, refl, String, true, false, all, Bool-cases, inl, inr, ◌==◌}
use davinci_agent.Prelude.Text.{codes}
use davinci_agent.Sandbox.Ids.{is_safe, masked, sanitize_id, session_vm_id}

masked-safe : (s : String) → all is_safe (codes (masked s)) ≡ true
unfolding masked
masked-safe String.[] = refl
masked-safe (String.◌∷◌ c s) = elim (Bool-cases (is_safe (code c))) [
  | inl safe ↦ rw (safe, safe, masked-safe s) refl
  | inr other ↦ rw (other, masked-safe s) refl
]

masked-masked : (s : String) → masked (masked s) ≡ masked s
unfolding masked
masked-masked String.[] = refl
masked-masked (String.◌∷◌ c s) = elim (Bool-cases (is_safe (code c))) [
  | inl safe ↦ rw (safe, safe, masked-masked s) refl
  | inr other ↦ rw (other, masked-masked s) refl
]

-- A sanitized id is not empty and has only letters, digits, `_` and `-`, so it is one component of
-- a path.
pub sanitize_id-safe :
    (s : String) → (all is_safe (codes (sanitize_id s)) ≡ true) × ((sanitize_id s == "") ≡ false)
unfolding sanitize_id
sanitize_id-safe s = elim (Bool-cases (masked s == "")) [
  | inl empty ↦ rw empty (refl, refl)
  | inr full ↦ rw full (masked-safe s, full)
]

-- A session with a name shares its VM with the session that has the sanitized name, also where the
-- two names differ.
pub session_vm_id-sanitize_id :
    (session_id : String)
    → (session_id == "") ≡ false
    → session_vm_id (sanitize_id session_id) ≡ session_vm_id session_id
unfolding session_vm_id sanitize_id
session_vm_id-sanitize_id s h = elim (Bool-cases (masked s == "")) [
  | inl empty ↦ rw (h, empty) refl
  | inr full ↦ rw (h, full, full, masked-masked s, full, full) refl
]
