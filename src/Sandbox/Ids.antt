-- ===== src/Sandbox/Ids.antt =====
-- The names of sandbox VMs, of davinci/sandbox_core.py.
use Prim.Native.Char.{code}
use davinci_agent.Prelude.{
  ℕ, String, ◌<>◌, Bool, ◌&&◌, ◌||◌, Option, none, some, leb, eqb, ◌==◌, if◌then◌else◌,
}
use davinci_agent.Prelude.Text.{strip, lower, nth}

-- [A-Za-z0-9_-]
abbrev pub is_safe : ℕ → Bool
is_safe c =
    (leb b'A' c && leb c b'Z')
    || (leb b'a' c && leb c b'z')
    || (leb b'0' c && leb c b'9')
    || eqb c b'_'
    || eqb c b'-'

-- re.sub(r"[^A-Za-z0-9_-]", "_", raw)
unfoldable pub masked : String → String
masked String.[] = ""
masked (String.◌∷◌ c s) = String.◌∷◌ (if is_safe (code c) then c else nth 0 c "_") (masked s)

-- `sanitize_id`
unfoldable pub sanitize_id : String → String
unfolding masked
sanitize_id raw = if masked raw == "" then "default" else masked raw

-- `session_vm_id`
unfoldable pub session_vm_id : String → String
session_vm_id session_id =
    let sid = if session_id == "" then "" else sanitize_id session_id in
    if sid == "" then "main" else "sess-" <> sid

-- `SandboxManager._runtime`, given the default
unfoldable pub runtime_of : String → Option String → String
runtime_of default_runtime runtime =
    let rt = lower (
      strip (elim runtime as (λ _. String) [
        | none ↦ default_runtime
        | some r ↦ if r == "" then default_runtime else r
      ])) in
    if rt == "fire" || rt == "docker" then rt else "fire"
