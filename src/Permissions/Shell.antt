-- ===== src/Permissions/Shell.antt =====
-- The guardrail against destructive shell commands, of davinci/permissions.py, and the engines that
-- the program builds.
use davinci_agent.Prelude.{
  ℕ, String, ◌≡◌, refl, Bool, true, false, Option, none, some, List, [], ◌∷◌, ◌++◌, arith, any, all,
  all-append,
}
use davinci_agent.Prelude.Text.{codes, is_space, append-ne-empty}
use davinci_agent.Prelude.Regex.{Regex, match_at, search, search_from, literal, found}
use davinci_agent.Permissions.Defs.{
  deny, Risk, PermissionMode, ToolAction, Validator, ResultValidator, PermissionEngine,
}
use davinci_agent.Permissions.Guardrails.{
  default_input_validator, blob, dangerous_patterns, first_pattern, rm_rf,
}
use davinci_agent.Permissions.Check.{init, add_input_validator, add_output_validator, check}
use davinci_agent.Permissions.Layers.{is_clear, passes, check_outcome}

-- An engine as the program makes one: `__init__`, then registrations of validators.
pub data Built : PermissionEngine → Type 0 where
  made :
      (mode : PermissionMode) (ceiling : Risk) (allow_rules deny_rules : List String)
      → Built (init mode ceiling allow_rules deny_rules)
  with_input : {e : PermissionEngine} (v : Validator) → Built e → Built (add_input_validator e v)
  with_output :
      {e : PermissionEngine} (v : ResultValidator) → Built e → Built (add_output_validator e v)

-- some pattern of the list is found in the text
abbrev pub is_dangerous : String → Bool
is_dangerous s = any (λ p. search p.1 s) dangerous_patterns

first_pattern-fails :
    (patterns : List (String × Regex)) (s : String)
    → any (λ p. search p.1 s) patterns ≡ true
    → is_clear (first_pattern patterns s) ≡ false
unfolding first_pattern
first_pattern-fails [] s h = ground arith
first_pattern-fails ((source, r) ∷ ps) s h = ground (
  arith,
  append-ne-empty "blocked dangerous command pattern: " source refl,
  first_pattern-fails ps s,
)

Built-fails :
    (e : PermissionEngine) (action : ToolAction)
    → Built e
    → passes action default_input_validator ≡ false
    → all (passes action) e.input_validators ≡ false
unfolding add_input_validator add_output_validator
Built-fails e action (made mode ceiling allow_rules deny_rules) h = ground arith
Built-fails e action (with_input {e = e'} v b) h =
    ground
      (arith, Built-fails e' action b h, all-append (passes action) e'.input_validators (v ∷ []))
Built-fails e action (with_output {e = e'} v b) h = Built-fails e' action b h

-- An action whose arguments show a destructive command is denied by every engine that the program
-- can build, whatever its mode, its rules and its other validators.
pub dangerous_denied :
    (e : PermissionEngine) (action : ToolAction)
    → Built e
    → is_dangerous (blob action) ≡ true
    → (check e action).outcome ≡ deny
unfolding default_input_validator
dangerous_denied e action b h =
    let fails = Built-fails e action b (first_pattern-fails dangerous_patterns (blob action) h) in
    rw (check_outcome, fails)

search_from-append :
    (r : Regex) (tail : List ℕ)
    → ((prev : Option ℕ) → found (match_at r (prev, tail)) ≡ true)
    → (prev : Option ℕ) (before : List ℕ) → search_from r prev (before ++ tail) ≡ true
unfolding search_from
search_from-append r [] h prev [] = h prev
search_from-append r (c ∷ tail) h prev [] = ground (arith, h prev)
search_from-append r tail h prev (c ∷ before) =
    ground (arith, search_from-append r tail h (some c) before)

-- `rm -rf /`, followed by a space
abbrev pub wipe : List ℕ
wipe = codes "rm -rf / "

wipe-found :
    (prev : Option ℕ) (after : List ℕ) → found (match_at rm_rf (prev, wipe ++ after)) ≡ true
unfolding rm_rf match_at literal is_space found
wipe-found prev after = refl

-- A command text that holds `rm -rf / ` anywhere, whatever stands before and after it, is found
-- dangerous.
pub wipe_dangerous :
    (s : String) (before after : List ℕ)
    → codes s ≡ before ++ (wipe ++ after)
    → is_dangerous s ≡ true
unfolding dangerous_patterns rm_rf search
wipe_dangerous s before after e =
    let here : (prev : Option ℕ) → found (match_at rm_rf (prev, wipe ++ after)) ≡ true =
      λ prev. wipe-found prev after in
    let h : search rm_rf s ≡ true =
      rw e (search_from-append rm_rf (wipe ++ after) here none before) in
    rw h
