-- ===== src/Permissions/Layers.antt =====
-- The layers of `PermissionEngine.check` (davinci/permissions.py): guardrails, deny rules, allow
-- rules, mode.
use davinci_agent.Prelude.{
  String, ◌≡◌, refl, Bool, true, false, ◌||◌, not, Option, none, some, List, [], ◌∷◌, arith, any,
  all, ◌==◌, if◌then◌else◌,
}
use davinci_agent.Prelude.Glob.{fnmatch}
use davinci_agent.Permissions.Defs.{allow, deny, ToolAction, Validator, PermissionEngine}
use davinci_agent.Permissions.Check.{first_error, first_match, target, mode_decision, check}

-- a validator's answer holds no objection
abbrev pub is_clear : Option String → Bool
is_clear none = true
is_clear (some err) = err == ""

abbrev pub passes : ToolAction → Validator → Bool
passes action v = is_clear (v action)

abbrev pub is_none {ℓ} : {A : Type ℓ} → Option A → Bool
is_none none = true
is_none (some a) = false

pub first_error-eq-all :
    (vs : List Validator) (action : ToolAction)
    → is_none (first_error vs action) ≡ all (passes action) vs
unfolding first_error
first_error-eq-all [] action = refl
first_error-eq-all (v ∷ vs) action = ground (arith, first_error-eq-all vs action)

pub first_match-eq-any :
    (name : String) (rules : List String)
    → is_none (first_match name rules) ≡ not (any (fnmatch name) rules)
unfolding first_match
first_match-eq-any name [] = refl
first_match-eq-any name (rule ∷ rules) = ground (arith, first_match-eq-any name rules)

-- The outcome of `check`: a guardrail that objects or a deny rule that matches denies, whatever
-- the allow rules and the mode say; else an allow rule that matches allows; else the mode decides.
pub check_outcome :
    (e : PermissionEngine) (action : ToolAction)
    → (check e action).outcome ≡ (
        if not (all (passes action) e.input_validators)
          || any (fnmatch (target action)) e.deny_rules
        then deny
        else if any (fnmatch (target action)) e.allow_rules
        then allow
        else (mode_decision e.mode e.risk_ceiling action.risk).outcome)
unfolding check
check_outcome e action = ground (
  arith,
  first_error-eq-all e.input_validators action,
  first_match-eq-any (target action) e.deny_rules,
  first_match-eq-any (target action) e.allow_rules,
)
