-- ===== src/Permissions/Check.antt =====
-- `PermissionEngine` of davinci/permissions.py: the layers of `check`, in their order.
use davinci_agent.Prelude.{
  String, Option, none, some, List, [], ◌∷◌, ◌++◌, leb, ◌<>◌, if◌then◌else◌, ◌==◌,
}
use davinci_agent.Prelude.Value.{Value}
use davinci_agent.Prelude.Glob.{fnmatch}
use davinci_agent.Permissions.Defs.{
  Risk, low, medium, rank, risk_value, PermissionMode, plan, default, accept_edits, auto, dont_ask,
  bypass, allow, deny, review, Outcome, Decision, ToolAction, Validator, ResultValidator,
  PermissionEngine,
}
use davinci_agent.Permissions.Guardrails.{default_input_validator, default_output_validator}

-- `PermissionEngine.__init__`
abbrev pub init : PermissionMode → Risk → List String → List String → PermissionEngine
init mode ceiling allow_rules deny_rules = record {
  mode = mode;
  risk_ceiling = ceiling;
  allow_rules = allow_rules;
  deny_rules = deny_rules;
  input_validators = default_input_validator ∷ [];
  output_validators = default_output_validator ∷ [];
}

unfoldable pub add_input_validator : PermissionEngine → Validator → PermissionEngine
add_input_validator e v = record e { input_validators = e.input_validators ++ v ∷ [] }

unfoldable pub add_output_validator : PermissionEngine → ResultValidator → PermissionEngine
add_output_validator e v = record e { output_validators = e.output_validators ++ v ∷ [] }

-- `err = validator(…)`, `if err`: an empty text passes
unfoldable pub error_of : Option String → Option String
error_of none = none
error_of (some err) = if err == "" then none else some err

unfoldable pub first_error : List Validator → ToolAction → Option String
unfolding error_of
first_error [] action = none
first_error (v ∷ vs) action = elim (error_of (v action)) [
  | some err ↦ some err
  | none ↦ first_error vs action
]

unfoldable pub first_match : String → List String → Option String
first_match name [] = none
first_match name (rule ∷ rules) =
    let rest = first_match name rules in if fnmatch name rule then some rule else rest

unfoldable pub target : ToolAction → String
target action = action.category <> ":" <> action.tool_id

decide : Outcome → String → Risk → String → Decision
decide outcome reason risk rule = record {
  outcome = outcome;
  reason = reason;
  risk = risk;
  rule = some rule;
}

unfoldable pub mode_decision : PermissionMode → Risk → Risk → Decision
unfolding decide rank risk_value
mode_decision bypass ceiling risk = decide allow "bypass mode" risk "mode:bypass"
mode_decision dont_ask ceiling risk = decide allow "dont_ask mode (logged)" risk "mode:dont_ask"
mode_decision plan ceiling risk =
    decide review "plan mode forbids execution until approved" risk "mode:plan"
mode_decision auto ceiling risk =
    if leb (rank risk) (rank ceiling)
    then decide allow ("auto mode within ceiling " <> risk_value ceiling) risk "mode:auto"
    else decide review ("risk " <> risk_value risk <> " exceeds ceiling " <> risk_value ceiling)
        risk "mode:auto"
mode_decision accept_edits ceiling risk =
    if leb (rank risk) (rank medium)
    then decide allow "accept_edits allows low/medium" risk "mode:accept_edits"
    else decide review "high-risk action needs review" risk "mode:accept_edits"
mode_decision default ceiling low = decide allow "default mode allows low risk" low "mode:default"
mode_decision default ceiling risk =
    decide review (risk_value risk <> "-risk action needs approval") risk "mode:default"

unfoldable pub check : PermissionEngine → ToolAction → Decision
unfolding first_error first_match target mode_decision decide
check e action = elim (first_error e.input_validators action) [
  | some err ↦ decide deny ("input guardrail: " <> err) action.risk "input_validator"
  | none ↦ elim (first_match (target action) e.deny_rules) [
    | some rule ↦ decide deny ("matched deny rule '" <> rule <> "'") action.risk rule
    | none ↦ elim (first_match (target action) e.allow_rules) [
      | some rule ↦ decide allow ("matched allow rule '" <> rule <> "'") action.risk rule
      | none ↦ mode_decision e.mode e.risk_ceiling action.risk
    ]
  ]
]

unfoldable pub first_result_error : List ResultValidator → ToolAction → Value → Option String
unfolding error_of
first_result_error [] action result = none
first_result_error (v ∷ vs) action result = elim (error_of (v action result)) [
  | some err ↦ some err
  | none ↦ first_result_error vs action result
]

unfoldable pub validate_result : PermissionEngine → ToolAction → Value → Option String
unfolding first_result_error
validate_result e action result = first_result_error e.output_validators action result
