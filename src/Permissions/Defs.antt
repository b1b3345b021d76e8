-- ===== src/Permissions/Defs.antt =====
-- The data of davinci/permissions.py.
use davinci_agent.Prelude.{ℕ, String, Bool, true, false, Option, List}
use davinci_agent.Prelude.Dict.{Dict}
use davinci_agent.Prelude.Value.{Value}

pub data Risk : Type 0 where
  low medium high : Risk

unfoldable pub rank : Risk → ℕ
rank low = 0
rank medium = 1
rank high = 2

-- `Risk.value`
unfoldable pub risk_value : Risk → String
risk_value low = "low"
risk_value medium = "medium"
risk_value high = "high"

pub data PermissionMode : Type 0 where
  plan default accept_edits auto dont_ask bypass : PermissionMode

pub data Outcome : Type 0 where
  allow deny review : Outcome

pub record Decision : Type 0 where
  pub outcome : Outcome
  pub reason : String
  pub risk : Risk
  pub rule : Option String

-- `Decision.allowed`
unfoldable pub allowed : Decision → Bool
allowed d = elim d.outcome [ allow ↦ true | _ ↦ false ]

pub record ToolAction : Type 0 where
  pub tool_id : String
  pub category : String
  pub risk : Risk
  pub args : Dict Value
  pub requires_network : Bool

abbrev pub Validator : Type 0
Validator = ToolAction → Option String

abbrev pub ResultValidator : Type 0
ResultValidator = ToolAction → Value → Option String

pub record PermissionEngine : Type 0 where
  pub mode : PermissionMode
  pub risk_ceiling : Risk
  pub allow_rules : List String
  pub deny_rules : List String
  pub input_validators : List Validator
  pub output_validators : List ResultValidator
