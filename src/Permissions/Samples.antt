-- ===== src/Permissions/Samples.antt =====
-- Actions and engines of davinci/permissions.py, and the theorems at them.
use davinci_agent.Prelude.{
  String, ◌≡◌, refl, Bool, true, false, Option, none, some, List, [], ◌∷◌, ◌++◌, arith,
}
use davinci_agent.Prelude.Text.{codes, join}
use davinci_agent.Prelude.Value.{string, str}
use davinci_agent.Permissions.Defs.{
  medium, high, default, accept_edits, bypass, allow, deny, review, ToolAction, PermissionEngine,
}
use davinci_agent.Permissions.Guardrails.{blob}
use davinci_agent.Permissions.Check.{init, add_input_validator, check, mode_decision}
use davinci_agent.Permissions.Layers.{check_outcome}
use davinci_agent.Permissions.Modes.{check-mode_mono}
use davinci_agent.Permissions.Shell.{made, is_dangerous, dangerous_denied}

abbrev listing : ToolAction
listing = record {
  tool_id = "shell";
  category = "system";
  risk = medium;
  args = ("command", string "ls -l") ∷ [];
  requires_network = false;
}

abbrev wiping : ToolAction
wiping = record {
  tool_id = "shell";
  category = "system";
  risk = medium;
  args = ("command", string "sudo rm -rf / now") ∷ [];
  requires_network = false;
}

abbrev cautious : PermissionEngine
cautious = init default medium ("files:*" ∷ []) ("net:*" ∷ [])

abbrev editing : PermissionEngine
editing = init accept_edits medium ("files:*" ∷ []) ("net:*" ∷ [])

abbrev free : PermissionEngine
free = init bypass high ("*" ∷ []) []

check_outcome_example : (check cautious listing).outcome ≡ review
unfolding davinci_agent.Permissions.Guardrails.default_input_validator
    davinci_agent.Permissions.Guardrails.dangerous_patterns davinci_agent.Prelude.Regex.search blob
    join str davinci_agent.Prelude.Regex.literal davinci_agent.Prelude.Glob.fnmatch
    davinci_agent.Permissions.Check.target mode_decision
check_outcome_example = check_outcome cautious listing

editing_allows : (check editing listing).outcome ≡ allow
unfolding check davinci_agent.Permissions.Guardrails.default_input_validator
    davinci_agent.Permissions.Guardrails.dangerous_patterns davinci_agent.Prelude.Regex.search blob
    join str davinci_agent.Prelude.Regex.literal davinci_agent.Prelude.Glob.fnmatch
editing_allows = refl

check-mode_mono_example : (check (record editing { mode = bypass }) listing).outcome ≡ allow
check-mode_mono_example = check-mode_mono editing bypass listing (omega arith) editing_allows

wiping-is_dangerous : is_dangerous (blob wiping) ≡ true
unfolding davinci_agent.Permissions.Guardrails.dangerous_patterns davinci_agent.Prelude.Regex.search
    blob join str davinci_agent.Prelude.Regex.literal davinci_agent.Prelude.Text.is_space
wiping-is_dangerous = refl

dangerous_denied_example : (check free wiping).outcome ≡ deny
dangerous_denied_example =
    dangerous_denied free wiping (made bypass high ("*" ∷ []) []) wiping-is_dangerous
