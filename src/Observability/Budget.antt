-- ===== src/Observability/Budget.antt =====
-- `Budget` of davinci/observability.py. The monotonic clock is read by the caller and passed as
-- `now`, and the wall limit is given in the clock's ticks.
use davinci_agent.Prelude.{ℕ, suc, ◌+◌, ◌-◌, String, Option, none, some, leb, if◌then◌else◌}
use davinci_agent.Prelude.Int.{ℤ, pos, negsuc}

pub record Budget : Type 0 where
  pub max_steps : ℕ
  pub max_tool_calls : ℕ
  pub max_tokens : ℕ
  pub max_wall : ℕ
  pub steps_used : ℕ
  pub tool_calls_used : ℕ
  pub tokens_used : ℕ
  pub started_at : ℕ

unfoldable pub charge_step : Budget → Budget
charge_step b = record b { steps_used = suc b.steps_used }

unfoldable pub charge_tool_call : Budget → Budget
charge_tool_call b = record b { tool_calls_used = suc b.tool_calls_used }

-- max(0, n)
abbrev pub clamped : ℤ → ℕ
clamped (pos n) = n
clamped (negsuc n) = 0

unfoldable pub charge_tokens : ℤ → Budget → Budget
charge_tokens n b = record b { tokens_used = b.tokens_used + clamped n }

unfoldable pub elapsed : Budget → ℕ → ℕ
elapsed b now = now - b.started_at

-- `Budget.exceeded`: the first exhausted limit
unfoldable pub exceeded : Budget → ℕ → Option String
unfolding elapsed
exceeded b now =
    if leb b.max_steps b.steps_used
    then some "max_steps"
    else if leb b.max_tool_calls b.tool_calls_used
    then some "max_tool_calls"
    else if leb b.max_tokens b.tokens_used
    then some "max_tokens"
    else if leb b.max_wall (elapsed b now)
    then some "max_wall_seconds"
    else none
