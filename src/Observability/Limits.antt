-- ===== src/Observability/Limits.antt =====
-- `Budget.exceeded` (davinci/observability.py) and sequences of charges.
use davinci_agent.Prelude.{ℕ, ◌-◌, ◌≤◌, ◌<◌, ◌≡◌, ◌≢◌, ◌↔◌, none, List, [], ◌∷◌, arith}
use davinci_agent.Prelude.Int.{ℤ, pos, negsuc}
use davinci_agent.Observability.Budget.{
  Budget, charge_step, charge_tool_call, charge_tokens, exceeded,
}

pub data Charge : Type 0 where
  step tool_call : Charge
  tokens : ℤ → Charge

unfoldable pub charge : Budget → Charge → Budget
unfolding charge_step charge_tool_call charge_tokens
charge b step = charge_step b
charge b tool_call = charge_tool_call b
charge b (tokens n) = charge_tokens n b

unfoldable pub charge_all : Budget → List Charge → Budget
charge_all b [] = b
charge_all b (c ∷ cs) = charge_all (charge b c) cs

-- No limit is reported exactly while the steps, the tool calls, the tokens and the time are each
-- below their limit.
pub exceeded-none_iff :
    (b : Budget) (now : ℕ)
    → (exceeded b now ≡ none) ↔ (
        (b.steps_used < b.max_steps)
        × (b.tool_calls_used < b.max_tool_calls)
        × (b.tokens_used < b.max_tokens)
        × (now - b.started_at < b.max_wall))
unfolding exceeded
exceeded-none_iff b now = ground arith

exceeded-charge :
    (b : Budget) (c : Charge) (now later : ℕ)
    → now ≤ later
    → exceeded b now ≢ none
    → exceeded (charge b c) later ≢ none
unfolding exceeded charge
exceeded-charge b step now later h e = ground arith
exceeded-charge b tool_call now later h e = ground arith
exceeded-charge b (tokens (pos n)) now later h e = ground arith
exceeded-charge b (tokens (negsuc n)) now later h e = ground arith

-- An exceeded budget stays exceeded, whatever is charged to it, also a negative number of tokens, and
-- however much time passes.
pub exceeded_forever :
    (b : Budget) (cs : List Charge) (now later : ℕ)
    → now ≤ later
    → exceeded b now ≢ none
    → exceeded (charge_all b cs) later ≢ none
unfolding charge_all
exceeded_forever b [] now later h e = unfold exceeded in ground arith
exceeded_forever b (c ∷ cs) now later h e =
    exceeded_forever (charge b c) cs later later (omega arith) (exceeded-charge b c now later h e)
