-- ===== src/Observability/Samples.antt =====
-- Budgets, values and traces of davinci/observability.py, and the theorems at them.
use davinci_agent.Prelude.{◌≢◌, ◌≡◌, refl, none, List, [], ◌∷◌, arith}
use davinci_agent.Prelude.Value.{Value, string, dict, list, nil, cons, end, field}
use davinci_agent.Prelude.Int.{pos, negsuc}
use davinci_agent.Observability.Budget.{Budget, exceeded}
use davinci_agent.Observability.Limits.{tool_call, tokens, charge_all, exceeded_forever}
use davinci_agent.Observability.Patterns.{mask_text}
use davinci_agent.Observability.Mask.{mask_secrets}
use davinci_agent.Observability.Clean.{IsClean, mask_secrets-IsClean}
use davinci_agent.Observability.Tracer.{Stamp, new_tracer}
use davinci_agent.Observability.Counting.{Emission, emit_all, IsTraced, emit_all-IsTraced}

abbrev half_used : Budget
half_used = record {
  max_steps = 4;
  max_tool_calls = 4;
  max_tokens = 100;
  max_wall = 60;
  steps_used = 2;
  tool_calls_used = 1;
  tokens_used = 40;
  started_at = 5;
}

abbrev used_up : Budget
used_up = record half_used { steps_used = 4 }

used_up-exceeded : exceeded used_up 20 ≢ none
unfolding exceeded
used_up-exceeded = ground arith

exceeded_forever_example :
    exceeded (charge_all used_up (tokens (pos 7) ∷ tokens (negsuc 30) ∷ tool_call ∷ [])) 30 ≢ none
exceeded_forever_example =
    exceeded_forever used_up (tokens (pos 7) ∷ tokens (negsuc 30) ∷ tool_call ∷ []) 20 30
      (omega arith) used_up-exceeded

abbrev login : Value
login = dict (
    field "user" (string "ann")
      (field "nested" (list (cons (dict (field "Password" (string "hunter22") end)) nil)) end))

mask_secrets-IsClean_example : IsClean (mask_secrets login)
mask_secrets-IsClean_example = mask_secrets-IsClean login

abbrev stamp : Stamp
stamp = record { event_id = "e"; ts_utc = "now" }

abbrev emissions : List Emission
emissions =
    record { stamp = stamp; kind = "plan"; message = "made"; details = end }
    ∷ record {
      stamp = stamp;
      kind = "reason";
      message = "thought";
      details = field "token" (string "abc") end;
    }
    ∷ record { stamp = stamp; kind = "plan"; message = "again"; details = end }
    ∷ []

emit_all-IsTraced_example : IsTraced emissions (emit_all emissions (new_tracer "run"))
emit_all-IsTraced_example = emit_all-IsTraced "run" emissions

text_masked : mask_text "token=abcdef123 ok" ≡ "token=***REDACTED*** ok"
unfolding mask_text davinci_agent.Prelude.Text.is_space davinci_agent.Prelude.Regex.times
    davinci_agent.Prelude.Text.replace davinci_agent.Prelude.Regex.literal
text_masked = refl
