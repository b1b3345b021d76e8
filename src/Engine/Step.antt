-- ===== src/Engine/Step.antt =====
-- `DavinciAgent._run_step` of davinci/engine.py, cut at its early returns.
use davinci_agent.Prelude.{
  ℕ, suc, ◌+◌, String, ◌<>◌, true, false, Option, none, some, [], ◌∷◌, ltb, or_else, ◌==◌,
  if◌then◌else◌,
}
use davinci_agent.Prelude.Dict.{Dict, lookup}
use davinci_agent.Prelude.Value.{Value, bool, string, dict, Fields}
use davinci_agent.Permissions.Defs.{
  Risk, allow, deny, review, risk_value, Outcome, Decision, ToolAction,
}
use davinci_agent.Permissions.Check.{check, validate_result, error_of}
use davinci_agent.Planning.Defs.{in_progress, PlanStep, next_pending}
use davinci_agent.Planning.Ops.{start, complete, fail, count_attempt}
use davinci_agent.Planning.Dicts.{nat, fields, or_null}
use davinci_agent.Prelude.Int.{pos}
use davinci_agent.Observability.Budget.{charge_step, charge_tool_call, charge_tokens}
use davinci_agent.Registry.Defs.{ToolDescriptor}
use davinci_agent.Engine.Defs.{
  Result, ok, raised, ActionProposal, ToolResult, Backend, Agent, Run, parse_risk, estimate_tokens,
  fingerprint,
}
use davinci_agent.Engine.Monad.{
  M, ◌>>=◌, ◌>>◌, pure, throw, gets, ask, try_ask, on_budget, on_plan, set_seen, add_review,
  set_delivered, note, record_event,
}

unfoldable pub outcome_value : Outcome → String
outcome_value allow = "allow"
outcome_value deny = "deny"
outcome_value review = "review"

-- `Decision.to_dict`
unfoldable pub decision_to_dict : Decision → Value
decision_to_dict d = dict (
    fields (
      ("outcome", string (outcome_value d.outcome))
      ∷ ("reason", string d.reason)
      ∷ ("risk", string (risk_value d.risk))
      ∷ ("rule", or_null d.rule)
      ∷ []))

-- `a or b`, for texts
abbrev pub or_text : String → String → String
or_text a b = if a == "" then b else a

module _ {W : Type 0} (b : Backend W) (agent : Agent) where
  unfoldable pub about : PlanStep → ToolDescriptor → Fields
  about step tool = fields (("step_id", nat step.id) ∷ ("tool", string tool.name) ∷ [])

  -- the output guardrails have answered
  unfoldable pub settle_output :
      PlanStep → ToolDescriptor → ToolResult → Option String → M W (Option String)
  settle_output step tool result (some out_err) = do
    on_plan (λ p. fail p step.id ("output guardrail: " <> out_err))
    record_event b "guardrail_block" out_err (about step tool)
    pure none
  settle_output step tool result none = do
    on_budget (charge_tokens (pos (estimate_tokens result.output)))
    note "tool_result" result.output
    on_plan (λ p. complete p step.id "ok")
    record_event b "tool_result" (tool.name <> " ok")
        (fields (("step_id", nat step.id) ∷ ("ok", bool true) ∷ ("output", result.output) ∷ []))
    pure none

  unfoldable pub settle_error : PlanStep → ToolDescriptor → ToolResult → M W (Option String)
  settle_error step tool result = do
    on_plan (λ p. fail p step.id ("tool error: " <> result.error))
    record_event b "tool_result" (tool.name <> " failed: " <> result.error)
        (fields (("step_id", nat step.id) ∷ ("ok", bool false) ∷ []))
    pure none

  -- the executor has returned or raised
  unfoldable pub settle :
      PlanStep → ToolDescriptor → ToolAction → Result ToolResult → M W (Option String)
  settle step tool action (raised exc) = do
    on_plan (λ p. fail p step.id ("executor error: " <> exc))
    record_event b "error" ("Tool " <> tool.name <> " raised: " <> exc)
        (fields (("step_id", nat step.id) ∷ []))
    pure none
  settle step tool action (ok result) =
      if result.succeeded
      then settle_output step tool result
          (error_of (validate_result agent.permissions action result.output))
      else settle_error step tool result

  -- the action is allowed: execute it through the backend
  unfoldable pub act : PlanStep → ToolDescriptor → ToolAction → M W (Option String)
  act step tool action = do
    on_budget charge_tool_call
    outcome ← try_ask (b.execute tool action)
    settle step tool action outcome

  -- the permission check has been made and recorded
  unfoldable pub decided :
      PlanStep → ToolDescriptor → ToolAction → Decision → Outcome → M W (Option String)
  decided step tool action decision deny = do
    on_plan (λ p. fail p step.id ("denied: " <> decision.reason))
    pure none
  decided step tool action decision review = do
    add_review (record {
      step_id = step.id;
      tool = tool.name;
      args = action.args;
      reason = decision.reason;
      risk = decision.risk;
    })
    on_plan (λ p. complete p step.id "(awaiting human review)")
    record_event b "human_review" "Action escalated for approval" (about step tool)
    pure none
  decided step tool action decision allow = act step tool action

  unfoldable pub gate : PlanStep → ToolDescriptor → ToolAction → M W (Option String)
  gate step tool action = do
    let decision = check agent.permissions action
    record_event b "decision" decision.reason (
        fields (
          ("step_id", nat step.id)
          ∷ ("tool", string tool.name)
          ∷ ("decision", decision_to_dict decision)
          ∷ []))
    decided step tool action decision decision.outcome

  unfoldable pub stuck : PlanStep → ToolDescriptor → M W (Option String)
  stuck step tool = do
    on_plan (λ p. fail p step.id "stuck: identical action repeated")
    record_event b "stuck" "Loop detected; failing step" (about step tool)
    pure none

  -- the count of the action's fingerprint, this time included
  abbrev pub times_seen : ToolAction → Run W → ℕ
  times_seen action s = or_else (lookup (fingerprint b.sha1_hex action) s.fingerprints) 0 + 1

  -- the detection of loops
  unfoldable pub guard_loop : PlanStep → ToolDescriptor → ToolAction → M W (Option String)
  guard_loop step tool action = do
    seen ← gets (times_seen action)
    set_seen (fingerprint b.sha1_hex action) seen
    if ltb agent.max_step_attempts seen then stuck step tool else gate step tool action

  abbrev pub action_of : ToolDescriptor → Dict Value → Risk → ToolAction
  action_of tool args risk = record {
    tool_id = tool.name;
    category = tool.category;
    risk = risk;
    args = args;
    requires_network = tool.requires_network;
  }

  unfoldable pub use_tool :
      PlanStep → ToolDescriptor → Dict Value → Option Risk → M W (Option String)
  use_tool step tool args none = throw "ValueError"
  use_tool step tool args (some risk) = guard_loop step tool (action_of tool args risk)

  unfoldable pub deliver_if_last : Option PlanStep → M W Unit
  deliver_if_last none = set_delivered true
  deliver_if_last (some next) = pure tt

  -- the reasoner answered the step itself
  unfoldable pub answer_step : PlanStep → String → M W (Option String)
  answer_step step answer = do
    on_plan (λ p. complete p step.id answer)
    note "assistant" (string answer)
    next ← gets (λ s. next_pending s.plan)
    deliver_if_last next
    pure (some answer)

  unfoldable pub follow_tool : PlanStep → Dict Value → Option ToolDescriptor → M W (Option String)
  follow_tool step args none = do on_plan (λ p. complete p step.id "(no tool required)"); pure none
  follow_tool step args (some tool) = use_tool step tool args (parse_risk tool.risk)

  unfoldable pub follow : PlanStep → ActionProposal → Option String → M W (Option String)
  follow step proposal (some answer) = answer_step step answer
  follow step proposal none = follow_tool step proposal.args proposal.tool

  -- the step object after `plan.start(step.id)` and `step.attempts += 1`
  abbrev pub started : PlanStep → PlanStep
  started step = record step { status = in_progress; attempts = suc step.attempts }

  -- `DavinciAgent._run_step`
  unfoldable pub run_step : String → PlanStep → M W (Option String)
  run_step objective step = do
    on_budget charge_step
    on_plan (λ p. start p step.id)
    on_plan (λ p. count_attempt p step.id)
    working ← gets (λ s. s.working)
    proposal ← ask (b.propose objective (started step) agent.registry working)
    record_event b "reason" (or_text proposal.thought step.title)
        (fields (("step_id", nat step.id) ∷ ("category", string step.category) ∷ []))
    follow step proposal proposal.final_answer
