-- ===== src/Engine/Charges.antt =====
-- What the parts of `DavinciAgent._run_step` (davinci/engine.py) charge to the budget.
use davinci_agent.Prelude.{String, Option, none, some}
use davinci_agent.Permissions.Defs.{Risk, allow, deny, review, Outcome, Decision, ToolAction}
use davinci_agent.Prelude.Dict.{Dict}
use davinci_agent.Prelude.Value.{Value}
use davinci_agent.Planning.Defs.{PlanStep}
use davinci_agent.Registry.Defs.{ToolDescriptor}
use davinci_agent.Engine.Defs.{Result, ok, raised, ActionProposal, ToolResult, Backend, Agent, Run}
use davinci_agent.Engine.Step.{
  settle_output, settle_error, settle, act, decided, gate, stuck, guard_loop, use_tool,
  deliver_if_last, answer_step, follow_tool, follow, run_step,
}
use davinci_agent.Engine.Spending.{
  Charged, Spends, Spends-seq, Spends-step, Spends-tool_call, Spends-weaken, spends,
}

module _ {W : Type 0} (b : Backend W) (agent : Agent) where
  settle_output-Spends :
      (step : PlanStep) (tool : ToolDescriptor) (result : ToolResult) (err : Option String)
      → Spends 0 0 (settle_output b agent step tool result err)
  unfolding settle_output
  settle_output-Spends step tool result (some err) = search spends
  settle_output-Spends step tool result none = search spends depth 8

  settle_error-Spends :
      (step : PlanStep) (tool : ToolDescriptor) (result : ToolResult)
      → Spends 0 0 (settle_error b agent step tool result)
  unfolding settle_error
  settle_error-Spends step tool result = search spends

  settle-Spends :
      (step : PlanStep) (tool : ToolDescriptor) (action : ToolAction) (r : Result ToolResult)
      → Spends 0 0 (settle b agent step tool action r)
  unfolding settle
  settle-Spends step tool action (raised exc) = search spends
  settle-Spends step tool action (ok result) =
      search (spends, settle_output-Spends, settle_error-Spends)

  act-Spends :
      (step : PlanStep) (tool : ToolDescriptor) (action : ToolAction)
      → Spends 0 1 (act b agent step tool action)
  unfolding act
  act-Spends step tool action =
      Spends-seq 0 1 0 _ (λ _. search (spends, settle-Spends)) _ Spends-tool_call

  decided-Spends :
      (step : PlanStep) (tool : ToolDescriptor) (action : ToolAction) (d : Decision) (o : Outcome)
      → Spends 0 1 (decided b agent step tool action d o)
  unfolding decided
  decided-Spends step tool action d deny = Spends-weaken _ (search spends)
  decided-Spends step tool action d review = Spends-weaken _ (search spends)
  decided-Spends step tool action d allow = act-Spends step tool action

  gate-Spends :
      (step : PlanStep) (tool : ToolDescriptor) (action : ToolAction)
      → Spends 0 1 (gate b agent step tool action)
  unfolding gate
  gate-Spends step tool action = search (spends, decided-Spends)

  stuck-Spends : (step : PlanStep) (tool : ToolDescriptor) → Spends 0 1 (stuck b agent step tool)
  unfolding stuck
  stuck-Spends step tool = Spends-weaken _ (search spends)

  guard_loop-Spends :
      (step : PlanStep) (tool : ToolDescriptor) (action : ToolAction)
      → Spends 0 1 (guard_loop b agent step tool action)
  unfolding guard_loop
  guard_loop-Spends step tool action = search (spends, gate-Spends, stuck-Spends)

  use_tool-Spends :
      (step : PlanStep) (tool : ToolDescriptor) (args : Dict Value) (risk : Option Risk)
      → Spends 0 1 (use_tool b agent step tool args risk)
  unfolding use_tool
  use_tool-Spends step tool args none = Spends-weaken _ (search spends)
  use_tool-Spends step tool args (some risk) = guard_loop-Spends step tool _

  follow_tool-Spends :
      (step : PlanStep) (args : Dict Value) (tool : Option ToolDescriptor)
      → Spends 0 1 (follow_tool b agent step args tool)
  unfolding follow_tool
  follow_tool-Spends step args none = Spends-weaken _ (search spends)
  follow_tool-Spends step args (some tool) = use_tool-Spends step tool args _

  deliver_if_last-Spends : (next : Option PlanStep) → Spends 0 0 (deliver_if_last b agent next)
  unfolding deliver_if_last
  deliver_if_last-Spends none = search spends
  deliver_if_last-Spends (some next) = search spends

  answer_step-Spends :
      (step : PlanStep) (answer : String) → Spends 0 0 (answer_step b agent step answer)
  unfolding answer_step
  answer_step-Spends step answer = search (spends, deliver_if_last-Spends)

  follow-Spends :
      (step : PlanStep) (proposal : ActionProposal) (answer : Option String)
      → Spends 0 1 (follow b agent step proposal answer)
  unfolding follow
  follow-Spends step proposal (some answer) = Spends-weaken _ (answer_step-Spends step answer)
  follow-Spends step proposal none = follow_tool-Spends step proposal.args proposal.tool

  pub run_step-Spends :
      (objective : String) (step : PlanStep) → Spends 1 1 (run_step b agent objective step)
  unfolding run_step
  run_step-Spends objective step = search (spends, Spends-step, follow-Spends) depth 10

  -- A step charges exactly one step to the budget and at most one tool call, and leaves the limits
  -- as they are, also where it raises, and whatever the reasoner and the executor do.
  pub run_step-Charged :
      (objective : String) (step : PlanStep) (s : Run W)
      → Charged 1 1 s.budget (run_step b agent objective step s).1.budget
  run_step-Charged objective step s = (run_step-Spends objective step).at s
