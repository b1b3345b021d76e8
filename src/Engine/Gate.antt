-- ===== src/Engine/Gate.antt =====
-- When `DavinciAgent._run_step` (davinci/engine.py) hands an action to the executor.
use davinci_agent.Prelude.{◌≡◌, ◌≢◌, refl, arith}
use davinci_agent.Permissions.Defs.{allow, deny, review, Outcome, Decision, ToolAction}
use davinci_agent.Permissions.Check.{check}
use davinci_agent.Planning.Defs.{PlanStep}
use davinci_agent.Registry.Defs.{ToolDescriptor}
use davinci_agent.Engine.Defs.{Result, ToolResult, Backend, Agent, Run}
use davinci_agent.Engine.Monad.{◌>>=◌, record_event}
use davinci_agent.Engine.Step.{about, decided, gate}

abbrev pub Executor : Type 0 → Type 0
Executor W = ToolDescriptor → ToolAction → W → Result ToolResult × W

-- the same parts with another executor
abbrev pub with_executor : {W : Type 0} → Executor W → Backend W → Backend W
with_executor g b = record b { execute = g }

module _ {W : Type 0} (b : Backend W) (agent : Agent) (g : Executor W) where
  decided_same :
      (step : PlanStep) (tool : ToolDescriptor) (action : ToolAction) (d : Decision) (o : Outcome)
      (s : Run W)
      → o ≢ allow
      → decided b agent step tool action d o s
        ≡ decided (with_executor g b) agent step tool action d o s
  unfolding decided ◌>>=◌ record_event about
  decided_same step tool action d deny s h = refl
  decided_same step tool action d review s h = refl
  decided_same step tool action d allow s h = ground arith

  -- An action that the permission engine denies or puts up for review is not handed to the
  -- executor: the step goes the same way with any other executor.
  pub gate_closed :
      (step : PlanStep) (tool : ToolDescriptor) (action : ToolAction) (s : Run W)
      → (check agent.permissions action).outcome ≢ allow
      → gate b agent step tool action s ≡ gate (with_executor g b) agent step tool action s
  unfolding gate ◌>>=◌ record_event about
  gate_closed step tool action s h =
      let d = check agent.permissions action in decided_same step tool action d d.outcome _ h
