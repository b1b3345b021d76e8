-- ===== src/Engine/Loop.antt =====
-- `DavinciAgent.run` of davinci/engine.py.
use davinci_agent.Prelude.{
  ℕ, zero, suc, String, ◌<>◌, Bool, true, false, ◌||◌, Option, none, some, List, [], ◌∷◌, eqb,
  or_else, if◌then◌else◌,
}
use Prim.Native.Nat.{pred}
use davinci_agent.Prelude.Value.{Value, bool, dict, end}
use davinci_agent.Planning.Defs.{PlanStep, next_pending}
use davinci_agent.Planning.Ops.{replan_failed}
use davinci_agent.Planning.Dicts.{nat, fields, plan_to_dict}
use davinci_agent.Observability.Budget.{Budget, elapsed, exceeded}
use davinci_agent.Engine.Defs.{Backend, Agent}
use davinci_agent.Engine.Monad.{M, ◌>>=◌, ◌>>◌, pure, gets, ask, set_plan, now, record_event}
use davinci_agent.Engine.Step.{or_text, run_step}

-- How the loop ends; the fuel is no part of the program.
pub data Stop : Type 0 where
  out_of_fuel : Stop
  stopped : String → Stop

-- `Budget.snapshot`, its times in ticks of the clock and without the cost in dollars
unfoldable pub snapshot : Budget → ℕ → Value
snapshot b t = dict (
    fields (
      ("steps_used", nat b.steps_used)
      ∷ ("max_steps", nat b.max_steps)
      ∷ ("tool_calls_used", nat b.tool_calls_used)
      ∷ ("max_tool_calls", nat b.max_tool_calls)
      ∷ ("tokens_used", nat b.tokens_used)
      ∷ ("max_tokens", nat b.max_tokens)
      ∷ ("elapsed_seconds", nat (elapsed b t))
      ∷ ("max_wall_seconds", nat b.max_wall)
      ∷ []))

-- no titles to replan with
abbrev pub is_nil {ℓ} : {A : Type ℓ} → List A → Bool
is_nil [] = true
is_nil (x ∷ xs) = false

module _ {W : Type 0} (b : Backend W) (agent : Agent) where
  unfoldable pub replan : List String → M W Bool
  replan titles = do
    old ← gets (λ s. s.plan)
    let plan = replan_failed old titles
    set_plan plan
    record_event b "replan" "Replanned after failures" (fields (("plan", plan_to_dict plan) ∷ []))
    pure true

  -- reflect on an exhausted plan: whether the loop goes on, with a new plan
  unfoldable pub reflect_step : String → ℕ → M W Bool
  reflect_step objective replans_left = do
    plan ← gets (λ s. s.plan)
    working ← gets (λ s. s.working)
    reflection ← ask (b.reflect objective plan working)
    record_event b "reflection" reflection.critique
        (fields (("satisfied", bool reflection.satisfied) ∷ []))
    if reflection.satisfied || eqb replans_left 0 || is_nil reflection.replan_titles
        then pure false
        else replan reflection.replan_titles

  -- the budget's first exhausted limit
  unfoldable pub check_budget : M W (Option String)
  check_budget = do t ← now b; gets (λ s. exceeded s.budget t)

  unfoldable pub stop_exceeded : String → String → M W Stop
  stop_exceeded name answer = do
    t ← now b
    budget ← gets (λ s. s.budget)
    record_event b "budget_exceeded" ("Stopping: " <> name <> " reached")
        (fields (("budget", snapshot budget t) ∷ []))
    pure (stopped answer)

  -- the step is done; `loop` goes on
  unfoldable pub after_step : (String → M W Stop) → String → Bool → M W Stop
  after_step loop answer false = loop answer
  after_step loop answer true = do
    record_event b "final_answer" "Final answer delivered by step reasoning" end
    pure (stopped answer)

  unfoldable pub after_reflection : M W Stop → String → Bool → M W Stop
  after_reflection loop answer true = loop
  after_reflection loop answer false = pure (stopped answer)

  -- One turn of the loop below its budget check: `again` goes on with one replan less, `loop` with
  -- as many.
  unfoldable pub turn :
      M W Stop → (String → M W Stop) → String → ℕ → String → Option PlanStep → M W Stop
  turn again loop objective replans_left answer none = do
    more ← reflect_step objective replans_left
    after_reflection again answer more
  turn again loop objective replans_left answer (some step) = do
    given ← run_step b agent objective step
    delivered ← gets (λ s. s.final_delivered)
    after_step loop (or_text (or_else given "") answer) delivered

  unfoldable pub turn_within :
      M W Stop → (String → M W Stop) → String → ℕ → String → Option String → M W Stop
  turn_within again loop objective replans_left answer (some name) = stop_exceeded name answer
  turn_within again loop objective replans_left answer none = do
    next ← gets (λ s. next_pending s.plan)
    turn again loop objective replans_left answer next

  -- the `while True` loop
  unfoldable pub run_loop : ℕ → String → ℕ → String → M W Stop
  run_loop zero objective replans_left answer = pure out_of_fuel
  run_loop (suc fuel) objective replans_left answer = do
    limit ← check_budget
    turn_within (run_loop fuel objective (pred replans_left) answer)
        (run_loop fuel objective replans_left) objective replans_left answer limit
