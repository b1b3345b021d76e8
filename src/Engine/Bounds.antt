-- ===== src/Engine/Bounds.antt =====
-- `DavinciAgent.run` (davinci/engine.py) and the limits of its budget.
use davinci_agent.Prelude.{
  ℕ, zero, suc, ◌<◌, ◌≤◌, ◌≡◌, refl, String, Bool, true, false, Option, none, some, arith,
}
use Prim.Native.Nat.{pred}
use davinci_agent.Planning.Defs.{PlanStep}
use davinci_agent.Observability.Budget.{Budget, exceeded}
use davinci_agent.Observability.Limits.{exceeded-none_iff}
use davinci_agent.Engine.Defs.{Result, ok, raised, Backend, Agent, Run}
use davinci_agent.Engine.Monad.{M, ◌>>=◌, pure, gets, now, continue}
use davinci_agent.Engine.Loop.{
  Stop, out_of_fuel, stopped, reflect_step, check_budget, stop_exceeded, after_step,
  after_reflection, turn, turn_within, run_loop,
}
use davinci_agent.Engine.Entry.{
  Request, begin, final_answer, judge, resolve_answer, conclude, after_loop, after_synthesis, run,
}
use davinci_agent.Engine.Step.{run_step}
use davinci_agent.Engine.Spending.{Spends, spends}
use davinci_agent.Engine.Charges.{run_step-Spends}
use davinci_agent.Engine.Termination.{reflect_step-Spends}
use davinci_agent.Engine.Ending.{begin-Spends}

-- The limits are the given ones, and the steps and the tool calls charged do not pass them.
pub record Within (limits x : Budget) : Type 0 where
  pub same_steps : x.max_steps ≡ limits.max_steps
  pub same_calls : x.max_tool_calls ≡ limits.max_tool_calls
  pub steps : x.steps_used ≤ limits.max_steps
  pub calls : x.tool_calls_used ≤ limits.max_tool_calls

-- there is room for another step
record Room (limits x : Budget) : Type 0 where
  same_steps : x.max_steps ≡ limits.max_steps
  same_calls : x.max_tool_calls ≡ limits.max_tool_calls
  steps : x.steps_used < limits.max_steps
  calls : x.tool_calls_used < limits.max_tool_calls

module _ {W A B : Type 0} (limits : Budget) where
  continue-Within :
      (r : Result A) (f : A → M W B) (t : Run W)
      → Within limits t.budget
      → ((a : A) → r ≡ ok a → Within limits (f a t).1.budget)
      → Within limits (continue r f t).1.budget
  continue-Within (ok a) f t h k = k a refl
  continue-Within (raised e) f t h k = h

  bind-Within :
      (m : M W A) (f : A → M W B) (s : Run W)
      → Within limits (m s).1.budget
      → ((a : A) → (m s).0 ≡ ok a → Within limits (f a (m s).1).1.budget)
      → Within limits ((m >>= f) s).1.budget
  unfolding ◌>>=◌
  bind-Within m f s h k = continue-Within (m s).0 f (m s).1 h k

module _ {W A : Type 0} (limits : Budget) where
  Spends-Within :
      (m : M W A) (s : Run W) → Spends 0 0 m → Within limits s.budget → Within limits (m s).1.budget
  Spends-Within m s h k = let c = h.at s in omega arith

module _ {W : Type 0} (b : Backend W) (agent : Agent) (limits : Budget) where
  -- the action keeps the budget within its limits
  abbrev Keeps : {A : Type 0} → M W A → Type 0
  Keeps m = (t : Run W) → Within limits t.budget → Within limits (m t).1.budget

  check_budget-Spends : Spends 0 0 (check_budget b agent)
  unfolding check_budget
  check_budget-Spends = search spends

  stop_exceeded-Spends : (name answer : String) → Spends 0 0 (stop_exceeded b agent name answer)
  unfolding stop_exceeded
  stop_exceeded-Spends name answer = search spends

  Room-left :
      (s : Run W) (limit : Option String)
      → (check_budget b agent s).0 ≡ ok limit
      → Within limits s.budget
      → limit ≡ none
      → Room limits (check_budget b agent s).1.budget
  unfolding check_budget ◌>>=◌ gets now
  Room-left s limit e w h =
      let none_left : exceeded s.budget (b.clock s.world).0 ≡ none = cc in
      let below = (exceeded-none_iff s.budget (b.clock s.world).0).0 none_left in
      record {
        same_steps = w.same_steps;
        same_calls = w.same_calls;
        steps = omega arith;
        calls = omega arith;
      }

  after_step-Within :
      (loop : String → M W Stop) (answer : String) (delivered : Bool)
      → Keeps (loop answer)
      → Keeps (after_step b agent loop answer delivered)
  unfolding after_step
  after_step-Within loop answer false h t w = h t w
  after_step-Within loop answer true h t w =
      Spends-Within limits (after_step b agent loop answer true) t (search spends) w

  after_reflection-Within :
      (loop : M W Stop) (answer : String) (more : Bool)
      → Keeps loop
      → Keeps (after_reflection b agent loop answer more)
  unfolding after_reflection
  after_reflection-Within loop answer true h t w = h t w
  after_reflection-Within loop answer false h t w =
      Spends-Within limits (pure (stopped answer)) t (search spends) w

  turn-Within :
      (again : M W Stop) (loop : String → M W Stop) (objective answer : String) (r : ℕ)
      (next : Option PlanStep) (s : Run W)
      → Room limits s.budget
      → Keeps again
      → ((x : String) → Keeps (loop x))
      → Within limits (turn b agent again loop objective r answer next s).1.budget
  unfolding turn
  turn-Within again loop objective answer r none s room h k =
      let c = (reflect_step-Spends b agent objective r).at s in
      let w : Within limits (reflect_step b agent objective r s).1.budget = omega arith in
      bind-Within limits _ _ s w λ more _. after_reflection-Within again answer more h _ w
  turn-Within again loop objective answer r (some step) s room h k =
      let c = (run_step-Spends b agent objective step).at s in
      let w : Within limits (run_step b agent objective step s).1.budget = omega arith in
      bind-Within limits _ _ s w λ given _.
        bind-Within limits _ _ _
          (Spends-Within limits (gets (λ s. s.final_delivered)) _ (search spends) w)
          λ delivered _.
            after_step-Within loop _ delivered (k _) _
              (Spends-Within limits (gets (λ s. s.final_delivered)) _ (search spends) w)

  turn_within-Within :
      (again : M W Stop) (loop : String → M W Stop) (objective answer : String) (r : ℕ)
      (limit : Option String) (s : Run W)
      → Within limits s.budget
      → (limit ≡ none → Room limits s.budget)
      → Keeps again
      → ((x : String) → Keeps (loop x))
      → Within limits (turn_within b agent again loop objective r answer limit s).1.budget
  unfolding turn_within ◌>>=◌ gets
  turn_within-Within again loop objective answer r (some name) s w room h k =
      Spends-Within limits _ s (stop_exceeded-Spends name answer) w
  turn_within-Within again loop objective answer r none s w room h k =
      turn-Within again loop objective answer r _ s (room refl) h k

  run_loop-Within :
      (fuel : ℕ) (objective : String) (replans_left : ℕ) (answer : String)
      → Keeps (run_loop b agent fuel objective replans_left answer)
  unfolding run_loop
  run_loop-Within zero objective r answer s w =
      Spends-Within limits (pure out_of_fuel) s (search spends) w
  run_loop-Within (suc fuel) objective r answer s w =
      let w' = Spends-Within limits _ s check_budget-Spends w in
      bind-Within limits _ _ s w' λ limit got.
        turn_within-Within _ _ objective answer r limit _ w' (Room-left s limit got w)
          (run_loop-Within fuel objective (pred r) answer) (run_loop-Within fuel objective r)

  judge-Spends : Spends 0 0 (judge b agent)
  unfolding judge
  judge-Spends = search (spends, check_budget-Spends)

  after_synthesis-Spends : (r : Result (Option String)) → Spends 0 0 (after_synthesis b agent r)
  unfolding after_synthesis
  after_synthesis-Spends (ok answer) = search spends
  after_synthesis-Spends (raised exc) = search spends

  final_answer-Spends :
      (objective : String) (synth : Option _) → Spends 0 0 (final_answer b agent objective synth)
  unfolding final_answer
  final_answer-Spends objective none = search spends
  final_answer-Spends objective (some synth) = search (spends, after_synthesis-Spends)

  resolve_answer-Spends :
      (objective answer : String) (delivered : Bool)
      → Spends 0 0 (resolve_answer b agent objective answer delivered)
  unfolding resolve_answer
  resolve_answer-Spends objective answer true = search spends
  resolve_answer-Spends objective answer false = search (spends, final_answer-Spends)

  after_loop-Spends : (q : Request) (stop : Stop) → Spends 0 0 (after_loop b agent q stop)
  unfolding after_loop conclude
  after_loop-Spends q out_of_fuel = search spends
  after_loop-Spends q (stopped answer) =
      search (spends, judge-Spends, resolve_answer-Spends) depth 10

module _ {W : Type 0} (b : Backend W) (agent : Agent) where
  -- A run keeps its limits of steps and of tool calls, and it does not charge more of either than
  -- its limit, if no more was charged before it; also where it raises, and whatever the reasoner,
  -- the planner and the executor do.
  pub run-Within :
      (fuel : ℕ) (q : Request) (s : Run W)
      → Within s.budget s.budget
      → Within s.budget (run b agent fuel q s).1.budget
  unfolding run
  run-Within fuel q s w =
      let limits = s.budget in
      let started = Spends-Within limits (begin b agent q) s (begin-Spends b agent q) w in
      bind-Within limits _ _ s started λ _ _.
        let looped = run_loop-Within b agent limits fuel q.objective q.replan_budget "" _ started in
        bind-Within limits _ _ _ looped λ stop _.
          Spends-Within limits (after_loop b agent q stop) _
            (after_loop-Spends b agent limits q stop) looped
