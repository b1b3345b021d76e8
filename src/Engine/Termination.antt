-- ===== src/Engine/Termination.antt =====
-- The loop of `DavinciAgent.run` (davinci/engine.py) and its fuel: each turn takes a step of the
-- budget or a replan.
use davinci_agent.Prelude.{
  ℕ, zero, suc, ◌+◌, ◌-◌, ◌<◌, ◌≡◌, ◌≢◌, refl, String, Bool, true, false, Option, none, some, List,
  arith,
}
use Prim.Native.Nat.{pred}
use davinci_agent.Planning.Defs.{PlanStep}
use davinci_agent.Observability.Budget.{exceeded}
use davinci_agent.Observability.Limits.{exceeded-none_iff}
use davinci_agent.Engine.Defs.{Result, ok, raised, Backend, Agent, Run}
use davinci_agent.Engine.Monad.{M, ◌>>=◌, pure, gets, ask, now, record_event, continue}
use davinci_agent.Engine.Loop.{
  Stop, out_of_fuel, replan, reflect_step, check_budget, stop_exceeded, after_step,
  after_reflection, turn, turn_within, run_loop,
}
use davinci_agent.Engine.Spending.{Spends, spends}
use davinci_agent.Engine.Charges.{run_step-Spends}

-- the fuel is not what ends it
abbrev pub Halts : {W : Type 0} → M W Stop → Run W → Type 0
Halts m s = (m s).0 ≢ ok out_of_fuel

module _ {W A B : Type 0} (bad : B) where
  continue-avoids :
      (r : Result A) (f : A → M W B) (t : Run W)
      → ((a : A) → r ≡ ok a → (f a t).0 ≢ ok bad)
      → (continue r f t).0 ≢ ok bad
  continue-avoids (ok a) f t h = h a refl
  continue-avoids (raised e) f t h = ground arith

  -- a chain avoids a value that its last action avoids
  pub bind-avoids :
      (m : M W A) (f : A → M W B) (s : Run W)
      → ((a : A) → (m s).0 ≡ ok a → (f a (m s).1).0 ≢ ok bad)
      → ((m >>= f) s).0 ≢ ok bad
  unfolding ◌>>=◌
  bind-avoids m f s h = continue-avoids (m s).0 f (m s).1 h

-- the turns left: the steps below the limit, and the replans
abbrev pub turns_left : {W : Type 0} → Run W → ℕ → ℕ
turns_left s replans_left = (s.budget.max_steps - s.budget.steps_used) + replans_left

module _ {W : Type 0} (b : Backend W) (agent : Agent) where
  replan-Spends : (titles : List String) → Spends 0 0 (replan b agent titles)
  unfolding replan
  replan-Spends titles = search spends

  pub reflect_step-Spends :
      (objective : String) (replans_left : ℕ)
      → Spends 0 0 (reflect_step b agent objective replans_left)
  unfolding reflect_step
  reflect_step-Spends objective replans_left = search (spends, replan-Spends) depth 8

  -- another turn after a reflection has a replan for it
  replan_left :
      (objective : String) (r : ℕ) (s : Run W)
      → (reflect_step b agent objective r s).0 ≡ ok true
      → 0 < r
  unfolding reflect_step ◌>>=◌ gets ask record_event pure
  replan_left objective zero s e = ground arith
  replan_left objective (suc r) s e = omega arith

  checked : Run W → Run W
  checked s = (check_budget b agent s).1

  checked-turns_left : (s : Run W) (r : ℕ) → turns_left (checked s) r ≡ turns_left s r
  unfolding checked check_budget ◌>>=◌ gets now
  checked-turns_left s r = refl

  below_limit :
      (s : Run W) (limit : Option String)
      → (check_budget b agent s).0 ≡ ok limit
      → limit ≡ none
      → (checked s).budget.steps_used < (checked s).budget.max_steps
  unfolding checked check_budget ◌>>=◌ gets now
  below_limit s limit e h =
      let none_left : exceeded s.budget (b.clock s.world).0 ≡ none = cc in
      ((exceeded-none_iff s.budget (b.clock s.world).0).0 none_left).0

  stop_exceeded-Halts :
      (name answer : String) (s : Run W) → Halts (stop_exceeded b agent name answer) s
  unfolding stop_exceeded ◌>>=◌ gets now record_event pure
  stop_exceeded-Halts name answer s = ground arith

  after_step-Halts :
      (loop : String → M W Stop) (answer : String) (delivered : Bool) (s : Run W)
      → Halts (loop answer) s
      → Halts (after_step b agent loop answer delivered) s
  unfolding after_step ◌>>=◌ record_event pure
  after_step-Halts loop answer false s h = h
  after_step-Halts loop answer true s h = ground arith

  after_reflection-Halts :
      (loop : M W Stop) (answer : String) (more : Bool) (s : Run W)
      → (more ≡ true → Halts loop s)
      → Halts (after_reflection b agent loop answer more) s
  unfolding after_reflection pure
  after_reflection-Halts loop answer true s h = h refl
  after_reflection-Halts loop answer false s h = ground arith

  turn-Halts :
      (again : M W Stop) (loop : String → M W Stop) (objective answer : String) (r : ℕ)
      (next : Option PlanStep) (s : Run W)
      → s.budget.steps_used < s.budget.max_steps
      → ((t : Run W) → turns_left t (pred r) < turns_left s r → Halts again t)
      → ((t : Run W) (x : String) → turns_left t r < turns_left s r → Halts (loop x) t)
      → Halts (turn b agent again loop objective r answer next) s
  unfolding turn
  turn-Halts again loop objective answer r none s below h k =
      bind-avoids out_of_fuel _ _ s λ more e. after_reflection-Halts again answer more _ λ m.
        let c = (reflect_step-Spends objective r).at s in
        let left = replan_left objective r s (cc) in h _ (omega arith)
  turn-Halts again loop objective answer r (some step) s below h k =
      bind-avoids out_of_fuel _ _ s λ given e.
        unfold ◌>>=◌ gets in
        after_step-Halts loop _ _ _
          (let c = (run_step-Spends b agent objective step).at s in k _ _ (omega arith))

  turn_within-Halts :
      (again : M W Stop) (loop : String → M W Stop) (objective answer : String) (r : ℕ)
      (limit : Option String) (s : Run W)
      → (limit ≡ none → s.budget.steps_used < s.budget.max_steps)
      → ((t : Run W) → turns_left t (pred r) < turns_left s r → Halts again t)
      → ((t : Run W) (x : String) → turns_left t r < turns_left s r → Halts (loop x) t)
      → Halts (turn_within b agent again loop objective r answer limit) s
  unfolding turn_within ◌>>=◌ gets
  turn_within-Halts again loop objective answer r (some name) s below h k =
      stop_exceeded-Halts name answer s
  turn_within-Halts again loop objective answer r none s below h k =
      turn-Halts again loop objective answer r _ s (below refl) h k

  -- Fuel above the steps left and the replans left together is enough: then the loop ends for the
  -- program's reasons (it stops with its answer, or an exception leaves it), never for the fuel's.
  pub run_loop_halts :
      (fuel : ℕ) (objective : String) (replans_left : ℕ) (answer : String) (s : Run W)
      → (s.budget.max_steps - s.budget.steps_used) + replans_left < fuel
      → (run_loop b agent fuel objective replans_left answer s).0 ≢ ok out_of_fuel
  unfolding run_loop checked
  run_loop_halts zero objective r answer s h = omega arith
  run_loop_halts (suc fuel) objective r answer s h =
      let e = checked-turns_left s r in
      bind-avoids out_of_fuel _ _ s λ limit got.
        turn_within-Halts _ _ objective answer r limit (checked s) (below_limit s limit got)
          (λ t (m : turns_left t (pred r) < turns_left (checked s) r).
            run_loop_halts fuel objective (pred r) answer t (omega arith))
          (λ t x (m : turns_left t r < turns_left (checked s) r).
            run_loop_halts fuel objective r x t (omega arith))
