-- ===== src/Engine/Spending.antt =====
-- What an action of a run of `DavinciAgent` (davinci/engine.py) charges to the budget.
use davinci_agent.Prelude.{
  ℕ, ◌+◌, ◌≤◌, ◌≡◌, subst, String, Bool, true, false, Option, arith, if◌then◌else◌,
}
use davinci_agent.Prelude.Value.{Fields}
use davinci_agent.Planning.Defs.{Plan}
use davinci_agent.Memory.Working.{WorkingMemory}
use davinci_agent.Prelude.Int.{ℤ}
use davinci_agent.Observability.Budget.{Budget, charge_step, charge_tool_call, charge_tokens}
use davinci_agent.Engine.Defs.{Result, ok, raised, Review, Backend, Run}
use davinci_agent.Engine.Monad.{
  M, ◌>>=◌, pure, throw, gets, ask, try_ask, on_budget, on_plan, on_working, set_plan, set_seen,
  add_review, set_delivered, now, record_event, continue,
}

-- The limits stay, and so many more steps and at most so many more tool calls are charged.
pub record Charged (steps calls : ℕ) (x y : Budget) : Type 0 where
  pub max_steps : y.max_steps ≡ x.max_steps
  pub max_tool_calls : y.max_tool_calls ≡ x.max_tool_calls
  pub steps_used : y.steps_used ≡ x.steps_used + steps
  pub tool_calls_used : y.tool_calls_used ≤ x.tool_calls_used + calls

-- An action charges that, whether it returns or raises.
pub record Spends {W A : Type 0} (steps calls : ℕ) (m : M W A) : Type 0 where
  pub at : (s : Run W) → Charged steps calls s.budget (m s).1.budget

module _ {W A : Type 0} where
  pub Spends-pure : (a : A) → Spends 0 0 (pure {W = W} a)
  unfolding pure
  Spends-pure a = record { at = λ s. omega arith }

  pub Spends-throw : (e : String) → Spends 0 0 (throw {W = W} {A = A} e)
  unfolding throw
  Spends-throw e = record { at = λ s. omega arith }

  pub Spends-gets : (f : Run W → A) → Spends 0 0 (gets f)
  unfolding gets
  Spends-gets f = record { at = λ s. omega arith }

  pub Spends-ask : (f : W → Result A × W) → Spends 0 0 (ask f)
  unfolding ask
  Spends-ask f = record { at = λ s. omega arith }

  pub Spends-try_ask : (f : W → Result A × W) → Spends 0 0 (try_ask f)
  unfolding try_ask
  Spends-try_ask f = record { at = λ s. omega arith }

  pub Spends-if :
      (c : Bool) (calls : ℕ) (m n : M W A)
      → Spends 0 calls m
      → Spends 0 calls n
      → Spends 0 calls (if c then m else n)
  Spends-if true calls m n h k = h
  Spends-if false calls m n h k = k

module _ {W A B : Type 0} (steps calls more : ℕ) (f : A → M W B)
    (k : (a : A) → Spends 0 more (f a)) where
  continue-Charged :
      (r : Result A) (x : Budget) (t : Run W)
      → Charged steps calls x t.budget
      → Charged steps (calls + more) x (continue r f t).1.budget
  continue-Charged (ok a) x t h = let rest = (k a).at t in omega arith
  continue-Charged (raised e) x t h = omega arith

  -- what comes after a raise is not charged
  pub Spends-seq : (m : M W A) → Spends steps calls m → Spends steps (calls + more) (m >>= f)
  unfolding ◌>>=◌
  Spends-seq m h = record { at = λ s. let (r, t) = m s in continue-Charged r s.budget t (h.at s) }

module _ {W A B : Type 0} where
  pub Spends-bind :
      (steps calls : ℕ) (m : M W A) (f : A → M W B)
      → Spends steps 0 m
      → ((a : A) → Spends 0 calls (f a))
      → Spends steps calls (m >>= f)
  Spends-bind steps calls m f h k =
      let e : 0 + calls ≡ calls = omega arith in
      subst (λ n. Spends steps n (m >>= f)) e (Spends-seq steps 0 calls f k m h)

module _ {W : Type 0} where
  pub Spends-on_plan : (f : Plan → Option Plan) → Spends 0 0 (on_plan {W = W} f)
  unfolding on_plan
  Spends-on_plan f = record { at = λ s. ground arith }

  pub Spends-on_working : (f : WorkingMemory → WorkingMemory) → Spends 0 0 (on_working {W = W} f)
  unfolding on_working
  Spends-on_working f = record { at = λ s. omega arith }

  pub Spends-set_plan : (p : Plan) → Spends 0 0 (set_plan {W = W} p)
  unfolding set_plan
  Spends-set_plan p = record { at = λ s. omega arith }

  pub Spends-set_seen : (key : String) (n : ℕ) → Spends 0 0 (set_seen {W = W} key n)
  unfolding set_seen
  Spends-set_seen key n = record { at = λ s. omega arith }

  pub Spends-add_review : (r : Review) → Spends 0 0 (add_review {W = W} r)
  unfolding add_review
  Spends-add_review r = record { at = λ s. omega arith }

  pub Spends-set_delivered : (d : Bool) → Spends 0 0 (set_delivered {W = W} d)
  unfolding set_delivered
  Spends-set_delivered d = record { at = λ s. omega arith }

  pub Spends-now : (b : Backend W) → Spends 0 0 (now b)
  unfolding now
  Spends-now b = record { at = λ s. omega arith }

  pub Spends-record_event :
      (b : Backend W) (kind message : String) (details : Fields)
      → Spends 0 0 (record_event b kind message details)
  unfolding record_event
  Spends-record_event b kind message details = record { at = λ s. omega arith }

  pub Spends-tokens : (n : ℤ) → Spends 0 0 (on_budget {W = W} (charge_tokens n))
  unfolding on_budget charge_tokens
  Spends-tokens n = record { at = λ s. omega arith }

  pub Spends-tool_call : Spends 0 1 (on_budget {W = W} charge_tool_call)
  unfolding on_budget charge_tool_call
  Spends-tool_call = record { at = λ s. omega arith }

  pub Spends-step : Spends 1 0 (on_budget {W = W} charge_step)
  unfolding on_budget charge_step
  Spends-step = record { at = λ s. omega arith }

  -- no call is at most one
  pub Spends-weaken : {A : Type 0} (m : M W A) → Spends 0 0 m → Spends 0 1 m
  Spends-weaken m h = record { at = λ s. let c = h.at s in omega arith }

pub ruleset spends = (
  Spends-pure, Spends-throw, Spends-gets, Spends-ask, Spends-try_ask, Spends-if, Spends-bind,
  Spends-on_plan, Spends-on_working, Spends-set_plan, Spends-set_seen, Spends-add_review,
  Spends-set_delivered, Spends-now, Spends-record_event, Spends-tokens,
)
