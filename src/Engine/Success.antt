-- ===== src/Engine/Success.antt =====
-- What `DavinciAgent.run` (davinci/engine.py) reports as a success.
use davinci_agent.Prelude.{
  ℕ, ◌<◌, ◌≡◌, refl, ap, ◌∙◌, String, Bool, true, false, Option, none, some, arith, if◌then◌else◌,
}
use davinci_agent.Planning.Defs.{Plan, is_complete, has_failures}
use davinci_agent.Observability.Budget.{Budget}
use davinci_agent.Observability.Limits.{exceeded-none_iff}
use davinci_agent.Prelude.Value.{Fields}
use davinci_agent.Engine.Defs.{Result, ok, raised, Backend, Agent, Run}
use davinci_agent.Engine.Monad.{M, ◌>>=◌, pure, gets, try_ask, now, record_event, continue}
use davinci_agent.Engine.Loop.{Stop, out_of_fuel, stopped, check_budget, run_loop}
use davinci_agent.Engine.Entry.{
  Ending, finished, RunResult, Request, begin, after_synthesis, final_answer, judge, resolve_answer,
  conclude, after_loop, run,
}

-- The plan is complete without a failure, and there are steps and tool calls left.
pub record IsSettled {W : Type 0} (s : Run W) : Type 0 where
  pub complete : is_complete s.plan ≡ true
  pub no_failures : has_failures s.plan ≡ false
  pub steps_left : s.budget.steps_used < s.budget.max_steps
  pub calls_left : s.budget.tool_calls_used < s.budget.max_tool_calls

-- an action that changes neither the plan nor the budget
record Spares {W A : Type 0} (m : M W A) : Type 0 where
  at : (s : Run W) → ((m s).1.plan ≡ s.plan) × ((m s).1.budget ≡ s.budget)

module _ {W A : Type 0} where
  Spares-pure : (a : A) → Spares (pure {W = W} a)
  unfolding pure
  Spares-pure a = record { at = λ s. (refl, refl) }

  Spares-gets : (f : Run W → A) → Spares (gets f)
  unfolding gets
  Spares-gets f = record { at = λ s. (refl, refl) }

  Spares-try_ask : (f : W → Result A × W) → Spares (try_ask f)
  unfolding try_ask
  Spares-try_ask f = record { at = λ s. (refl, refl) }

  Spares-if : (c : Bool) (m n : M W A) → Spares m → Spares n → Spares (if c then m else n)
  Spares-if true m n h k = h
  Spares-if false m n h k = k

  Spares-IsSettled : (m : M W A) (s : Run W) → Spares m → IsSettled s → IsSettled (m s).1
  Spares-IsSettled m s h k =
      let same = h.at s in
      record {
        complete = rw same.0 k.complete;
        no_failures = rw same.0 k.no_failures;
        steps_left = rw same.1 k.steps_left;
        calls_left = rw same.1 k.calls_left;
      }

module _ {W : Type 0} where
  Spares-now : (b : Backend W) → Spares (now b)
  unfolding now
  Spares-now b = record { at = λ s. (refl, refl) }

  Spares-record_event :
      (b : Backend W) (kind message : String) (details : Fields)
      → Spares (record_event b kind message details)
  unfolding record_event
  Spares-record_event b kind message details = record { at = λ s. (refl, refl) }

module _ {W A B : Type 0} where
  continue-Spares :
      (r : Result A) (f : A → M W B) (x : Plan) (y : Budget) (t : Run W)
      → ((a : A) → Spares (f a))
      → (t.plan ≡ x) × (t.budget ≡ y)
      → ((continue r f t).1.plan ≡ x) × ((continue r f t).1.budget ≡ y)
  continue-Spares (ok a) f x y t k h = let same = (k a).at t in (same.0 ∙ h.0, same.1 ∙ h.1)
  continue-Spares (raised e) f x y t k h = h

  Spares-bind : (m : M W A) (f : A → M W B) → Spares m → ((a : A) → Spares (f a)) → Spares (m >>= f)
  unfolding ◌>>=◌
  Spares-bind m f h k = record {
    at = λ s. continue-Spares (m s).0 f s.plan s.budget (m s).1 k (h.at s);
  }

ruleset spares = (
  Spares-pure, Spares-gets, Spares-try_ask, Spares-if, Spares-now, Spares-record_event, Spares-bind,
)

-- what holds of the value and the run where an action returns
abbrev Gives : {W B : Type 0} → (B → Run W → Type 0) → M W B → Run W → Type 0
Gives {B = B} P m s = (b : B) → (m s).0 ≡ ok b → P b (m s).1

module _ {W A B : Type 0} (P : B → Run W → Type 0) where
  continue-Gives :
      (r : Result A) (f : A → M W B) (t : Run W)
      → ((a : A) → r ≡ ok a → Gives P (f a) t)
      → (b : B) → (continue r f t).0 ≡ ok b
      → P b (continue r f t).1
  continue-Gives (ok a) f t h b e = h a refl b e
  continue-Gives (raised x) f t h b e = absurd (ground arith)

  bind-Gives :
      (m : M W A) (f : A → M W B) (s : Run W)
      → ((a : A) → (m s).0 ≡ ok a → Gives P (f a) (m s).1)
      → Gives P (m >>= f) s
  unfolding ◌>>=◌
  bind-Gives m f s h = continue-Gives (m s).0 f (m s).1 h

-- a success is settled
abbrev IsHonest : {W : Type 0} → Ending → Run W → Type 0
IsHonest e t = (r : RunResult) → e ≡ finished r → r.success ≡ true → IsSettled t

module _ {W : Type 0} (b : Backend W) (agent : Agent) where
  check_budget-Spares : Spares (check_budget b agent)
  unfolding check_budget
  check_budget-Spares = search spares

  judge-Spares : Spares (judge b agent)
  unfolding judge
  judge-Spares = search (spares, check_budget-Spares)

  judge-IsSettled : (s : Run W) → (judge b agent s).0 ≡ ok true → IsSettled s
  unfolding judge check_budget ◌>>=◌ gets now pure
  judge-IsSettled s h = ground (arith, exceeded-none_iff s.budget (b.clock s.world).0)

  after_synthesis-Spares : (r : Result (Option String)) → Spares (after_synthesis b agent r)
  unfolding after_synthesis
  after_synthesis-Spares (ok answer) = search spares
  after_synthesis-Spares (raised exc) = search spares

  final_answer-Spares :
      (objective : String) (synth : Option _) → Spares (final_answer b agent objective synth)
  unfolding final_answer
  final_answer-Spares objective none = search spares
  final_answer-Spares objective (some synth) = search (spares, after_synthesis-Spares)

  resolve_answer-Spares :
      (objective answer : String) (delivered : Bool)
      → Spares (resolve_answer b agent objective answer delivered)
  unfolding resolve_answer
  resolve_answer-Spares objective answer true = search spares
  resolve_answer-Spares objective answer false = search (spares, final_answer-Spares)

  finished-IsHonest :
      (r : RunResult) (s : Run W)
      → (r.success ≡ true → IsSettled s)
      → Gives IsHonest (pure (finished r)) s
  unfolding pure
  finished-IsHonest r s h e got r' same good =
      let eq : finished r ≡ finished r' = cc in
      let eq' : r.success ≡ r'.success = cc in h (eq' ∙ good)

  conclude-IsHonest :
      (q : Request) (answer : String) (s : Run W) → Gives IsHonest (conclude b agent q answer) s
  unfolding conclude
  conclude-IsHonest q answer s = bind-Gives IsHonest _ _ s λ success got.
      bind-Gives IsHonest _ _ _ λ delivered _. bind-Gives IsHonest _ _ _ λ final _.
        bind-Gives IsHonest _ _ _ λ _ _. bind-Gives IsHonest _ _ _ λ reviews _.
          finished-IsHonest _ _ λ good. Spares-IsSettled _ _ (Spares-gets _) (
            Spares-IsSettled _ _ (Spares-record_event b _ _ _) (
              Spares-IsSettled _ _ (resolve_answer-Spares q.objective answer _) (
                Spares-IsSettled _ _ (Spares-gets _)
                  (Spares-IsSettled _ _ judge-Spares (judge-IsSettled s (got ∙ ap ok good))))))

  after_loop-IsHonest :
      (q : Request) (stop : Stop) (s : Run W) → Gives IsHonest (after_loop b agent q stop) s
  unfolding after_loop pure
  after_loop-IsHonest q out_of_fuel s = λ e got r same good. absurd (ground arith)
  after_loop-IsHonest q (stopped answer) s = conclude-IsHonest q answer s

  -- Where a run reports success, its plan is complete, no step of it has failed, and it ends with
  -- fewer steps and tool calls charged than the limits.
  pub run_success :
      (fuel : ℕ) (q : Request) (s : Run W) (r : RunResult)
      → (run b agent fuel q s).0 ≡ ok (finished r)
      → r.success ≡ true
      → IsSettled (run b agent fuel q s).1
  unfolding run
  run_success fuel q s r got good =
      bind-Gives IsHonest (begin b agent q) _ s
        (λ _ _.
          bind-Gives IsHonest (run_loop b agent fuel q.objective q.replan_budget "") _ _
            (λ stop _. after_loop-IsHonest q stop _))
        (finished r) got r refl good
