-- ===== src/Engine/Ending.antt =====
-- `DavinciAgent.run` (davinci/engine.py) and its fuel.
use davinci_agent.Prelude.{ℕ, ◌+◌, ◌-◌, ◌<◌, ◌≢◌, String, List, [], ◌∷◌, arith}
use davinci_agent.Prelude.Value.{Items, nil, cons, Fields}
use davinci_agent.Engine.Defs.{ok, Backend, Agent, Run}
use davinci_agent.Engine.Monad.{pure, on_world, clear_reviews}
use davinci_agent.Engine.Loop.{Stop, out_of_fuel, stopped}
use davinci_agent.Engine.Entry.{
  no_fuel, finished, RunResult, Request, remember_messages, seed_attachments, seed_history, begin,
  conclude, after_loop, run,
}
use davinci_agent.Engine.Spending.{Spends, Spends-bind, Spends-on_working, spends}
use davinci_agent.Engine.Termination.{bind-avoids, run_loop_halts}

module _ {W : Type 0} (b : Backend W) (agent : Agent) where
  Spends-on_world : (f : W → W) → Spends 0 0 (on_world f)
  unfolding on_world
  Spends-on_world f = record { at = λ s. omega arith }

  Spends-clear_reviews : Spends 0 0 (clear_reviews {W = W})
  unfolding clear_reviews
  Spends-clear_reviews = record { at = λ s. omega arith }

  remember_messages-Spends : (ms : List Fields) → Spends 0 0 (remember_messages {W = W} ms)
  unfolding remember_messages
  remember_messages-Spends [] = search spends
  remember_messages-Spends (m ∷ ms) =
      Spends-bind 0 0 _ _ (Spends-on_working _) (λ _. remember_messages-Spends ms)

  seed_attachments-Spends : (atts : Items) → Spends 0 0 (seed_attachments b agent atts)
  unfolding seed_attachments
  seed_attachments-Spends nil = search spends
  seed_attachments-Spends (cons v vs) = search spends

  seed_history-Spends : (ms : List Fields) → Spends 0 0 (seed_history b agent ms)
  unfolding seed_history
  seed_history-Spends [] = search spends
  seed_history-Spends (m ∷ ms) = search (spends, remember_messages-Spends, Spends-on_world)

  pub begin-Spends : (q : Request) → Spends 0 0 (begin b agent q)
  unfolding begin
  begin-Spends q =
      search
        (
          spends, Spends-clear_reviews, Spends-on_world, seed_attachments-Spends,
          seed_history-Spends,
        )
        depth 14

  finished-avoids : (r : RunResult) (s : Run W) → (pure {W = W} (finished r) s).0 ≢ ok no_fuel
  unfolding pure
  finished-avoids r s = ground arith

  conclude-avoids :
      (q : Request) (answer : String) (s : Run W) → (conclude b agent q answer s).0 ≢ ok no_fuel
  unfolding conclude
  conclude-avoids q answer s = bind-avoids no_fuel _ _ s λ _ _. bind-avoids no_fuel _ _ _ λ _ _.
      bind-avoids no_fuel _ _ _
        λ _ _. bind-avoids no_fuel _ _ _ λ _ _. bind-avoids no_fuel _ _ _ λ _ _. finished-avoids _ _

  after_loop-avoids :
      (q : Request) (stop : Stop) (s : Run W)
      → stop ≢ out_of_fuel
      → (after_loop b agent q stop s).0 ≢ ok no_fuel
  unfolding after_loop
  after_loop-avoids q out_of_fuel s h = ground arith
  after_loop-avoids q (stopped answer) s h = conclude-avoids q answer s

  -- Fuel above the steps left in the budget and the request's replans together is enough for a
  -- run, whatever the reasoner, the planner and the executor do: the run ends for the program's
  -- reasons, with a result or with an exception.
  pub run_ends :
      (fuel : ℕ) (q : Request) (s : Run W)
      → (s.budget.max_steps - s.budget.steps_used) + q.replan_budget < fuel
      → (run b agent fuel q s).0 ≢ ok no_fuel
  unfolding run
  run_ends fuel q s h =
      let c = (begin-Spends q).at s in
      bind-avoids no_fuel _ _ s λ _ _. bind-avoids no_fuel _ _ _ λ stop got.
        let halts =
          run_loop_halts b agent fuel q.objective q.replan_budget "" (begin b agent q s).1
            (omega arith) in
        after_loop-avoids q stop _ (λ e. halts (cc))
