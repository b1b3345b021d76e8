-- ===== src/Engine/Retries.antt =====
-- The reflections of `HeuristicReasoner` (davinci/engine.py).
use davinci_agent.Prelude.{◌+◌, ◌≡◌, refl, ◌<>◌, not, List, [], ◌∷◌, map, length, arith}
use davinci_agent.Planning.Defs.{failed, pending, PlanStep, Plan, has_failures, count_status}
use davinci_agent.Planning.Ops.{replan_failed}
use davinci_agent.Planning.Replan.{replan_failed_counts}
use davinci_agent.Planning.Status.{queries_by_counts}
use davinci_agent.Engine.Offline.{failed_titles, reflect}

length-retries :
    (steps : List PlanStep)
    → length (map (λ t. "Retry: " <> t) (failed_titles steps)) ≡ count_status failed steps
unfolding count_status
length-retries [] = refl
length-retries (s ∷ steps) = ground (arith, length-retries steps)

length-replan_titles : (p : Plan) → length (reflect p).replan_titles ≡ count_status failed p.steps
unfolding reflect
length-replan_titles p = ground (arith, length-retries p.steps, queries_by_counts p)

-- The heuristic reasoner is satisfied exactly with a plan without failures; and a replan with its
-- titles leaves no failed step and has one new pending step for each step that had failed.
pub reflect-replan_failed :
    (p : Plan)
    → ((reflect p).satisfied ≡ not (has_failures p))
      × (count_status failed (replan_failed p (reflect p).replan_titles).steps ≡ 0)
      × (count_status pending (replan_failed p (reflect p).replan_titles).steps
          ≡ count_status pending p.steps + count_status failed p.steps)
reflect-replan_failed p =
    let counts = replan_failed_counts p (reflect p).replan_titles in
    (unfold reflect in ground arith, counts.0, omega (arith, counts, length-replan_titles p))
