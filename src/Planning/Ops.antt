-- ===== src/Planning/Ops.antt =====
-- The operations of `Plan` and the default strategy of `Planner`, of davinci/planning.py. `none` is
-- a `KeyError`.
use davinci_agent.Prelude.{
  ℕ, suc, String, ◌<>◌, Option, none, some, List, [], ◌∷◌, ◌++◌, map, eqb, if◌then◌else◌,
}
use davinci_agent.Planning.Defs.{
  StepStatus, pending, in_progress, done, failed, skipped, is_status, PlanStep, Plan,
}

-- `Plan(objective=…)` at a time
abbrev pub new_plan : String → String → Plan
new_plan objective now = record {
  objective = objective;
  steps = [];
  created_at_utc = now;
  revision = 0;
  next_id = 1;
}

-- `Plan.add_step`
unfoldable pub add_step : Plan → String → String → String → Plan
add_step p title category rationale = record p {
  steps =
      p.steps
      ++ record {
        id = p.next_id;
        title = title;
        category = category;
        rationale = rationale;
        status = pending;
        result = none;
        attempts = 0;
      }
        ∷ [];
  next_id = suc p.next_id;
}

-- `Plan._get`
unfoldable pub get_step : ℕ → List PlanStep → Option PlanStep
get_step step_id [] = none
get_step step_id (s ∷ steps) =
    let rest = get_step step_id steps in if eqb s.id step_id then some s else rest

-- A write to the step that `_get` finds.
unfoldable pub update_step : ℕ → (PlanStep → PlanStep) → List PlanStep → Option (List PlanStep)
update_step step_id f [] = none
update_step step_id f (s ∷ steps) =
    let rest = update_step step_id f steps in
    if eqb s.id step_id
    then some (f s ∷ steps)
    else (elim rest [ none ↦ none | some steps' ↦ some (s ∷ steps') ])

unfoldable pub with_step : Plan → ℕ → (PlanStep → PlanStep) → Option Plan
with_step p step_id f = elim (update_step step_id f p.steps) [
  | none ↦ none
  | some steps ↦ some (record p { steps = steps })
]

abbrev pub set_status : StepStatus → PlanStep → PlanStep
set_status status s = record s { status = status }

abbrev pub set_result : StepStatus → String → PlanStep → PlanStep
set_result status result s = record s { status = status; result = some result }

-- `Plan.start`
unfoldable pub start : Plan → ℕ → Option Plan
unfolding with_step
start p step_id = with_step p step_id (set_status in_progress)

-- `Plan.complete`
unfoldable pub complete : Plan → ℕ → String → Option Plan
unfolding with_step
complete p step_id result = with_step p step_id (set_result done result)

-- `Plan.fail`
unfoldable pub fail : Plan → ℕ → String → Option Plan
unfolding with_step
fail p step_id result = with_step p step_id (set_result failed result)

-- `step.attempts += 1`, on the step that `next_pending` returned
unfoldable pub count_attempt : Plan → ℕ → Option Plan
unfolding with_step
count_attempt p step_id = with_step p step_id (λ s. record s { attempts = suc s.attempts })

abbrev pub skip_failed : PlanStep → PlanStep
skip_failed s = if is_status failed s.status then set_status skipped s else s

unfoldable pub add_steps : Plan → List String → String → String → Plan
add_steps p [] category rationale = p
add_steps p (title ∷ titles) category rationale =
    add_steps (add_step p title category rationale) titles category rationale

-- `Plan.replan_failed`
unfoldable pub replan_failed : Plan → List String → Plan
unfolding add_steps
replan_failed p new_titles =
    let q =
      add_steps (record p { steps = map skip_failed p.steps }) new_titles "replan"
        "Inserted by replan-on-failure" in
    record q { revision = suc q.revision }

unfoldable pub add_categories : Plan → List String → Plan
add_categories p [] = p
add_categories p (category ∷ categories) =
    add_categories
      (add_step p ("Execute '" <> category <> "' work via the best-matching tool") category
        ("Objective requires the " <> category <> " capability."))
      categories

-- `if required_categories: … else: …`
unfoldable pub add_work : Plan → List String → Plan
unfolding add_categories
add_work p [] =
    add_step p "Select and invoke the appropriate tool(s)" "execution"
      "Route the task to a registered capability."
add_work p (category ∷ categories) = add_categories p (category ∷ categories)

-- `Planner._heuristic_plan`
unfoldable pub heuristic_plan : String → String → List String → Plan
unfolding add_work
heuristic_plan now objective required =
    let first =
      add_step (new_plan objective now) "Clarify objective and success criteria" "analysis"
        "Establish what 'done' means before acting." in
    add_step
      (add_step (add_work first required) "Verify results against success criteria" "verification"
        "Self-check before reporting (reflection).")
      "Synthesize a final answer" "synthesis" "Combine step results into a coherent response."
