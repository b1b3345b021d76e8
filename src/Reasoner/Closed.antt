-- ===== src/Reasoner/Closed.antt =====
-- The plans that `LLMReasoner.make_plan` (davinci/reasoner.py) makes of a reply.
use davinci_agent.Prelude.{
  String, ◌≡◌, refl, true, Option, some, List, [], ◌∷◌, ◌++◌, Option-cases, Bool-cases, inl, inr,
  ◌==◌,
}
use davinci_agent.Prelude.Text.{strip}
use davinci_agent.Prelude.Value.{Value, list, dict, Items, nil, cons}
use davinci_agent.Planning.Defs.{PlanStep, Plan}
use davinci_agent.Planning.Ops.{new_plan, add_step, add_work, heuristic_plan}
use davinci_agent.Planning.Numbering.{
  IsNumbered, add_step-IsNumbered, new_plan-IsNumbered, heuristic_plan-IsNumbered,
}
use davinci_agent.Reasoner.Group.{text_or}
use davinci_agent.Reasoner.Decide.{
  add_steps, with_answer, last_category, is_final, plan_of_steps, make_plan, parsed_reply, steps_in,
}

-- Numbered 1, 2, 3, …, and the last step is there and composes the answer.
pub record IsClosed (p : Plan) : Type 0 where
  pub numbered : IsNumbered p
  pub last : String
  pub ends : last_category p.steps ≡ some last
  pub final : is_final last ≡ true

last_category-snoc :
    (steps : List PlanStep) (s : PlanStep) → last_category (steps ++ s ∷ []) ≡ some s.category
last_category-snoc [] s = refl
last_category-snoc (t ∷ []) s = refl
last_category-snoc (t ∷ u ∷ steps) s = last_category-snoc (u ∷ steps) s

closing-IsClosed :
    (p : Plan) (title category rationale : String)
    → IsNumbered p
    → is_final category ≡ true
    → IsClosed (add_step p title category rationale)
unfolding add_step
closing-IsClosed p title category rationale h final = record {
  numbered = unfold add_step in add_step-IsNumbered p h title category rationale;
  last = category;
  ends = last_category-snoc p.steps _;
  final = final;
}

add_steps-IsNumbered : (vs : Items) (p : Plan) → IsNumbered p → IsNumbered (add_steps vs p)
unfolding add_steps
add_steps-IsNumbered nil p h = h
add_steps-IsNumbered (cons (dict s) vs) p h =
    elim (Bool-cases (strip (text_or "title" "" s) == "")) [
      | inl empty ↦ rw (add_steps, empty) (add_steps-IsNumbered vs p h)
      | inr titled ↦
          rw (add_steps, titled) (add_steps-IsNumbered vs _ (add_step-IsNumbered p h _ _ _))
    ]
add_steps-IsNumbered (cons v vs) p h = add_steps-IsNumbered vs p h

with_answer-IsClosed :
    (heuristic p : Plan) → IsClosed heuristic → IsNumbered p → IsClosed (with_answer heuristic p)
unfolding with_answer
with_answer-IsClosed heuristic p h numbered = elim (Option-cases (last_category p.steps)) [
  | inl empty ↦ rw (with_answer, empty) h
  | inr (c, ends) ↦ elim (Bool-cases (is_final c)) [
    | inl final ↦
        rw (with_answer, ends, final)
          (record { numbered = numbered; last = c; ends = ends; final = final })
    | inr open_ ↦ rw (with_answer, ends, open_) (closing-IsClosed p _ "result" _ numbered refl)
  ]
]

plan_of_steps-IsClosed :
    (objective now : String) (heuristic : Plan) (steps : Option Value)
    → IsClosed heuristic
    → IsClosed (plan_of_steps objective now heuristic steps)
unfolding plan_of_steps
plan_of_steps-IsClosed objective now heuristic (some (list (cons v vs))) h =
    with_answer-IsClosed heuristic _ h (
      add_steps-IsNumbered (cons v vs) (new_plan objective now) (new_plan-IsNumbered objective now))
plan_of_steps-IsClosed objective now heuristic _ h = h

add_step-ends :
    (p : Plan) (title category rationale : String)
    → last_category (add_step p title category rationale).steps ≡ some category
unfolding add_step
add_step-ends p title category rationale = last_category-snoc p.steps _

heuristic_ends :
    (now objective : String) (required : List String)
    → last_category (heuristic_plan now objective required).steps ≡ some "synthesis"
unfolding heuristic_plan
heuristic_ends now objective required =
    let first =
      add_step (new_plan objective now) "Clarify objective and success criteria" "analysis"
        "Establish what 'done' means before acting." in
    add_step-ends
      (add_step (add_work first required) "Verify results against success criteria" "verification"
        "Self-check before reporting (reflection).")
      "Synthesize a final answer" "synthesis" "Combine step results into a coherent response."

heuristic_plan-IsClosed :
    (now objective : String) (required : List String)
    → IsClosed (heuristic_plan now objective required)
heuristic_plan-IsClosed now objective required = record {
  numbered = heuristic_plan-IsNumbered now objective required;
  last = "synthesis";
  ends = heuristic_ends now objective required;
  final = refl;
}

-- Whatever the model replies, the plan is numbered 1, 2, 3, …, is not empty and ends in a step that
-- composes the answer.
pub make_plan-IsClosed :
    (loads : String → Option Value) (objective now : String) (required : List String)
    (text : String)
    → IsClosed (make_plan loads objective now (heuristic_plan now objective required) text)
unfolding make_plan
make_plan-IsClosed loads objective now required text =
    plan_of_steps-IsClosed objective now (heuristic_plan now objective required)
      (steps_in loads (parsed_reply loads text)) (heuristic_plan-IsClosed now objective required)
