-- ===== src/Planning/Replan.antt =====
-- `Plan.replan_failed` (davinci/planning.py) and the counts of `progress`.
use davinci_agent.Prelude.{
  suc, ◌+◌, String, ◌≡◌, refl, List, [], ◌∷◌, ◌++◌, map, arith, length, length-append, ap,
  if◌then◌else◌,
}
use davinci_agent.Planning.Defs.{
  StepStatus, pending, in_progress, done, failed, skipped, is_status, PlanStep, Plan, count_status,
}
use davinci_agent.Planning.Ops.{add_step, add_steps, skip_failed, replan_failed}

count_status-append :
    (t : StepStatus) (xs ys : List PlanStep)
    → count_status t (xs ++ ys) ≡ count_status t xs + count_status t ys
unfolding count_status
count_status-append t [] ys = omega arith
count_status-append t (s ∷ xs) ys = ground (arith, count_status-append t xs ys)

count_status-add_step :
    (t : StepStatus) (title category rationale : String) (p : Plan)
    → count_status t (add_step p title category rationale).steps
      ≡ count_status t p.steps + (if is_status t pending then 1 else 0)
unfolding add_step
count_status-add_step t title category rationale p =
    rw count_status-append (unfold count_status in ground arith)

count_status-add_steps :
    (t : StepStatus) (titles : List String) (category rationale : String) (p : Plan)
    → count_status t (add_steps p titles category rationale).steps
      ≡ count_status t p.steps + (if is_status t pending then length titles else 0)
unfolding add_steps
count_status-add_steps t [] category rationale p = ground arith
count_status-add_steps t (title ∷ titles) category rationale p = ground (
  arith,
  count_status-add_steps t titles category rationale (add_step p title category rationale),
  count_status-add_step t title category rationale p,
)

revision-add_steps :
    (titles : List String) (category rationale : String) (p : Plan)
    → (add_steps p titles category rationale).revision ≡ p.revision
unfolding add_steps add_step
revision-add_steps [] category rationale p = refl
revision-add_steps (title ∷ titles) category rationale p =
    revision-add_steps titles category rationale (add_step p title category rationale)

count_status-skip_failed :
    (t : StepStatus) (steps : List PlanStep)
    → count_status t (map skip_failed steps) ≡ (
        if is_status failed t
        then 0
        else if is_status skipped t
        then count_status skipped steps + count_status failed steps
        else count_status t steps)
unfolding count_status
count_status-skip_failed t [] = ground arith
count_status-skip_failed t (s ∷ steps) = ground (arith, count_status-skip_failed t steps)

length-add_steps :
    (titles : List String) (category rationale : String) (p : Plan)
    → length (add_steps p titles category rationale).steps ≡ length p.steps + length titles
unfolding add_steps add_step
length-add_steps [] category rationale p = omega arith
length-add_steps (title ∷ titles) category rationale p =
    let q : Plan = add_step p title category rationale in
    omega (arith, length-add_steps titles category rationale q, length-append {0} p.steps)

-- Replanning leaves no failed step: those count as skipped, each new title is one more pending
-- step, the steps done and in progress stay, and the revision goes up by one.
pub replan_failed_counts :
    (p : Plan) (titles : List String)
    → (count_status failed (replan_failed p titles).steps ≡ 0)
      × (count_status skipped (replan_failed p titles).steps
          ≡ count_status skipped p.steps + count_status failed p.steps)
      × (count_status pending (replan_failed p titles).steps
          ≡ count_status pending p.steps + length titles)
      × (count_status done (replan_failed p titles).steps ≡ count_status done p.steps)
      × (count_status in_progress (replan_failed p titles).steps ≡ count_status in_progress p.steps)
      × ((replan_failed p titles).revision ≡ suc p.revision)
unfolding replan_failed
replan_failed_counts p titles =
    let q : Plan = record p { steps = map skip_failed p.steps } in
    let added : (t : StepStatus) → _ =
      λ t. count_status-add_steps t titles "replan" "Inserted by replan-on-failure" q in
    let skipping : (t : StepStatus) → _ = λ t. count_status-skip_failed t p.steps in
    (
      omega (arith, added failed, skipping failed),
      omega (arith, added skipped, skipping skipped),
      omega (arith, added pending, skipping pending),
      omega (arith, added done, skipping done),
      omega (arith, added in_progress, skipping in_progress),
      ap suc (revision-add_steps titles "replan" "Inserted by replan-on-failure" q),
    )
