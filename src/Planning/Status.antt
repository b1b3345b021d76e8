-- ===== src/Planning/Status.antt =====
-- The questions to a `Plan` (davinci/planning.py) and the counts of `progress`.
use davinci_agent.Prelude.{
  ◌+◌, ◌≡◌, refl, Bool, true, false, ◌&&◌, ◌||◌, Option, none, some, List, [], ◌∷◌, arith, length,
  any, all, find?, ltb, eqb,
}
use davinci_agent.Planning.Defs.{
  pending, in_progress, done, failed, skipped, is_status, PlanStep, Plan, next_pending, is_complete,
  has_failures, count_status,
}

abbrev pub is_some {ℓ} : {A : Type ℓ} → Option A → Bool
is_some none = false
is_some (some a) = true

-- The five counts of `progress` add up to its total.
pub count_status-sum :
    (steps : List PlanStep)
    → count_status pending steps
        + count_status in_progress steps
        + count_status done steps
        + count_status failed steps
        + count_status skipped steps
      ≡ length steps
unfolding count_status
count_status-sum [] = omega arith
count_status-sum (s ∷ steps) = ground (arith, count_status-sum steps)

any-failed :
    (steps : List PlanStep)
    → any (λ s. is_status failed s.status) steps ≡ ltb 0 (count_status failed steps)
unfolding count_status
any-failed [] = refl
any-failed (s ∷ steps) = ground (arith, any-failed steps)

find?-pending :
    (steps : List PlanStep)
    → is_some (find? (λ s. is_status pending s.status) steps) ≡ ltb 0 (count_status pending steps)
unfolding count_status
find?-pending [] = refl
find?-pending (s ∷ steps) = ground (arith, find?-pending steps)

all_settled :
    (steps : List PlanStep)
    → all (λ s. is_status done s.status || is_status skipped s.status) steps
      ≡ eqb (count_status done steps + count_status skipped steps) (length steps)
unfolding count_status
all_settled [] = refl
all_settled (s ∷ steps) = ground (arith, all_settled steps, count_status-sum steps)

-- A plan has failures exactly when some step is counted failed, has a next step exactly when some
-- step is counted pending, and is complete exactly when the steps done and skipped are all of them
-- and there is one.
pub queries_by_counts :
    (p : Plan)
    → (has_failures p ≡ ltb 0 (count_status failed p.steps))
      × (is_some (next_pending p) ≡ ltb 0 (count_status pending p.steps))
      × (is_complete p ≡ (
          eqb (count_status done p.steps + count_status skipped p.steps) (length p.steps)
          && ltb 0 (length p.steps)))
unfolding has_failures next_pending is_complete
queries_by_counts p =
    (any-failed p.steps, find?-pending p.steps, ground (arith, all_settled p.steps))

-- A complete plan has no step left to run and no failure.
pub is_complete_settled :
    (p : Plan) → is_complete p ≡ true → (next_pending p ≡ none) × (has_failures p ≡ false)
is_complete_settled p h = (
  ground (arith, queries_by_counts p, count_status-sum p.steps),
  ground (arith, queries_by_counts p, count_status-sum p.steps),
)
