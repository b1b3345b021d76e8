-- ===== src/Planning/Numbering.antt =====
-- The ids of the steps of a `Plan` (davinci/planning.py).
use davinci_agent.Prelude.{
  ℕ, suc, ◌+◌, ◌≡◌, refl, Bool, ◌&&◌, none, some, List, [], ◌∷◌, ◌++◌, map, arith, length,
  length-append, any, String, ◌∙◌, leb, ltb, eqb, if◌then◌else◌, Bool-cases, inl, inr,
}
use mathlib.Core.Option
use davinci_agent.Planning.Defs.{PlanStep, Plan}
use davinci_agent.Planning.Ops.{
  new_plan, add_step, add_steps, get_step, update_step, skip_failed, replan_failed, add_categories,
  heuristic_plan, add_work,
}

abbrev pub NumberedFrom : ℕ → List PlanStep → Type 0
NumberedFrom k [] = Unit
NumberedFrom k (s ∷ steps) = (s.id ≡ k) × NumberedFrom (suc k) steps

pub record IsNumbered (p : Plan) : Type 0 where
  pub numbers : NumberedFrom 1 p.steps
  pub next : p.next_id ≡ suc (length p.steps)

NumberedFrom-snoc :
    (k : ℕ) (steps : List PlanStep) (s : PlanStep)
    → s.id ≡ k + length steps
    → NumberedFrom k steps
    → NumberedFrom k (steps ++ s ∷ [])
NumberedFrom-snoc k [] s e h = (omega arith, tt)
NumberedFrom-snoc k (t ∷ steps) s e h = (h.0, NumberedFrom-snoc (suc k) steps s (omega arith) h.1)

NumberedFrom-skip_failed :
    (k : ℕ) (steps : List PlanStep) → NumberedFrom k steps → NumberedFrom k (map skip_failed steps)
NumberedFrom-skip_failed k [] h = tt
NumberedFrom-skip_failed k (s ∷ steps) h =
    (ground arith, NumberedFrom-skip_failed (suc k) steps h.1)

pub length-skip_failed : (steps : List PlanStep) → length (map skip_failed steps) ≡ length steps
length-skip_failed [] = refl
length-skip_failed (s ∷ steps) = omega (arith, length-skip_failed steps)

-- the write to the first step of that id, or to none
abbrev pub modify : ℕ → (PlanStep → PlanStep) → List PlanStep → List PlanStep
modify step_id f [] = []
modify step_id f (s ∷ steps) =
    let rest = modify step_id f steps in if eqb s.id step_id then f s ∷ steps else s ∷ rest

abbrev pub has_id : ℕ → List PlanStep → Bool
has_id step_id steps = any (λ s. eqb s.id step_id) steps

pub update_step-eq-modify :
    (step_id : ℕ) (f : PlanStep → PlanStep) (steps : List PlanStep)
    → update_step step_id f steps
      ≡ (if has_id step_id steps then some (modify step_id f steps) else none)
unfolding update_step
update_step-eq-modify step_id f [] = refl
update_step-eq-modify step_id f (s ∷ steps) = ground (arith, update_step-eq-modify step_id f steps)

pub length-modify :
    (step_id : ℕ) (f : PlanStep → PlanStep) (steps : List PlanStep)
    → length (modify step_id f steps) ≡ length steps
length-modify step_id f [] = refl
length-modify step_id f (s ∷ steps) = ground (arith, length-modify step_id f steps)

-- A write that leaves the id alone.
module _ (f : PlanStep → PlanStep) (keeps : (s : PlanStep) → (f s).id ≡ s.id) where
  pub modify-NumberedFrom :
      (step_id k : ℕ) (steps : List PlanStep)
      → NumberedFrom k steps
      → NumberedFrom k (modify step_id f steps)
  modify-NumberedFrom step_id k [] h = tt
  modify-NumberedFrom step_id k (s ∷ steps) h = elim (Bool-cases (eqb s.id step_id)) [
    | inl e ↦ rw e (keeps s ∙ h.0, h.1)
    | inr e ↦ rw e (h.0, modify-NumberedFrom step_id (suc k) steps h.1)
  ]

  pub get_step-modify :
      (step_id other : ℕ) (steps : List PlanStep)
      → get_step other (modify step_id f steps)
        ≡ (if eqb step_id other then Option.map f (get_step other steps) else get_step other steps)
  unfolding get_step
  get_step-modify step_id other [] = ground arith
  get_step-modify step_id other (s ∷ steps) =
      ground (arith, keeps s, get_step-modify step_id other steps)

-- In a numbered list the ids are those from the first number on.
pub has_id-NumberedFrom :
    (step_id k : ℕ) (steps : List PlanStep)
    → NumberedFrom k steps
    → has_id step_id steps ≡ (leb k step_id && ltb step_id (k + length steps))
has_id-NumberedFrom step_id k [] h = ground arith
has_id-NumberedFrom step_id k (s ∷ steps) h =
    ground (arith, h.0, has_id-NumberedFrom step_id (suc k) steps h.1)

module _ (p : Plan) (h : IsNumbered p) where
  pub add_step-IsNumbered :
      (title category rationale : String) → IsNumbered (add_step p title category rationale)
  unfolding add_step
  add_step-IsNumbered title category rationale = record {
    numbers = NumberedFrom-snoc 1 p.steps _ (omega (arith, h.next)) h.numbers;
    next = omega (arith, h.next, length-append {0} p.steps);
  }

  pub modify-IsNumbered :
      (step_id : ℕ) (f : PlanStep → PlanStep)
      → ((s : PlanStep) → (f s).id ≡ s.id)
      → IsNumbered (record p { steps = modify step_id f p.steps })
  modify-IsNumbered step_id f keeps = record {
    numbers = modify-NumberedFrom f keeps step_id 1 p.steps h.numbers;
    next = omega (arith, h.next, length-modify step_id f p.steps);
  }

pub add_steps-IsNumbered :
    (titles : List String) (category rationale : String) (p : Plan)
    → IsNumbered p
    → IsNumbered (add_steps p titles category rationale)
unfolding add_steps
add_steps-IsNumbered [] category rationale p h = h
add_steps-IsNumbered (title ∷ titles) category rationale p h =
    add_steps-IsNumbered titles category rationale (add_step p title category rationale)
      (add_step-IsNumbered p h title category rationale)

add_categories-IsNumbered :
    (categories : List String) (p : Plan) → IsNumbered p → IsNumbered (add_categories p categories)
unfolding add_categories
add_categories-IsNumbered [] p h = h
add_categories-IsNumbered (c ∷ categories) p h =
    add_categories-IsNumbered categories _ (add_step-IsNumbered p h _ c _)

pub replan_failed-IsNumbered :
    (titles : List String) (p : Plan) → IsNumbered p → IsNumbered (replan_failed p titles)
unfolding replan_failed
replan_failed-IsNumbered titles p h =
    let q : Plan = record p { steps = map skip_failed p.steps } in
    let hq : IsNumbered q = record {
      numbers = NumberedFrom-skip_failed 1 p.steps h.numbers;
      next = omega (arith, h.next, length-skip_failed p.steps);
    } in
    let done = add_steps-IsNumbered titles "replan" "Inserted by replan-on-failure" q hq in
    record { numbers = done.numbers; next = done.next }

pub new_plan-IsNumbered : (objective now : String) → IsNumbered (new_plan objective now)
new_plan-IsNumbered objective now = record { numbers = tt; next = refl }

-- The plan that the default strategy makes for any objective and required categories has its steps
-- numbered 1, 2, 3, … in their order, and hands out the next number next.
pub heuristic_plan-IsNumbered :
    (now objective : String) (required : List String)
    → IsNumbered (heuristic_plan now objective required)
unfolding heuristic_plan add_work
heuristic_plan-IsNumbered now objective [] =
    add_step-IsNumbered _
      (add_step-IsNumbered _
        (add_step-IsNumbered _ (add_step-IsNumbered _ (new_plan-IsNumbered objective now) _ _ _) _ _
          _)
        _ _ _)
      _ _ _
heuristic_plan-IsNumbered now objective (c ∷ cs) =
    add_step-IsNumbered _
      (add_step-IsNumbered _
        (add_categories-IsNumbered (c ∷ cs) _
          (add_step-IsNumbered _ (new_plan-IsNumbered objective now) _ _ _))
        _ _ _)
      _ _ _
