-- ===== src/Planning/Edits.antt =====
-- Sequences of the operations of `Plan` (davinci/planning.py), and the reach of its writes.
use davinci_agent.Prelude.{
  ℕ, String, ◌≡◌, refl, ◌&&◌, Option, none, some, List, [], ◌∷◌, arith, length, leb, eqb,
  if◌then◌else◌, Bool-cases, Option-cases, inl, inr, subst,
}
use mathlib.Core.Option
use davinci_agent.Planning.Defs.{in_progress, done, failed, PlanStep, Plan}
use davinci_agent.Planning.Ops.{
  new_plan, add_step, get_step, with_step, set_status, set_result, start, complete, fail,
  count_attempt, replan_failed,
}
use davinci_agent.Planning.Status.{is_some}
use davinci_agent.Planning.Numbering.{
  IsNumbered, modify, has_id, update_step-eq-modify, has_id-NumberedFrom, get_step-modify,
  add_step-IsNumbered, modify-IsNumbered, replan_failed-IsNumbered, new_plan-IsNumbered,
}

-- a call of a method of `Plan`
pub data Edit : Type 0 where
  add : (title category rationale : String) → Edit
  starting counting : ℕ → Edit
  completing failing : ℕ → String → Edit
  replanning : List String → Edit

unfoldable pub edit : Plan → Edit → Option Plan
edit p (add title category rationale) = some (add_step p title category rationale)
edit p (starting i) = start p i
edit p (counting i) = count_attempt p i
edit p (completing i r) = complete p i r
edit p (failing i r) = fail p i r
edit p (replanning titles) = some (replan_failed p titles)

unfoldable pub edit_all : Plan → List Edit → Option Plan
edit_all p [] = some p
edit_all p (e ∷ es) = elim (edit p e) [ none ↦ none | some q ↦ edit_all q es ]

module _ (p : Plan) (step_id : ℕ) (f : PlanStep → PlanStep)
    (keeps : (s : PlanStep) → (f s).id ≡ s.id) where
  pub with_step-IsNumbered :
      (q : Plan) → with_step p step_id f ≡ some q → IsNumbered p → IsNumbered q
  unfolding with_step
  with_step-IsNumbered q e h = elim (Bool-cases (has_id step_id p.steps)) [
    | inl found ↦
        let e' : some (record p { steps = modify step_id f p.steps }) ≡ some q =
          ground (arith, update_step-eq-modify step_id f p.steps) in
        subst IsNumbered (cc e') (modify-IsNumbered p h step_id f keeps)
    | inr missing ↦ absurd (ground (arith, update_step-eq-modify step_id f p.steps))
  ]

  -- who is changed, and who is not
  pub with_step_lem :
      (q : Plan) (other : ℕ)
      → with_step p step_id f ≡ some q
      → get_step other q.steps ≡ (
          if eqb step_id other
          then Option.map f (get_step other p.steps)
          else get_step other p.steps)
  unfolding with_step
  with_step_lem q other e = ground (
    arith,
    update_step-eq-modify step_id f p.steps,
    get_step-modify f keeps step_id other p.steps,
  )

  pub with_step-is_some :
      IsNumbered p
      → is_some (with_step p step_id f) ≡ (leb 1 step_id && leb step_id (length p.steps))
  unfolding with_step
  with_step-is_some h = ground (
    arith,
    update_step-eq-modify step_id f p.steps,
    has_id-NumberedFrom step_id 1 p.steps h.numbers,
  )

edit-IsNumbered : (e : Edit) (p q : Plan) → edit p e ≡ some q → IsNumbered p → IsNumbered q
unfolding edit start complete fail count_attempt
edit-IsNumbered (add t c r) p q e h = subst IsNumbered (cc e) (add_step-IsNumbered p h t c r)
edit-IsNumbered (starting i) p q e h = with_step-IsNumbered p i _ (λ s. refl) q e h
edit-IsNumbered (counting i) p q e h = with_step-IsNumbered p i _ (λ s. refl) q e h
edit-IsNumbered (completing i r) p q e h = with_step-IsNumbered p i _ (λ s. refl) q e h
edit-IsNumbered (failing i r) p q e h = with_step-IsNumbered p i _ (λ s. refl) q e h
edit-IsNumbered (replanning titles) p q e h =
    subst IsNumbered (cc e) (replan_failed-IsNumbered titles p h)

edit_all-from : (es : List Edit) (p q : Plan) → edit_all p es ≡ some q → IsNumbered p → IsNumbered q
unfolding edit_all
edit_all-from [] p q e h = subst IsNumbered (cc e) h
edit_all-from (x ∷ es) p q e h = elim (Option-cases (edit p x)) [
  | inl raises ↦ absurd (ground arith)
  | inr (p', gives) ↦ edit_all-from es p' q (ground arith) (edit-IsNumbered x p p' gives h)
]

-- Whatever calls of its methods a plan has been through without an error, its steps are numbered
-- 1, 2, 3, … in their order, and the next step gets the next number.
pub edit_all-IsNumbered :
    (objective now : String) (es : List Edit) (q : Plan)
    → edit_all (new_plan objective now) es ≡ some q
    → IsNumbered q
edit_all-IsNumbered objective now es q e =
    edit_all-from es (new_plan objective now) q e (new_plan-IsNumbered objective now)

-- On a numbered plan `start`, `complete` and `fail` raise a KeyError exactly for the ids that are
-- not between 1 and the number of steps.
pub writes_raise :
    (p : Plan) (i : ℕ) (r : String)
    → IsNumbered p
    → (is_some (start p i) ≡ (leb 1 i && leb i (length p.steps)))
      × (is_some (complete p i r) ≡ (leb 1 i && leb i (length p.steps)))
      × (is_some (fail p i r) ≡ (leb 1 i && leb i (length p.steps)))
unfolding start complete fail
writes_raise p i r h = (
  with_step-is_some p i (set_status in_progress) (λ s. refl) h,
  with_step-is_some p i (set_result done r) (λ s. refl) h,
  with_step-is_some p i (set_result failed r) (λ s. refl) h,
)

-- Where `complete` does not raise, the step of that id is done with that result and is otherwise
-- as it was, and the step of every other id is as it was.
complete_lem :
    (p q : Plan) (i other : ℕ) (r : String)
    → complete p i r ≡ some q
    → get_step other q.steps ≡ (
        if eqb i other
        then Option.map (set_result done r) (get_step other p.steps)
        else get_step other p.steps)
unfolding complete
complete_lem p q i other r e = with_step_lem p i (set_result done r) (λ s. refl) q other e
