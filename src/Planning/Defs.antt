-- ===== src/Planning/Defs.antt =====
-- The data of davinci/planning.py and the questions that can be asked of a plan.
use davinci_agent.Prelude.{
  ℕ, suc, String, ◌<>◌, Bool, true, false, ◌&&◌, ◌||◌, Option, List, [], ◌∷◌, map, length, any, all,
  find?, if◌then◌else◌,
}
use davinci_agent.Prelude.Dict.{Dict}
use davinci_agent.Prelude.Text
use davinci_agent.Prelude.Text.{join}

pub data StepStatus : Type 0 where
  pending in_progress done failed skipped : StepStatus

-- `StepStatus.value`
unfoldable pub status_value : StepStatus → String
status_value pending = "pending"
status_value in_progress = "in_progress"
status_value done = "done"
status_value failed = "failed"
status_value skipped = "skipped"

-- `a == b`
abbrev pub is_status : StepStatus → StepStatus → Bool
is_status pending pending = true
is_status in_progress in_progress = true
is_status done done = true
is_status failed failed = true
is_status skipped skipped = true
is_status _ _ = false

pub record PlanStep : Type 0 where
  pub id : ℕ
  pub title : String
  pub category : String
  pub rationale : String
  pub status : StepStatus
  pub result : Option String
  pub attempts : ℕ

-- `next_id` is what `_id_counter` hands out next.
pub record Plan : Type 0 where
  pub objective : String
  pub steps : List PlanStep
  pub created_at_utc : String
  pub revision : ℕ
  pub next_id : ℕ

-- `Plan.next_pending`
unfoldable pub next_pending : Plan → Option PlanStep
next_pending p = find? (λ s. is_status pending s.status) p.steps

-- `Plan.is_complete`
unfoldable pub is_complete : Plan → Bool
is_complete p =
    all (λ s. is_status done s.status || is_status skipped s.status) p.steps
    && (elim p.steps [ [] ↦ false | _ ↦ true ])

-- `Plan.has_failures`
unfoldable pub has_failures : Plan → Bool
has_failures p = any (λ s. is_status failed s.status) p.steps

-- the value of `progress` at one status
unfoldable pub count_status : StepStatus → List PlanStep → ℕ
count_status t [] = 0
count_status t (s ∷ steps) =
    let rest = count_status t steps in if is_status t s.status then suc rest else rest

-- `Plan.progress`
unfoldable pub progress : Plan → Dict ℕ
unfolding count_status status_value
progress p =
    (status_value pending, count_status pending p.steps)
    ∷ (status_value in_progress, count_status in_progress p.steps)
    ∷ (status_value done, count_status done p.steps)
    ∷ (status_value failed, count_status failed p.steps)
    ∷ (status_value skipped, count_status skipped p.steps)
    ∷ ("total", length p.steps)
    ∷ []

unfoldable pub glyph : StepStatus → String
glyph pending = "[ ]"
glyph in_progress = "[~]"
glyph done = "[x]"
glyph failed = "[!]"
glyph skipped = "[-]"

-- `Plan.render`
unfoldable pub render : Plan → String
unfolding glyph
render p = join "\n" (
    ("Plan for: " <> p.objective <> " (rev " <> Text.show p.revision <> ")")
    ∷ map
        (λ s.
          "  "
          <> glyph s.status
          <> " "
          <> Text.show s.id
          <> ". "
          <> s.title
          <> "  <"
          <> s.category
          <> ">")
        p.steps)
