-- ===== src/Engine/Entry.antt =====
-- `DavinciAgent.run` of davinci/engine.py: what stands before and after its loop.
use davinci_agent.Prelude.{
  ℕ, suc, String, ◌<>◌, Bool, true, false, not, ◌&&◌, Option, none, some, List, [], ◌∷◌, map,
  length, or_else, ◌==◌, if◌then◌else◌,
}
use davinci_agent.Prelude.Text
use davinci_agent.Prelude.Text.{strip}
use davinci_agent.Prelude.Value.{
  Value, null, bool, string, list, dict, Items, nil, cons, Fields, end, get, str,
}
use davinci_agent.Planning.Defs.{done, Plan, is_complete, has_failures, count_status}
use davinci_agent.Planning.Dicts.{nat, fields, items, plan_to_dict}
use davinci_agent.Memory.Working.{WorkingMemory, set_fact}
use davinci_agent.Engine.Defs.{Result, ok, raised, Review, Backend, Agent}
use davinci_agent.Engine.Monad.{
  M, ◌>>=◌, ◌>>◌, pure, gets, ask, try_ask, set_plan, on_working, on_world, clear_reviews,
  set_delivered, note, record_event,
}
use davinci_agent.Engine.History.{normalize_history}
use davinci_agent.Engine.Loop.{Stop, out_of_fuel, stopped, check_budget, run_loop}

-- the fields of `RunResult` that do not repeat the run's state
pub record RunResult : Type 0 where
  pub success : Bool
  pub answer : String
  pub pending_review : List Review

-- How a run ends; the fuel is no part of the program.
pub data Ending : Type 0 where
  no_fuel : Ending
  finished : RunResult → Ending

-- what comes with the prompt
pub record Request : Type 0 where
  pub objective : String
  pub required_categories : List String
  pub replan_budget : ℕ
  -- the attachments as their `to_dict`, which also stands for them as a fact of the memory
  pub attachments : Items
  pub history : Items
  -- `self.instructions.render()`
  pub instructions : String

-- the role and the text of a normalized message
role_text : Fields → String
role_text m = elim (get "role" m) [ some v ↦ str v | none ↦ "" ]

unfoldable pub remember_messages : {W : Type 0} → List Fields → M W Unit
unfolding role_text
remember_messages [] = pure tt
remember_messages (m ∷ ms) = do
  note (role_text m) (or_else (get "content" m) null)
  remember_messages ms

items_count : Items → ℕ
items_count nil = 0
items_count (cons v vs) = suc (items_count vs)

-- `x or None`, for a list, a text and a number
or_none_list : Items → Value
or_none_list nil = null
or_none_list vs = list vs

or_none_text : String → Value
or_none_text s = if s == "" then null else string s

or_none_count : List Fields → Value
or_none_count [] = null
or_none_count ms = nat (length ms)

abbrev is_none : {A : Type 0} → Option A → Bool
is_none none = true
is_none (some a) = false

-- `DavinciAgent._synthesize`
unfoldable pub summary_text : String → Plan → String
summary_text objective p =
    "Completed "
    <> Text.show (count_status done p.steps)
    <> "/"
    <> Text.show (length p.steps)
    <> " planned steps for objective '"
    <> objective
    <> "'. Failures: "
    <> (if has_failures p then "True" else "False")
    <> "."

module _ {W : Type 0} (b : Backend W) (agent : Agent) where
  unfoldable pub seed_attachments : Items → M W Unit
  seed_attachments nil = pure tt
  seed_attachments atts = do
    on_working (set_fact "attachments" (list atts))
    note "user_attachments" (list atts)

  unfoldable pub seed_history : List Fields → M W Unit
  seed_history [] = pure tt
  seed_history (m ∷ ms) = do
    let convo = items (map (λ x. dict x) (m ∷ ms))
    on_working (set_fact "conversation" (list convo))
    remember_messages (m ∷ ms)
    on_world (b.set_conversation convo)

  unfoldable pub begin : Request → M W Unit
  unfolding or_none_list or_none_text or_none_count
  begin q = do
    clear_reviews
    set_delivered false
    seed_attachments q.attachments
    let convo = normalize_history q.history
    seed_history convo
    on_world (b.set_instructions q.instructions)
    record_event b "run_start" ("Starting objective: " <> q.objective) (
        fields (
          ("instructions", or_none_text q.instructions)
          ∷ ("attachments", or_none_list q.attachments)
          ∷ ("history_len", or_none_count convo)
          ∷ []))
    plan ← ask (b.make_plan q.objective q.required_categories)
    set_plan plan
    record_event b "plan" "Generated execution plan" (fields (("plan", plan_to_dict plan) ∷ []))

  unfoldable pub after_synthesis : Result (Option String) → M W String
  after_synthesis (raised exc) = do
    record_event b "error" ("synthesis failed: " <> exc) end
    pure ""
  after_synthesis (ok answer) = pure (or_else answer "")

  -- `DavinciAgent._final_answer`
  unfoldable pub final_answer :
      String → Option (String → Plan → WorkingMemory → W → Result (Option String) × W) → M W String
  unfolding after_synthesis
  final_answer objective none = pure ""
  final_answer objective (some synth) = do
    plan ← gets (λ s. s.plan)
    working ← gets (λ s. s.working)
    outcome ← try_ask (synth objective plan working)
    after_synthesis outcome

  -- `plan.is_complete and not plan.has_failures and self.budget.exceeded() is None`
  unfoldable pub judge : M W Bool
  judge = do
    plan ← gets (λ s. s.plan)
    if is_complete plan && not (has_failures plan)
        then (do limit ← check_budget b agent; pure (is_none limit))
        else pure false

  unfoldable pub first_text : String → String → String → String
  first_text x y z = if not (x == "") then x else if not (y == "") then y else z

  unfoldable pub resolve_answer : String → String → Bool → M W String
  unfolding first_text
  resolve_answer objective answer true = pure answer
  resolve_answer objective answer false = do
    final ← final_answer objective b.synthesize
    plan ← gets (λ s. s.plan)
    pure (first_text final answer (summary_text objective plan))

  unfoldable pub conclude : Request → String → M W Ending
  conclude q loop_answer = do
    success ← judge
    delivered ← gets (λ s. s.final_delivered)
    answer ← resolve_answer q.objective loop_answer (delivered && not (strip loop_answer == ""))
    record_event b "run_end" "Run complete"
        (fields (("success", bool success) ∷ ("answer", string answer) ∷ []))
    reviews ← gets (λ s. s.pending_review)
    pure (finished (record { success = success; answer = answer; pending_review = reviews }))

  unfoldable pub after_loop : Request → Stop → M W Ending
  after_loop q out_of_fuel = pure no_fuel
  after_loop q (stopped answer) = conclude q answer

  -- `DavinciAgent.run`
  unfoldable pub run : ℕ → Request → M W Ending
  run fuel q = do
    begin q
    stop ← run_loop b agent fuel q.objective q.replan_budget ""
    after_loop q stop
