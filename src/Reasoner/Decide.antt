-- ===== src/Reasoner/Decide.antt =====
-- What `LLMReasoner` (davinci/reasoner.py) makes of a reply: `propose`, `make_plan`, `synthesize`
-- and `reflect`, from the text that the client has generated; an empty text is also no text.
use davinci_agent.Prelude.{
  String, ◌<>◌, Bool, true, false, not, ◌&&◌, ◌||◌, Option, none, some, List, [], ◌∷◌, map, filter,
  take, or_else, ◌==◌, if◌then◌else◌,
}
use davinci_agent.Prelude.Text
use davinci_agent.Prelude.Text.{strip}
use davinci_agent.Prelude.Dict.{Dict, has, insert}
use davinci_agent.Prelude.Value.{
  Value, null, string, list, dict, Items, nil, cons, Fields, end, field, get, str, truthy,
}
use davinci_agent.Planning.Defs.{PlanStep, Plan, has_failures}
use davinci_agent.Planning.Ops.{new_plan, add_step}
use davinci_agent.Registry.Defs.{ToolDescriptor, ToolRegistry, get as get_tool}
use davinci_agent.Registry.Search.{search}
use davinci_agent.Engine.Defs.{ActionProposal, Reflection}
use davinci_agent.Engine.Offline.{failed_titles, reflect as reflect_offline}
use davinci_agent.Reasoner.Group.{text_or}
use davinci_agent.Reasoner.Reply.{parse_json}

abbrev entries : Fields → Dict Value
entries end = []
entries (field k v fs) = (k, v) ∷ entries fs

-- d.setdefault(k, v)
abbrev set_default : String → Value → Dict Value → Dict Value
set_default k v d = if has k d then d else insert k v d

-- the arguments, where they are a dict
abbrev args_of : Option Value → Dict Value
args_of (some (dict d)) = entries d
args_of _ = []

abbrev first_of : List ToolDescriptor → Option ToolDescriptor
first_of [] = none
first_of (t ∷ ts) = some t

abbrev named_tool : Value → ToolRegistry → Option ToolDescriptor
named_tool (string s) r = get_tool s r
named_tool v r = none

-- the tool of that name, or else the best hit of a search
unfoldable pub chosen_tool : Value → ToolRegistry → Option ToolDescriptor
unfolding get_tool
chosen_tool name r = elim (named_tool name r) [
  | some t ↦ some t
  | none ↦ if truthy name then first_of (search (str name) 1 r) else none
]

abbrev answer_text : Option Value → Option String
answer_text (some (string s)) = if strip s == "" then none else some (strip s)
answer_text _ = none

unfoldable pub proposal_of : String → String → String → ToolRegistry → Fields → ActionProposal
unfolding chosen_tool
proposal_of default_thought objective title r d =
    let thought = text_or "thought" default_thought d in
    elim (answer_text (get "final_answer" d)) [
      | some answer ↦ record {
        tool = none;
        args = [];
        thought = thought;
        final_answer = some answer;
      }
      | none ↦ record {
        tool = chosen_tool (or_else (get "tool" d) null) r;
        args =
            set_default "step" (string title)
              (set_default "task" (string objective) (args_of (get "args" d)));
        thought = thought;
        final_answer = none;
      }
    ]

-- an empty dict is no decision
abbrev pub decided : Option Fields → Option Fields
decided (some (field k v fs)) = some (field k v fs)
decided _ = none

-- the steps of a reply that have a title
unfoldable pub add_steps : Items → Plan → Plan
unfolding add_step
add_steps nil p = p
add_steps (cons (dict s) vs) p =
    let title = strip (text_or "title" "" s) in
    let category = strip (text_or "category" "general" s) in
    if title == ""
    then add_steps vs p
    else add_steps vs (
        add_step p title (if category == "" then "general" else category)
          (Text.take 300 (text_or "rationale" "" s)))
add_steps (cons v vs) p = add_steps vs p

abbrev pub last_category : List PlanStep → Option String
last_category [] = none
last_category (s ∷ []) = some s.category
last_category (s ∷ t ∷ ts) = last_category (t ∷ ts)

abbrev pub is_final : String → Bool
is_final category = category == "result" || category == "synthesis"

-- a plan with steps gets one for the answer, unless it ends in one
unfoldable pub with_answer : Plan → Plan → Plan
unfolding add_step
with_answer heuristic p = elim (last_category p.steps) [
  | none ↦ heuristic
  | some category ↦
      if is_final category
      then p
      else add_step p
          "Compose the final user-facing answer from the gathered results, in the exact required format"
          "result" "Produce the final conversational answer so it is signalled back to the user."
]

unfoldable pub plan_of_steps : String → String → Plan → Option Value → Plan
unfolding add_steps with_answer
plan_of_steps objective now heuristic (some (list (cons v vs))) =
    with_answer heuristic (add_steps (cons v vs) (new_plan objective now))
plan_of_steps objective now heuristic _ = heuristic

-- str(v) for v in vs
abbrev texts_of : Items → List String
texts_of nil = []
texts_of (cons v vs) = str v ∷ texts_of vs

abbrev keys_of : Fields → List String
keys_of end = []
keys_of (field k v fs) = k ∷ keys_of fs

abbrev chars_of : String → List String
chars_of String.[] = []
chars_of (String.◌∷◌ c s) = String.◌∷◌ c "" ∷ chars_of s

-- `value or []`, item by item; `none` is the `TypeError` of a value that is no sequence
unfoldable pub iterated : Value → Option (List String)
iterated (list vs) = some (texts_of vs)
iterated (dict d) = some (keys_of d)
iterated (string s) = some (chars_of s)
iterated v = if truthy v then none else some []

abbrev pub no_titles : List String → Bool
no_titles [] = true
no_titles (t ∷ ts) = false

-- at most four titles that are not blank
abbrev few_titles : List String → List String
few_titles ts = take 4 (filter (λ t. not (strip t == "")) ts)

unfoldable pub reflection_of : Plan → Fields → List String → Reflection
reflection_of p d ts =
    let satisfied = truthy (or_else (get "satisfied" d) null) && not (has_failures p) in
    let titles = few_titles ts in
    record {
      satisfied = satisfied;
      critique = text_or "critique" "" d;
      replan_titles =
          if not satisfied && no_titles titles && has_failures p
          then map (λ t. "Retry: " <> t) (failed_titles p.steps)
          else titles;
    }

abbrev pub reflected : Plan → Fields → Option (List String) → Option Reflection
reflected p d none = none
reflected p d (some ts) = some (reflection_of p d ts)

module _ (loads : String → Option Value) where
  abbrev pub parsed_reply : String → Option Fields
  parsed_reply text = if text == "" then none else parse_json loads text

  -- `propose`, with the proposal of the fallback
  unfoldable pub propose :
      ActionProposal → String → String → PlanStep → ToolRegistry → String → ActionProposal
  unfolding parse_json proposal_of
  propose fallback default_thought objective step r text =
      if step.category == "synthesis"
      then record {
        tool = none;
        args = [];
        thought = "final answer deferred to end-of-run synthesis over full results";
        final_answer = none;
      }
      else elim (decided (parsed_reply text)) [
        | none ↦ fallback
        | some d ↦ proposal_of default_thought objective step.title r d
      ]

  abbrev pub steps_in : Option Fields → Option Value
  steps_in none = none
  steps_in (some d) = get "steps" d

  -- `make_plan`, with the plan of the fallback
  unfoldable pub make_plan : String → String → Plan → String → Plan
  unfolding parse_json plan_of_steps
  make_plan objective now heuristic text =
      plan_of_steps objective now heuristic (steps_in (parsed_reply text))

  abbrev final_text : Option Value → Option String
  final_text none = none
  final_text (some null) = none
  final_text (some v) = some (strip (str v))

  -- `synthesize`
  unfoldable pub synthesize : String → Option String
  unfolding parse_json
  synthesize text = elim (parsed_reply text) [
    | none ↦ none
    | some d ↦ final_text (get "final_answer" d)
  ]

  -- `reflect`; `none` is a `TypeError`
  unfoldable pub reflect : Plan → String → Option Reflection
  unfolding parse_json reflection_of iterated reflect_offline
  reflect p text = elim (decided (parsed_reply text)) [
    | none ↦ some (reflect_offline p)
    | some d ↦ reflected p d (iterated (or_else (get "replan_titles" d) null))
  ]
