-- ===== src/Planning/Dicts.antt =====
-- `to_dict` of davinci/planning.py.
use davinci_agent.Prelude.{ℕ, String, Option, none, some, List, [], ◌∷◌, map}
use davinci_agent.Prelude.Int.{pos}
use davinci_agent.Prelude.Dict.{Dict}
use davinci_agent.Prelude.Value.{
  Value, null, int, string, list, dict, Items, nil, cons, Fields, end, field,
}
use davinci_agent.Planning.Defs.{PlanStep, Plan, status_value, progress}

abbrev pub nat : ℕ → Value
nat n = int (pos n)

-- keyword arguments, or the entries of a dict
unfoldable pub fields : Dict Value → Fields
fields [] = end
fields ((k, v) ∷ d) = field k v (fields d)

unfoldable pub items : List Value → Items
items [] = nil
items (v ∷ vs) = cons v (items vs)

abbrev pub or_null : Option String → Value
or_null none = null
or_null (some s) = string s

-- `PlanStep.to_dict`
unfoldable pub step_to_dict : PlanStep → Value
unfolding fields
step_to_dict s = dict (
    fields (
      ("id", nat s.id)
      ∷ ("title", string s.title)
      ∷ ("category", string s.category)
      ∷ ("rationale", string s.rationale)
      ∷ ("status", string (status_value s.status))
      ∷ ("result", or_null s.result)
      ∷ ("attempts", nat s.attempts)
      ∷ []))

-- `Plan.to_dict`
unfoldable pub plan_to_dict : Plan → Value
unfolding step_to_dict items
plan_to_dict p = dict (
    fields (
      ("objective", string p.objective)
      ∷ ("created_at_utc", string p.created_at_utc)
      ∷ ("revision", nat p.revision)
      ∷ ("progress", dict (fields (map (λ e. (e.0, nat e.1)) (progress p))))
      ∷ ("steps", list (items (map step_to_dict p.steps)))
      ∷ []))
