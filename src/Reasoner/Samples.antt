-- ===== src/Reasoner/Samples.antt =====
-- A group, a plan and replies of davinci/reasoner.py, and the theorems at them.
use davinci_agent.Prelude.{String, true, none, some, Option, List, [], ◌∷◌, ◌==◌, if◌then◌else◌}
use davinci_agent.Prelude.Value.{Value, string, bool, list, nil, cons, object}
use davinci_agent.Planning.Defs.{failed, PlanStep, Plan}
use davinci_agent.Planning.Ops.{heuristic_plan}
use davinci_agent.Reasoner.Decide.{make_plan, decided, parsed_reply, reflect}
use davinci_agent.Reasoner.Reflect.{IsReturned, reflect-IsReturned}
use davinci_agent.Reasoner.Closed.{IsClosed, make_plan-IsClosed}

abbrev tina : Value
tina = object (("name", string "Tina") ∷ ("handle", string "tina") ∷ [])

abbrev team : List Value
team =
    object (("name", string "TINA") ∷ ("kind", string "agent") ∷ [])
    ∷ object (("handle", string "bob") ∷ ("kind", string "user") ∷ [])
    ∷ []

-- a library that knows two texts
abbrev two_texts : String → Option Value
two_texts s =
    if s == "{steps}"
    then some (object (("steps", list (cons (object (("title", string "look") ∷ [])) nil)) ∷ []))
    else if s == "{fine}"
    then some (object (("satisfied", bool true) ∷ []))
    else none

make_plan-IsClosed_example :
    IsClosed (make_plan two_texts "report" "now" (heuristic_plan "now" "report" []) "{steps}")
make_plan-IsClosed_example = make_plan-IsClosed two_texts "report" "now" [] "{steps}"

abbrev broken_step : PlanStep
broken_step = record {
  id = 1;
  title = "write";
  category = "code";
  rationale = "";
  status = failed;
  result = none;
  attempts = 1;
}

abbrev broken_plan : Plan
broken_plan = record {
  objective = "report";
  steps = broken_step ∷ [];
  created_at_utc = "now";
  revision = 0;
  next_id = 2;
}

reflect-IsReturned_example :
    IsReturned broken_plan
      (decided (parsed_reply two_texts "{fine}"))
      (reflect two_texts broken_plan "{fine}")
reflect-IsReturned_example = reflect-IsReturned two_texts broken_plan "{fine}"
