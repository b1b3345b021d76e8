-- ===== src/Engine/Offline.antt =====
-- `HeuristicReasoner` and `EchoExecutor` of davinci/engine.py, which need no outside service.
use Prim.Native.Nat.{Ordering}
use Prim.Native.String.{compare}
use davinci_agent.Prelude.{
  ℕ, suc, String, ◌<>◌, Bool, true, false, ◌&&◌, ◌||◌, Option, none, some, List, [], ◌∷◌, map,
  filter, length, ltb, eqb, ◌==◌, if◌then◌else◌,
}
use davinci_agent.Prelude.Text
use davinci_agent.Prelude.Value.{bool, string, dict}
use davinci_agent.Permissions.Defs.{rank, ToolAction}
use davinci_agent.Planning.Defs.{failed, is_status, PlanStep, Plan, has_failures}
use davinci_agent.Planning.Dicts.{fields}
use davinci_agent.Memory.Working.{Item, WorkingMemory}
use davinci_agent.Registry.Defs.{ToolDescriptor, ToolRegistry, by_category}
use davinci_agent.Registry.Search.{search}
use davinci_agent.Engine.Defs.{
  Result, ok, raised, ActionProposal, ToolResult, Reflection, parse_risk,
}

-- the number of items that a tool's result made
unfoldable pub result_count : List Item → ℕ
result_count [] = 0
result_count (m ∷ ms) =
    let rest = result_count ms in if m.role == "tool_result" then suc rest else rest

-- the sort key of each tool, `Risk(t.risk).rank` first; `none` is a `ValueError`
unfoldable pub keyed : List ToolDescriptor → Option (List (ℕ × ToolDescriptor))
keyed [] = some []
keyed (t ∷ ts) =
    let rest = keyed ts in
    elim (parse_risk t.risk) [
      | none ↦ none
      | some risk ↦ elim rest [ none ↦ none | some ks ↦ some ((rank risk, t) ∷ ks) ]
    ]

-- the order of the keys
unfoldable pub key_before : ℕ × ToolDescriptor → ℕ × ToolDescriptor → Bool
key_before (m, t) (n, u) =
    ltb m n || (eqb m n && (elim (compare t.name u.name) [ Ordering.lt ↦ true | _ ↦ false ]))

-- the first of the sorted list: of equal keys, the one that stands first
unfoldable pub least : ℕ × ToolDescriptor → List (ℕ × ToolDescriptor) → ℕ × ToolDescriptor
unfolding key_before
least best [] = best
least best (k ∷ ks) = if key_before k best then least k ks else least best ks

unfoldable pub first_of : List (ℕ × ToolDescriptor) → Option ToolDescriptor
unfolding least
first_of [] = none
first_of (k ∷ ks) = some (least k ks).1

-- `registry.by_category(step.category) or registry.search(step.title, max_results=1)`
unfoldable pub candidates : PlanStep → ToolRegistry → List ToolDescriptor
candidates step r = elim (by_category step.category r) [
  | [] ↦ search step.title 1 r
  | t ∷ ts ↦ t ∷ ts
]

unfoldable pub cognitive : String → PlanStep → WorkingMemory → ActionProposal
unfolding result_count
cognitive objective step memory = record {
  tool = none;
  args = [];
  thought = "Cognitive step: " <> step.title;
  final_answer =
      if step.category == "synthesis"
      then some (
          "Objective '"
          <> objective
          <> "' addressed via "
          <> Text.show (result_count memory.items)
          <> " tool result(s).")
      else none;
}

unfoldable pub routed :
    String → PlanStep → Option (List (ℕ × ToolDescriptor)) → Result ActionProposal
unfolding first_of
routed objective step none = raised "ValueError"
routed objective step (some keys) = ok (record {
  tool = first_of keys;
  args = ("task", string objective) ∷ ("step", string step.title) ∷ [];
  thought =
      "Route '"
      <> step.category
      <> "' to "
      <> (elim (first_of keys) [ none ↦ "no tool" | some t ↦ t.name ]);
  final_answer = none;
})

-- `HeuristicReasoner.propose`
unfoldable pub propose : String → PlanStep → ToolRegistry → WorkingMemory → Result ActionProposal
unfolding cognitive candidates keyed routed
propose objective step registry memory =
    if step.category == "analysis" || step.category == "synthesis"
    then ok (cognitive objective step memory)
    else if step.category == "verification"
    then ok (record {
      tool = none;
      args = [];
      thought = "Self-verifying prior results.";
      final_answer = none;
    })
    else routed objective step (keyed (candidates step registry))

abbrev pub failed_titles : List PlanStep → List String
failed_titles steps = map (λ s. s.title) (filter (λ s. is_status failed s.status) steps)

-- `HeuristicReasoner.reflect`
unfoldable pub reflect : Plan → Reflection
reflect p =
    if has_failures p
    then record {
      satisfied = false;
      critique = Text.show (length (failed_titles p.steps)) <> " step(s) failed";
      replan_titles = map (λ t. "Retry: " <> t) (failed_titles p.steps);
    }
    else record {
      satisfied = true;
      critique = "All steps completed within guardrails.";
      replan_titles = [];
    }

-- `EchoExecutor.execute`
unfoldable pub echo : ToolDescriptor → ToolAction → ToolResult
echo tool action = record {
  succeeded = true;
  output = dict (
      fields (
        ("simulated", bool true)
        ∷ ("tool", string tool.name)
        ∷ ("args", dict (fields action.args))
        ∷ []));
  error = "";
}
