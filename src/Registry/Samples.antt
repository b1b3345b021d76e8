-- ===== src/Registry/Samples.antt =====
-- A registry of davinci/mcp.py, and the theorems at it.
use davinci_agent.Prelude.{
  ℕ, ◌≤◌, ◌≡◌, refl, String, Bool, false, Option, none, some, List, [], ◌∷◌, length, All,
}
use davinci_agent.Registry.Defs.{ToolDescriptor, ToolRegistry}
use davinci_agent.Registry.Search.{search}
use davinci_agent.Registry.Hits.{IsFound, search_lem}

abbrev tool : String → String → ToolDescriptor
tool name description = record {
  name = name;
  description = description;
  category = "code";
  risk = "low";
  requires_network = false;
  server = "local";
  schema_loader = none;
  loaded = none;
}

abbrev tools : ToolRegistry
tools = ("git", tool "git" "commit and push") ∷ ("lint", tool "lint" "check the code") ∷ []

search_lem_example :
    (length (search "+code check" 1 tools) ≤ 1)
    × All (IsFound tools ("code" ∷ []) ("check" ∷ [])) (search "+code check" 1 tools)
unfolding davinci_agent.Prelude.Text.strip davinci_agent.Registry.Search.required_terms
    davinci_agent.Registry.Search.optional_terms davinci_agent.Prelude.Text.split_space
    davinci_agent.Prelude.Text.lower
search_lem_example = search_lem "+code check" 1 tools refl
