-- ===== src/Tools/Samples.antt =====
-- A query of two statements, one with a semicolon in quotes, and what tools/sql_query/tool.py makes
-- of it.
use Prim.Native.String.{String}
use davinci_agent.Prelude.{◌≡◌, refl, true, false, List, [], ◌∷◌, any}
use davinci_agent.Prelude.Text.{join}
use davinci_agent.Prelude.Value.{string}
use davinci_agent.Tools.Statements.{split_parts, split_statements, rejected}
use davinci_agent.Tools.Splitting.{has_semicolon, are_closed, split_parts-IsSplit}

abbrev query : String
query = "SELECT ';'; drop table t ;"

split_parts-IsSplit_example :
    (join ";" (split_parts false query) ≡ query)
    × (any (has_semicolon false) (split_parts false query) ≡ false)
    × (are_closed false (split_parts false query) ≡ true)
split_parts-IsSplit_example = split_parts-IsSplit query

query_statements : split_statements (string query) ≡ "SELECT ';'" ∷ "drop table t" ∷ []
unfolding split_statements davinci_agent.Prelude.Value.str davinci_agent.Prelude.Text.strip
query_statements = refl

query_rejected :
    rejected true ("SELECT ';'" ∷ "drop table t" ∷ "dropped" ∷ []) ≡ "drop table t" ∷ []
unfolding rejected davinci_agent.Prelude.Text.lower davinci_agent.Prelude.Text.lstrip
query_rejected = refl
