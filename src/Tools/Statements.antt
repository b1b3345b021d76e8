-- ===== src/Tools/Statements.antt =====
-- The statements of a query and the guard of the read-only mode, of tools/sql_query/tool.py.
use Prim.Native.Char.{Char, code}
use text.Mathlib.Text.{starts_with}
use davinci_agent.Prelude.{
  ℕ, String, Bool, true, false, not, ◌&&◌, ◌||◌, List, [], ◌∷◌, map, filter, any, leb, eqb, take,
  ◌==◌, if◌then◌else◌,
}
use davinci_agent.Prelude.Text
use davinci_agent.Prelude.Text.{strip, lower, lstrip, codes}
use davinci_agent.Prelude.Value.{Value, list, Items, nil, cons, str}

-- what a character is for the split
abbrev pub is_quote : Char → Bool
is_quote c = eqb (code c) 39

abbrev pub is_semicolon : Char → Bool
is_semicolon c = eqb (code c) b';'

-- the first part with one character more
unfoldable pub extend : Char → List String → List String
extend c [] = String.◌∷◌ c "" ∷ []
extend c (p ∷ ps) = String.◌∷◌ c p ∷ ps

-- The parts between semicolons that stand in no quoted text; `in_str` is whether the text begins
-- within one.
unfoldable pub split_parts : Bool → String → List String
unfolding extend
split_parts in_str String.[] = "" ∷ []
split_parts in_str (String.◌∷◌ c s) =
    let now = if is_quote c then not in_str else in_str in
    let rest = split_parts now s in if is_semicolon c && not now then "" ∷ rest else extend c rest

unfoldable pub stripped_texts : Items → List String
stripped_texts nil = []
stripped_texts (cons v vs) =
    let rest = stripped_texts vs in if strip (str v) == "" then rest else strip (str v) ∷ rest

-- `_split_statements`
unfoldable pub split_statements : Value → List String
unfolding split_parts stripped_texts
split_statements (list vs) = stripped_texts vs
split_statements v = filter (λ p. not (p == "")) (map strip (split_parts false (str v)))

abbrev write_words : List String
write_words =
    "insert" ∷ "update" ∷ "delete" ∷ "drop" ∷ "alter" ∷ "create" ∷ "truncate" ∷ "replace" ∷ "merge"
    ∷ "grant" ∷ "revoke" ∷ "attach" ∷ "pragma" ∷ []

-- \w, on ASCII
abbrev is_word : ℕ → Bool
is_word c =
    (leb b'a' c && leb c b'z')
    || (leb b'A' c && leb c b'Z')
    || (leb b'0' c && leb c b'9')
    || eqb c b'_'

-- `\b` after a word
abbrev ends_word : String → Bool
ends_word String.[] = true
ends_word (String.◌∷◌ c s) = not (is_word (code c))

-- `_WRITE_RE.match`, whose words are told apart by what follows them
unfoldable pub is_write : String → Bool
is_write s =
    let t = lower (lstrip s) in
    any (λ w. starts_with t w && ends_word (Text.drop (Prim.Native.String.count w) t)) write_words

-- the statements that the read-only mode rejects, at most three of them
unfoldable pub rejected : Bool → List String → List String
unfolding is_write
rejected read_only statements = if read_only then take 3 (filter is_write statements) else []
