-- ===== src/Prelude/Json.antt =====
-- Python's `json.dumps`, with its default separators and `ensure_ascii`.
use Prim.Native.Nat.{ℕ, ◌+◌, ◌-◌, ◌/◌, ◌%◌}
use Prim.Native.Char.{Char, code}
use Prim.Native.String.{String, ◌++◌}
use mathlib.Core.Bool.{true, false, ◌&&◌}
use davinci_agent.Prelude.Tests.{ltb, leb, eqb, if◌then◌else◌}
use davinci_agent.Prelude.Int
use davinci_agent.Prelude.Text.{nth}
use davinci_agent.Prelude.Value.{
  Value, null, bool, int, string, list, dict, Items, nil, cons, Fields, end, field,
}

hex : ℕ → String
hex d = String.◌∷◌ (nth d "0" "0123456789abcdef") ""

-- \uXXXX
unit_escape : ℕ → String
unfolding hex
unit_escape n = "\\u" ++ hex (n / 4096) ++ hex (n / 256 % 16) ++ hex (n / 16 % 16) ++ hex (n % 16)

escape_char : Char → String
unfolding unit_escape
escape_char c =
    let n = code c in
    if eqb n 34
    then "\\\""
    else if eqb n 92
    then "\\\\"
    else if eqb n 10
    then "\\n"
    else if eqb n 13
    then "\\r"
    else if eqb n 9
    then "\\t"
    else if eqb n 12
    then "\\f"
    else if eqb n 8
    then "\\b"
    else if leb 32 n && leb n 126
    then String.◌∷◌ c ""
    else if ltb n 65536
    then unit_escape n
    else unit_escape (55296 + (n - 65536) / 1024) ++ unit_escape (56320 + (n - 65536) % 1024)

escape : String → String
unfolding escape_char
escape String.[] = ""
escape (String.◌∷◌ c s) = escape_char c ++ escape s

unfoldable pub quoted : String → String
unfolding escape
quoted s = "\"" ++ escape s ++ "\""

unfoldable mutual
  pub dumps : Value → String
  dumps null = "null"
  dumps (bool true) = "true"
  dumps (bool false) = "false"
  dumps (int n) = Int.show n
  dumps (string s) = quoted s
  dumps (list nil) = "[]"
  dumps (list (cons v vs)) = "[" ++ dumps v ++ dumps_items vs ++ "]"
  dumps (dict end) = "{}"
  dumps (dict (field k v fs)) = "{" ++ quoted k ++ ": " ++ dumps v ++ dumps_fields fs ++ "}"

  pub dumps_items : Items → String
  dumps_items nil = ""
  dumps_items (cons v vs) = ", " ++ dumps v ++ dumps_items vs

  pub dumps_fields : Fields → String
  dumps_fields end = ""
  dumps_fields (field k v fs) = ", " ++ quoted k ++ ": " ++ dumps v ++ dumps_fields fs
