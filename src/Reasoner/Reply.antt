-- ===== src/Reasoner/Reply.antt =====
-- `LLMReasoner._parse_json` of davinci/reasoner.py.
use Prim.Native.Char.{code}
use text.Mathlib.Text.{starts_with}
use davinci_agent.Prelude.{
  ℕ, suc, ◌-◌, String, Option, none, some, ltb, eqb, or_else, if◌then◌else◌,
}
use davinci_agent.Prelude.Text
use davinci_agent.Prelude.Text.{strip}
use davinci_agent.Prelude.Value.{Value, dict, Fields}

-- what follows the first line break
unfoldable pub after_line : String → Option String
after_line String.[] = none
after_line (String.◌∷◌ c s) = let rest = after_line s in if eqb (code c) 10 then some s else rest

-- what stands before the last code fence
unfoldable pub before_fence : String → Option String
before_fence String.[] = none
before_fence (String.◌∷◌ c s) = elim (before_fence s) [
  | some t ↦ some (String.◌∷◌ c t)
  | none ↦ if starts_with (String.◌∷◌ c s) "```" then some "" else none
]

-- text.split("\n", 1)[-1].rsplit("```", 1)[0]
unfoldable pub unfenced : String → String
unfolding after_line before_fence
unfenced s = let t = or_else (after_line s) s in or_else (before_fence t) t

-- s.find(c) and s.rfind(c), for a character by its code
unfoldable pub find_char : ℕ → String → Option ℕ
find_char k String.[] = none
find_char k (String.◌∷◌ c s) =
    let rest = find_char k s in
    if eqb (code c) k then some 0 else (elim rest [ none ↦ none | some i ↦ some (suc i) ])

unfoldable pub rfind_char : ℕ → String → Option ℕ
rfind_char k String.[] = none
rfind_char k (String.◌∷◌ c s) = elim (rfind_char k s) [
  | some i ↦ some (suc i)
  | none ↦ if eqb (code c) k then some 0 else none
]

-- a JSON value, where it is a dict
abbrev object_of : Option Value → Option Fields
object_of (some (dict d)) = some d
object_of _ = none

-- the outermost braces and what is between them
unfoldable pub braced : String → Option String
unfolding find_char rfind_char
braced s = elim (find_char b'{' s) [
  | none ↦ none
  | some i ↦ elim (rfind_char b'}' s) [
    | none ↦ none
    | some j ↦ if ltb i j then some (Text.take (suc j - i) (Text.drop i s)) else none
  ]
]

module _ (loads : String → Option Value) where
  unfoldable pub parse_braced : Option String → Option Fields
  parse_braced none = none
  parse_braced (some s) = object_of (loads s)

  unfoldable pub parse_object : String → Option Fields
  unfolding parse_braced braced
  parse_object s = elim (loads s) [ some v ↦ object_of (some v) | none ↦ parse_braced (braced s) ]

  -- `_parse_json`, where `loads` is `json.loads` and `none` its `ValueError`. A text that begins
  -- with a brace is a dict or no JSON.
  unfoldable pub parse_json : String → Option Fields
  unfolding parse_object unfenced
  parse_json text =
      let s = strip text in parse_object (if starts_with s "```" then unfenced s else s)
