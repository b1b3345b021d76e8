-- ===== src/Registry/Search.antt =====
-- `ToolRegistry.search` of davinci/mcp.py.
use Prim.Native.Char.{code}
use Prim.Native.Nat.{Ordering}
use Prim.Native.String.{compare}
use text.Mathlib.Text.{starts_with}
use davinci_agent.Prelude.{
  ℕ, ◌+◌, String, ◌<>◌, Bool, true, false, not, ◌&&◌, ◌||◌, none, some, List, [], ◌∷◌, filter, map,
  take, any, length, ltb, eqb, ◌==◌, if◌then◌else◌,
}
use davinci_agent.Prelude.Dict.{lookup, values}
use davinci_agent.Prelude.Text
use davinci_agent.Prelude.Text.{strip, lower, contains, split_space, split_on, count_in}
use davinci_agent.Registry.Defs.{ToolDescriptor, ToolRegistry}

-- s.lstrip("+")
unfoldable pub lstrip_plus : String → String
lstrip_plus String.[] = ""
lstrip_plus (String.◌∷◌ c s) =
    let rest = lstrip_plus s in if eqb (code c) b'+' then rest else String.◌∷◌ c s

unfoldable pub required_terms : List String → List String
unfolding lstrip_plus
required_terms terms = map lstrip_plus (filter (λ t. starts_with t "+") terms)

unfoldable pub optional_terms : List String → List String
unfolding lstrip_plus
optional_terms terms = map lstrip_plus (filter (λ t. not (starts_with t "+")) terms)

unfoldable pub haystack : ToolDescriptor → String
haystack t = lower (t.name <> " " <> t.description <> " " <> t.category)

unfoldable pub total : List ℕ → ℕ
total [] = 0
total (n ∷ ns) = n + total ns

unfoldable pub score : List String → List String → ToolDescriptor → ℕ
unfolding haystack total
score required optional t =
    total (map (λ term. count_in term (haystack t)) optional) + length required

-- the tools that stay in the race
unfoldable pub is_hit : List String → List String → ToolDescriptor → Bool
unfolding haystack score
is_hit required optional t =
    not (any (λ r. not (contains r (haystack t))) required)
    && (ltb 0 (score required optional t) || (elim optional [ [] ↦ true | _ ↦ false ]))

-- (-score, name), in the order of Python's tuples
unfoldable pub goes_before : ℕ × ToolDescriptor → ℕ × ToolDescriptor → Bool
goes_before (m, t) (n, u) =
    ltb n m || (eqb m n && (elim (compare t.name u.name) [ Ordering.gt ↦ false | _ ↦ true ]))

-- a stable sort
unfoldable pub place : ℕ × ToolDescriptor → List (ℕ × ToolDescriptor) → List (ℕ × ToolDescriptor)
unfolding goes_before
place x [] = x ∷ []
place x (y ∷ ys) = if goes_before x y then x ∷ y ∷ ys else y ∷ place x ys

unfoldable pub ranked : List (ℕ × ToolDescriptor) → List (ℕ × ToolDescriptor)
unfolding place
ranked [] = []
ranked (x ∷ xs) = place x (ranked xs)

unfoldable pub found_names : List String → ToolRegistry → List ToolDescriptor
found_names [] r = []
found_names (n ∷ ns) r = elim (lookup n r) [
  | none ↦ found_names ns r
  | some t ↦ t ∷ found_names ns r
]

unfoldable pub search_terms : List String → ℕ → ToolRegistry → List ToolDescriptor
unfolding ranked is_hit score required_terms optional_terms
search_terms terms max_results r =
    let required = required_terms terms in
    let optional = optional_terms terms in
    map (λ p. p.1)
      (take max_results (
        ranked (
          map (λ t. (score required optional t, t))
            (filter (is_hit required optional) (values r)))))

-- `ToolRegistry.search`
unfoldable pub search : String → ℕ → ToolRegistry → List ToolDescriptor
unfolding search_terms found_names
search query max_results r =
    let q = strip query in
    if starts_with q "select:"
    then found_names (filter (λ n. not (n == "")) (map strip (split_on b',' (Text.drop 7 q)))) r
    else search_terms (split_space (lower q)) max_results r
