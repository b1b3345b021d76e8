-- ===== src/Prelude/Glob.antt =====
-- Python's `fnmatch.fnmatch` on a POSIX system: `*`, `?`, `[seq]` and `[!seq]`.
use Prim.Native.Nat.{ℕ, zero, suc}
use mathlib.Core.Bool.{Bool, true, false, not, ◌&&◌, ◌||◌}
use mathlib.Core.Option.{Option, none, some}
use mathlib.Core.List.{List, [], ◌∷◌}
use Prim.Native.String.{String}
use davinci_agent.Prelude.Tests.{leb, eqb, if◌then◌else◌}
use davinci_agent.Prelude.Lists.{any, length}
use davinci_agent.Prelude.Text.{codes}

pub data Token : Type 0 where
  star one : Token
  set : Bool → List (ℕ × ℕ) → Token

-- The items of a set, as ranges; a hyphen at an end stands for itself.
ranges : List ℕ → List (ℕ × ℕ)
ranges [] = []
ranges (c ∷ []) = (c, c) ∷ []
ranges (c ∷ d ∷ []) = (c, c) ∷ (d, d) ∷ []
ranges (c ∷ d ∷ e ∷ s) =
    let single = (c, c) ∷ ranges (d ∷ e ∷ s) in
    let range = (c, e) ∷ ranges s in if eqb d b'-' then range else single

in_range : ℕ → ℕ × ℕ → Bool
in_range c (lo, hi) = leb lo c && leb c hi

-- What stands before the next `]`, and what stands behind it.
upto_bracket : List ℕ → Option (List ℕ × List ℕ)
upto_bracket [] = none
upto_bracket (c ∷ s) =
    let rest = upto_bracket s in
    if eqb c b']'
    then some ([], s)
    else elim rest [ none ↦ none | some (inside, after) ↦ some (c ∷ inside, after) ]

-- A `]` that comes first stands for itself.
first_bracket : List ℕ → Option (List ℕ × List ℕ)
unfolding upto_bracket
first_bracket [] = none
first_bracket (c ∷ s) =
    if eqb c b']'
    then (elim (upto_bracket s) [ none ↦ none | some (inside, after) ↦ some (c ∷ inside, after) ])
    else upto_bracket (c ∷ s)

set_at : List ℕ → Option (Token × List ℕ)
unfolding first_bracket ranges
set_at [] = none
set_at (c ∷ s) =
    if eqb c b'!'
    then (elim (first_bracket s) [
      | none ↦ none
      | some (inside, after) ↦ some (set true (ranges inside), after)
    ])
    else (elim (first_bracket (c ∷ s)) [
      | none ↦ none
      | some (inside, after) ↦ some (set false (ranges inside), after)
    ])

abbrev literal : ℕ → Token
literal c = set false ((c, c) ∷ [])

-- Each round reads one character at least, so the pattern's length is fuel enough.
tokens : ℕ → List ℕ → List Token
unfolding set_at
tokens zero s = []
tokens (suc fuel) [] = []
tokens (suc fuel) (c ∷ s) =
    let bracket : List Token = elim (set_at s) [
      | none ↦ literal c ∷ tokens fuel s
      | some (t, after) ↦ t ∷ tokens fuel after
    ] in
    let plain : List Token = tokens fuel s in
    if eqb c b'*'
    then star ∷ plain
    else if eqb c b'?'
    then one ∷ plain
    else if eqb c b'['
    then bracket
    else literal c ∷ plain

any_suffix : (List ℕ → Bool) → List ℕ → Bool
any_suffix k [] = k []
any_suffix k (c ∷ s) = k (c ∷ s) || any_suffix k s

matches : List Token → List ℕ → Bool
unfolding any_suffix in_range
matches [] [] = true
matches [] (c ∷ s) = false
matches (star ∷ ts) s = any_suffix (matches ts) s
matches (one ∷ ts) [] = false
matches (one ∷ ts) (c ∷ s) = matches ts s
matches (set negated items ∷ ts) [] = false
matches (set negated items ∷ ts) (c ∷ s) =
    (if negated then not (any (in_range c) items) else any (in_range c) items) && matches ts s

unfoldable pub fnmatch : String → String → Bool
unfolding tokens matches
fnmatch name pattern = matches (tokens (length (codes pattern)) (codes pattern)) (codes name)
