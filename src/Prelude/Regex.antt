-- ===== src/Prelude/Regex.antt =====
-- Python's `re`, as far as the program uses it: a repetition is of one character class, `many` the
-- greedy one and `lazy` the other.
-- A match is tried in Python's order, greedily, and hands what is left to a continuation.
use Prim.Native.Nat.{ℕ, zero, suc}
use mathlib.Core.Bool.{Bool, true, false, not, ◌&&◌, ◌||◌}
use mathlib.Core.Option.{Option, none, some}
use mathlib.Core.List.{List, [], ◌∷◌}
use Prim.Native.String.{String}
use davinci_agent.Prelude.Tests.{leb, eqb, if◌then◌else◌}
use davinci_agent.Prelude.Text.{codes}

pub data Regex : Type 0 where
  empty boundary at_end : Regex
  one many lazy : (ℕ → Bool) → Regex
  both either : Regex → Regex → Regex

-- A place in a text: the character before it, and what follows.
abbrev pub Place : Type 0
Place = Option ℕ × List ℕ

-- `\w`, on ASCII
abbrev pub is_word : ℕ → Bool
is_word c =
    (leb b'a' c && leb c b'z')
    || (leb b'A' c && leb c b'Z')
    || (leb b'0' c && leb c b'9')
    || eqb c b'_'

word_at : List ℕ → Bool
word_at [] = false
word_at (c ∷ s) = is_word c

word_before : Option ℕ → Bool
word_before none = false
word_before (some c) = is_word c

-- `\b`
is_boundary : Place → Bool
unfolding word_at word_before
is_boundary (prev, s) = if word_before prev then not (word_at s) else word_at s

-- `$`: the end, or before a newline that ends the text
is_end : List ℕ → Bool
is_end [] = true
is_end (c ∷ []) = eqb c 10
is_end _ = false

module _ {ℓ} {A : Type ℓ} where
  or_try : Option A → Option A → Option A
  or_try (some a) o = some a
  or_try none o = o

  many_from : (ℕ → Bool) → (Place → Option A) → Option ℕ → List ℕ → Option A
  unfolding or_try
  many_from f k prev [] = k (prev, [])
  many_from f k prev (c ∷ s) =
      let rest = or_try (many_from f k (some c) s) (k (prev, c ∷ s)) in
      if f c then rest else k (prev, c ∷ s)

  lazy_from : (ℕ → Bool) → (Place → Option A) → Option ℕ → List ℕ → Option A
  unfolding or_try
  lazy_from f k prev [] = k (prev, [])
  lazy_from f k prev (c ∷ s) =
      let rest = or_try (k (prev, c ∷ s)) (lazy_from f k (some c) s) in
      if f c then rest else k (prev, c ∷ s)

  one_from : (ℕ → Bool) → (Place → Option A) → List ℕ → Option A
  one_from f k [] = none
  one_from f k (c ∷ s) = if f c then k (some c, s) else none

  unfoldable pub run : Regex → (Place → Option A) → Place → Option A
  unfolding many_from lazy_from one_from is_boundary is_end
  run empty k p = k p
  run boundary k p = if is_boundary p then k p else none
  run at_end k p = if is_end p.1 then k p else none
  run (one f) k p = one_from f k p.1
  run (many f) k p = many_from f k p.0 p.1
  run (lazy f) k p = lazy_from f k p.0 p.1
  run (both r s) k p = run r (run s k) p
  run (either r s) k p = or_try (run r k p) (run s k p)

-- r.match at a place: the place where the match ends
unfoldable pub match_at : Regex → Place → Option Place
unfolding run
match_at r p = run r (λ q. some q) p

unfoldable pub found : Option Place → Bool
found none = false
found (some p) = true

unfoldable pub search_from : Regex → Option ℕ → List ℕ → Bool
unfolding match_at found
search_from r prev [] = found (match_at r (prev, []))
search_from r prev (c ∷ s) = found (match_at r (prev, c ∷ s)) || search_from r (some c) s

-- bool(r.search(text))
unfoldable pub search : Regex → String → Bool
unfolding search_from
search r text = search_from r none (codes text)

-- a literal text, one character after the other
unfoldable pub literal : List ℕ → Regex
literal [] = empty
literal (c ∷ s) = both (one (λ d. eqb d c)) (literal s)

abbrev pub some_of : (ℕ → Bool) → Regex
some_of f = both (one f) (many f)

-- r{n}
unfoldable pub times : ℕ → Regex → Regex
times zero r = empty
times (suc n) r = both r (times n r)

-- `.`
abbrev pub any_char : ℕ → Bool
any_char c = not (eqb c 10)
