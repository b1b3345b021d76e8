-- ===== src/Prelude/Text.antt =====
-- Python's `str` over the native `String`: a text is its code points, `len` is `count`.
use Prim.Native.Nat.{ℕ, zero, suc, ◌-◌, ◌/◌, ◌%◌, min}
use Prim.Native.Char.{Char, code}
use Prim.Native.String.{String, [], ◌∷◌, ◌++◌, count}
use mathlib.Core.Path.{◌≡◌}
use mathlib.Core.Bool.{Bool, false, not, ◌&&◌, ◌||◌}
use mathlib.Core.List.{List}
use native.Mathlib.Omega.{arith}
use text.Mathlib.Text.{◌==◌, starts_with}
use text.Mathlib.TextEquality.{eq_iff}
use text.Mathlib.TextLemmas.{length-cons, append-eq-nil_iff}
use mathlib.Core.Logic.{inl, inr}
use davinci_agent.Prelude.Tests.{ltb, leb, eqb, if◌then◌else◌, Bool-cases}

abbrev pub codes : String → List ℕ
codes [] = List.[]
codes (c ∷ s) = List.◌∷◌ (code c) (codes s)

-- s[:n] and s[n:]
abbrev pub take : ℕ → String → String
take zero s = []
take (suc n) [] = []
take (suc n) (c ∷ s) = c ∷ take n s

abbrev pub drop : ℕ → String → String
drop zero s = s
drop (suc n) [] = []
drop (suc n) (c ∷ s) = drop n s

-- s[-n:], for 0 < n
abbrev pub take_last : ℕ → String → String
take_last n s = drop (count s - n) s

-- the character at a place, `c` past the end
abbrev pub nth : ℕ → Char → String → Char
nth i c [] = c
nth zero c (d ∷ s) = d
nth (suc i) c (d ∷ s) = nth i c s

-- str.isspace, which `str.strip` and `\s` use
unfoldable pub is_space : ℕ → Bool
is_space c =
    (leb 9 c && leb c 13)
    || (leb 28 c && leb c 32)
    || eqb c 133
    || eqb c 160
    || eqb c 5760
    || (leb 8192 c && leb c 8202)
    || eqb c 8232
    || eqb c 8233
    || eqb c 8239
    || eqb c 8287
    || eqb c 12288

unfoldable pub lstrip : String → String
unfolding is_space
lstrip [] = []
lstrip (c ∷ s) = let rest = lstrip s in if is_space (code c) then rest else c ∷ s

unfoldable pub rstrip : String → String
unfolding is_space
rstrip [] = []
rstrip (c ∷ s) = let rest = rstrip s in if is_space (code c) && rest == "" then "" else c ∷ rest

-- s.strip()
unfoldable pub strip : String → String
unfolding lstrip rstrip
strip s = rstrip (lstrip s)

-- s.lower(), on ASCII letters
unfoldable pub lower_char : Char → Char
lower_char c =
    if leb b'A' (code c) && leb (code c) b'Z'
    then nth (code c - b'A') c "abcdefghijklmnopqrstuvwxyz"
    else c

unfoldable pub lower : String → String
unfolding lower_char
lower [] = []
lower (c ∷ s) = lower_char c ∷ lower s

-- `needle in s`
unfoldable pub contains : String → String → Bool
contains needle [] = needle == ""
contains needle (c ∷ s) = starts_with (c ∷ s) needle || contains needle s

replace_from : String → String → ℕ → String → String
replace_from old new skip [] = ""
replace_from old new (suc skip) (c ∷ s) = replace_from old new skip s
replace_from old new zero (c ∷ s) =
    let past = new ++ replace_from old new (count old - 1) s in
    let on = c ∷ replace_from old new zero s in if starts_with (c ∷ s) old then past else on

-- s.replace(old, new), for a text `old` that is not empty
unfoldable pub replace : String → String → String → String
unfolding replace_from
replace old new s = replace_from old new 0 s

-- s.split(sep), for a separator of one character
unfoldable pub split_on : ℕ → String → List String
split_on sep [] = List.◌∷◌ "" List.[]
split_on sep (c ∷ s) = elim (split_on sep s) [
  | List.[] ↦ List.[]
  | List.◌∷◌ w ws ↦ if eqb (code c) sep then List.◌∷◌ "" (List.◌∷◌ w ws) else List.◌∷◌ (c ∷ w) ws
]

-- The words after the first, and the first, which is empty where the text begins with a space.
words : String → String × List String
words [] = ("", List.[])
words (c ∷ s) =
    let (w, ws) = words s in
    if is_space (code c) then ("", if w == "" then ws else List.◌∷◌ w ws) else (c ∷ w, ws)

-- s.split()
unfoldable pub split_space : String → List String
unfolding words is_space
split_space s = let (w, ws) = words s in if w == "" then ws else List.◌∷◌ w ws

count_from : String → ℕ → String → ℕ
count_from sub skip [] = 0
count_from sub (suc skip) (c ∷ s) = count_from sub skip s
count_from sub zero (c ∷ s) =
    let past = suc (count_from sub (count sub - 1) s) in
    let on = count_from sub zero s in if starts_with (c ∷ s) sub then past else on

-- s.count(sub), for a text `sub` that is not empty
unfoldable pub count_in : String → String → ℕ
unfolding count_from
count_in sub s = count_from sub 0 s

-- sep.join(parts)
unfoldable pub join : String → List String → String
join sep List.[] = ""
join sep (List.◌∷◌ s List.[]) = s
join sep (List.◌∷◌ s (List.◌∷◌ t rest)) = s ++ sep ++ join sep (List.◌∷◌ t rest)

digit : ℕ → Char
digit d = nth d "0" "0123456789abcdef"

show_within : ℕ → ℕ → String
unfolding digit
show_within zero n = ""
show_within (suc fuel) n =
    let rest = show_within fuel (n / 10) in
    if ltb n 10 then digit n ∷ "" else rest ++ digit (n % 10) ∷ ""

-- str(n); a number has at most as many digits as its value and one
unfoldable pub show : ℕ → String
unfolding show_within
show n = show_within (suc n) n

-- repr(s); of what is not printable only the ASCII controls are escaped
escape : Char → String → String
unfolding digit
escape q [] = ""
escape q (c ∷ s) =
    let rest = escape q s in
    if eqb (code c) (code "\\")
    then "\\\\" ++ rest
    else if eqb (code c) (code q)
    then "\\" ++ q ∷ rest
    else if eqb (code c) 10
    then "\\n" ++ rest
    else if eqb (code c) 13
    then "\\r" ++ rest
    else if eqb (code c) 9
    then "\\t" ++ rest
    else if ltb (code c) 32 || eqb (code c) 127
    then "\\x" ++ digit (code c / 16) ∷ digit (code c % 16) ∷ rest
    else c ∷ rest

unfoldable pub repr : String → String
unfolding escape contains
repr s =
    if contains "'" s && not (contains "\"" s)
    then "\"" ++ escape "\"" s ++ "\""
    else "'" ++ escape "'" s ++ "'"

pub count-take : (n : ℕ) (s : String) → count (take n s) ≡ min n (count s)
count-take zero s = omega arith
count-take (suc n) [] = omega arith
count-take (suc n) (c ∷ s) =
    omega (arith, count-take n s, length-cons c s, length-cons c (take n s))

pub count-drop : (n : ℕ) (s : String) → count (drop n s) ≡ count s - n
count-drop zero s = omega arith
count-drop (suc n) [] = omega arith
count-drop (suc n) (c ∷ s) = omega (arith, count-drop n s, length-cons c s)

-- a text that begins with something is not empty
pub append-ne-empty : (s t : String) → (s == "") ≡ false → ((s ++ t) == "") ≡ false
append-ne-empty s t h = elim (Bool-cases ((s ++ t) == "")) [
  | inl e ↦ cc (h, (eq_iff s "").1 (append-eq-nil_iff.0 ((eq_iff (s ++ t) "").0 e)).0)
  | inr e ↦ e
]
