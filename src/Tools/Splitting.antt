-- ===== src/Tools/Splitting.antt =====
-- What `_split_statements` keeps of a text (tools/sql_query/tool.py).
use Prim.Native.Char.{Char, char}
use Prim.Native.String.{String, ◌++◌}
use text.Mathlib.TextEquality.{Char-path}
use text.Mathlib.TextLemmas.{nil-append, cons-append}
use davinci_agent.Prelude.{
  ◌≡◌, refl, ap, sym, ◌∙◌, Bool, true, false, not, ◌&&◌, ◌||◌, any, subst, List, [], ◌∷◌,
  if◌then◌else◌, arith,
}
use davinci_agent.Prelude.Text.{join}
use davinci_agent.Tools.Statements.{is_quote, is_semicolon, extend, split_parts}

abbrev is_nil : List String → Bool
is_nil [] = true
is_nil (_ ∷ _) = false

abbrev semicolon : Char
semicolon = char 59 tt

join-extend : (c : Char) (ps : List String) → join ";" (extend c ps) ≡ String.◌∷◌ c (join ";" ps)
unfolding join extend
join-extend c [] = refl
join-extend c (p ∷ []) = refl
join-extend c (p ∷ q ∷ ps) = cons-append c p (";" ++ join ";" (q ∷ ps))

join-empty :
    (ps : List String) → is_nil ps ≡ false → join ";" ("" ∷ ps) ≡ String.◌∷◌ semicolon (join ";" ps)
unfolding join
join-empty [] h = ground arith
join-empty (p ∷ ps) h =
    nil-append (";" ++ join ";" (p ∷ ps))
    ∙ cons-append semicolon "" (join ";" (p ∷ ps))
    ∙ ap (String.◌∷◌ semicolon) (nil-append (join ";" (p ∷ ps)))

is_semicolon-char : (c : Char) → is_semicolon c ≡ true → semicolon ≡ c
is_semicolon-char c h = Char-path semicolon c (ground arith)

extend-is_nil : (c : Char) (ps : List String) → is_nil (extend c ps) ≡ false
unfolding extend
extend-is_nil c [] = refl
extend-is_nil c (p ∷ ps) = refl

step-is_nil :
    (c : Char) (t : Bool) (ps : List String) → is_nil (if t then "" ∷ ps else extend c ps) ≡ false
step-is_nil c true ps = refl
step-is_nil c false ps = extend-is_nil c ps

split_parts-is_nil : (in_str : Bool) (s : String) → is_nil (split_parts in_str s) ≡ false
unfolding split_parts
split_parts-is_nil in_str String.[] = refl
split_parts-is_nil in_str (String.◌∷◌ c s) =
    let now = if is_quote c then not in_str else in_str in
    step-is_nil c (is_semicolon c && not now) (split_parts now s)

join-step :
    (c : Char) (t u : Bool) (ps : List String)
    → (t ≡ true → semicolon ≡ c)
    → is_nil ps ≡ false
    → join ";" (if t && u then "" ∷ ps else extend c ps) ≡ String.◌∷◌ c (join ";" ps)
join-step c true true ps at h = join-empty ps h ∙ ap (λ d. String.◌∷◌ d (join ";" ps)) (at refl)
join-step c true false ps at h = join-extend c ps
join-step c false u ps at h = join-extend c ps

-- The parts, joined with semicolons, are the text again, wherever the quotes stand.
join-split_parts : (in_str : Bool) (s : String) → join ";" (split_parts in_str s) ≡ s
unfolding split_parts join
join-split_parts in_str String.[] = refl
join-split_parts in_str (String.◌∷◌ c s) =
    let now = if is_quote c then not in_str else in_str in
    join-step c (is_semicolon c) (not now) (split_parts now s) (is_semicolon-char c)
      (split_parts-is_nil now s)
    ∙ ap (String.◌∷◌ c) (join-split_parts now s)

-- whether a semicolon stands outside quotes
abbrev pub has_semicolon : Bool → String → Bool
has_semicolon in_str String.[] = false
has_semicolon in_str (String.◌∷◌ c s) =
    let now = if is_quote c then not in_str else in_str in
    (is_semicolon c && not now) || has_semicolon now s

-- the first part is read from `in_str` on, the others from outside quotes
abbrev is_open : Bool → List String → Bool
is_open in_str [] = false
is_open in_str (p ∷ ps) = has_semicolon in_str p || any (has_semicolon false) ps

extend-is_open :
    (in_str : Bool) (c : Char) (ps : List String)
    → let now = if is_quote c then not in_str else in_str in
      is_semicolon c && not now ≡ false
      → is_open now ps ≡ false
      → is_open in_str (extend c ps) ≡ false
unfolding extend
extend-is_open in_str c [] = λ closed h. ground arith
extend-is_open in_str c (p ∷ ps) = λ closed h. ground arith

is_open-tail : (ps : List String) → is_open false ps ≡ any (has_semicolon false) ps
is_open-tail [] = refl
is_open-tail (p ∷ ps) = refl

step-is_open :
    (t now in_str : Bool) (c : Char) (ps : List String)
    → (t && not now ≡ false → is_open in_str (extend c ps) ≡ false)
    → is_open now ps ≡ false
    → is_open in_str (if t && not now then "" ∷ ps else extend c ps) ≡ false
step-is_open true true in_str c ps goes_on h = goes_on refl
step-is_open true false in_str c ps goes_on h = sym (is_open-tail ps) ∙ h
step-is_open false now in_str c ps goes_on h = goes_on refl

split_parts-is_open : (in_str : Bool) (s : String) → is_open in_str (split_parts in_str s) ≡ false
unfolding split_parts
split_parts-is_open in_str String.[] = refl
split_parts-is_open in_str (String.◌∷◌ c s) =
    let now = if is_quote c then not in_str else in_str in
    let rest = split_parts-is_open now s in
    step-is_open (is_semicolon c) now in_str c (split_parts now s)
      (λ closed. extend-is_open in_str c (split_parts now s) closed rest) rest

-- whether a text ends within quotes
abbrev pub ends_in_str : Bool → String → Bool
ends_in_str in_str String.[] = in_str
ends_in_str in_str (String.◌∷◌ c s) = ends_in_str (if is_quote c then not in_str else in_str) s

-- each part but the last ends outside quotes; the first is read from `in_str` on
abbrev pub are_closed : Bool → List String → Bool
are_closed in_str [] = true
are_closed in_str (p ∷ []) = true
are_closed in_str (p ∷ q ∷ ps) = not (ends_in_str in_str p) && are_closed false (q ∷ ps)

extend-are_closed :
    (in_str : Bool) (c : Char) (ps : List String)
    → are_closed in_str (extend c ps) ≡ are_closed (if is_quote c then not in_str else in_str) ps
unfolding extend
extend-are_closed in_str c [] = refl
extend-are_closed in_str c (p ∷ []) = refl
extend-are_closed in_str c (p ∷ q ∷ ps) = refl

empty-are_closed :
    (ps : List String) → are_closed false ps ≡ true → are_closed false ("" ∷ ps) ≡ true
empty-are_closed [] h = refl
empty-are_closed (p ∷ ps) h = h

-- a semicolon is no quote
semicolon-outside :
    (c : Char) (in_str : Bool)
    → is_semicolon c ≡ true
    → (if is_quote c then not in_str else in_str) ≡ in_str
semicolon-outside c in_str h = ground arith

step-are_closed :
    (t now in_str : Bool) (c : Char) (ps : List String)
    → (t ≡ true → now ≡ in_str)
    → are_closed in_str (extend c ps) ≡ true
    → are_closed now ps ≡ true
    → are_closed in_str (if t && not now then "" ∷ ps else extend c ps) ≡ true
step-are_closed true true in_str c ps same goes_on h = goes_on
step-are_closed false now in_str c ps same goes_on h = goes_on
step-are_closed true false in_str c ps same goes_on h =
    subst (λ b. are_closed b ("" ∷ ps) ≡ true) (same refl) (empty-are_closed ps h)

split_parts-are_closed :
    (in_str : Bool) (s : String) → are_closed in_str (split_parts in_str s) ≡ true
unfolding split_parts
split_parts-are_closed in_str String.[] = refl
split_parts-are_closed in_str (String.◌∷◌ c s) =
    let now = if is_quote c then not in_str else in_str in
    let rest = split_parts-are_closed now s in
    let parts = split_parts now s in
    step-are_closed (is_semicolon c) now in_str c parts (semicolon-outside c in_str)
      (extend-are_closed in_str c parts ∙ rest) rest

-- The parts of a text, joined with semicolons, are the text again; in no part a semicolon stands
-- outside single quotes, and each part but the last ends outside them.
pub split_parts-IsSplit :
    (s : String)
    → (join ";" (split_parts false s) ≡ s)
      × (any (has_semicolon false) (split_parts false s) ≡ false)
      × (are_closed false (split_parts false s) ≡ true)
split_parts-IsSplit s = (
  join-split_parts false s,
  sym (is_open-tail (split_parts false s)) ∙ split_parts-is_open false s,
  split_parts-are_closed false s,
)
