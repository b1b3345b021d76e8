-- ===== src/Memory/Compact.antt =====
-- `compact_messages` of davinci/memory.py.
use mathlib.Core.Path.{ap₂}
use mathlib.Core.List.{map-append}
use davinci_agent.Prelude.{
  ℕ, zero, suc, ◌-◌, ◌/◌, ◌≤◌, ◌≡◌, refl, sym, ap, ◌∙◌, drop, String, ◌<>◌, count, Option, none,
  some, List, [], ◌∷◌, ◌++◌, map, arith, ltb, length, take, take_last, if◌then◌else◌,
}
use davinci_agent.Prelude.Text
use davinci_agent.Prelude.Text.{count-take, count-drop}
use davinci_agent.Prelude.Value.{Value, string, Fields, get}
use davinci_agent.Prelude.Json.{dumps}
use davinci_agent.Memory.Working.{trim}
use davinci_agent.Memory.Window.{length-trim}

pub record Compacted : Type 0 where
  pub role : Value
  pub content : String

-- text[-half:]
unfoldable pub from_end : ℕ → String → String
from_end zero s = s
from_end (suc n) s = Text.take_last (suc n) s

unfoldable pub cap_text : ℕ → String → String
unfolding from_end
cap_text max_chars s =
    if ltb max_chars (count s)
    then Text.take (max_chars / 2) s
      <> "\n…["
      <> Text.show (count s - max_chars)
      <> " chars trimmed]…\n"
      <> from_end (max_chars / 2) s
    else s

-- `content if isinstance(content, str) else json.dumps(content)`
unfoldable pub content_text : Value → String
content_text (string s) = s
content_text v = dumps v

abbrev pub or_default : Option Value → String → Value
or_default none s = string s
or_default (some v) s = v

unfoldable pub compact_item : ℕ → Fields → Compacted
unfolding cap_text content_text
compact_item max_chars message = record {
  role = or_default (get "role" message) "?";
  content = cap_text max_chars (content_text (or_default (get "content" message) ""));
}

unfoldable pub compact_messages : ℕ → ℕ → List Fields → List Compacted
unfolding compact_item trim
compact_messages max_chars max_items messages =
    trim max_items (map (compact_item max_chars) messages)

module _ {A B : Type 0} (f : A → B) where
  length-map : (xs : List A) → length (map f xs) ≡ length xs
  length-map [] = refl
  length-map (x ∷ xs) = ap suc (length-map xs)

  map-take : (n : ℕ) (xs : List A) → map f (take n xs) ≡ take n (map f xs)
  map-take zero xs = refl
  map-take (suc n) [] = refl
  map-take (suc n) (x ∷ xs) = ap (λ l. f x ∷ l) (map-take n xs)

  map-drop : (n : ℕ) (xs : List A) → map f (drop n xs) ≡ drop n (map f xs)
  map-drop zero xs = refl
  map-drop (suc n) [] = refl
  map-drop (suc n) (x ∷ xs) = map-drop n xs

  map-window :
      (n : ℕ) (xs : List A)
      → map f (take 1 xs ++ take_last n xs) ≡ take 1 (map f xs) ++ take_last n (map f xs)
  map-window n xs =
      map-append f (take 1 xs) (take_last n xs)
      ∙ ap₂ (λ k l. k ++ l) (map-take 1 xs)
          (map-drop (length xs - n) xs ∙ ap (λ k. drop (k - n) (map f xs)) (sym (length-map xs)))

-- With room for at least two messages: those that stay are all of them while they fit, and else the
-- first and the most recent ones.
pub compact_messages_window :
    (max_chars n : ℕ) (messages : List Fields)
    → 2 ≤ n
    → (compact_messages max_chars n messages
        ≡ map (compact_item max_chars) (
            if ltb n (length messages)
            then take 1 messages ++ take_last (n - 1) messages
            else messages))
      × (length (compact_messages max_chars n messages) ≤ n)
unfolding compact_messages
compact_messages_window max_chars zero messages h = absurd (omega arith)
compact_messages_window max_chars (suc zero) messages h = absurd (omega arith)
compact_messages_window max_chars (suc (suc n)) messages h =
    let f = compact_item max_chars in
    let same = length-map f messages in
    let window = map-window f (suc n) messages in
    (unfold trim in ground arith, length-trim (suc (suc n)) (map f messages) h)
