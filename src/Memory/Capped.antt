-- ===== src/Memory/Capped.antt =====
-- What `compact_messages` of davinci/memory.py keeps of a text and of each message.
use text.Mathlib.TextLemmas.{length-append as count-append, cons-append, nil-append}
use davinci_agent.Prelude.{
  ℕ, zero, suc, ◌+◌, ◌-◌, ◌/◌, ◌≤◌, ◌≡◌, refl, sym, ap, subst, ◌∙◌, ◌<◌, String, ◌<>◌, count, List,
  [], ◌∷◌, ◌++◌, map, arith, ltb, lt→ltb, length, take, take_last, if◌then◌else◌, ◌⊎◌, inl, inr,
  Bool-cases,
}
use davinci_agent.Prelude.Text
use davinci_agent.Prelude.Text.{count-take, count-drop}
use davinci_agent.Prelude.Value.{Fields, get}
use davinci_agent.Memory.Compact.{
  Compacted, from_end, cap_text, content_text, or_default, compact_item, compact_messages,
  compact_messages_window,
}

count-trimmed :
    (a n b : String)
    → count (a <> "\n…[" <> n <> " chars trimmed]…\n" <> b) ≡ count a + count n + count b + 20
count-trimmed a n b = omega (arith, count-append)

count-from_end : (n : ℕ) (s : String) → 1 ≤ n → n ≤ count s → count (from_end n s) ≡ n
unfolding from_end
count-from_end zero s h k = absurd (omega arith)
count-from_end (suc n) s h k = omega (arith, count-drop (count s - suc n) s)

-- A text is its first half cap, a middle and its last half cap; what is kept are the two ends, with a
-- note between them that says how far the text was over the cap.
pub record IsTrimmed (max_chars : ℕ) (s kept : String) : Type 0 where
  pub first : String
  pub middle : String
  pub last : String
  pub whole : s ≡ first <> middle <> last
  pub first_half : count first ≡ max_chars / 2
  pub last_half : count last ≡ max_chars / 2
  pub both_ends :
      kept ≡ first <> "\n…[" <> Text.show (count s - max_chars) <> " chars trimmed]…\n" <> last

take-drop : (n : ℕ) (s : String) → Text.take n s <> Text.drop n s ≡ s
take-drop zero s = nil-append s
take-drop (suc n) String.[] = refl
take-drop (suc n) (String.◌∷◌ c s) =
    cons-append c (Text.take n s) (Text.drop n s) ∙ ap (String.◌∷◌ c) (take-drop n s)

drop-empty : (n : ℕ) → Text.drop n "" ≡ ""
drop-empty zero = refl
drop-empty (suc n) = refl

drop-drop : (m n : ℕ) (s : String) → Text.drop m (Text.drop n s) ≡ Text.drop (n + m) s
drop-drop m zero s = ap (λ k. Text.drop k s) (omega arith)
drop-drop m (suc n) String.[] = drop-empty m ∙ sym (drop-empty (suc n + m))
drop-drop m (suc n) (String.◌∷◌ c s) =
    let same : suc (n + m) ≡ suc n + m = omega arith in
    drop-drop m n s ∙ ap (λ k. Text.drop k (String.◌∷◌ c s)) same

from_end-drop : (n : ℕ) (s : String) → 1 ≤ n → from_end n s ≡ Text.drop (count s - n) s
unfolding from_end
from_end-drop zero s h = absurd (omega arith)
from_end-drop (suc n) s h = refl

cap_text-IsTrimmed :
    (max_chars : ℕ) (s : String)
    → 2 ≤ max_chars
    → max_chars < count s
    → IsTrimmed max_chars s (cap_text max_chars s)
unfolding cap_text
cap_text-IsTrimmed max_chars s h long =
    let half = max_chars / 2 in
    let between = count s - half - half in
    let tail = Text.drop half s in
    let ends : Text.drop between tail ≡ from_end half s =
      drop-drop between half s
      ∙ ap (λ n. Text.drop n s) (omega arith)
      ∙ sym (from_end-drop half s (omega arith)) in
    record {
      first = Text.take half s;
      middle = Text.take between tail;
      last = from_end half s;
      whole =
          sym (take-drop half s)
          ∙ ap (λ t. Text.take half s <> t)
              (sym (take-drop between tail) ∙ ap (λ t. Text.take between tail <> t) ends);
      first_half = omega (arith, count-take half s);
      last_half = count-from_end half s (omega arith) (omega arith);
      both_ends = rw (lt→ltb _ _ long) refl;
    }

-- With a cap of at least 2, a text within the cap stays as it is. A longer one is over the cap also
-- afterwards: it keeps its first and its last characters, half the cap of each, around a note of how
-- many characters it was over the cap, and so is at least 19 characters longer than the cap.
pub cap_text_overhead :
    (max_chars : ℕ) (s : String)
    → 2 ≤ max_chars
    → ((count s ≤ max_chars) × (cap_text max_chars s ≡ s))
      ⊎ ((max_chars < count s)
          × IsTrimmed max_chars s (cap_text max_chars s)
          × (max_chars + 19 ≤ count (cap_text max_chars s)))
cap_text_overhead max_chars s h = elim (Bool-cases (ltb max_chars (count s))) [
  | inl over ↦
      let long : max_chars < count s = ground arith in
      let t = cap_text-IsTrimmed max_chars s h long in
      let note = Text.show (count s - max_chars) in
      inr (
        long,
        t,
        omega (
          arith,
          t.first_half,
          t.last_half,
          ap (λ (k : String). count k) t.both_ends,
          count-trimmed t.first note t.last,
        ),
      )
  | inr within ↦ inl (ground arith, unfold cap_text in ground arith)
]

-- a message, and what is kept of it
pub record IsCompacted (max_chars : ℕ) (message : Fields) (c : Compacted) : Type 0 where
  pub same_role : c.role ≡ or_default (get "role" message) "?"
  pub capped :
      let text = content_text (or_default (get "content" message) "") in
      ((count text ≤ max_chars) × (c.content ≡ text))
      ⊎ ((max_chars < count text) × IsTrimmed max_chars text c.content)

abbrev pub AreCompacted : ℕ → List Fields → List Compacted → Type 0
AreCompacted max_chars [] [] = Unit
AreCompacted max_chars (m ∷ ms) (c ∷ cs) = IsCompacted max_chars m c × AreCompacted max_chars ms cs
AreCompacted max_chars ms cs = ⊥

compact_item-IsCompacted :
    (max_chars : ℕ) (message : Fields)
    → 2 ≤ max_chars
    → IsCompacted max_chars message (compact_item max_chars message)
unfolding compact_item
compact_item-IsCompacted max_chars message h =
    let text = content_text (or_default (get "content" message) "") in
    record {
      same_role = refl;
      capped = elim (cap_text_overhead max_chars text h) [
        | inl within ↦ inl within
        | inr (long, trimmed, over) ↦ inr (long, trimmed)
      ];
    }

map-AreCompacted :
    (max_chars : ℕ) (messages : List Fields)
    → 2 ≤ max_chars
    → AreCompacted max_chars messages (map (compact_item max_chars) messages)
map-AreCompacted max_chars [] h = tt
map-AreCompacted max_chars (m ∷ ms) h =
    (compact_item-IsCompacted max_chars m h, map-AreCompacted max_chars ms h)

-- With a cap of at least 2 and room for at least two messages, the result has at most that many:
-- all messages while they fit, and else the first and the most recent ones, in their order. Each
-- that stays has its role, and its text as it was where that is within the cap, and else the two
-- ends of the text, of half the cap each, around the note.
pub compact_messages-AreCompacted :
    (max_chars n : ℕ) (messages : List Fields)
    → 2 ≤ max_chars
    → 2 ≤ n
    → AreCompacted max_chars
        (if ltb n (length messages)
          then take 1 messages ++ take_last (n - 1) messages
          else messages)
        (compact_messages max_chars n messages)
      × (length (compact_messages max_chars n messages) ≤ n)
compact_messages-AreCompacted max_chars n messages h room =
    let stays =
      if ltb n (length messages) then take 1 messages ++ take_last (n - 1) messages else messages in
    let window = compact_messages_window max_chars n messages room in
    (
      subst (AreCompacted max_chars stays) (sym window.0) (map-AreCompacted max_chars stays h),
      window.1,
    )
