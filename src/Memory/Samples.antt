-- ===== src/Memory/Samples.antt =====
-- Memories and sessions of davinci/memory.py, and the theorems at them.
use davinci_agent.Prelude.{
  ◌==◌, ◌<>◌, ◌≢◌, Bool, false, ℕ, ◌+◌, ◌≤◌, ◌<◌, ◌≡◌, refl, String, count, Option, none, some,
  List, [], ◌∷◌, ◌++◌, ◌⊎◌, length, map, take_last, arith,
}
use davinci_agent.Prelude.Text.{strip}
use davinci_agent.Prelude.Dict.{remove, IsDistinct}
use davinci_agent.Prelude.Value.{string, Fields, end, field}
use davinci_agent.Memory.Instructions.{Files, discover}
use davinci_agent.Memory.Climb.{discover_ends}
use davinci_agent.Prelude.Text
use text.Mathlib.TextLemmas.{length-cons}
use davinci_agent.Memory.Working.{Item, new_memory}
use davinci_agent.Memory.Window.{remember_all, remember_all_window, remember_all_one}
use davinci_agent.Memory.Compact.{compact_messages, cap_text}
use davinci_agent.Memory.Capped.{
  IsTrimmed, AreCompacted, cap_text_overhead, compact_messages-AreCompacted,
}
use davinci_agent.Memory.Session.{SessionMemory, new_sessions, append, messages, message}
use davinci_agent.Memory.Sessions.{
  append_lem, IsBounded, appending, clearing, call_all, call_all-IsBounded,
}

abbrev item : String → Item
item s = record { role = "user"; content = string s }

abbrev heard : List Item
heard = item "a" ∷ item "b" ∷ item "c" ∷ []

remember_all_window_example :
    ((remember_all heard (new_memory 2)).items ≡ item "a" ∷ item "c" ∷ [])
    × (length (remember_all heard (new_memory 2)).items ≤ 2)
remember_all_window_example = remember_all_window 2 heard (omega arith)

remember_all_one_example : length (remember_all heard (new_memory 1)).items ≡ 5
remember_all_one_example = remember_all_one (item "a") (item "b" ∷ item "c" ∷ [])

abbrev said : String → Fields
said s = field "role" (string "user") (field "content" (string s) end)

compact_messages-AreCompacted_example :
    AreCompacted 4
      (said "a" ∷ said "hello" ∷ [])
      (compact_messages 4 2 (said "a" ∷ said "b" ∷ said "hello" ∷ []))
    × (length (compact_messages 4 2 (said "a" ∷ said "b" ∷ said "hello" ∷ [])) ≤ 2)
compact_messages-AreCompacted_example =
    compact_messages-AreCompacted 4 2 (said "a" ∷ said "b" ∷ said "hello" ∷ []) (omega arith)
      (omega arith)

cap_text_overhead_example :
    ((5 ≤ 4) × (cap_text 4 "hello" ≡ "hello"))
    ⊎ ((4 < 5) × IsTrimmed 4 "hello" (cap_text 4 "hello") × (23 ≤ count (cap_text 4 "hello")))
cap_text_overhead_example = cap_text_overhead 4 "hello" (omega arith)

abbrev two_sessions : SessionMemory
two_sessions = record {
  max_messages = 2;
  max_sessions = 2;
  sessions = ("x", message "user" "a" none ∷ message "user" "b" none ∷ []) ∷ ("y", []) ∷ [];
}

two_sessions-IsDistinct : IsDistinct two_sessions.sessions
unfolding IsDistinct davinci_agent.Prelude.Dict.has
two_sessions-IsDistinct = (refl, (refl, tt))

append_lem_example :
    ((append "x" "user" " hi " none two_sessions).sessions
      ≡ ("y", []) ∷ ("x", message "user" "b" none ∷ message "user" "hi" none ∷ []) ∷ [])
    × (messages "x" (append "x" "user" " hi " none two_sessions)
        ≡ message "user" "b" none ∷ message "user" "hi" none ∷ [])
unfolding strip remove messages davinci_agent.Prelude.Dict.lookup
append_lem_example =
    append_lem "x" "user" " hi " none two_sessions two_sessions-IsDistinct (omega arith) refl

call_all-IsBounded_example : IsBounded (
    call_all
      (appending "x" "user" "a" none ∷ appending "y" "user" "b" none ∷ clearing "x" ∷ [])
      (new_sessions 1 1))
call_all-IsBounded_example =
    call_all-IsBounded 1 1
      (appending "x" "user" "a" none ∷ appending "y" "user" "b" none ∷ clearing "x" ∷ [])
      (omega arith) (omega arith)

-- one instruction file, and directories whose parents are one letter shorter
abbrev disk : Files
disk = record {
  isfile = λ p. p == "/DAVINCI.md";
  read = λ p. some " be kind ";
  abspath = λ p. p;
  dirname = Text.drop 1;
  join_path = λ p q. p <> q;
  sep = "/";
}

disk-shrinks : (p : String) → (disk.dirname p == p) ≡ false → count (disk.dirname p) < count p
disk-shrinks String.[] h = absurd (ground arith)
disk-shrinks (String.◌∷◌ c s) h =
    let shorter : count (disk.dirname (String.◌∷◌ c s)) ≡ count s = refl in
    omega (arith, shorter, length-cons c s)

discover_ends_example : discover disk 5 "abc/" none [] ≢ none
discover_ends_example = discover_ends disk disk-shrinks 5 "abc/" none [] (omega arith)
