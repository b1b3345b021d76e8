-- ===== src/Memory/Sessions.antt =====
-- Calls of the methods of `SessionMemory` (davinci/memory.py), and the bounds of its lists.
use davinci_agent.Prelude.{
  ℕ, zero, suc, ◌-◌, ◌≤◌, ◌≡◌, sym, ap, subst, ◌∙◌, String, false, Option, some, List, [], ◌∷◌,
  ◌++◌, arith, length, length-take_last, take_last, from_end, take_last-snoc, take_last_all, All,
  All-append, All-drop, Bool-cases, inl, inr, or_else, ◌==◌, eq_refl,
}
use davinci_agent.Prelude.Dict.{Dict, lookup, remove, IsDistinct}
use davinci_agent.Prelude.Text.{strip}
use davinci_agent.Prelude.Value.{Fields, Items}
use davinci_agent.Memory.Session.{
  SessionMemory, new_sessions, evict, touch, write, messages, message, push, append, replace, clear,
  cleaned,
}
use davinci_agent.Memory.Eviction.{
  evict-eq-take_last, write-newest, remove-removes, has-drop, drop-IsDistinct, remove-IsDistinct,
  snoc-IsDistinct, lookup-append, remove-All, length-remove-le,
}

length-from_end : {A : Type 0} (n : ℕ) (xs : List A) → 1 ≤ n → length (from_end n xs) ≤ n
length-from_end zero xs h = absurd (omega arith)
length-from_end (suc n) xs h = omega (arith, length-take_last (suc n) xs)

pub push-eq-take_last :
    {A : Type 0} (n : ℕ) (msgs : List A) (entry : A)
    → push n msgs entry ≡ take_last n (msgs ++ entry ∷ [])
unfolding push
push-eq-take_last n msgs entry = ground (arith, take_last_all n (msgs ++ entry ∷ []))

-- the cache with one session brought to the newest end, and the oldest ones dropped
abbrev pub renewed : {V : Type 0} → ℕ → String → V → Dict V → Dict V
renewed n sid v d = take_last n (remove sid d ++ (sid, v) ∷ [])

module _ {V : Type 0} (n : ℕ) (sid : String) (d : Dict V) (h : IsDistinct d) where
  write-evict :
      (v w : V)
      → write sid v (evict (suc n) (remove sid d ++ (sid, w) ∷ [])) ≡ renewed (suc n) sid v d
  write-evict v w =
      ap (write sid v) (
        evict-eq-take_last (suc n) (remove sid d ++ (sid, w) ∷ [])
        ∙ take_last-snoc n (remove sid d) (sid, w))
      ∙ write-newest sid v w (take_last n (remove sid d))
          (has-drop (length (remove sid d) - n) sid (remove sid d) (remove-removes sid d h))
      ∙ sym (take_last-snoc n (remove sid d) (sid, v))

  lookup-renewed : (v : V) → lookup sid (renewed (suc n) sid v d) ≡ some v
  lookup-renewed v =
      ap (lookup sid) (take_last-snoc n (remove sid d) (sid, v))
      ∙ lookup-append sid (take_last n (remove sid d)) ((sid, v) ∷ [])
          (has-drop (length (remove sid d) - n) sid (remove sid d) (remove-removes sid d h))
      ∙ (unfold lookup in simp eq_refl)

write-evict_room :
    {V : Type 0} (n : ℕ) (sid : String) (v w : V) (d : Dict V)
    → 1 ≤ n
    → IsDistinct d
    → (write sid v (evict n (remove sid d ++ (sid, w) ∷ [])) ≡ renewed n sid v d)
      × (lookup sid (renewed n sid v d) ≡ some v)
write-evict_room zero sid v w d room h = absurd (omega arith)
write-evict_room (suc n) sid v w d room h = (write-evict n sid d h v w, lookup-renewed n sid d h v)

append-eq-renewed :
    (sid role content : String) (agent : Option String) (m : SessionMemory)
    → IsDistinct m.sessions
    → 1 ≤ m.max_sessions
    → (strip content == "") ≡ false
    → append sid role content agent m ≡ record m {
      sessions =
          renewed m.max_sessions sid
            (push m.max_messages (messages sid m) (message role (strip content) agent))
            m.sessions;
    }
unfolding append touch messages
append-eq-renewed sid role content agent m h room text =
    let msgs = or_else (lookup sid m.sessions) [] in
    let list = push m.max_messages msgs (message role (strip content) agent) in
    rw text (
      ap (λ d. record m { sessions = d })
        (write-evict_room m.max_sessions sid list msgs m.sessions room h).0)

messages-eq_of_sessions :
    (sid : String) (m : SessionMemory) (d : Dict (List Fields)) (l : List Fields)
    → m.sessions ≡ d
    → lookup sid d ≡ some l
    → messages sid m ≡ l
unfolding messages
messages-eq_of_sessions sid m d l e found = rw (e, found)

-- A text that is not blank, appended to a session of a cache with room for one session at least:
-- the session becomes the newest with its messages and the new one, less the oldest messages over
-- the limit; the other sessions keep their messages and their order, less the oldest sessions over
-- the limit; and `messages` then gives that list.
pub append_lem :
    (sid role content : String) (agent : Option String) (m : SessionMemory)
    → IsDistinct m.sessions
    → 1 ≤ m.max_sessions
    → (strip content == "") ≡ false
    → ((append sid role content agent m).sessions
        ≡ take_last m.max_sessions (
            remove sid m.sessions
            ++ (
              sid,
              take_last m.max_messages (messages sid m ++ message role (strip content) agent ∷ []),
            )
              ∷ []))
      × (messages sid (append sid role content agent m)
          ≡ take_last m.max_messages (messages sid m ++ message role (strip content) agent ∷ []))
append_lem sid role content agent m h room text =
    let entry = message role (strip content) agent in
    let list = push m.max_messages (messages sid m) entry in
    let sessions =
      ap (λ (k : SessionMemory). k.sessions)
        (append-eq-renewed sid role content agent m h room text) in
    let found = (write-evict_room m.max_sessions sid list list m.sessions room h).1 in
    let pushed = push-eq-take_last m.max_messages (messages sid m) entry in
    (
      sessions ∙ ap (λ l. renewed m.max_sessions sid l m.sessions) pushed,
      messages-eq_of_sessions sid (append sid role content agent m)
            (renewed m.max_sessions sid list m.sessions) list sessions found
          ∙ pushed,
    )

-- Every list fits, the sessions fit, and no session is there twice.
pub record IsBounded (m : SessionMemory) : Type 0 where
  pub lists : All (λ e. length e.1 ≤ m.max_messages) m.sessions
  pub fits : length m.sessions ≤ m.max_sessions
  pub distinct : IsDistinct m.sessions

module _ (m : SessionMemory) (h : IsBounded m) where
  renewed-IsBounded :
      (sid : String) (msgs : List Fields)
      → length msgs ≤ m.max_messages
      → IsBounded (record m { sessions = renewed m.max_sessions sid msgs m.sessions })
  renewed-IsBounded sid msgs small =
      let d = remove sid m.sessions ++ (sid, msgs) ∷ [] in
      record {
        lists =
            All-drop (λ e. length e.1 ≤ m.max_messages) (length d - m.max_sessions) d
              (All-append (λ e. length e.1 ≤ m.max_messages) (remove sid m.sessions)
                ((sid, msgs) ∷ [])
                (remove-All (λ e. length e.1 ≤ m.max_messages) sid m.sessions h.lists) (small, tt));
        fits = omega (arith, length-take_last m.max_sessions d);
        distinct = drop-IsDistinct (length d - m.max_sessions) d (
            snoc-IsDistinct sid msgs (remove sid m.sessions)
              (remove-removes sid m.sessions h.distinct)
              (remove-IsDistinct sid m.sessions h.distinct));
      }

  clear-IsBounded : (sid : String) → IsBounded (clear sid m)
  unfolding clear
  clear-IsBounded sid = record {
    lists = remove-All (λ e. length e.1 ≤ m.max_messages) sid m.sessions h.lists;
    fits = omega (arith, h.fits, length-remove-le sid m.sessions);
    distinct = remove-IsDistinct sid m.sessions h.distinct;
  }

  append-IsBounded :
      (sid role content : String) (agent : Option String)
      → 1 ≤ m.max_sessions
      → IsBounded (append sid role content agent m)
  append-IsBounded sid role content agent room = elim (Bool-cases (strip content == "")) [
    | inl blank ↦ unfold append in rw blank h
    | inr text ↦
        let entry = message role (strip content) agent in
        subst IsBounded (sym (append-eq-renewed sid role content agent m h.distinct room text)) (
          renewed-IsBounded sid (push m.max_messages (messages sid m) entry) (
            omega (
              arith,
              ap length (push-eq-take_last m.max_messages (messages sid m) entry),
              length-take_last m.max_messages (messages sid m ++ entry ∷ []),
            )))
  ]

  replace-IsBounded :
      (sid : String) (history : Items) → 1 ≤ m.max_messages → IsBounded (replace sid history m)
  unfolding replace
  replace-IsBounded sid history room =
      let kept = from_end m.max_messages (cleaned history) in
      rw evict-eq-take_last
        (renewed-IsBounded sid kept (length-from_end m.max_messages (cleaned history) room))

-- a call of a method
pub data Call : Type 0 where
  appending : (sid role content : String) → Option String → Call
  replacing : String → Items → Call
  clearing : String → Call

unfoldable pub call_all : List Call → SessionMemory → SessionMemory
call_all [] m = m
call_all (appending sid role content agent ∷ calls) m =
    call_all calls (append sid role content agent m)
call_all (replacing sid history ∷ calls) m = call_all calls (replace sid history m)
call_all (clearing sid ∷ calls) m = call_all calls (clear sid m)

record HasRoom (m : SessionMemory) : Type 0 where
  for_messages : 1 ≤ m.max_messages
  for_sessions : 1 ≤ m.max_sessions

append-HasRoom :
    (sid role content : String) (agent : Option String) (m : SessionMemory)
    → HasRoom m
    → HasRoom (append sid role content agent m)
unfolding append touch
append-HasRoom sid role content agent m h = ground arith

call_all-from :
    (calls : List Call) (m : SessionMemory) → HasRoom m → IsBounded m → IsBounded (call_all calls m)
unfolding call_all
call_all-from [] m room h = h
call_all-from (appending sid role content agent ∷ calls) m room h =
    call_all-from calls (append sid role content agent m)
      (append-HasRoom sid role content agent m room)
      (append-IsBounded m h sid role content agent room.for_sessions)
call_all-from (replacing sid history ∷ calls) m room h =
    call_all-from calls (replace sid history m)
      (unfold replace in
        record { for_messages = room.for_messages; for_sessions = room.for_sessions })
      (replace-IsBounded m h sid history room.for_messages)
call_all-from (clearing sid ∷ calls) m room h =
    call_all-from calls (clear sid m)
      (unfold clear in
        record { for_messages = room.for_messages; for_sessions = room.for_sessions })
      (clear-IsBounded m h sid)

-- A new cache with room for at least one message and one session stays within its bounds through
-- any calls: each session's list, the number of sessions, and no session twice.
pub call_all-IsBounded :
    (max_messages max_sessions : ℕ) (calls : List Call)
    → 1 ≤ max_messages
    → 1 ≤ max_sessions
    → IsBounded (call_all calls (new_sessions max_messages max_sessions))
call_all-IsBounded max_messages max_sessions calls h k =
    call_all-from calls (new_sessions max_messages max_sessions)
      (record { for_messages = h; for_sessions = k })
      (record { lists = tt; fits = omega arith; distinct = unfold IsDistinct in tt })
