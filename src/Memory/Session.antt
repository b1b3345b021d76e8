-- ===== src/Memory/Session.antt =====
-- `SessionMemory` of davinci/memory.py. A session's list is reached only through its entry in the
-- ordered dict: the reference that `append` holds is the list of the entry it has just made.
use davinci_agent.Prelude.{
  ℕ, ◌-◌, String, Bool, not, ◌||◌, Option, none, some, List, [], ◌∷◌, ◌++◌, ltb, length, drop,
  from_end, or_else, ◌==◌, if◌then◌else◌,
}
use davinci_agent.Prelude.Dict.{Dict, lookup, remove}
use davinci_agent.Prelude.Text.{strip}
use davinci_agent.Prelude.Value.{
  string, dict, Items, nil, cons, Fields, end, field, get, only, or_value, str,
}

pub record SessionMemory : Type 0 where
  pub max_messages : ℕ
  pub max_sessions : ℕ
  pub sessions : Dict (List Fields)

abbrev pub new_sessions : ℕ → ℕ → SessionMemory
new_sessions max_messages max_sessions = record {
  max_messages = max_messages;
  max_sessions = max_sessions;
  sessions = [];
}

-- `while len(self._sessions) > self.max_sessions: self._sessions.popitem(last=False)`
unfoldable pub evict : {V : Type 0} → ℕ → Dict V → Dict V
evict max_sessions [] = []
evict max_sessions (e ∷ es) =
    let rest = evict max_sessions es in if ltb max_sessions (length (e ∷ es)) then rest else e ∷ es

-- `_touch`: the messages of the session, and the dict with it as the most recent
unfoldable pub touch : String → SessionMemory → List Fields × SessionMemory
unfolding evict
touch sid m =
    let msgs = or_else (lookup sid m.sessions) [] in
    (msgs, record m { sessions = evict m.max_sessions (remove sid m.sessions ++ (sid, msgs) ∷ []) })

-- a write through the reference to a session's list; it has no effect on an evicted one
unfoldable pub write : {V : Type 0} → String → V → Dict V → Dict V
write sid v [] = []
write sid v ((k, w) ∷ d) = if k == sid then (k, v) ∷ d else (k, w) ∷ write sid v d

-- `SessionMemory.messages`
unfoldable pub messages : String → SessionMemory → List Fields
messages sid m = or_else (lookup sid m.sessions) []

unfoldable pub message : String → String → Option String → Fields
message role content agent = field "role" (string role) (
    field "content" (string content) (elim agent [
      | none ↦ end
      | some name ↦ if name == "" then end else field "agentName" (string name) end
    ]))

-- `msgs.append(entry)` and `del msgs[: len(msgs) - max_messages]`
unfoldable pub push : {A : Type 0} → ℕ → List A → A → List A
push max_messages msgs entry =
    let longer = msgs ++ entry ∷ [] in
    if ltb max_messages (length longer) then drop (length longer - max_messages) longer else longer

-- `SessionMemory.append`
unfoldable pub append : String → String → String → Option String → SessionMemory → SessionMemory
unfolding touch write push message
append sid role content agent m =
    let text = strip content in
    let (msgs, touched) = touch sid m in
    if text == "" then m else record touched {
      sessions = write sid (push m.max_messages msgs (message role text agent)) touched.sessions;
    }

is_kept : String → Bool
is_kept k = k == "role" || k == "content" || k == "agentName"

-- `str(m.get("content") or "").strip()`
has_content : Fields → Bool
has_content fs = not (strip (str (or_value (get "content" fs) (string ""))) == "")

unfoldable pub cleaned : Items → List Fields
unfolding is_kept has_content
cleaned nil = []
cleaned (cons (dict fs) vs) =
    let rest = cleaned vs in if has_content fs then only is_kept fs ∷ rest else rest
cleaned (cons _ vs) = cleaned vs

-- `SessionMemory.replace`
unfoldable pub replace : String → Items → SessionMemory → SessionMemory
unfolding evict cleaned
replace sid history m = record m {
  sessions =
      evict m.max_sessions
        (remove sid m.sessions ++ (sid, from_end m.max_messages (cleaned history)) ∷ []);
}

-- `SessionMemory.clear`
unfoldable pub clear : String → SessionMemory → SessionMemory
clear sid m = record m { sessions = remove sid m.sessions }
