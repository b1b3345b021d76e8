-- ===== src/Engine/History.antt =====
-- `_normalize_history` of davinci/engine.py.
use davinci_agent.Prelude.{
  String, Bool, true, false, Option, none, some, List, [], ◌∷◌, or_else, ◌==◌, if◌then◌else◌,
}
use davinci_agent.Prelude.Dict.{Dict, lookup}
use davinci_agent.Prelude.Text.{strip, lower}
use davinci_agent.Prelude.Value.{
  Value, null, bool, string, list, dict, Items, nil, cons, Fields, end, field, truthy, get,
  or_value, str,
}

-- `_ROLE_ALIASES`
abbrev pub role_aliases : Dict String
role_aliases =
    ("user", "user")
    ∷ ("human", "user")
    ∷ ("assistant", "assistant")
    ∷ ("agent", "assistant")
    ∷ ("ai", "assistant")
    ∷ ("bot", "assistant")
    ∷ ("system", "system")
    ∷ ("developer", "system")
    ∷ []

unfoldable pub role_of : Fields → String
role_of m =
    or_else
      (lookup
        (lower (
          str (
            or_value (get "role" m)
              (or_value (get "from" m) (or_value (get "sender" m) (string "user"))))))
        role_aliases)
      "user"

-- `content is None` also where the key is there with that value
unfoldable pub body_of : Fields → Value
body_of m =
    let other =
      or_value (get "text" m)
        (or_value (get "message" m) (or_value (get "answer" m) (string ""))) in
    elim (get "content" m) [ none ↦ other | some null ↦ other | some v ↦ v ]

-- the text of a value that is a string and not blank
unfoldable pub nonblank : Option Value → Option String
nonblank (some (string s)) = if strip s == "" then none else some (strip s)
nonblank _ = none

abbrev set_text : String → Option String → Fields → Fields
set_text key none rest = rest
set_text key (some s) rest = field key (string s) rest

is_user : Option Value → Bool
is_user (some (string s)) = s == "user"
is_user _ = false

-- `str(t.get("name") or "").strip()`
target_name : Fields → String
target_name t = strip (str (or_value (get "name" t) (string "")))

unfoldable pub targets : Items → Items
unfolding target_name is_user
targets nil = nil
targets (cons (dict t) ts) =
    let rest = targets ts in
    if target_name t == ""
    then rest
    else cons
        (dict (
          field "name" (string (target_name t))
            (field "kind" (string (if is_user (get "kind" t) then "user" else "agent")) end)))
        rest
targets (cons _ ts) = targets ts

targets_of : Option Value → Items
unfolding targets
targets_of (some (list ts)) = targets ts
targets_of _ = nil

set_targets : Items → Fields → Fields
set_targets nil rest = rest
set_targets ts rest = field "to" (list ts) rest

unfoldable pub entry_of : Fields → String → Fields
unfolding nonblank targets_of set_targets
entry_of m text = field "role" (string (role_of m)) (
    field "content" (string text) (
      set_text "agentName"
        (nonblank (
          some (
            or_value (get "agentName" m) (or_value (get "agent" m) (or_else (get "name" m) null)))))
        (set_text "from" (nonblank (get "from" m)) (
          set_targets (targets_of (get "to" m)) (
            if truthy (or_else (get "directedToMe" m) null)
            then field "directedToMe" (bool true) end
            else end)))))

-- `_normalize_history`
unfoldable pub normalize_history : Items → List Fields
unfolding body_of entry_of
normalize_history nil = []
normalize_history (cons (dict m) ms) =
    let rest = normalize_history ms in
    let text = strip (str (body_of m)) in if text == "" then rest else entry_of m text ∷ rest
normalize_history (cons _ ms) = normalize_history ms
