-- ===== src/Reasoner/Group.antt =====
-- The conversation and the group chat of `LLMReasoner` (davinci/reasoner.py).
use davinci_agent.Prelude.{
  ℕ, String, ◌<>◌, Bool, true, false, not, ◌&&◌, ◌||◌, Option, none, some, List, [], ◌∷◌, map,
  filter, any, take_last, or_else, ◌==◌, if◌then◌else◌,
}
use davinci_agent.Prelude.Text
use davinci_agent.Prelude.Text.{strip, lower, join}
use davinci_agent.Prelude.Dict.{Dict}
use davinci_agent.Prelude.Value.{
  Value, null, bool, string, list, dict, Items, nil, cons, Fields, end, field, fields, get, str,
  truthy, or_value,
}

-- str(m.get(k) or default)
abbrev pub text_or : String → String → Fields → String
text_or k default m = str (or_value (get k m) (string default))

-- a text with something in it, stripped
abbrev stripped : Option Value → Option String
stripped (some (string s)) = if strip s == "" then none else some (strip s)
stripped _ = none

abbrev from_field : Option String → Fields → Fields
from_field none rest = rest
from_field (some s) rest = field "from" (string s) rest

abbrev to_field : Option Value → Fields → Fields
to_field (some (list (cons v vs))) rest = field "to" (list (cons v vs)) rest
to_field _ rest = rest

unfoldable pub entry_of : Fields → Fields
entry_of m = field "role" (string (text_or "role" "user" m)) (
    field "content" (string (text_or "content" "" m)) (
      from_field (stripped (get "from" m)) (
        to_field (get "to" m) (
          if truthy (or_else (get "directedToMe" m) null)
          then field "directedToMe" (bool true) end
          else end))))

-- `set_conversation`: the turns that are kept
unfoldable pub set_conversation : List Value → List Fields
unfolding entry_of
set_conversation [] = []
set_conversation (dict m ∷ history) =
    let rest = set_conversation history in
    if strip (text_or "content" "" m) == "" then rest else entry_of m ∷ rest
set_conversation (v ∷ history) = set_conversation history

-- an entry of `_roster`
pub record Participant : Type 0 where
  pub id : String
  pub name : String
  pub handle : String
  pub kind : String

pub record GroupContext : Type 0 where
  pub self_identity : Dict String
  pub roster : List Participant
  pub group_chat : Bool

-- the parts of an identity that are there, in this order
unfoldable pub identity_parts : List String → Fields → Dict String
identity_parts [] m = []
identity_parts (k ∷ ks) m =
    let rest = identity_parts ks m in
    elim (stripped (get k m)) [ none ↦ rest | some s ↦ (k, s) ∷ rest ]

unfoldable pub identity_of : Value → Dict String
unfolding identity_parts
identity_of (dict m) = identity_parts ("name" ∷ "handle" ∷ "id" ∷ []) m
identity_of v = []

-- what identifies the agent itself
abbrev pub me_keys : Dict String → List String
me_keys ident = map (λ (e : String × String). lower e.1) ident

-- the texts that are not empty, in lower case
abbrev pub lowered : List String → List String
lowered texts = map lower (filter (λ s. not (s == "")) texts)

abbrev pub meets : List String → List String → Bool
meets xs ys = any (λ x. any (λ y. y == x) ys) xs

abbrev pub is_user : Option Value → Bool
is_user (some (string s)) = s == "user"
is_user _ = false

abbrev pub or_text : String → String → String
or_text s t = if s == "" then t else s

-- str(r.get("name") or r.get("label") or "").strip()
abbrev pub name_of : Fields → String
name_of r = strip (str (or_value (get "name" r) (or_value (get "label" r) (string ""))))

-- the entry, unless it has no name or is the agent itself
unfoldable pub peer : List String → String → String → String → String → Option Participant
peer me id name handle kind =
    if name == "" && handle == ""
    then none
    else if kind == "agent" && meets me (lowered (id ∷ name ∷ handle ∷ []))
    then none
    else some (record { id = id; name = or_text name handle; handle = handle; kind = kind })

unfoldable pub participant_of : List String → Fields → Option Participant
unfolding peer
participant_of me r =
    peer me (strip (text_or "id" "" r)) (name_of r) (strip (text_or "handle" "" r))
      (if is_user (get "kind" r) then "user" else "agent")

unfoldable pub people_of : List String → List Value → List Participant
unfolding participant_of
people_of me [] = []
people_of me (dict r ∷ roster) =
    let rest = people_of me roster in elim (participant_of me r) [ none ↦ rest | some p ↦ p ∷ rest ]
people_of me (v ∷ roster) = people_of me roster

abbrev is_empty : {A : Type 0} → List A → Bool
is_empty [] = true
is_empty (x ∷ xs) = false

-- `set_group_context`
unfoldable pub set_group_context : Value → List Value → Bool → GroupContext
unfolding identity_of people_of
set_group_context self_identity roster group_chat =
    let ident = identity_of self_identity in
    let people = people_of (me_keys ident) roster in
    record {
      self_identity = ident;
      roster = people;
      group_chat = group_chat || not (is_empty people) || not (is_empty ident);
    }

-- the names of the turn's targets
unfoldable pub targets_of : Items → List String
targets_of nil = []
targets_of (cons (dict t) vs) =
    let rest = targets_of vs in
    let name = strip (text_or "name" "" t) in if name == "" then rest else name ∷ rest
targets_of (cons v vs) = targets_of vs

abbrev to_of : Option Value → List String
to_of (some (list vs)) = targets_of vs
to_of _ = []

-- `_turn_prefix`
unfoldable pub turn_prefix : Fields → String
unfolding targets_of
turn_prefix m =
    let sender = strip (text_or "from" "" m) in
    let targets = to_of (get "to" m) in
    let parts =
      if sender == ""
      then ""
      else "["
        <> sender
        <> (if is_empty targets then " → everyone" else " → " <> join ", " targets)
        <> "]" in
    if truthy (or_else (get "directedToMe" m) null)
    then (if parts == "" then "(directed at you)" else parts <> " (directed at you)")
    else parts

unfoldable pub digest_entry : ℕ → Bool → Fields → Fields
unfolding turn_prefix
digest_entry cap group_chat m =
    let text = Text.take cap (str (or_else (get "content" m) (string ""))) in
    let prefix = if group_chat then turn_prefix m else "" in
    fields (
      ("role", or_else (get "role" m) (string "user"))
      ∷ ("content", string (if prefix == "" then text else prefix <> " " <> text))
      ∷ [])

-- `_conversation_digest`, for a limit that is not 0
unfoldable pub conversation_digest : ℕ → ℕ → Bool → List Fields → List Fields
unfolding digest_entry
conversation_digest limit cap group_chat conversation =
    map (digest_entry cap group_chat) (take_last limit conversation)
