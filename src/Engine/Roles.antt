-- ===== src/Engine/Roles.antt =====
-- The messages that `_normalize_history` (davinci/engine.py) lets through.
use davinci_agent.Prelude.{
  ◌≡◌, refl, String, Bool, true, false, ◌||◌, some, [], ◌∷◌, or_else, ◌==◌, All, Bool-cases, inl,
  inr,
}
use davinci_agent.Prelude.Dict.{Dict, lookup}
use davinci_agent.Prelude.Text.{strip}
use davinci_agent.Prelude.Value.{
  null, bool, int, string, list, dict, Items, nil, cons, Fields, get, str,
}
use davinci_agent.Engine.History.{role_aliases, role_of, body_of, entry_of, normalize_history}

-- the roles that a reasoner knows
abbrev pub is_role : String → Bool
is_role r = r == "user" || r == "assistant" || r == "system"

-- The message has one of these roles and a text that is not empty.
pub record IsCanonical (m : Fields) : Type 0 where
  pub role : String
  pub text : String
  pub has_role : get "role" m ≡ some (string role)
  pub known : is_role role ≡ true
  pub has_text : get "content" m ≡ some (string text)
  pub not_empty : (text == "") ≡ false

lookup_known :
    (key : String) (d : Dict String)
    → All (λ e. is_role e.1 ≡ true) d
    → is_role (or_else (lookup key d) "user") ≡ true
unfolding lookup
lookup_known key [] h = refl
lookup_known key ((k, role) ∷ d) h = elim (Bool-cases (k == key)) [
  | inl here ↦ rw here h.0
  | inr on ↦ rw on (lookup_known key d h.1)
]

alias_known : (key : String) → is_role (or_else (lookup key role_aliases) "user") ≡ true
alias_known key =
    lookup_known key role_aliases (refl, (refl, (refl, (refl, (refl, (refl, (refl, (refl, tt))))))))

entry_of-IsCanonical :
    (m : Fields) (text : String) → (text == "") ≡ false → IsCanonical (entry_of m text)
unfolding entry_of get role_of
entry_of-IsCanonical m text h = record {
  role = role_of m;
  text = text;
  has_role = refl;
  known = alias_known _;
  has_text = refl;
  not_empty = h;
}

-- Whatever list comes as the history, each message that is kept has the role user, assistant or
-- system, and a text that is not empty.
pub normalize_history-IsCanonical : (ms : Items) → All IsCanonical (normalize_history ms)
unfolding normalize_history
normalize_history-IsCanonical nil = tt
normalize_history-IsCanonical (cons (dict m) ms) =
    elim (Bool-cases (strip (str (body_of m)) == "")) [
      | inl blank ↦ rw blank (normalize_history-IsCanonical ms)
      | inr full ↦ rw full (entry_of-IsCanonical m _ full, normalize_history-IsCanonical ms)
    ]
normalize_history-IsCanonical (cons null ms) = normalize_history-IsCanonical ms
normalize_history-IsCanonical (cons (bool b) ms) = normalize_history-IsCanonical ms
normalize_history-IsCanonical (cons (int n) ms) = normalize_history-IsCanonical ms
normalize_history-IsCanonical (cons (string s) ms) = normalize_history-IsCanonical ms
normalize_history-IsCanonical (cons (list vs) ms) = normalize_history-IsCanonical ms
