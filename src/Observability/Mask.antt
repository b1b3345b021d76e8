-- ===== src/Observability/Mask.antt =====
-- `mask_secrets` of davinci/observability.py.
use davinci_agent.Prelude.{String, Bool, List, [], ◌∷◌, any, if◌then◌else◌}
use davinci_agent.Prelude.Text.{lower, contains}
use davinci_agent.Prelude.Value.{
  Value, null, bool, int, string, list, dict, Items, nil, cons, Fields, end, field,
}
use davinci_agent.Observability.Patterns.{mask, mask_text}

abbrev pub secret_words : List String
secret_words =
    "secret" ∷ "token" ∷ "password" ∷ "passwd" ∷ "api_key" ∷ "apikey" ∷ "private_key" ∷ "privatekey"
    ∷ []

unfoldable pub is_secret_key : String → Bool
unfolding lower contains
is_secret_key key = any (λ word. contains word (lower key)) secret_words

unfoldable mutual
  pub mask_secrets : Value → Value
  mask_secrets (string s) = string (mask_text s)
  mask_secrets (dict fs) = dict (mask_fields fs)
  mask_secrets (list vs) = list (mask_items vs)
  mask_secrets null = null
  mask_secrets (bool b) = bool b
  mask_secrets (int n) = int n

  pub mask_items : Items → Items
  mask_items nil = nil
  mask_items (cons v vs) = cons (mask_secrets v) (mask_items vs)

  pub mask_fields : Fields → Fields
  mask_fields end = end
  mask_fields (field k v fs) =
      field k (if is_secret_key k then string mask else mask_secrets v) (mask_fields fs)
