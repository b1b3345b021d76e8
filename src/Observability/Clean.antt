-- ===== src/Observability/Clean.antt =====
-- Values that `mask_secrets` (davinci/observability.py) returns.
use davinci_agent.Prelude.{◌≡◌, refl, true, Bool-cases, inl, inr}
use davinci_agent.Prelude.Value.{
  Value, null, bool, int, string, list, dict, Items, nil, cons, Fields, end, field,
}
use davinci_agent.Observability.Patterns.{mask}
use davinci_agent.Observability.Mask.{is_secret_key, mask_secrets, mask_items, mask_fields}

-- every field whose key looks secret holds the mask, at every depth
unfoldable mutual
  pub IsClean : Value → Type 0
  IsClean (dict fs) = IsCleanFields fs
  IsClean (list vs) = IsCleanItems vs
  IsClean _ = Unit

  pub IsCleanItems : Items → Type 0
  IsCleanItems nil = Unit
  IsCleanItems (cons v vs) = IsClean v × IsCleanItems vs

  pub IsCleanFields : Fields → Type 0
  IsCleanFields end = Unit
  IsCleanFields (field k v fs) =
      (is_secret_key k ≡ true → v ≡ string mask) × IsClean v × IsCleanFields fs

mutual
  unfolding IsClean mask_secrets

  clean : (v : Value) → IsClean (mask_secrets v)
  clean (string s) = tt
  clean (dict fs) = clean_fields fs
  clean (list vs) = clean_items vs
  clean null = tt
  clean (bool b) = tt
  clean (int n) = tt

  clean_items : (vs : Items) → IsCleanItems (mask_items vs)
  clean_items nil = tt
  clean_items (cons v vs) = (clean v, clean_items vs)

  clean_fields : (fs : Fields) → IsCleanFields (mask_fields fs)
  clean_fields end = tt
  clean_fields (field k v fs) = elim (Bool-cases (is_secret_key k)) [
    | inl secret ↦ rw secret (λ h. refl, tt, clean_fields fs)
    | inr open_key ↦ rw open_key (λ h. cc, clean v, clean_fields fs)
  ]

-- In a masked value every key that looks like a credential's, however deep in dicts and lists,
-- holds the mask and nothing else.
pub mask_secrets-IsClean : (v : Value) → IsClean (mask_secrets v)
mask_secrets-IsClean v = clean v
