-- ===== src/Observability/Masked.antt =====
-- How a recorded value stands to the value that was given (davinci/observability.py).
use davinci_agent.Prelude.{◌≡◌, refl, true, false, Bool-cases, inl, inr}
use davinci_agent.Prelude.Value.{
  Value, null, bool, int, string, list, dict, Items, nil, cons, Fields, end, field,
}
use davinci_agent.Observability.Patterns.{mask}
use davinci_agent.Observability.Substitution.{IsMaskedText, mask_text-IsMaskedText}
use davinci_agent.Observability.Mask.{is_secret_key, mask_secrets, mask_items, mask_fields}

-- the keys and the shape are kept; a secret-looking key gets the mask, in any other text the
-- matches of the patterns are masked, and the rest is as it was
unfoldable mutual
  pub IsMasked : Value → Value → Type 0
  IsMasked (string s) (string t) = IsMaskedText s t
  IsMasked (string s) w = ⊥
  IsMasked (dict fs) (dict gs) = IsMaskedFields fs gs
  IsMasked (dict fs) w = ⊥
  IsMasked (list vs) (list ws) = IsMaskedItems vs ws
  IsMasked (list vs) w = ⊥
  IsMasked v w = v ≡ w

  pub IsMaskedItems : Items → Items → Type 0
  IsMaskedItems nil nil = Unit
  IsMaskedItems (cons v vs) (cons w ws) = IsMasked v w × IsMaskedItems vs ws
  IsMaskedItems vs ws = ⊥

  pub IsMaskedFields : Fields → Fields → Type 0
  IsMaskedFields end end = Unit
  IsMaskedFields (field k v fs) (field j w gs) =
      (k ≡ j)
      × (is_secret_key k ≡ true → w ≡ string mask)
      × (is_secret_key k ≡ false → IsMasked v w)
      × IsMaskedFields fs gs
  IsMaskedFields fs gs = ⊥

mutual
  unfolding IsMasked mask_secrets

  masked : (v : Value) → IsMasked v (mask_secrets v)
  masked (string s) = mask_text-IsMaskedText s
  masked (dict fs) = mask_fields-IsMasked fs
  masked (list vs) = masked_items vs
  masked null = refl
  masked (bool b) = refl
  masked (int n) = refl

  masked_items : (vs : Items) → IsMaskedItems vs (mask_items vs)
  masked_items nil = tt
  masked_items (cons v vs) = (masked v, masked_items vs)

  pub mask_fields-IsMasked : (fs : Fields) → IsMaskedFields fs (mask_fields fs)
  mask_fields-IsMasked end = tt
  mask_fields-IsMasked (field k v fs) = elim (Bool-cases (is_secret_key k)) [
    | inl secret ↦ rw secret (refl, λ h. refl, λ h. cc, mask_fields-IsMasked fs)
    | inr open_key ↦ rw open_key (refl, λ h. cc, λ h. masked v, mask_fields-IsMasked fs)
  ]
