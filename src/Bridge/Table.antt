-- ===== src/Bridge/Table.antt =====
-- Python's `dict` with integer keys, in the order of insertion.
use davinci_agent.Prelude.{
  ℕ, ◌≡◌, refl, Option, none, some, List, [], ◌∷◌, ◌++◌, arith, eqb, if◌then◌else◌,
}

abbrev pub Table : Type 0 → Type 0
Table V = List (ℕ × V)

module _ {V : Type 0} where
  -- t.get(k)
  unfoldable pub find : ℕ → Table V → Option V
  find k [] = none
  find k ((j, v) ∷ t) = let rest = find k t in if eqb j k then some v else rest

  -- t[k] = v
  unfoldable pub store : ℕ → V → Table V → Table V
  store k v [] = (k, v) ∷ []
  store k v ((j, w) ∷ t) = let rest = store k v t in if eqb j k then (k, v) ∷ t else (j, w) ∷ rest

  -- t.pop(k, None)
  unfoldable pub discard : ℕ → Table V → Table V
  discard k [] = []
  discard k ((j, w) ∷ t) = let rest = discard k t in if eqb j k then rest else (j, w) ∷ rest

  -- a write under a new key goes to the end
  pub store-new : (k : ℕ) (v : V) (t : Table V) → find k t ≡ none → store k v t ≡ t ++ (k, v) ∷ []
  unfolding find store
  store-new k v [] h = refl
  store-new k v ((j, w) ∷ t) h = ground (arith, store-new k v t)

  -- a write to the newest key
  pub store-newest :
      (k : ℕ) (v w : V) (t : Table V)
      → find k t ≡ none
      → store k v (t ++ (k, w) ∷ []) ≡ t ++ (k, v) ∷ []
  unfolding find store
  store-newest k v w [] h = ground arith
  store-newest k v w ((j, u) ∷ t) h = ground (arith, store-newest k v w t)

  pub find-newest :
      (k : ℕ) (v : V) (t : Table V) → find k t ≡ none → find k (t ++ (k, v) ∷ []) ≡ some v
  unfolding find
  find-newest k v [] h = ground arith
  find-newest k v ((j, u) ∷ t) h = ground (arith, find-newest k v t)

  discard-absent : (k : ℕ) (t : Table V) → find k t ≡ none → discard k t ≡ t
  unfolding find discard
  discard-absent k [] h = refl
  discard-absent k ((j, u) ∷ t) h = ground (arith, discard-absent k t)

  pub find-discard :
      (j k : ℕ) (t : Table V) → find j (discard k t) ≡ (if eqb k j then none else find j t)
  unfolding find discard
  find-discard j k [] = ground arith
  find-discard j k ((i, w) ∷ t) = ground (arith, find-discard j k t)

  pub discard-newest :
      (k : ℕ) (v : V) (t : Table V) → find k t ≡ none → discard k (t ++ (k, v) ∷ []) ≡ t
  unfolding find discard
  discard-newest k v [] h = ground arith
  discard-newest k v ((j, u) ∷ t) h = ground (arith, discard-newest k v t)

  pub find-store :
      (j k : ℕ) (v : V) (t : Table V)
      → find j (store k v t) ≡ (if eqb k j then some v else find j t)
  unfolding find store
  find-store j k v [] = refl
  find-store j k v ((i, w) ∷ t) = ground (arith, find-store j k v t)
