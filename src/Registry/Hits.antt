-- ===== src/Registry/Hits.antt =====
-- What `ToolRegistry.search` (davinci/mcp.py) returns.
use davinci_agent.Prelude.{
  ℕ, zero, suc, ◌≤◌, ◌<◌, ◌≡◌, refl, String, Bool, true, false, not, ◌||◌, List, [], ◌∷◌, filter,
  map, take, any, all, length, length-take, All, All-map, ◌⊎◌, ltb, arith, Bool-cases, inl, inr,
}
use text.Mathlib.Text.{starts_with}
use mathlib.Core.List.{Memᴰ}
use davinci_agent.Prelude.Dict.{values}
use davinci_agent.Prelude.Text.{strip, lower, contains, split_space}
use davinci_agent.Registry.Defs.{ToolDescriptor, ToolRegistry}
use davinci_agent.Registry.Search.{
  required_terms, optional_terms, haystack, score, is_hit, goes_before, place, ranked, search_terms,
  search,
}

module _ {A : Type 0} (P : A → Type 0) where
  All-take : (n : ℕ) (xs : List A) → All P xs → All P (take n xs)
  All-take zero xs h = tt
  All-take (suc n) [] h = tt
  All-take (suc n) (x ∷ xs) h = (h.0, All-take n xs h.1)

  -- what holds of all and passes the test
  All-filter : (p : A → Bool) (xs : List A) → All P xs → All (λ x. P x × (p x ≡ true)) (filter p xs)
  All-filter p [] h = tt
  All-filter p (x ∷ xs) h = elim (Bool-cases (p x)) [
    | inl yes_ ↦ rw yes_ ((h.0, yes_), All-filter p xs h.1)
    | inr no_ ↦ rw no_ (All-filter p xs h.1)
  ]

module _ {A B : Type 0} (P : B → Type 0) (f : A → B) where
  All-image : (xs : List A) → All (λ x. P (f x)) xs → All P (map f xs)
  All-image [] h = tt
  All-image (x ∷ xs) h = (h.0, All-image xs h.1)

module _ (P : ℕ × ToolDescriptor → Type 0) where
  All-place :
      (x : ℕ × ToolDescriptor) (ys : List (ℕ × ToolDescriptor))
      → P x
      → All P ys
      → All P (place x ys)
  unfolding place
  All-place x [] p h = (p, tt)
  All-place x (y ∷ ys) p h = elim (Bool-cases (goes_before x y)) [
    | inl yes_ ↦ rw yes_ (p, h)
    | inr no_ ↦ rw no_ (h.0, All-place x ys p h.1)
  ]

  All-ranked : (xs : List (ℕ × ToolDescriptor)) → All P xs → All P (ranked xs)
  unfolding ranked
  All-ranked [] h = tt
  All-ranked (x ∷ xs) h = All-place x (ranked xs) h.0 (All-ranked xs h.1)

length-map : {A B : Type 0} (f : A → B) (xs : List A) → length (map f xs) ≡ length xs
length-map f [] = refl
length-map f (x ∷ xs) = omega (arith, length-map f xs)

module _ {A : Type 0} where
  All-self : (xs : List A) → All (λ x. Memᴰ x xs) xs
  All-self [] = tt
  All-self (x ∷ xs) = (Memᴰ.head refl, All-map (λ y m. Memᴰ.tail m) xs (All-self xs))

not-any-not : {A : Type 0} (p : A → Bool) (xs : List A) → not (any (λ x. not (p x)) xs) ≡ all p xs
not-any-not p [] = refl
not-any-not p (x ∷ xs) = ground (arith, not-any-not p xs)

some_score :
    (terms : List String) (n : ℕ)
    → (ltb 0 n || (elim terms [ [] ↦ true | _ ↦ false ])) ≡ true
    → (terms ≡ []) ⊎ (0 < n)
some_score [] n h = inl refl
some_score (t ∷ ts) n h = inr (ground arith)

module _ (r : ToolRegistry) (required optional : List String) where
  -- A registered tool that has all the required terms, and some optional one where there are any
  -- and none is required.
  pub record IsFound (t : ToolDescriptor) : Type 0 where
    pub registered : Memᴰ t (values r)
    pub has_required : all (λ term. contains term (haystack t)) required ≡ true
    pub scores : (optional ≡ []) ⊎ (0 < score required optional t)

  is_hit-IsFound :
      (t : ToolDescriptor) → Memᴰ t (values r) → is_hit required optional t ≡ true → IsFound t
  unfolding is_hit
  is_hit-IsFound t m h =
      let all_in = not-any-not (λ term. contains term (haystack t)) required in
      record {
        registered = m;
        has_required = ground (arith, all_in);
        scores = some_score optional (score required optional t) (ground arith);
      }

  scored-IsFound :
      (ts : List ToolDescriptor)
      → All (λ t. Memᴰ t (values r) × (is_hit required optional t ≡ true)) ts
      → All IsFound ts
  scored-IsFound ts h = All-map (λ t k. is_hit-IsFound t k.0 k.1) ts h

-- A search that is not an exact lookup returns at most `max_results` tools, each registered, with
-- every required term of the query in its name, description or category, and with a positive score
-- unless the query has no optional term.
pub search_lem :
    (query : String) (max_results : ℕ) (r : ToolRegistry)
    → starts_with (strip query) "select:" ≡ false
    → (length (search query max_results r) ≤ max_results)
      × All
          (IsFound r
            (required_terms (split_space (lower (strip query))))
            (optional_terms (split_space (lower (strip query)))))
          (search query max_results r)
unfolding search search_terms
search_lem query n r h =
    let required = required_terms (split_space (lower (strip query))) in
    let optional = optional_terms (split_space (lower (strip query))) in
    let found = filter (is_hit required optional) (values r) in
    let pairs : List (ℕ × ToolDescriptor) = map (λ t. (score required optional t, t)) found in
    let hits : All (IsFound r required optional) found = scored-IsFound r required optional found (
      All-filter (λ t. Memᴰ t (values r)) (is_hit required optional) (values r)
        (All-self (values r))) in
    let P : ℕ × ToolDescriptor → Type 0 = λ p. IsFound r required optional p.1 in
    rw h (
      omega (arith, length-map (λ p. p.1) (take n (ranked pairs)), length-take n (ranked pairs)),
      All-image (IsFound r required optional) (λ p. p.1) (take n (ranked pairs))
          (All-take P n (ranked pairs)
            (All-ranked P pairs (All-image P (λ t. (score required optional t, t)) found hits))),
    )
