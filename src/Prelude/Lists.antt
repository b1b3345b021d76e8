-- ===== src/Prelude/Lists.antt =====
-- Lists measured by native numbers, under the library's names, with Python's slices, and the
-- tests and predicates that run over a list.
use Prim.Native.Nat.{ℕ, zero, suc, ◌+◌, ◌-◌, ◌≤◌, min}
use native.Mathlib.Nat.{zero-add}
use mathlib.Core.Path.{◌≡◌, refl, sym, ap, ◌∙◌}
use mathlib.Core.Bool.{Bool, true, false, ◌&&◌, ◌||◌}
use mathlib.Core.Option.{Option, none, some}
use mathlib.Core.List.{List, [], ◌∷◌, ◌++◌}
use native.Mathlib.Omega.{arith}
use davinci_agent.Prelude.Tests.{if◌then◌else◌}

module _ {ℓ} {A : Type ℓ} where
  abbrev pub length : List A → ℕ
  length [] = 0
  length (x ∷ xs) = suc (length xs)

  abbrev pub take : ℕ → List A → List A
  take zero xs = []
  take (suc n) [] = []
  take (suc n) (x ∷ xs) = x ∷ take n xs

  abbrev pub drop : ℕ → List A → List A
  drop zero xs = xs
  drop (suc n) [] = []
  drop (suc n) (x ∷ xs) = drop n xs

  -- `xs[-n:]` for `0 < n`: the last `n` items, or all of them.
  abbrev pub take_last : ℕ → List A → List A
  take_last n xs = drop (length xs - n) xs

  -- `any(p(x) for x in xs)` and `all(p(x) for x in xs)`
  abbrev pub any : (A → Bool) → List A → Bool
  any p [] = false
  any p (x ∷ xs) = p x || any p xs

  abbrev pub all : (A → Bool) → List A → Bool
  all p [] = true
  all p (x ∷ xs) = p x && all p xs

  -- `[x for x in xs if p(x)]`
  abbrev pub filter : (A → Bool) → List A → List A
  filter p [] = []
  filter p (x ∷ xs) = let rest = filter p xs in if p x then x ∷ rest else rest

  -- The first item that passes.
  abbrev pub find? : (A → Bool) → List A → Option A
  find? p [] = none
  find? p (x ∷ xs) = let rest = find? p xs in if p x then some x else rest

  abbrev pub All {κ} : (A → Type κ) → List A → Type κ
  All P [] = Unit
  All P (x ∷ xs) = P x × All P xs

module _ {ℓ} {A : Type ℓ} where
  pub length-append : (xs ys : List A) → length (xs ++ ys) ≡ length xs + length ys
  length-append [] ys = omega arith
  length-append (x ∷ xs) ys = omega (arith, length-append xs ys)

  pub length-take : (n : ℕ) (xs : List A) → length (take n xs) ≡ min n (length xs)
  length-take zero xs = omega arith
  length-take (suc n) [] = omega arith
  length-take (suc n) (x ∷ xs) = omega (arith, length-take n xs)

  pub length-drop : (n : ℕ) (xs : List A) → length (drop n xs) ≡ length xs - n
  length-drop zero xs = omega arith
  length-drop (suc n) [] = omega arith
  length-drop (suc n) (x ∷ xs) = omega (arith, length-drop n xs)

  pub length-take_last : (n : ℕ) (xs : List A) → length (take_last n xs) ≡ min n (length xs)
  length-take_last n xs = omega (arith, length-drop (length xs - n) xs)

  pub length-filter-le : (p : A → Bool) (xs : List A) → length (filter p xs) ≤ length xs
  length-filter-le p [] = omega arith
  length-filter-le p (x ∷ xs) = ground (arith, length-filter-le p xs)

  pub any-append : (p : A → Bool) (xs ys : List A) → any p (xs ++ ys) ≡ (any p xs || any p ys)
  any-append p [] ys = refl
  any-append p (x ∷ xs) ys = ground (arith, any-append p xs ys)

  pub all-append : (p : A → Bool) (xs ys : List A) → all p (xs ++ ys) ≡ (all p xs && all p ys)
  all-append p [] ys = refl
  all-append p (x ∷ xs) ys = ground (arith, all-append p xs ys)

  pub All-append {κ} : (P : A → Type κ) (xs ys : List A) → All P xs → All P ys → All P (xs ++ ys)
  All-append P [] ys h k = k
  All-append P (x ∷ xs) ys h k = (h.0, All-append P xs ys h.1 k)

  pub All-map {κ μ} :
      {P : A → Type κ} {Q : A → Type μ}
      → ((x : A) → P x → Q x)
      → (xs : List A) → All P xs
      → All Q xs
  All-map f [] h = tt
  All-map f (x ∷ xs) h = (f x h.0, All-map f xs h.1)

  pub All-drop {κ} : (P : A → Type κ) (n : ℕ) (xs : List A) → All P xs → All P (drop n xs)
  All-drop P zero xs h = h
  All-drop P (suc n) [] h = tt
  All-drop P (suc n) (x ∷ xs) h = All-drop P n xs h.1

  pub find?-sound : (p : A → Bool) (xs : List A) (x : A) → find? p xs ≡ some x → p x ≡ true
  find?-sound p [] x h = ground arith
  find?-sound p (y ∷ ys) x h = ground (arith, find?-sound p ys x)

module _ {ℓ} {A : Type ℓ} where
  -- `xs[-n:]`: for `n = 0` that is `xs[0:]`, the whole list
  abbrev pub from_end : ℕ → List A → List A
  from_end zero xs = xs
  from_end (suc n) xs = take_last (suc n) xs

  -- `xs[:1]`
  abbrev pub first_only : List A → List A
  first_only xs = take 1 xs

  -- `xs[-(n - 1):]`: for `n = 0` that is `xs[1:]`
  abbrev pub from_end_pred : ℕ → List A → List A
  from_end_pred zero xs = drop 1 xs
  from_end_pred (suc n) xs = from_end n xs

module _ {ℓ} {A : Type ℓ} where
  pub drop-length-add : (xs ys : List A) (k : ℕ) → drop (length xs + k) (xs ++ ys) ≡ drop k ys
  drop-length-add [] ys k = rw zero-add
  drop-length-add (x ∷ xs) ys k =
      let e : suc (length xs) + k ≡ suc (length xs + k) = omega arith in
      rw e (drop-length-add xs ys k)

  pub drop-append_left :
      (k : ℕ) (xs ys : List A) → k ≤ length xs → drop k (xs ++ ys) ≡ drop k xs ++ ys
  drop-append_left zero xs ys h = refl
  drop-append_left (suc k) [] ys h = absurd (omega arith)
  drop-append_left (suc k) (x ∷ xs) ys h = drop-append_left k xs ys (omega arith)

  pub drop-nil : (k : ℕ) → drop {A = A} k [] ≡ []
  drop-nil zero = refl
  drop-nil (suc k) = refl

  pub drop-drop : (a b : ℕ) (xs : List A) → drop a (drop b xs) ≡ drop (b + a) xs
  drop-drop a zero xs = rw zero-add
  drop-drop a (suc b) [] = drop-nil a ∙ sym (drop-nil (suc b + a))
  drop-drop a (suc b) (x ∷ xs) =
      let e : suc b + a ≡ suc (b + a) = omega arith in rw e (drop-drop a b xs)

  -- the last items of a list that ends in enough of them
  pub take_last-append :
      (m : ℕ) (xs ys : List A) → m ≤ length ys → take_last m (xs ++ ys) ≡ take_last m ys
  take_last-append m xs ys h =
      let e : length (xs ++ ys) - m ≡ length xs + (length ys - m) =
        omega (arith, length-append xs ys) in
      rw e (drop-length-add xs ys (length ys - m))

  pub take_last-snoc :
      (m : ℕ) (xs : List A) (x : A) → take_last (suc m) (xs ++ x ∷ []) ≡ take_last m xs ++ x ∷ []
  take_last-snoc m xs x =
      let e : length (xs ++ x ∷ []) - suc m ≡ length xs - m =
        omega (arith, length-append xs (x ∷ [])) in
      rw e (drop-append_left (length xs - m) xs (x ∷ []) (omega arith))

  pub take_last-take_last :
      (m n : ℕ) (xs : List A) → m ≤ n → take_last m (take_last n xs) ≡ take_last m xs
  take_last-take_last m n xs h =
      let e : length xs - n + (length (take_last n xs) - m) ≡ length xs - m =
        omega (arith, length-take_last n xs) in
      drop-drop (length (take_last n xs) - m) (length xs - n) xs ∙ ap (λ k. drop k xs) e

  pub take_last_all : (n : ℕ) (xs : List A) → length xs ≤ n → take_last n xs ≡ xs
  take_last_all n xs h = let e : length xs - n ≡ 0 = omega arith in rw e
