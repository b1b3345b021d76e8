-- ===== src/Memory/Window.antt =====
-- Sequences of calls of `WorkingMemory.remember` (davinci/memory.py).
use davinci_agent.Prelude.{
  ℕ, zero, suc, ◌+◌, ◌-◌, ◌≤◌, ◌<◌, ◌≡◌, refl, List, [], ◌∷◌, ◌++◌, arith, ltb, length,
  length-append, length-take, length-take_last, take, take_last, sym, ap, ◌∙◌, ◌*◌, append-nil,
  append_assoc, take_last-append, take_last-snoc, take_last-take_last, if◌then◌else◌,
}
use mathlib.Core.Path.{ap₂}
use native.Mathlib.Decide.{dec_lt}
use davinci_agent.Memory.Working.{Item, WorkingMemory, new_memory, trim, remember}

pub length-trim : {A : Type 0} (n : ℕ) (items : List A) → 2 ≤ n → length (trim n items) ≤ n
unfolding trim
length-trim zero items h = absurd (omega arith)
length-trim (suc zero) items h = absurd (omega arith)
length-trim (suc (suc n)) items h = ground (
  arith,
  length-append (take 1 items) (take_last (suc n) items),
  length-take 1 items,
  length-take_last (suc n) items,
)

abbrev pub remember_all : List Item → WorkingMemory → WorkingMemory
remember_all [] m = m
remember_all (x ∷ xs) m = remember_all xs (remember x.role x.content m)

module _ {A : Type 0} where
  trim_small : (n : ℕ) (items : List A) → length items ≤ n → trim n items ≡ items
  unfolding trim
  trim_small n items h = ground arith

  trim_large :
      (n : ℕ) (y : A) (items : List A)
      → suc (suc n) < length (y ∷ items)
      → trim (suc (suc n)) (y ∷ items) ≡ y ∷ take_last (suc n) (y ∷ items)
  unfolding trim
  trim_large n y items h = ground arith

  -- the last items, one item later
  window-snoc :
      (n : ℕ) (y x : A) (items : List A)
      → suc n ≤ length items
      → take_last (suc n) (y ∷ (take_last (suc n) items ++ x ∷ []))
        ≡ take_last (suc n) (items ++ x ∷ [])
  window-snoc n y x items h =
      ap (λ l. take_last (suc n) (y ∷ l)) (sym (take_last-snoc (suc n) items x))
      ∙ take_last-append (suc n) (y ∷ []) (take_last (suc (suc n)) (items ++ x ∷ [])) (
          omega
            (arith, length-take_last (suc (suc n)) (items ++ x ∷ []), length-append items (x ∷ [])))
      ∙ take_last-take_last (suc n) (suc (suc n)) (items ++ x ∷ []) (omega arith)

  -- Trimming a trimmed list again, one item later, is trimming the whole.
  trim-snoc :
      (n : ℕ) (items : List A) (x : A)
      → trim (suc (suc n)) (trim (suc (suc n)) items ++ x ∷ [])
        ≡ trim (suc (suc n)) (items ++ x ∷ [])
  trim-snoc n [] x =
      ap (λ l. trim (suc (suc n)) (l ++ x ∷ [])) (trim_small (suc (suc n)) [] (omega arith))
  trim-snoc n (y ∷ items) x = elim (dec_lt (suc (suc n)) (length (y ∷ items))) [
    | yes long ↦ rw (trim_large n y items long) (
        trim_large n y (take_last (suc n) (y ∷ items) ++ x ∷ []) (
          omega (
            arith,
            length-append (take_last (suc n) (y ∷ items)) (x ∷ []),
            length-take_last (suc n) (y ∷ items),
          ))
        ∙ ap (λ l. y ∷ l) (window-snoc n y x (y ∷ items) (omega arith))
        ∙ sym (trim_large n y (items ++ x ∷ []) (omega (arith, length-append items (x ∷ [])))))
    | no short ↦ rw (trim_small (suc (suc n)) (y ∷ items) (omega arith))
  ]

remember_all-from :
    (n : ℕ) (xs before : List Item) (m : WorkingMemory)
    → m.max_items ≡ suc (suc n)
    → m.items ≡ trim (suc (suc n)) before
    → (remember_all xs m).items ≡ trim (suc (suc n)) (before ++ xs)
unfolding remember
remember_all-from n [] before m e h = rw append-nil h
remember_all-from n (x ∷ xs) before m e h =
    remember_all-from n xs (before ++ x ∷ []) (remember x.role x.content m) e
      (ap₂ (λ (k : ℕ) l. trim k (l ++ x ∷ [])) e h ∙ trim-snoc n before x)
    ∙ ap (trim (suc (suc n))) (append_assoc before (x ∷ []) xs)

-- A memory of room for at least two items that has been told any items holds all of them in order
-- while they fit, and else the first and the most recent ones, as many as it has room for.
pub remember_all_window :
    (n : ℕ) (xs : List Item)
    → 2 ≤ n
    → ((remember_all xs (new_memory n)).items
        ≡ (if ltb n (length xs) then take 1 xs ++ take_last (n - 1) xs else xs))
      × (length (remember_all xs (new_memory n)).items ≤ n)
remember_all_window zero xs h = absurd (omega arith)
remember_all_window (suc zero) xs h = absurd (omega arith)
remember_all_window (suc (suc n)) xs h =
    let e =
      remember_all-from n xs [] (new_memory (suc (suc n))) refl
        (sym (trim_small (suc (suc n)) [] (omega arith))) in
    (e ∙ unfold trim in ground arith, rw e (length-trim (suc (suc n)) xs h))

trim_one :
    {A : Type 0} (items : List A) → 1 < length items → length (trim 1 items) ≡ suc (length items)
unfolding trim
trim_one items h = ground (arith, length-append (take 1 items) items, length-take 1 items)

remember-one :
    (xs : List Item) (m : WorkingMemory)
    → m.max_items ≡ 1
    → 1 ≤ length m.items
    → length (remember_all xs m).items ≡ length m.items + 2 * length xs
unfolding remember
remember-one [] m e h = omega arith
remember-one (x ∷ xs) m e h =
    let grown = trim_one (m.items ++ x ∷ []) (omega (arith, length-append m.items (x ∷ []))) in
    let same : length (trim m.max_items (m.items ++ x ∷ [])) ≡ suc (length (m.items ++ x ∷ [])) =
      rw e grown in
    omega (
      arith,
      same,
      length-append m.items (x ∷ []),
      remember-one xs (remember x.role x.content m) e
          (omega (arith, same, length-append m.items (x ∷ []))),
    )

-- With room for one item the window is not bounded: every item after the first makes it longer by
-- two.
pub remember_all_one :
    (x : Item) (xs : List Item)
    → length (remember_all (x ∷ xs) (new_memory 1)).items ≡ 2 * length xs + 1
unfolding remember
remember_all_one x xs =
    let once : trim 1 (x ∷ []) ≡ x ∷ [] = trim_small 1 (x ∷ []) (omega arith) in
    let size : length (trim 1 (x ∷ [])) ≡ 1 = ap (λ l. length l) once in
    omega (
      arith,
      size,
      remember-one xs (remember x.role x.content (new_memory 1)) refl (omega (arith, size)),
    )
