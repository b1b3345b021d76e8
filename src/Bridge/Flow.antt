-- ===== src/Bridge/Flow.antt =====
-- Reads from a stream that delivers, however it is cut into pieces.
use davinci_agent.Prelude.{
  ℕ, zero, suc, ◌-◌, ◌≤◌, ◌<◌, ◌≡◌, refl, sym, ap, ◌∙◌, true, false, none, some, List, [], ◌∷◌,
  ◌++◌, length, length-append, take, drop, leb, arith,
}
use native.Mathlib.Decide.{dec_le}
use davinci_agent.Bridge.Bytes.{Bytes}
use davinci_agent.Bridge.Stream.{Event, bytes_in, timed_out, os_error, put_back, recvall}

-- the bytes that come, up to a failure or the end
abbrev pub flat : List Event → Bytes
flat [] = []
flat (bytes_in ds ∷ es) = ds ++ flat es
flat (timed_out closing ∷ es) = flat es
flat (os_error ∷ es) = []

-- Pieces that are not empty, and timeouts while the client is not being closed.
abbrev pub IsFlowing : List Event → Type 0
IsFlowing [] = Unit
IsFlowing (bytes_in [] ∷ es) = ⊥
IsFlowing (bytes_in (d ∷ ds) ∷ es) = IsFlowing es
IsFlowing (timed_out true ∷ es) = ⊥
IsFlowing (timed_out false ∷ es) = IsFlowing es
IsFlowing (os_error ∷ es) = ⊥

module _ {A : Type 0} where
  take-append-more :
      (n : ℕ) (xs ys : List A)
      → length xs ≤ n
      → (take n (xs ++ ys) ≡ xs ++ take (n - length xs) ys)
        × (drop n (xs ++ ys) ≡ drop (n - length xs) ys)
  take-append-more n [] ys h =
      let e : n ≡ n - 0 = omega arith in (ap (λ k. take k ys) e, ap (λ k. drop k ys) e)
  take-append-more zero (x ∷ xs) ys h = absurd (omega arith)
  take-append-more (suc n) (x ∷ xs) ys h =
      let rest = take-append-more n xs ys (omega arith) in
      let e : n - length xs ≡ suc n - suc (length xs) = omega arith in
      (ap (λ l. x ∷ l) rest.0 ∙ ap (λ k. x ∷ (xs ++ take k ys)) e, rest.1 ∙ ap (λ k. drop k ys) e)

  take-append-less :
      (n : ℕ) (xs ys : List A)
      → n ≤ length xs
      → (take n (xs ++ ys) ≡ take n xs) × (drop n (xs ++ ys) ≡ drop n xs ++ ys)
  take-append-less zero xs ys h = (refl, refl)
  take-append-less (suc n) [] ys h = absurd (omega arith)
  take-append-less (suc n) (x ∷ xs) ys h =
      let rest = take-append-less n xs ys (omega arith) in (ap (λ l. x ∷ l) rest.0, rest.1)

-- what a read of `n` bytes gives: the front of the bytes to come, and a stream with the others
pub record Reads (n : ℕ) (es : List Event) : Type 0 where
  pub rest : List Event
  pub read : recvall n es ≡ (some (take n (flat es)), rest)
  pub others : flat rest ≡ drop n (flat es)
  pub flows : IsFlowing rest

flat-put_back : (ds : Bytes) (es : List Event) → flat (put_back ds es) ≡ ds ++ flat es
unfolding put_back
flat-put_back [] es = refl
flat-put_back (d ∷ ds) es = refl

put_back-IsFlowing : (ds : Bytes) (es : List Event) → IsFlowing es → IsFlowing (put_back ds es)
unfolding put_back
put_back-IsFlowing [] es h = h
put_back-IsFlowing (d ∷ ds) es h = h

module _ (n d : ℕ) (ds : Bytes) (es : List Event) (h : IsFlowing es) where
  Reads-on : length ds ≤ n → Reads (n - length ds) es → Reads (suc n) (bytes_in (d ∷ ds) ∷ es)
  unfolding recvall
  Reads-on fits later =
      let front = take-append-more n ds (flat es) fits in
      let le : leb (length ds) n ≡ true = ground arith in
      record {
        rest = later.rest;
        read = rw (le, later.read, front.0) refl;
        others = later.others ∙ sym front.1;
        flows = later.flows;
      }

  Reads-part : n < length ds → Reads (suc n) (bytes_in (d ∷ ds) ∷ es)
  unfolding recvall
  Reads-part part =
      let front = take-append-less n ds (flat es) (omega arith) in
      let more : leb (length ds) n ≡ false = ground arith in
      record {
        rest = put_back (drop n ds) es;
        read = rw (more, front.0) refl;
        others = flat-put_back (drop n ds) es ∙ sym front.1;
        flows = put_back-IsFlowing (drop n ds) es h;
      }

Reads-later : (n : ℕ) (es : List Event) → Reads (suc n) es → Reads (suc n) (timed_out false ∷ es)
unfolding recvall
Reads-later n es later = record {
  rest = later.rest;
  read = later.read;
  others = later.others;
  flows = later.flows;
}

Reads-none : (es : List Event) → IsFlowing es → Reads 0 es
unfolding recvall
Reads-none es h = record { rest = es; read = refl; others = refl; flows = h }

-- However the bytes are cut into pieces and whatever timeouts come between them, a read of as many
-- bytes as will come at least gives exactly the first of them, and leaves the others for the next.
pub recvall-Reads : (n : ℕ) (es : List Event) → IsFlowing es → n ≤ length (flat es) → Reads n es
recvall-Reads zero es h k = Reads-none es h
recvall-Reads (suc n) [] h k = absurd (omega arith)
recvall-Reads (suc n) (os_error ∷ es) h k = absurd h
recvall-Reads (suc n) (timed_out true ∷ es) h k = absurd h
recvall-Reads (suc n) (timed_out false ∷ es) h k = Reads-later n es (recvall-Reads (suc n) es h k)
recvall-Reads (suc n) (bytes_in [] ∷ es) h k = absurd h
recvall-Reads (suc n) (bytes_in (d ∷ ds) ∷ es) h k =
    let later : n - length ds ≤ length (flat es) → Reads (n - length ds) es =
      recvall-Reads (n - length ds) es h in
    elim (dec_le (length ds) n) [
      | yes fits ↦ Reads-on n d ds es h fits (later (omega (arith, length-append ds (flat es))))
      | no part ↦ Reads-part n d ds es h (omega arith)
    ]

-- at the end a read of something gives nothing
pub recvall-end :
    (n : ℕ) (es : List Event) → IsFlowing es → flat es ≡ [] → (recvall (suc n) es).0 ≡ none
unfolding recvall
recvall-end n [] h e = refl
recvall-end n (os_error ∷ es) h e = absurd h
recvall-end n (timed_out true ∷ es) h e = absurd h
recvall-end n (timed_out false ∷ es) h e = recvall-end n es h e
recvall-end n (bytes_in [] ∷ es) h e = absurd h
recvall-end n (bytes_in (d ∷ ds) ∷ es) h e = absurd (ground arith)
