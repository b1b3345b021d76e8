-- ===== src/Bridge/Packing.antt =====
-- Packing and unpacking the fields of a header.
use davinci_agent.Prelude.{
  ℕ, zero, suc, ◌+◌, ◌*◌, ◌/◌, ◌%◌, ◌<◌, ◌≡◌, refl, sym, ap, ◌∙◌, some, List, [], ◌∷◌, ◌++◌,
  append_assoc, arith, take, drop, length, length-append, ltb, ltb→lt, Bool-cases, Option-cases,
  inl, inr, drop-drop,
}
use davinci_agent.Bridge.Bytes.{Bytes, room, big_endian, read_from, read_number, pack, unpack, size}

module _ {A : Type 0} where
  pub take-append-left : (xs ys : List A) → take (length xs) (xs ++ ys) ≡ xs
  take-append-left [] ys = refl
  take-append-left (x ∷ xs) ys = ap (λ l. x ∷ l) (take-append-left xs ys)

  pub drop-append-right : (xs ys : List A) → drop (length xs) (xs ++ ys) ≡ ys
  drop-append-right [] ys = refl
  drop-append-right (x ∷ xs) ys = drop-append-right xs ys

pub length-big_endian : (w n : ℕ) → length (big_endian w n) ≡ w
unfolding big_endian
length-big_endian zero n = refl
length-big_endian (suc w) n =
    omega
      (arith, length-append (big_endian w (n / 256)) (n % 256 ∷ []), length-big_endian w (n / 256))

read_from-snoc :
    (acc d : ℕ) (ds : Bytes) → read_from acc (ds ++ d ∷ []) ≡ read_from acc ds * 256 + d
unfolding read_from
read_from-snoc acc d [] = refl
read_from-snoc acc d (x ∷ ds) = read_from-snoc (acc * 256 + x) d ds

pub read_number-big_endian : (w n : ℕ) → n < room w → read_number (big_endian w n) ≡ n
unfolding big_endian
read_number-big_endian zero n h = unfold read_from in omega arith
read_number-big_endian (suc w) n h =
    let smaller : n / 256 < room w = omega arith in
    omega (
      arith,
      read_from-snoc 0 (n % 256) (big_endian w (n / 256)),
      read_number-big_endian w (n / 256) smaller,
    )

-- the front field, and what follows it
pub field_front :
    (w n : ℕ) (rest : Bytes)
    → n < room w
    → (read_number (take w (big_endian w n ++ rest)) ≡ n) × (drop w (big_endian w n ++ rest) ≡ rest)
field_front w n rest h =
    let b = big_endian w n in
    let e = length-big_endian w n in
    (
      ap (λ k. read_number (take k (b ++ rest))) (sym e)
          ∙ ap read_number (take-append-left b rest)
          ∙ read_number-big_endian w n h,
      ap (λ k. drop k (b ++ rest)) (sym e) ∙ drop-append-right b rest,
    )

pack-cons :
    (w n : ℕ) (ws ns : List ℕ) (b : Bytes)
    → pack (w ∷ ws) (n ∷ ns) ≡ some b
    → (n < room w) × (more : Bytes) × (pack ws ns ≡ some more) × (b ≡ big_endian w n ++ more)
unfolding pack
pack-cons w n ws ns b e = elim (Bool-cases (ltb n (room w))) [
  | inr large ↦ absurd (ground arith)
  | inl fits ↦ elim (Option-cases (pack ws ns)) [
    | inl fails ↦ absurd (ground arith)
    | inr (more, packed) ↦ (ltb→lt n (room w) fits, more, packed, ground arith)
  ]
]

unpack-front :
    (w n : ℕ) (ws ns : List ℕ) (more rest : Bytes)
    → n < room w
    → (unpack ws (more ++ rest) ≡ ns)
      × (drop (size ws) (more ++ rest) ≡ rest)
      × (length more ≡ size ws)
    → (unpack (w ∷ ws) ((big_endian w n ++ more) ++ rest) ≡ n ∷ ns)
      × (drop (w + size ws) ((big_endian w n ++ more) ++ rest) ≡ rest)
      × (length (big_endian w n ++ more) ≡ w + size ws)
unfolding unpack
unpack-front w n ws ns more rest fits h =
    let front = field_front w n (more ++ rest) fits in
    let e = append_assoc (big_endian w n) more rest in
    (
      rw (e, front.0, front.1, h.0) refl,
      sym (drop-drop (size ws) w ((big_endian w n ++ more) ++ rest)) ∙ rw (e, front.1) h.1,
      omega (arith, length-append (big_endian w n) more, length-big_endian w n, h.2),
    )

-- Fields that `struct.pack` packs are what `struct.unpack` gives, whatever follows them, and they
-- take as many bytes as the format says.
pub unpack-pack :
    (ws ns : List ℕ) (b rest : Bytes)
    → pack ws ns ≡ some b
    → (unpack ws (b ++ rest) ≡ ns) × (drop (size ws) (b ++ rest) ≡ rest) × (length b ≡ size ws)
unpack-pack [] [] b rest e =
    let nil : b ≡ [] = unfold pack in cc in rw nil (unfold unpack in refl, refl, refl)
unpack-pack [] (n ∷ ns) b rest e = absurd (unfold pack in ground arith)
unpack-pack (w ∷ ws) [] b rest e = absurd (unfold pack in ground arith)
unpack-pack (w ∷ ws) (n ∷ ns) b rest e =
    let (fits, more, packed, eq) = pack-cons w n ws ns b e in
    rw eq (unpack-front w n ws ns more rest fits (unpack-pack ws ns more rest packed))
