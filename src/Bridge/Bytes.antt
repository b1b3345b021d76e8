-- ===== src/Bridge/Bytes.antt =====
-- Python's `struct.pack` and `struct.unpack` for unsigned big-endian fields, and `int.to_bytes`. A
-- format is the list of the fields' widths, and `bytes` is a list of numbers.
use davinci_agent.Prelude.{
  ℕ, zero, suc, ◌+◌, ◌*◌, ◌/◌, ◌%◌, Option, none, some, List, [], ◌∷◌, ◌++◌, take, drop, ltb,
  if◌then◌else◌,
}

abbrev pub Bytes : Type 0
Bytes = List ℕ

-- the number of values of so many bytes
abbrev pub room : ℕ → ℕ
room zero = 1
room (suc w) = 256 * room w

-- the lowest `w` bytes, the highest first
unfoldable pub big_endian : ℕ → ℕ → Bytes
big_endian zero n = []
big_endian (suc w) n = big_endian w (n / 256) ++ n % 256 ∷ []

-- the lowest `w` bytes, the lowest first
unfoldable pub little_endian : ℕ → ℕ → Bytes
little_endian zero n = []
little_endian (suc w) n = n % 256 ∷ little_endian w (n / 256)

unfoldable pub read_from : ℕ → Bytes → ℕ
read_from acc [] = acc
read_from acc (d ∷ ds) = read_from (acc * 256 + d) ds

-- `int.from_bytes(b, "big")`
abbrev pub read_number : Bytes → ℕ
read_number b = read_from 0 b

-- `struct.pack`; `none` is a `struct.error`
unfoldable pub pack : List ℕ → List ℕ → Option Bytes
pack [] [] = some []
pack [] (n ∷ ns) = none
pack (w ∷ ws) [] = none
pack (w ∷ ws) (n ∷ ns) =
    let rest = pack ws ns in
    if ltb n (room w)
    then (elim rest [ none ↦ none | some b ↦ some (big_endian w n ++ b) ])
    else none

-- `struct.unpack` of the front of the bytes
unfoldable pub unpack : List ℕ → Bytes → List ℕ
unpack [] b = []
unpack (w ∷ ws) b = read_number (take w b) ∷ unpack ws (drop w b)

-- the length of a format
abbrev pub size : List ℕ → ℕ
size [] = 0
size (w ∷ ws) = w + size ws
