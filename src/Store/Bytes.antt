-- ===== src/Store/Bytes.antt =====
-- Numbers of 64 bits as eight bytes, the highest first, as `binary.BigEndian` writes and reads them.
pub mod Trip
pub mod Order
use bmagent.Base.{ℕ, zero, suc, ◌+◌, ◌*◌, ◌/◌, ◌%◌, Option, none, some, List, [], ◌∷◌, ◌++◌, Text}

-- The last `n` bytes of `v`.
unfoldable pub low_bytes : ℕ → ℕ → Text
low_bytes zero v = []
low_bytes (suc n) v = low_bytes n (v / 256) ++ v % 256 ∷ []

-- `PutUint64`
unfoldable pub put_uint64 : ℕ → Text
unfolding low_bytes
put_uint64 v = low_bytes 8 v

unfoldable pub number_of : ℕ → Text → ℕ
number_of acc [] = acc
number_of acc (b ∷ bs) = number_of (acc * 256 + b) bs

-- `b[:n]` and `b[n:]`; none is a panic.
unfoldable pub split_at : ℕ → Text → Option (Text × Text)
split_at zero bs = some ([], bs)
split_at (suc n) [] = none
split_at (suc n) (b ∷ bs) = elim (split_at n bs) [
  | none ↦ none
  | some (front, back) ↦ some (b ∷ front, back)
]

-- `Uint64`, of the first eight bytes; none is a panic.
unfoldable pub uint64 : Text → Option ℕ
unfolding split_at number_of
uint64 bs = elim (split_at 8 bs) [ none ↦ none | some (front, back) ↦ some (number_of 0 front) ]
