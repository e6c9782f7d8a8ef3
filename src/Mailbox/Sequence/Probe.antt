-- ===== src/Mailbox/Sequence/Probe.antt =====
-- user/mailbox.go: what the loop of the interpolation search needs of its floating-point probe.
use native.Mathlib.Nat.{
  mul-div_cancel_left, div-le_of_le-mul, div-lt_iff_lt-mul, mul-le-mul_right,
  mul-lt-mul_of_pos_right, mul_comm,
}
use bmagent.Base.{ℕ, ◌+◌, ◌-◌, ◌*◌, ◌/◌, ◌≤◌, ◌<◌, ◌≡◌, subst, arith}

-- What the loop relies on of the floating-point probe, for fewer than 2 ^ 20 indices and uids of 32 bits.
-- It lies between the two indices, at the upper one if the uid is the highest, and below it if the uid is
-- lower. The exact value is an index, or a distance of 2 ^ -32 or more from the next one, and on indices
-- of 20 bits the three rounding errors of doubles, of 53 bits, are together smaller than that. On larger
-- uids, and on more of them, doubles may round up to the upper index.
pub record IsProbe (probe : ℕ → ℕ → ℕ → ℕ → ℕ → ℕ) : Type 0 where
  pub within :
      (i j lo hi uid : ℕ)
      → i ≤ j
      → j < 1048576
      → lo ≤ uid
      → uid ≤ hi
      → lo < hi
      → hi < 4294967296
      → (i ≤ probe i j lo hi uid) × (probe i j lo hi uid ≤ j)
  pub top :
      (i j lo hi : ℕ) → i ≤ j → j < 1048576 → lo < hi → hi < 4294967296 → probe i j lo hi hi ≡ j
  pub short :
      (i j lo hi uid : ℕ)
      → i < j
      → j < 1048576
      → lo ≤ uid
      → uid < hi
      → hi < 4294967296
      → probe i j lo hi uid < j

-- A probe that rounds nothing but its result: the formula with one division, on numbers.
unfoldable pub exact_probe : ℕ → ℕ → ℕ → ℕ → ℕ → ℕ
exact_probe i j lo hi uid = i + (uid - lo) * (j - i) / (hi - lo)

share-top : (a n : ℕ) → 0 < a → a * n / a ≡ n
share-top a n pos = mul-div_cancel_left n pos

share-le : (a b n : ℕ) → a ≤ b → a * n / b ≤ n
share-le a b n le = div-le_of_le-mul b (mul-le-mul_right n le)

share-lt : (a b n : ℕ) → a < b → 0 < n → a * n / b < n
share-lt a b n lt pos =
    (div-lt_iff_lt-mul {k = b} {x = a * n} {y = n} (omega arith)).1
      (subst (λ z. a * n < z) (mul_comm b n) (mul-lt-mul_of_pos_right lt pos))

-- Such a probe is one that the search can use.
pub exact_probe-IsProbe : IsProbe exact_probe
unfolding exact_probe
exact_probe-IsProbe = record {
  within = λ i j lo hi uid ij few low high lt small.
      (omega arith, omega (arith, share-le (uid - lo) (hi - lo) (j - i) (omega arith)));
  top = λ i j lo hi ij few lt small. omega (arith, share-top (hi - lo) (j - i) (omega arith));
  short = λ i j lo hi uid ij few low lt small.
      omega (arith, share-lt (uid - lo) (hi - lo) (j - i) (omega arith) (omega arith));
}
