-- ===== src/Store/Bytes/Trip.antt =====
-- What is written as eight bytes is read back.
use mathlib.Core.List.{append-nil}
use bmagent.Base.{
  subst, ℕ, zero, suc, ◌+◌, ◌*◌, ◌/◌, ◌%◌, ◌<◌, ◌≡◌, refl, ap, ◌∙◌, some, [], ◌∷◌, ◌++◌, Text,
  arith, length, length-append,
}
use bmagent.Store.Bytes.{low_bytes, put_uint64, number_of, split_at, uint64}

number_of-snoc : (acc b : ℕ) (bs : Text) → number_of acc (bs ++ b ∷ []) ≡ number_of acc bs * 256 + b
unfolding number_of
number_of-snoc acc b [] = refl
number_of-snoc acc b (c ∷ bs) = number_of-snoc (acc * 256 + c) b bs

-- A number below the bound of `n` bytes.
abbrev pub Fits : ℕ → ℕ → Type 0
Fits zero v = v < 1
Fits (suc n) v = Fits n (v / 256)

pub number_of-low_bytes : (n v : ℕ) → Fits n v → number_of 0 (low_bytes n v) ≡ v
unfolding low_bytes number_of
number_of-low_bytes zero v h = omega arith
number_of-low_bytes (suc n) v h =
    number_of-snoc 0 (v % 256) (low_bytes n (v / 256))
    ∙ omega (arith, number_of-low_bytes n (v / 256) h)

pub length-low_bytes : (n v : ℕ) → length (low_bytes n v) ≡ n
unfolding low_bytes
length-low_bytes zero v = refl
length-low_bytes (suc n) v =
    omega
      (arith, length-append (low_bytes n (v / 256)) (v % 256 ∷ []), length-low_bytes n (v / 256))

pub split_at-append : (n : ℕ) (xs ys : Text) → length xs ≡ n → split_at n (xs ++ ys) ≡ some (xs, ys)
unfolding split_at
split_at-append zero [] ys h = refl
split_at-append zero (x ∷ xs) ys h = absurd (omega arith)
split_at-append (suc n) [] ys h = absurd (omega arith)
split_at-append (suc n) (x ∷ xs) ys h = ground (arith, split_at-append n xs ys)

pub Fits-u64 : (v : ℕ) → v < 18446744073709551616 → Fits 8 v
Fits-u64 v h = omega arith

pub length-put_uint64 : (v : ℕ) → length (put_uint64 v) ≡ 8
unfolding put_uint64
length-put_uint64 v = length-low_bytes 8 v

pub split_at-put_uint64 :
    (v : ℕ) (more : Text) → split_at 8 (put_uint64 v ++ more) ≡ some (put_uint64 v, more)
split_at-put_uint64 v more = split_at-append 8 (put_uint64 v) more (length-put_uint64 v)

pub number_of-put_uint64 : (v : ℕ) → v < 18446744073709551616 → number_of 0 (put_uint64 v) ≡ v
unfolding put_uint64
number_of-put_uint64 v h = number_of-low_bytes 8 v (Fits-u64 v h)

-- A number of 64 bits is read back from the eight bytes that it is written as, whatever follows them.
pub uint64-put_uint64 :
    (v : ℕ) (more : Text) → v < 18446744073709551616 → uint64 (put_uint64 v ++ more) ≡ some v
unfolding uint64
uint64-put_uint64 v more h =
    rw (split_at-put_uint64 v more, uint64) (ap some (number_of-put_uint64 v h))

pub uint64-alone : (v : ℕ) → v < 18446744073709551616 → uint64 (put_uint64 v) ≡ some v
uint64-alone v h =
    subst (λ t. uint64 t ≡ some v) (append-nil (put_uint64 v)) (uint64-put_uint64 v [] h)
