-- ===== src/Store/Bytes/Order.antt =====
-- The order of bytes, against prefixes and numbers.
use bmagent.Base.{
  ℕ, zero, suc, ◌/◌, ◌%◌, ◌<◌, ◌≡◌, refl, sym, ap, ◌∙◌, true, [], ◌∷◌, ◌++◌, Text, arith, length,
  leb, text_le, text_eq, text_eq_iff, if◌then◌else◌,
}
use bmagent.Store.Bytes.{low_bytes, put_uint64, number_of}
use bmagent.Store.Bytes.Trip.{Fits, Fits-u64, number_of-low_bytes, length-low_bytes}

pub text_le_refl : (s : Text) → text_le s s ≡ true
unfolding text_le
text_le_refl [] = refl
text_le_refl (a ∷ s) = ground (arith, text_le_refl s)

pub text_le_trans : (s t u : Text) → text_le s t ≡ true → text_le t u ≡ true → text_le s u ≡ true
unfolding text_le
text_le_trans [] t u h k = refl
text_le_trans (a ∷ s) [] u h k = absurd (ground arith)
text_le_trans (a ∷ s) (b ∷ t) [] h k = absurd (ground arith)
text_le_trans (a ∷ s) (b ∷ t) (c ∷ u) h k = ground (arith, text_le_trans s t u)

pub text_le_antisym : (s t : Text) → text_le s t ≡ true → text_le t s ≡ true → s ≡ t
unfolding text_le
text_le_antisym [] [] h k = refl
text_le_antisym [] (b ∷ t) h k = absurd (ground arith)
text_le_antisym (a ∷ s) [] h k = absurd (ground arith)
text_le_antisym (a ∷ s) (b ∷ t) h k = ground (arith, text_le_antisym s t)

pub text_le-append : (p s : Text) → text_le p (p ++ s) ≡ true
unfolding text_le
text_le-append [] s = refl
text_le-append (a ∷ p) s = ground (arith, text_le-append p s)

-- Between a prefix and a text that it begins there are only texts that it begins.
pub prefix_between :
    (p k s : Text) → text_le p k ≡ true → text_le k (p ++ s) ≡ true → (s' : Text) × (k ≡ p ++ s')
unfolding text_le
prefix_between [] k s h e = (k, refl)
prefix_between (a ∷ p) [] s h e = absurd (ground arith)
prefix_between (a ∷ p) (b ∷ k) s h e =
    let (s', same) = prefix_between p k s (ground arith) (ground arith) in (s', ground arith)

-- Texts of one length that end in a byte each are in the order of what stands before the bytes, and
-- where that is the same, of the bytes.
text_le-snoc :
    (s t : Text) (a b : ℕ)
    → length s ≡ length t
    → text_le (s ++ a ∷ []) (t ++ b ∷ []) ≡ (if text_eq s t then leb a b else text_le s t)
unfolding text_le text_eq
text_le-snoc [] [] a b h = ground arith
text_le-snoc [] (y ∷ t) a b h = absurd (omega arith)
text_le-snoc (x ∷ s) [] a b h = absurd (omega arith)
text_le-snoc (x ∷ s) (y ∷ t) a b h = ground (arith, text_le-snoc s t a b)

low_bytes-inj : (n a b : ℕ) → Fits n a → Fits n b → low_bytes n a ≡ low_bytes n b → a ≡ b
low_bytes-inj n a b ha hb e =
    sym (number_of-low_bytes n a ha) ∙ ap (number_of 0) e ∙ number_of-low_bytes n b hb

text_le-low_bytes :
    (n a b : ℕ) → Fits n a → Fits n b → text_le (low_bytes n a) (low_bytes n b) ≡ leb a b
unfolding low_bytes text_le
text_le-low_bytes zero a b ha hb = ground arith
text_le-low_bytes (suc n) a b ha hb =
    text_le-snoc (low_bytes n (a / 256)) (low_bytes n (b / 256)) (a % 256) (b % 256)
      (length-low_bytes n (a / 256) ∙ sym (length-low_bytes n (b / 256)))
    ∙ ground (
      arith,
      text_le-low_bytes n (a / 256) (b / 256) ha hb,
      low_bytes-inj n (a / 256) (b / 256) ha hb,
      text_eq_iff (low_bytes n (a / 256)) (low_bytes n (b / 256)),
    )

-- The eight bytes of numbers of 64 bits are in the order of the numbers.
pub text_le-put_uint64 :
    (a b : ℕ)
    → a < 18446744073709551616
    → b < 18446744073709551616
    → text_le (put_uint64 a) (put_uint64 b) ≡ leb a b
unfolding put_uint64
text_le-put_uint64 a b ha hb = text_le-low_bytes 8 a b (Fits-u64 a ha) (Fits-u64 b hb)
