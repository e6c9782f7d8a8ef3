-- ===== src/Store/Folder/Keys.antt =====
-- The keys of messages: the eight bytes of an id, and what follows them.
use mathlib.Core.Bool.{true≢false}
use bmagent.Base.{
  ℕ, zero, suc, ◌<◌, ◌≡◌, inl, inr, refl, sym, ap, ◌∙◌, true, false, Option, none, some, [], ◌∷◌,
  ◌++◌, Text, text_eq, text_eq_iff, text_eq_refl, arith, Option-cases,
}
use bmagent.Store.Bytes.{put_uint64, number_of, split_at}
use bmagent.Store.Bytes.Trip.{split_at-put_uint64, number_of-put_uint64}
use bmagent.Store.Folder.{begins}
use bmagent.Store.Folder.Valid.{max_u64}

pub put_uint64-inj : (a b : ℕ) → a < max_u64 → b < max_u64 → put_uint64 a ≡ put_uint64 b → a ≡ b
put_uint64-inj a b ha hb e =
    sym (number_of-put_uint64 a ha) ∙ ap (number_of 0) e ∙ number_of-put_uint64 b hb

pub some_pair-inj :
    (a c b d : Text)
    → ◌≡◌ {A = Option (Text × Text)} (some (a, b)) (some (c, d))
    → (a ≡ c) × (b ≡ d)
some_pair-inj a c b d e = (ground arith, ground arith)

pub begins_short : (p k : Text) → split_at 8 k ≡ none → begins p k ≡ false
unfolding begins
begins_short p k e = rw (e, begins) refl

pub begins_long :
    (p k front back : Text) → split_at 8 k ≡ some (front, back) → begins p k ≡ text_eq front p
unfolding begins
begins_long p k front back e = rw (e, begins) refl

-- The eight bytes of an id, and what follows them, are found again in a key.
pub key-inj :
    (a b : ℕ) (q q' : Text)
    → a < max_u64
    → b < max_u64
    → put_uint64 a ++ q ≡ put_uint64 b ++ q'
    → (a ≡ b) × (q ≡ q')
key-inj a b q q' ha hb e =
    let same = sym (split_at-put_uint64 a q) ∙ ap (split_at 8) e ∙ split_at-put_uint64 b q' in
    let (first, second) = some_pair-inj (put_uint64 a) (put_uint64 b) q q' same in
    (put_uint64-inj a b ha hb first, second)

pub split_at-inv :
    (n : ℕ) (k front back : Text) → split_at n k ≡ some (front, back) → k ≡ front ++ back
unfolding split_at
split_at-inv zero k front back e = ground arith
split_at-inv (suc n) [] front back e = absurd (ground arith)
split_at-inv (suc n) (b ∷ k) front back e = elim (Option-cases (split_at n k)) [
  | inl e' ↦ absurd (ground arith)
  | inr ((f, r), e') ↦ let IH = split_at-inv n k f r e' in ground arith
]

pub begins-inv : (p k : Text) → begins p k ≡ true → (back : Text) × (k ≡ p ++ back)
unfolding begins
begins-inv p k e = elim (Option-cases (split_at 8 k)) [
  | inl e' ↦ absurd (true≢false (sym e ∙ begins_short p k e'))
  | inr ((front, back), e') ↦ (
    back,
    split_at-inv 8 k front back e'
        ∙ ap (λ t. t ++ back) ((text_eq_iff front p).0 (sym (begins_long p k front back e') ∙ e)),
  )
]

pub begins-put_uint64 : (id : ℕ) (q : Text) → begins (put_uint64 id) (put_uint64 id ++ q) ≡ true
begins-put_uint64 id q =
    begins_long (put_uint64 id) (put_uint64 id ++ q) (put_uint64 id) q (split_at-put_uint64 id q)
    ∙ text_eq_refl (put_uint64 id)
