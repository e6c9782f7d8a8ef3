-- ===== src/Store/Loader/Counters.antt =====
-- store/db.go: the counters of the objects.
use bmagent.Base.{
  ℕ, ◌<◌, ◌≡◌, inl, inr, sym, ap, ◌∙◌, ◌==◌, if◌then◌else◌, text_eq, text_eq_iff, text_eq_refl,
  arith, Bool-cases, Option-cases,
}
use bmagent.Store.Bytes.{put_uint64, number_of}
use bmagent.Store.Bytes.Trip.{number_of-low_bytes, uint64-alone}
use bmagent.Store.Bucket.{Buckets, IsBolt, get-put}
use bmagent.Store.Requests.{put_uint32}
use bmagent.Store.Loader.{ok, Ciphers, Db, get_counter, set_counter}

number_of-put_uint32 : (n : ℕ) → n < 4294967296 → number_of 0 (put_uint32 n) ≡ n
unfolding put_uint32
number_of-put_uint32 n h = number_of-low_bytes 4 n (omega arith)

-- Two kinds have the same key exactly if they are the same.
text_eq-put_uint32 :
    (a b : ℕ) → a < 4294967296 → b < 4294967296 → text_eq (put_uint32 a) (put_uint32 b) ≡ (a == b)
text_eq-put_uint32 a b ha hb = elim (Bool-cases (text_eq (put_uint32 a) (put_uint32 b))) [
  | inl t ↦
      let same : a ≡ b =
        sym (number_of-put_uint32 a ha)
        ∙ ap (number_of 0) ((text_eq_iff (put_uint32 a) (put_uint32 b)).0 t)
        ∙ number_of-put_uint32 b hb in
      t ∙ ground arith
  | inr f ↦ elim (Bool-cases (a == b)) [
    | inr g ↦ f ∙ sym g
    | inl g ↦
        let same : a ≡ b = ground arith in
        let bad =
          sym (text_eq_refl (put_uint32 a))
          ∙ ap (λ t. text_eq (put_uint32 a) (put_uint32 t)) same in
        absurd (ground arith)
  ]
]

-- Where `SetCounter` of a counter of 64 bits succeeds, `GetCounter` reads it for the same kind of objects,
-- and for every other kind what it read before. The kinds are of 32 bits.
pub get_counter-set_counter :
    (H : Ciphers) (B : Buckets) (kind other n : ℕ) (l l' : Db H B)
    → IsBolt B
    → kind < 4294967296
    → other < 4294967296
    → n < 18446744073709551616
    → set_counter H B kind n l ≡ (l', ok tt)
    → get_counter H B other l' ≡ (if kind == other then ok n else get_counter H B other l)
unfolding set_counter get_counter
get_counter-set_counter H B kind other n l l' law hk ho hn e = elim (Option-cases l.file.counters) [
  | inl bad ↦ absurd (ground arith)
  | inr (b, has) ↦ elim (Option-cases (B.put (put_uint32 kind) (put_uint64 n) b)) [
    | inl bad ↦ absurd (ground arith)
    | inr (b', put) ↦
        let read = get-put B law (put_uint32 kind) (put_uint32 other) (put_uint64 n) b b' put in
        let keys = text_eq-put_uint32 kind other hk ho in
        let back = uint64-alone n hn in ground arith
  ]
]
