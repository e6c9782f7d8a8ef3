-- ===== src/Store/Requests/Counts.antt =====
-- What the requests of each address come to.
use bmagent.Base.{
  ℕ, ◌+◌, ◌<◌, ◌≡◌, ◌⊎◌, inl, inr, refl, ap, ◌∙◌, Option, none, some, ◌++◌, u32, Text, text_eq,
  if◌then◌else◌, length, arith, Bool-cases, Option-cases,
}
use bmagent.Store.Bytes.{low_bytes, number_of}
use bmagent.Store.Bytes.Trip.{split_at-append, length-low_bytes, number_of-low_bytes}
use bmagent.Store.Bucket.{Buckets, IsBolt, get-put}
use bmagent.Store.Folder.{database, done, failed}
use bmagent.Store.Requests.{put_uint32, read_count, next_count, new_request}

read_count-append : (xs t : Text) → length xs ≡ 4 → read_count (xs ++ t) ≡ some (number_of 0 xs, t)
unfolding read_count
read_count-append xs t h = rw (split_at-append 4 xs t h, read_count) refl

read_count-put_uint32 :
    (n : ℕ) (t : Text) → n < 4294967296 → read_count (put_uint32 n ++ t) ≡ some (n, t)
unfolding put_uint32
read_count-put_uint32 n t h =
    read_count-append (low_bytes 4 n) t (length-low_bytes 4 n)
    ∙ ap (λ k. some (k, t)) (number_of-low_bytes 4 n (omega arith))

module _ (B : Buckets) {Time : Type 0} (unmarshal : Text → Option Time) (law : IsBolt B) where
  -- Every value is a count of 32 bits and the bytes of a time.
  abbrev pub IsCounted : B.Bucket → Type 0
  IsCounted b =
      (addr v : Text)
      → B.get addr b ≡ some v
      → (n : ℕ) × (t : Text) × (v ≡ put_uint32 n ++ t) × (n < 4294967296)

  -- The count and the time of an address.
  abbrev pub request_at : Text → B.Bucket → Option (ℕ × Text)
  request_at addr b = elim (B.get addr b) [ none ↦ none | some v ↦ read_count v ]

  -- One more than the count, of 32 bits, and 1 for an address that was not asked for.
  abbrev pub more : Option (ℕ × Text) → ℕ
  more none = 1
  more (some (n, t)) = u32 (n + 1)

  next_count-more :
      (addr : Text) (b : B.Bucket)
      → IsCounted b
      → (next_count B unmarshal (B.get addr b) ≡ some (more (request_at addr b)))
        × (more (request_at addr b) < 4294967296)
  unfolding next_count
  next_count-more addr b h = elim (Option-cases (B.get addr b)) [
    | inl e ↦ rw (e, next_count, request_at) (refl, omega arith)
    | inr (v, e) ↦
        let (n, t, same, small) = h addr v e in
        let here = ap read_count same ∙ read_count-put_uint32 n t small in
        rw (e, next_count, request_at) (rw here (refl, omega arith))
  ]

  written-IsCounted :
      (addr t : Text) (n : ℕ) (b b' : B.Bucket)
      → IsCounted b
      → n < 4294967296
      → B.put addr (put_uint32 n ++ t) b ≡ some b'
      → IsCounted b'
  written-IsCounted addr t n b b' h small e other v at = elim (Bool-cases (text_eq addr other)) [
    | inl s ↦
        let here = get-put B law addr other (put_uint32 n ++ t) b b' e in
        (n, t, ground arith, small)
    | inr s ↦
        let here = get-put B law addr other (put_uint32 n ++ t) b b' e in h other v (ground arith)
  ]

  -- In a bucket of counts, `New` of an address returns the count one higher (1 for a new address, and 0
  -- after 2 ^ 32 - 1) and writes it with the time; every other address keeps what it has. Where the
  -- database refuses the bucket is as before.
  pub new_request-more :
      (addr time : Text) (b : B.Bucket)
      → IsCounted b
      → let (b', reply) = new_request B unmarshal (some time) addr b in
        ((reply ≡ failed database) × (b' ≡ b))
        ⊎ (IsCounted b'
            × (reply ≡ done (more (request_at addr b)))
            × ((other : Text)
                → request_at other b' ≡ (
                    if text_eq addr other
                    then some (more (request_at addr b), time)
                    else request_at other b)))
  unfolding new_request
  new_request-more addr time b h =
      let n = more (request_at addr b) in
      let (next, small) = next_count-more addr b h in
      elim (Option-cases (B.put addr (put_uint32 n ++ time) b)) [
        | inl e ↦ rw (next, new_request) (rw e (inl (refl, refl)))
        | inr (b', e) ↦
            rw (next, new_request)
              (rw e (inr (written-IsCounted addr time n b b' h small e, refl, read small b' e)))
      ]
    where
      read :
          (small : more (request_at addr b) < 4294967296) (b' : B.Bucket)
          → B.put addr (put_uint32 (more (request_at addr b)) ++ time) b ≡ some b'
          → (other : Text)
          → request_at other b' ≡ (
              if text_eq addr other
              then some (more (request_at addr b), time)
              else request_at other b)
      read small b' e other = elim (Bool-cases (text_eq addr other)) [
        | inl s ↦
            rw
              (
                get-put B law addr other (put_uint32 (more (request_at addr b)) ++ time) b b' e,
                request_at,
              )
              (rw s (read_count-put_uint32 (more (request_at addr b)) time small))
        | inr s ↦
            rw
              (
                get-put B law addr other (put_uint32 (more (request_at addr b)) ++ time) b b' e,
                request_at,
              )
              (rw s refl)
      ]
