-- ===== src/Store/Box.antt =====
-- store/db.go: `encrypt` and `decrypt`, over the secret boxes of another package.
use bmagent.Base.{◌≡◌, refl, subst, arith, Option, none, some, ◌++◌, Text, length}
use bmagent.Store.Bytes.{split_at}
use bmagent.Store.Bytes.Trip.{split_at-append}

-- `secretbox.Seal` and `secretbox.Open`, of a nonce and a key; none is a failure.
pub record Boxes : Type 1 where
  pub Key : Type 0
  pub seal : Text → Key → Text → Text
  pub unseal : Text → Key → Text → Option Text

pub data Opened : Type 0 where
  opened : Text → Opened
  not_opened : Opened
  stopped : Opened

module _ (S : Boxes) where
  open S use {Key, seal, unseal}

  -- `encrypt`, with the nonce of 24 bytes that `rand.Read` gives; none is its error.
  unfoldable pub encrypt : Option Key → Option Text → Text → Option Text
  encrypt none drawn msg = some msg
  encrypt (some key) none msg = none
  encrypt (some key) (some nonce) msg = some (nonce ++ seal nonce key msg)

  -- `decrypt`; data of fewer than 24 bytes is a panic.
  unfoldable pub decrypt : Option Key → Text → Opened
  decrypt none sealed = opened sealed
  decrypt (some key) enc = elim (split_at 24 enc) [
    | none ↦ stopped
    | some (nonce, sealed) ↦ elim (unseal nonce key sealed) [
      | none ↦ not_opened
      | some m ↦ opened m
    ]
  ]

  -- Where a box opens with the nonce and the key that sealed it, what is encrypted with a nonce of 24
  -- bytes, or without a key, is decrypted to itself.
  pub decrypt-encrypt :
      (key : Option Key) (nonce msg enc : Text)
      → ((n : Text) (k : Key) (m : Text) → unseal n k (seal n k m) ≡ some m)
      → length nonce ≡ 24
      → encrypt key (some nonce) msg ≡ some enc
      → decrypt key enc ≡ opened msg
  unfolding encrypt decrypt
  decrypt-encrypt none drawn msg enc law h e = ground arith
  decrypt-encrypt (some key) nonce msg enc law h e =
      let same : nonce ++ seal nonce key msg ≡ enc = ground arith in
      subst (λ x. decrypt (some key) x ≡ opened msg) same
        (rw (split_at-append 24 nonce (seal nonce key msg) h, decrypt)
          (rw (law nonce key msg) refl))
