-- ===== src/Agent/Handlers/Keys.antt =====
-- server.go: requests for the public keys of the users.
use bmagent.Base.{
  ℕ, Bool, false, ◌||◌, Option, none, some, List, [], ◌∷◌, ◌++◌, length, ◌==◌, if◌then◌else◌, Text,
  text_eq,
}
use bmagent.Store.Bytes.{split_at}
use bmagent.Mailbox.Coding.{fine, stopped, Coding}
use bmagent.Mailbox.Box.{Folders, Flags, Finish}
use bmagent.Agent.Client.{Stub, send_object}
use bmagent.Agent.Handlers.{KeyEntry, GetPubKey, Ciphering, Server}

module _ (C : Coding) (F : Folders) (X : Flags) (probe : ℕ → ℕ → ℕ → ℕ → ℕ → ℕ) (S : Stub)
    (K : Ciphering C) where
  open K use {Private}

  abbrev pub Keys : Type 0
  Keys = List (KeyEntry Private)

  abbrev pub Hub : Type 0
  Hub = Server C F X probe S K

  -- Whether a request is for the key: by the hash of the address in versions 2 and 3, by its tag in 4.
  unfoldable pub is_requested : GetPubKey → Private → Bool
  is_requested msg id =
      if msg.version == 2 || msg.version == 3
      then text_eq (K.address_ripe id) msg.ripe
      else if msg.version == 4
      then text_eq (K.address_tag id) msg.tag
      else false

  -- The keys of a user, up to the first that is requested; disabled keys and channels are passed over.
  unfoldable pub requested_key : GetPubKey → Keys → Option Private
  unfolding is_requested
  requested_key msg [] = none
  requested_key msg (id ∷ ids) =
      let rest = requested_key msg ids in
      if id.disabled || id.is_chan
      then rest
      else if is_requested msg id.private
      then some id.private
      else rest

  unfoldable pub requested_of : GetPubKey → List (ℕ × Keys) → Option Private
  unfolding requested_key
  requested_of msg [] = none
  requested_of msg ((uid, keys) ∷ users) =
      let rest = requested_of msg users in
      elim (requested_key msg keys) [ none ↦ rest | some id ↦ some id ]

  -- The order for the public key of an identity; an encoding of fewer than eight bytes panics.
  unfoldable pub offer_key : Private → Hub → Hub × Finish
  unfolding split_at
  offer_key id s = elim (K.encode_pub_key id) [
    | none ↦ (s, fine tt)
    | some encoded ↦ elim (split_at 8 encoded) [
      | none ↦ (s, stopped)
      | some (front, b) ↦
          (record s { pow = s.pow ++ ((K.pub_key_target (length b), b) ∷ []) }, fine tt)
    ]
  ]

  -- `newGetpubkey`
  unfoldable pub new_getpubkey : ℕ → Text → Hub → Hub × Finish
  unfolding requested_of
  new_getpubkey counter object s =
      let s' : Hub = record s { getpubkey_counter = counter } in
      elim (K.decode_getpubkey object) [
        | none ↦ (s', fine tt)
        | some msg ↦ elim (requested_of msg s.users) [
          | none ↦ (s', fine tt)
          | some id ↦ offer_key id s'
        ]
      ]

  -- The callback of such an order: the nonce and the bytes are sent.
  unfoldable pub key_offered : Text → ℕ × Text → Hub → Hub
  unfolding send_object
  key_offered drawn (target, b) s = record s { bmd = (send_object S (drawn ++ b) s.bmd).0 }
