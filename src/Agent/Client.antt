-- ===== src/Agent/Client.antt =====
-- bmrpc/client.go: the calls of bmd, over the generated stub of its protocol.
use bmagent.Base.{ℕ, Option, none, some, List, [], ◌∷◌, ◌==◌, if◌then◌else◌, Text}
use bmagent.Mailbox.Coding.{Outcome, fine, refused, stopped}

-- What a call of the stub returns: a response, or an error with its code.
pub data Called (A : Type 0) : Type 0 where
  response : A → Called A
  grpc_error : ℕ → Called A

-- The response to `GetIdentity`.
pub record IdentityReply : Type 0 where
  pub signing_key : Text
  pub encryption_key : Text
  pub behavior : ℕ
  pub nonce_trials : ℕ
  pub extra_bytes : ℕ

-- `codes.NotFound`
abbrev pub not_found_code : ℕ
not_found_code = 5

-- The stub over the state of the connection, and what the packages bmutil, btcec and identity provide.
pub record Stub : Type 1 where
  pub Net : Type 0
  pub Address : Type 0
  pub PubKey : Type 0
  pub Identity : Type 0
  pub get_identity : Text → Net → Net × Called IdentityReply
  pub send_object : Text → Net → Net × Called ℕ
  pub decode_address : Text → Option Address
  pub parse_pub_key : Text → Option PubKey
  -- `identity.NewPublic`, of the two keys, an address with its version and stream, a behavior and the two
  -- numbers of the proof of work.
  pub new_public : PubKey → PubKey → Address → ℕ → ℕ → ℕ → Option Identity

-- What `GetIdentity` returns: an identity, `ErrIdentityNotFound`, or another error.
pub data Found (Identity : Type 0) : Type 0 where
  found : Identity → Found Identity
  identity_not_found : Found Identity
  lookup_error : Found Identity

-- What comes out of the loop over the objects: the client quits, or an object or an error is received.
pub data Event : Type 0 where
  quit : Event
  received : ℕ → Text → Event
  receive_error : Event

module _ (S : Stub) where
  open S use {Net, Address, Identity}

  abbrev pub or_error : Option Identity → Found Identity
  or_error none = lookup_error
  or_error (some id) = found id

  -- The identity of a response.
  unfoldable pub read_identity : Address → IdentityReply → Found Identity
  read_identity addr res = elim (S.parse_pub_key res.signing_key) [
    | none ↦ lookup_error
    | some ver ↦ elim (S.parse_pub_key res.encryption_key) [
      | none ↦ lookup_error
      | some enc ↦
          or_error (S.new_public ver enc addr res.behavior res.nonce_trials res.extra_bytes)
    ]
  ]

  -- `GetIdentity`
  unfoldable pub get_identity : Text → Net → Net × Found Identity
  unfolding read_identity
  get_identity address net = elim (S.decode_address address) [
    | none ↦ (net, lookup_error)
    | some addr ↦
        let (net', called) = S.get_identity address net in
        elim called [
          | grpc_error code ↦
              (net', if code == not_found_code then identity_not_found else lookup_error)
          | response res ↦ (net', read_identity addr res)
        ]
  ]

  -- `SendObject`; none is an error.
  unfoldable pub send_object : Text → Net → Net × Option ℕ
  send_object obj net =
      let (net', called) = S.send_object obj net in
      elim called [ grpc_error code ↦ (net', none) | response counter ↦ (net', some counter) ]

  -- The loop of `processObjects`; the function works on a state of its own and may panic.
  unfoldable pub process_objects {ℓ} :
      {T : Type ℓ} → (ℕ → Text → T → T × Outcome {0} Unit) → List Event → T → T × Outcome {0} Unit
  process_objects f [] s = (s, fine tt)
  process_objects f (quit ∷ events) s = (s, fine tt)
  process_objects f (receive_error ∷ events) s = (s, fine tt)
  process_objects f (received counter contents ∷ events) s =
      let rest = process_objects f events in
      let (s', out) = f counter contents s in
      elim out [ stopped ↦ (s', stopped) | refused ↦ rest s' | fine x ↦ rest s' ]
