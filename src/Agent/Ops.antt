-- ===== src/Agent/Ops.antt =====
-- serverops.go, and `getOrRequestPublicIdentity` and `Send` of server.go: how the public key of a
-- recipient is found or asked for.
pub mod Known
use bmagent.Base.{
  ℕ, Bool, true, false, Option, none, some, List, [], ◌∷◌, ◌++◌, length, if◌then◌else◌, Text,
  text_eq,
}
use bmagent.Email.Address.{Result, ok, fail, panic, to_bm, broadcast}
use bmagent.Store.Bytes.{split_at}
use bmagent.Store.Bucket.{Buckets}
use bmagent.Store.Requests.{new_request}
use bmagent.Mailbox.Coding.{Outcome, fine, refused, stopped}
use bmagent.User.Objects.{Answer, known, get_pub_key_sent, unanswered}
use bmagent.Agent.Client.{
  Stub, Found, found, identity_not_found, lookup_error, get_identity, send_object,
}

-- `identity.Public`: that of broadcasts, which the package user declares, or another.
pub data Public (Identity : Type 0) : Type 0 where
  broadcast_id : Public Identity
  public_id : Identity → Public Identity

-- The key requests of the agent: `obj.NewGetPubKey` at an expiration, in its encoding, and the target of
-- its proof of work; times are written as the requests for keys store them.
pub record Requests (S : Stub) : Type 0 where
  pub encode_get_pub_key : S.Address → Text
  pub request_target : ℕ → ℕ

-- An order of the proof of work for a request, and the address that is asked for.
pub record Asked : Type 0 where
  pub target : ℕ
  pub bytes : Text
  pub address : Text

module _ (S : Stub) (B : Buckets) (R : Requests S) (parse_address : Text → Option Text)
    (decodes : Text → Bool) {Time : Type 0} (unmarshal : Text → Option Time) where
  -- `serverOps` and what it uses of `server`: the cached identities, the connection to bmd, the orders of
  -- the proof of work that were not called back yet, and the bucket of the requests for keys.
  pub record Ops : Type 0 where
    pub pub_ids : Text → Option (Public S.Identity)
    pub bmd : S.Net
    pub pow : List Asked
    pub pk : B.Bucket

  -- What `getOrRequestPublicIdentity` returns; no identity and no error is a request that was queued.
  pub data Given : Type 0 where
    given : S.Identity → Given
    requested : Given
    not_given : Given
    crash : Given

  -- The order for a request; an encoding of fewer than eight bytes panics.
  unfoldable pub request_key : Text → S.Address → Ops → Ops × Given
  unfolding split_at
  request_key address addr s = elim (split_at 8 (R.encode_get_pub_key addr)) [
    | none ↦ (s, crash)
    | some (front, b) ↦
        let asked : Asked = record {
          target = R.request_target (length b);
          bytes = b;
          address = address;
        } in
        (record s { pow = s.pow ++ (asked ∷ []) }, requested)
  ]

  -- `getOrRequestPublicIdentity`
  unfoldable pub get_or_request_public_identity : Text → Ops → Ops × Given
  unfolding request_key
  get_or_request_public_identity address s =
      let (net, id) = get_identity S address s.bmd in
      let s' : Ops = record s { bmd = net } in
      elim id [
        | found i ↦ (s', given i)
        | lookup_error ↦ (s', not_given)
        | identity_not_found ↦ elim (S.decode_address address) [
          | none ↦ (s', not_given)
          | some addr ↦ request_key address addr s'
        ]
      ]

  -- `Send`
  unfoldable pub send : Text → Ops → Ops
  unfolding send_object
  send bytes s = record s { bmd = (send_object S bytes s.bmd).0 }

  -- The callback of a request, with the nonce that was found and the time in bytes: it is sent, and
  -- recorded, whatever the sending comes to.
  unfoldable pub key_requested : Text → Option Text → Asked → Ops → Ops
  unfolding send
  key_requested drawn now asked s =
      let s' = send (drawn ++ asked.bytes) s in
      record s' { pk = (new_request B unmarshal now asked.address s'.pk).0 }

  unfoldable pub cache : Text → Public S.Identity → Ops → Ops
  cache addr id s = record s {
    pub_ids = λ other. if text_eq addr other then some id else s.pub_ids other;
  }

  -- `GetOrRequestPublicID` of a Bitmessage address, where `private` says whether `GetPrivateID` finds one
  -- of ours: its method `Public` calls itself without end.
  unfoldable pub look_up : (Text → Bool) → Text → Ops → Ops × Outcome (Answer (Public S.Identity))
  unfolding cache
  look_up private addr s =
      if text_eq addr broadcast then (s, fine (known broadcast_id)) else elim (s.pub_ids addr) [
        | some id ↦ (s, fine (known id))
        | none ↦ elim (private addr) [
          | true ↦ (s, stopped)
          | false ↦
              let (s', result) = get_or_request_public_identity addr s in
              elim result [
                | not_given ↦ (s', fine unanswered)
                | crash ↦ (s', stopped)
                | requested ↦ (s', fine get_pub_key_sent)
                | given id ↦ (cache addr (public_id id) s', fine (known (public_id id)))
              ]
        ]
      ]

  -- `GetOrRequestPublicID`
  unfoldable pub get_or_request_public_id :
      (Text → Bool) → Text → Ops → Ops × Outcome (Answer (Public S.Identity))
  unfolding to_bm
  get_or_request_public_id private email s = elim (to_bm parse_address decodes email) [
    | fail e ↦ (s, fine unanswered)
    | panic ↦ (s, stopped)
    | ok addr ↦ look_up private addr s
  ]
