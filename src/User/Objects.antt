-- ===== src/User/Objects.antt =====
-- user/serverops.go: how a message becomes an object for the network, and how an ack is made.
use bmagent.Base.{
  ℕ, ◌≡◌, ◌⊎◌, inl, inr, refl, Bool, true, false, Option, none, some, ◌==◌, if◌then◌else◌, Text,
  codes, text_eq,
}
use bmagent.Email.Address.{ok, fail, panic, to_bm}
use bmagent.Mailbox.Coding.{Outcome, fine, refused, stopped, Coding, Content, MessageState, Bmail}
use bmagent.Mailbox.Box.{Folders, Flags, Mailbox}

-- `wire.ObjectType`
pub data ObjectType : Type 0 where
  msg_object broadcast_object : ObjectType

-- What `GetOrRequestPublicID` returns: an identity, `ErrGetPubKeySent`, or another error.
pub data Answer (Public : Type 0) : Type 0 where
  known : Public → Answer Public
  get_pub_key_sent : Answer Public
  unanswered : Answer Public

-- The interfaces `keys.Manager` and `ServerOps`, each over its state, and what the packages cipher,
-- identity, obj and pow provide; none is an error.
pub record Network (C : Coding) : Type 1 where
  pub PrivateId : Type 0
  pub Public : Type 0
  pub PowData : Type 0
  pub Keys : Type 0
  pub Server : Type 0
  pub get_key : Text → Keys → Option PrivateId
  pub is_chan : PrivateId → Bool
  pub address_version : PrivateId → ℕ
  pub address_stream : PrivateId → ℕ
  pub data_pow : PrivateId → PowData
  pub get_or_request_public_id : Text → Server → Server × Answer Public
  pub send : Text → Server → Server
  -- `to == Broadcast`, and the bit `BehaviorAck` of its behavior.
  pub is_broadcast : Public → Bool
  pub expects_ack : Public → Bool
  -- `Add` of a duration to a time, and the seconds of a time from another one on.
  pub add_duration : C.Time → ℕ → C.Time
  pub seconds_until : C.Time → C.Time → ℕ
  pub create_tagless_broadcast : C.Time → Content → PrivateId → Option (C.Object)
  pub create_tagged_broadcast : C.Time → Content → PrivateId → Option (C.Object)
  pub sign_and_encrypt_message :
      C.Time → ℕ → Content → Option Text → PrivateId → Public → Option (C.Object)
  -- `wire.NewMsgObject` of a header with an expiration and a stream, and a random number in it.
  pub new_msg_object : C.Time → ℕ → ℕ → C.Object
  pub object_expiration : C.Object → C.Time
  pub inventory_hash : C.Object → Text
  pub calculate_target : ℕ → ℕ → PowData → ℕ

-- What `generateObject` returns.
pub data Generated {ℓ} (A : Type ℓ) : Type ℓ where
  made : A → Generated A
  pubkey_requested ack_missing not_made crashed : Generated A

pub Generated-cases :
    {A : Type 0} (g : Generated A)
    → ((a : A) × (g ≡ made a))
      ⊎ ((g ≡ pubkey_requested) ⊎ ((g ≡ ack_missing) ⊎ ((g ≡ not_made) ⊎ (g ≡ crashed))))
Generated-cases (made a) = inl (a, refl)
Generated-cases pubkey_requested = inr (inl refl)
Generated-cases ack_missing = inr (inr (inl refl))
Generated-cases not_made = inr (inr (inr (inl refl)))
Generated-cases crashed = inr (inr (inr (inr refl)))

module _ (C : Coding) (N : Network C) (parse_address : Text → Option Text)
    (decodes : Text → Bool) where
  open C use {Time, Object}
  open N use {PrivateId, Public, PowData, Keys, Server}

  abbrev pub Message : Type 0
  Message = Bmail Time

  -- `u.expiration`, which may be nil.
  abbrev pub Expiration : Type 0
  Expiration = Option (ObjectType → ℕ)

  -- `generateBroadcast`, at the time of its expiration.
  unfoldable pub generate_broadcast : Content → PrivateId → Time → Option Object
  generate_broadcast content from expiry =
      if N.address_version from == 2
      then N.create_tagless_broadcast expiry content from
      else if N.address_version from == 3
      then N.create_tagless_broadcast expiry content from
      else if N.address_version from == 4
      then N.create_tagged_broadcast expiry content from
      else none

  -- `generateMessage`
  unfoldable pub generate_message :
      Content → Option Text → PrivateId → Public → Time → Option Object
  generate_message content ack from to expiry =
      N.sign_and_encrypt_message expiry (N.address_stream from) content ack from to

  -- `m.State.f = ...`; a nil state panics.
  unfoldable pub set_state : (MessageState Time → MessageState Time) → Message → Outcome Message
  set_state f m = elim m.state [ none ↦ stopped | some s ↦ fine (record m { state = some (f s) }) ]

  -- What is noted of the recipient: a key of ours, or whether it wants an ack.
  unfoldable pub note_recipient : Option PrivateId → Public → Message → Outcome Message
  unfolding set_state
  note_recipient (some id) to m =
      set_state (λ s. record s { ack_expected = false }) (record m { of_channel = N.is_chan id })
  note_recipient none to m =
      if N.expects_ack to then set_state (λ s. record s { ack_expected = true }) m else fine m

  -- `m.Ack == nil && m.State.AckExpected`
  unfoldable pub lacks_ack : Message → Outcome Bool
  lacks_ack m = elim m.ack [
    | some ack ↦ fine false
    | none ↦ elim m.state [ none ↦ stopped | some s ↦ fine s.ack_expected ]
  ]

  unfoldable pub made_or_not : PowData → Option Object → Generated (Object × PowData)
  made_or_not d none = not_made
  made_or_not d (some o) = made (o, d)

  -- `generateObject` for a recipient that is known.
  unfoldable pub generate_for :
      Time
      → Expiration
      → Keys
      → PrivateId
      → Public
      → Message
      → Message × Generated (Object × PowData)
  unfolding generate_broadcast generate_message note_recipient lacks_ack made_or_not
  generate_for now expiration keys from to m =
      if N.is_broadcast to
      then elim expiration [
        | none ↦ (m, crashed)
        | some lasting ↦ (
          m,
          made_or_not (N.data_pow from)
              (generate_broadcast m.content from (N.add_duration now (lasting broadcast_object))),
        )
      ]
      else elim (note_recipient (N.get_key m.to keys) to m) [
        | refused ↦ (m, crashed)
        | stopped ↦ (m, crashed)
        | fine m' ↦ elim (lacks_ack m') [
          | refused ↦ (m', crashed)
          | stopped ↦ (m', crashed)
          | fine true ↦ (m', ack_missing)
          | fine false ↦ elim expiration [
            | none ↦ (m', crashed)
            | some lasting ↦ (
              m',
              made_or_not (N.data_pow from) (
                  generate_message m'.content m'.ack from to
                    (N.add_duration now (lasting msg_object))),
            )
          ]
        ]
      ]

  -- `generateObject`, where the object is not at hand.
  unfoldable pub generate_new :
      Time
      → Expiration
      → Keys
      → PrivateId
      → Message
      → Server
      → Server × Message × Generated (Object × PowData)
  unfolding generate_for set_state
  generate_new now expiration keys from m server =
      let (server', answer) = N.get_or_request_public_id m.to server in
      elim answer [
        | unanswered ↦ (server', m, not_made)
        | get_pub_key_sent ↦
            elim (set_state (λ s. record s { pubkey_request_outstanding = true }) m) [
              | fine m' ↦ (server', m', pubkey_requested)
              | _ ↦ (server', m, crashed)
            ]
        | known to ↦
            let (m', out) = generate_for now expiration keys from to m in (server', m', out)
      ]

  -- `generateAck`, with the random number that is drawn.
  unfoldable pub generate_ack : Time → ℕ → Expiration → Keys → Message → Outcome (Object × PowData)
  unfolding to_bm
  generate_ack now num expiration keys m =
      if text_eq m.to (codes "broadcast@bm.agent")
      then refused
      else elim (to_bm parse_address decodes m.from) [
        | fail e ↦ refused
        | panic ↦ stopped
        | ok addr ↦ elim (N.get_key addr keys) [
          | none ↦ stopped
          | some from ↦ elim expiration [
            | none ↦ stopped
            | some lasting ↦ fine (
              N.new_msg_object (N.add_duration now (lasting msg_object)) (N.address_stream from)
                  num,
              N.data_pow from,
            )
          ]
        ]
      ]

  module _ (F : Folders) (X : Flags) (probe : ℕ → ℕ → ℕ → ℕ → ℕ → ℕ) where
    -- `getObject` of a mailbox, which may be nil; a nil map has no object.
    unfoldable pub get_object : Message → Option (Mailbox C F X probe) → Outcome (Option Object)
    get_object m box = elim m.imap_data [
      | none ↦ fine none
      | some i ↦ if i.uid == 0 then fine none else elim box [
        | none ↦ stopped
        | some b ↦ elim b.objects [ none ↦ fine none | some objects ↦ fine (objects i.uid) ]
      ]
    ]

    -- `generateObject`
    unfoldable pub generate_object :
        Time
        → Expiration
        → Keys
        → Message
        → Option (Mailbox C F X probe)
        → Server
        → Server × Message × Generated (Object × PowData)
    unfolding to_bm get_object generate_new
    generate_object now expiration keys m box server = elim (to_bm parse_address decodes m.from) [
      | fail e ↦ (server, m, not_made)
      | panic ↦ (server, m, crashed)
      | ok addr ↦ elim (N.get_key addr keys) [
        | none ↦ (server, m, not_made)
        | some from ↦ elim (get_object m box) [
          | refused ↦ (server, m, crashed)
          | stopped ↦ (server, m, crashed)
          | fine (some o) ↦ (server, m, made (o, N.data_pow from))
          | fine none ↦ generate_new now expiration keys from m server
        ]
      ]
    ]
