-- ===== src/Mailbox/Coding.antt =====
-- user/bmail.go: `decodeBitmessage` and `serializeBitmessage`, between a message and its encoding.
pub mod Trip
use bmagent.Base.{ℕ, Bool, true, false, Option, none, some, [], Text, text_eq, ◌==◌, if◌then◌else◌}

-- A value, an error, or a panic.
pub data Outcome {ℓ} (A : Type ℓ) : Type ℓ where
  fine : A → Outcome A
  refused : Outcome A
  stopped : Outcome A

-- The messages of the serialize package; a nil pointer or slice is none.
pub record WireEncoding : Type 0 where
  pub format : ℕ
  pub subject : Option Text
  pub body : Option Text

pub record WireImapData : Type 0 where
  pub time_received : Text
  pub flags : ℕ

pub record WireState : Type 0 where
  pub pubkey_requested : Bool
  pub send_tries : ℕ
  pub last_send : Text
  pub ack_expected : Bool
  pub ack_received : Bool
  pub received : Bool

pub record WireMessage : Type 0 where
  pub from : Text
  pub to : Text
  pub of_channel : Bool
  pub expiration : Text
  pub ack : Option Text
  pub imap_data : Option WireImapData
  pub encoding : Option WireEncoding
  pub object : Option Text
  pub state : Option WireState

-- `format.Encoding1` and `format.Encoding2`
pub data Content : Type 0 where
  encoding1 : Text → Content
  encoding2 : Text → Text → Content

-- What the other packages provide: times, objects and protocol buffers.
pub record Coding : Type 1 where
  pub Time : Type 0
  pub Object : Type 0
  -- `time.Time{}`, `Format(DateFormat)` and `time.Parse`.
  pub zero_time : Time
  pub format_time : Time → Text
  pub parse_time : Text → Option Time
  -- `wire.Encode` and `obj.ReadObject`
  pub encode_object : Object → Text
  pub read_object : Text → Option Object
  -- `ToProtobuf`, and the method `Encoding`
  pub to_protobuf : Content → WireEncoding
  pub encoding_of : Content → ℕ
  pub marshal : WireMessage → Option Text
  pub unmarshal : Text → Option WireMessage

-- `email.ImapData`; its mailbox is the one at hand.
pub record ImapData (Time : Type 0) : Type 0 where
  pub uid : ℕ
  pub sequence_number : ℕ
  pub flags : ℕ
  pub time_received : Time

-- `email.MessageState`
pub record MessageState (Time : Type 0) : Type 0 where
  pub pubkey_request_outstanding : Bool
  pub send_tries : ℕ
  pub last_send : Time
  pub ack_expected : Bool
  pub ack_received : Bool
  pub received : Bool

-- `email.Bmail`
pub record Bmail (Time : Type 0) : Type 0 where
  pub from : Text
  pub to : Text
  pub of_channel : Bool
  pub content : Content
  pub ack : Option Text
  pub expiration : Time
  pub imap_data : Option (ImapData Time)
  pub state : Option (MessageState Time)

-- The `switch` on the format of the encoding; none is an error.
unfoldable pub read_encoding : WireEncoding → Option Content
read_encoding e =
    if e.format == 1
    then elim e.body [ none ↦ none | some b ↦ some (encoding1 b) ]
    else if e.format == 2
    then elim e.body [
      | none ↦ none
      | some b ↦ elim e.subject [ none ↦ some (encoding2 [] b) | some s ↦ some (encoding2 s b) ]
    ]
    else none

module _ (C : Coding) where
  open C use {Time, Object}

  unfoldable pub read_imap_data : Option WireImapData → Option (Option (ImapData Time))
  read_imap_data none = some none
  read_imap_data (some w) = elim (C.parse_time w.time_received) [
    | none ↦ none
    | some t ↦
        some (some (record { uid = 0; sequence_number = 0; flags = w.flags; time_received = t }))
  ]

  unfoldable pub read_state : Option WireState → Option (Option (MessageState Time))
  read_state none = some none
  read_state (some w) = elim (C.parse_time w.last_send) [
    | none ↦ none
    | some t ↦ some (
        some (record {
          pubkey_request_outstanding = w.pubkey_requested;
          send_tries = w.send_tries;
          last_send = t;
          ack_expected = w.ack_expected;
          ack_received = w.ack_received;
          received = w.received;
        }))
  ]

  unfoldable pub read_expiration : Text → Time
  read_expiration text =
      if text_eq text []
      then C.zero_time
      else elim (C.parse_time text) [ none ↦ C.zero_time | some t ↦ t ]

  unfoldable pub read_bytes : Option Text → Option (Option Object)
  read_bytes none = some none
  read_bytes (some bs) = elim (C.read_object bs) [ none ↦ none | some o ↦ some (some o) ]

  -- What `decodeBitmessage` makes of the protocol buffer.
  unfoldable pub read_message : WireMessage → Outcome (Bmail Time × Option Object)
  unfolding read_encoding read_imap_data read_state read_expiration read_bytes
  read_message w = elim w.encoding [
    | none ↦ stopped
    | some e ↦ elim (read_encoding e) [
      | none ↦ refused
      | some content ↦ elim (read_imap_data w.imap_data) [
        | none ↦ refused
        | some imap_data ↦ elim (read_state w.state) [
          | none ↦ refused
          | some state ↦ elim (read_bytes w.object) [
            | none ↦ refused
            | some object ↦
                let message : Bmail Time = record {
                  from = w.from;
                  to = w.to;
                  of_channel = w.of_channel;
                  content = content;
                  ack = w.ack;
                  expiration = read_expiration w.expiration;
                  imap_data = imap_data;
                  state = state;
                } in
                fine (message, object)
          ]
        ]
      ]
    ]
  ]

  -- `decodeBitmessage`
  unfoldable pub decode_bitmessage : Text → Outcome (Bmail Time × Option Object)
  unfolding read_message
  decode_bitmessage bs = elim (C.unmarshal bs) [ none ↦ refused | some w ↦ read_message w ]

  unfoldable pub wire_imap_data : Option (ImapData Time) → Option WireImapData
  wire_imap_data none = none
  wire_imap_data (some i) =
      some (record { time_received = C.format_time i.time_received; flags = i.flags })

  unfoldable pub wire_state : Option (MessageState Time) → Option WireState
  wire_state none = none
  wire_state (some s) = some (record {
    pubkey_requested = s.pubkey_request_outstanding;
    send_tries = s.send_tries;
    last_send = C.format_time s.last_send;
    ack_expected = s.ack_expected;
    ack_received = s.ack_received;
    received = s.received;
  })

  unfoldable pub wire_object : Option Object → Option Text
  wire_object none = none
  wire_object (some o) = some (C.encode_object o)

  -- The protocol buffer that `serializeBitmessage` encodes.
  unfoldable pub to_wire : Bmail Time → Option Object → WireMessage
  unfolding wire_imap_data wire_state wire_object
  to_wire m o = record {
    from = m.from;
    to = m.to;
    of_channel = m.of_channel;
    expiration = C.format_time m.expiration;
    ack = m.ack;
    imap_data = wire_imap_data m.imap_data;
    encoding = some (C.to_protobuf m.content);
    object = wire_object o;
    state = wire_state m.state;
  }

  -- `serializeBitmessage`
  unfoldable pub serialize_bitmessage : Bmail Time → Option Object → Option Text
  unfolding to_wire
  serialize_bitmessage m o = C.marshal (to_wire m o)
