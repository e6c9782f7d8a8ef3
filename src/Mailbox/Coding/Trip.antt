-- ===== src/Mailbox/Coding/Trip.antt =====
-- What `decodeBitmessage` reads back from what `serializeBitmessage` wrote.
use bmagent.Base.{
  ◌≡◌, ◌≢◌, refl, sym, ap, subst, inl, inr, Option, none, some, [], ◌∷◌, Text, text_eq,
  text_eq-false, if◌then◌else◌, Bool-cases,
}
use bmagent.Mailbox.Coding.{
  fine, refused, WireEncoding, WireMessage, Content, encoding1, encoding2, Coding, ImapData,
  MessageState, Bmail, read_encoding, read_imap_data, read_state, read_expiration, read_bytes,
  read_message, decode_bitmessage, wire_imap_data, wire_state, wire_object, to_wire,
  serialize_bitmessage,
}

-- Protocol buffers do not tell an empty slice from nil.
unfoldable pub bare_bytes : Option Text → Option Text
bare_bytes none = none
bare_bytes (some []) = none
bare_bytes (some (b ∷ bs)) = some (b ∷ bs)

unfoldable pub bare_encoding : Option WireEncoding → Option WireEncoding
unfolding bare_bytes
bare_encoding none = none
bare_encoding (some e) =
    some (record e { subject = bare_bytes e.subject; body = bare_bytes e.body })

unfoldable pub bare : WireMessage → WireMessage
unfolding bare_bytes bare_encoding
bare w = record w {
  ack = bare_bytes w.ack;
  encoding = bare_encoding w.encoding;
  object = bare_bytes w.object;
}

-- What the other packages promise; `whole` is what the date format keeps of a time.
pub record IsCoding (C : Coding) : Type 0 where
  pub whole : C.Time → C.Time
  pub times : (t : C.Time) → C.parse_time (C.format_time t) ≡ some (whole t)
  pub dated : (t : C.Time) → C.format_time t ≢ []
  pub objects : (o : C.Object) → C.read_object (C.encode_object o) ≡ some o
  pub solid : (o : C.Object) → C.encode_object o ≢ []
  pub first :
      (b : Text)
      → C.to_protobuf (encoding1 b) ≡ record { format = 1; subject = none; body = some b }
  pub second :
      (s b : Text)
      → C.to_protobuf (encoding2 s b) ≡ record { format = 2; subject = some s; body = some b }
  pub second_kind : (s b : Text) → C.encoding_of (encoding2 s b) ≡ 2
  pub wires : (w : WireMessage) (bs : Text) → C.marshal w ≡ some bs → C.unmarshal bs ≡ some (bare w)

abbrev pub body_of : Content → Text
body_of (encoding1 b) = b
body_of (encoding2 s b) = b

module _ (C : Coding) (law : IsCoding C) where
  open C use {Time, Object}

  unfoldable pub stored_imap_data : Option (ImapData Time) → Option (ImapData Time)
  stored_imap_data none = none
  stored_imap_data (some i) = some (record {
    uid = 0;
    sequence_number = 0;
    flags = i.flags;
    time_received = law.whole i.time_received;
  })

  unfoldable pub stored_state : Option (MessageState Time) → Option (MessageState Time)
  stored_state none = none
  stored_state (some s) = some (record s { last_send = law.whole s.last_send })

  -- What is kept of a message: times of their format, no uid and no sequence number.
  unfoldable pub stored : Bmail Time → Bmail Time
  unfolding bare_bytes stored_imap_data stored_state
  stored m = record m {
    ack = bare_bytes m.ack;
    expiration = law.whole m.expiration;
    imap_data = stored_imap_data m.imap_data;
    state = stored_state m.state;
  }

  unfoldable bare_read : WireEncoding → Option Content
  unfolding read_encoding bare_bytes
  bare_read e =
      read_encoding (record e { subject = bare_bytes e.subject; body = bare_bytes e.body })

  read_encoding-to_protobuf :
      (c : Content)
      → bare_read (C.to_protobuf c) ≡ (if text_eq (body_of c) [] then none else some c)
  unfolding bare_read text_eq
  read_encoding-to_protobuf (encoding1 []) = ap bare_read (law.first [])
  read_encoding-to_protobuf (encoding1 (b ∷ bs)) = ap bare_read (law.first (b ∷ bs))
  read_encoding-to_protobuf (encoding2 s []) = ap bare_read (law.second s [])
  read_encoding-to_protobuf (encoding2 [] (b ∷ bs)) = ap bare_read (law.second [] (b ∷ bs))
  read_encoding-to_protobuf (encoding2 (a ∷ s) (b ∷ bs)) =
      ap bare_read (law.second (a ∷ s) (b ∷ bs))

  read_bytes-wire_object :
      (o : Option Object) → read_bytes C (bare_bytes (wire_object C o)) ≡ some o
  unfolding read_bytes wire_object bare_bytes
  read_bytes-wire_object none = refl
  read_bytes-wire_object (some o) =
      subst (λ t. read_bytes C t ≡ some (some o))
        (sym (solid_bytes (C.encode_object o) (law.solid o))) (rw (law.objects o, read_bytes) refl)
    where
      solid_bytes : (t : Text) → t ≢ [] → bare_bytes (some t) ≡ some t
      solid_bytes [] ne = absurd (ne refl)
      solid_bytes (b ∷ bs) ne = refl

  read_expiration-format : (t : Time) → read_expiration C (C.format_time t) ≡ law.whole t
  unfolding read_expiration
  read_expiration-format t =
      rw (text_eq-false (C.format_time t) [] (law.dated t), read_expiration) (rw (law.times t) refl)

  read_imap_data-wire :
      (i : Option (ImapData Time))
      → read_imap_data C (wire_imap_data C i) ≡ some (stored_imap_data i)
  unfolding read_imap_data wire_imap_data stored_imap_data
  read_imap_data-wire none = refl
  read_imap_data-wire (some i) = rw (law.times i.time_received, read_imap_data) refl

  read_state-wire :
      (s : Option (MessageState Time)) → read_state C (wire_state C s) ≡ some (stored_state s)
  unfolding read_state wire_state stored_state
  read_state-wire none = refl
  read_state-wire (some s) = rw (law.times s.last_send, read_state) refl

  read_message-to_wire :
      (m : Bmail Time) (o : Option Object)
      → read_message C (bare (to_wire C m o))
        ≡ (if text_eq (body_of m.content) [] then refused else fine (stored m, o))
  unfolding read_message to_wire bare bare_encoding stored bare_read
  read_message-to_wire m o = elim (Bool-cases (text_eq (body_of m.content) [])) [
    | inl e ↦ rw (read_encoding-to_protobuf m.content, read_message) (rw e refl)
    | inr ne ↦
        rw (read_encoding-to_protobuf m.content, read_message)
          (rw ne (
            rw (read_imap_data-wire m.imap_data) (
              rw (read_state-wire m.state)
                (rw (read_bytes-wire_object o) (rw (read_expiration-format m.expiration) refl)))))
  ]

  -- A message that is serialized is decoded as itself, with its object, without its uid and sequence
  -- number and with times of their format's precision; if its body is empty it is refused. The packages
  -- read back what they wrote, except that protocol buffers make an empty slice nil.
  pub decode_bitmessage-serialize_bitmessage :
      (m : Bmail Time) (o : Option Object) (bs : Text)
      → serialize_bitmessage C m o ≡ some bs
      → decode_bitmessage C bs
        ≡ (if text_eq (body_of m.content) [] then refused else fine (stored m, o))
  unfolding serialize_bitmessage decode_bitmessage
  decode_bitmessage-serialize_bitmessage m o bs e =
      rw (law.wires (to_wire C m o) bs e, decode_bitmessage) (read_message-to_wire m o)
