-- ===== src/Mailbox/Tests/Packed.antt =====
-- Packages for the tests: times are numbers, objects are texts, and a message is packed as its numbers
-- followed by its texts, each after its length.
use bmagent.Base.{
  ℕ, zero, suc, ◌≡◌, refl, ap, subst, get_or, ◌∙◌, Bool, true, false, Option, none, some, List, [],
  ◌∷◌, ◌++◌, length, Text, ◌==◌, if◌then◌else◌, arith,
}
use bmagent.Store.Bytes.{split_at}
use bmagent.Store.Bytes.Trip.{split_at-append}
use bmagent.Mailbox.Coding.{
  WireEncoding, WireImapData, WireState, WireMessage, Content, encoding1, encoding2, Coding,
}
use bmagent.Mailbox.Coding.Trip.{bare_bytes, bare_encoding, bare, IsCoding}

unfoldable pack : List Text → Text
pack [] = []
pack (t ∷ ts) = length t ∷ (t ++ pack ts)

unfoldable unpack : ℕ → Text → Option (List Text)
unfolding split_at
unpack zero s = some []
unpack (suc n) [] = none
unpack (suc n) (k ∷ s) = elim (split_at k s) [
  | none ↦ none
  | some (t, s') ↦ elim (unpack n s') [ none ↦ none | some ts ↦ some (t ∷ ts) ]
]

unpack-pack : (ts : List Text) → unpack (length ts) (pack ts) ≡ some ts
unfolding unpack pack
unpack-pack [] = refl
unpack-pack (t ∷ ts) =
    rw (split_at-append (length t) t (pack ts) refl, unpack) (rw (unpack-pack ts) refl)

abbrev number_of : Bool → ℕ
number_of true = 1
number_of false = 0

abbrev bool_of : ℕ → Bool
bool_of n = n == 1

bool_of-number_of : (b : Bool) → bool_of (number_of b) ≡ b
bool_of-number_of true = refl
bool_of-number_of false = refl

abbrev or_empty : Option Text → Text
or_empty none = []
or_empty (some t) = t

bare_bytes-or_empty : (o : Option Text) → bare_bytes (some (or_empty o)) ≡ bare_bytes o
unfolding bare_bytes
bare_bytes-or_empty none = refl
bare_bytes-or_empty (some t) = refl

-- The numbers and the texts of each part.
abbrev of_imap : Option WireImapData → ℕ × ℕ × Text
of_imap none = (0, 0, [])
of_imap (some i) = (1, i.flags, i.time_received)

abbrev to_imap : ℕ × ℕ × Text → Option WireImapData
to_imap (has, flags, time) =
    if has == 1 then some (record { time_received = time; flags = flags }) else none

to_imap-of_imap : (i : Option WireImapData) → to_imap (of_imap i) ≡ i
to_imap-of_imap none = refl
to_imap-of_imap (some i) = refl

abbrev of_encoding : Option WireEncoding → ℕ × ℕ × Text × Text
of_encoding none = (0, 0, [], [])
of_encoding (some e) = (1, e.format, or_empty e.subject, or_empty e.body)

unfoldable to_encoding : ℕ × ℕ × Text × Text → Option WireEncoding
unfolding bare_bytes
to_encoding (has, format, subject, body) =
    if has == 1
    then some (record {
      format = format;
      subject = bare_bytes (some subject);
      body = bare_bytes (some body);
    })
    else none

to_encoding-of_encoding : (e : Option WireEncoding) → to_encoding (of_encoding e) ≡ bare_encoding e
unfolding to_encoding bare_encoding
to_encoding-of_encoding none = refl
to_encoding-of_encoding (some e) =
    rw (bare_bytes-or_empty e.subject) (rw (bare_bytes-or_empty e.body) refl)

abbrev of_state : Option WireState → ℕ × ℕ × ℕ × ℕ × ℕ × ℕ × Text
of_state none = (0, 0, 0, 0, 0, 0, [])
of_state (some s) = (
  1,
  number_of s.pubkey_requested,
  s.send_tries,
  number_of s.ack_expected,
  number_of s.ack_received,
  number_of s.received,
  s.last_send,
)

abbrev to_state : ℕ × ℕ × ℕ × ℕ × ℕ × ℕ × Text → Option WireState
to_state (has, pubkey, tries, expected, acked, received, last) =
    if has == 1
    then some (record {
      pubkey_requested = bool_of pubkey;
      send_tries = tries;
      last_send = last;
      ack_expected = bool_of expected;
      ack_received = bool_of acked;
      received = bool_of received;
    })
    else none

to_state-of_state : (s : Option WireState) → to_state (of_state s) ≡ s
to_state-of_state none = refl
to_state-of_state (some s) = rw (bool_of-number_of s.pubkey_requested) (
    rw (bool_of-number_of s.ack_expected)
      (rw (bool_of-number_of s.ack_received) (rw (bool_of-number_of s.received) refl)))

abbrev texts_of : WireMessage → List Text
texts_of w =
    let (_, _, time) = of_imap w.imap_data in
    let (_, _, subject, body) = of_encoding w.encoding in
    let (_, _, _, _, _, _, last) = of_state w.state in
    w.from
    ∷ w.to
    ∷ w.expiration
    ∷ or_empty w.ack
    ∷ or_empty w.object
    ∷ time
    ∷ subject
    ∷ body
    ∷ last
    ∷ []

abbrev numbers_of : WireMessage → List ℕ
numbers_of w =
    let (imap, flags, _) = of_imap w.imap_data in
    let (encoding, format, _, _) = of_encoding w.encoding in
    let (state, pubkey, tries, expected, acked, received, _) = of_state w.state in
    number_of w.of_channel
    ∷ imap
    ∷ flags
    ∷ encoding
    ∷ format
    ∷ state
    ∷ pubkey
    ∷ tries
    ∷ expected
    ∷ acked
    ∷ received
    ∷ []

unfoldable pub build : List ℕ → List Text → WireMessage
unfolding bare_bytes to_encoding
build ns ts = record {
  from = get_or ts 0 [];
  to = get_or ts 1 [];
  of_channel = bool_of (get_or ns 0 0);
  expiration = get_or ts 2 [];
  ack = bare_bytes (some (get_or ts 3 []));
  imap_data = to_imap (get_or ns 1 0, get_or ns 2 0, get_or ts 5 []);
  encoding = to_encoding (get_or ns 3 0, get_or ns 4 0, get_or ts 6 [], get_or ts 7 []);
  object = bare_bytes (some (get_or ts 4 []));
  state = to_state (
    get_or ns 5 0,
    get_or ns 6 0,
    get_or ns 7 0,
    get_or ns 8 0,
    get_or ns 9 0,
    get_or ns 10 0,
    get_or ts 8 [],
  );
}

build-bare : (w : WireMessage) → build (numbers_of w) (texts_of w) ≡ bare w
unfolding build bare
build-bare w = rw (bool_of-number_of w.of_channel) (
    rw (to_imap-of_imap w.imap_data) (
      rw (to_encoding-of_encoding w.encoding) (
        rw (to_state-of_state w.state)
          (rw (bare_bytes-or_empty w.ack) (rw (bare_bytes-or_empty w.object) refl)))))

unfoldable pub packed_message : WireMessage → Text
unfolding pack
packed_message w = numbers_of w ++ pack (texts_of w)

unfoldable pub unpacked_message : Text → Option WireMessage
unfolding split_at unpack build
unpacked_message s = elim (split_at 11 s) [
  | none ↦ none
  | some (ns, rest) ↦ elim (unpack 9 rest) [ none ↦ none | some ts ↦ some (build ns ts) ]
]

unpack-length : (n : ℕ) (ts : List Text) → length ts ≡ n → unpack n (pack ts) ≡ some ts
unpack-length n ts h = subst (λ k. unpack k (pack ts) ≡ some ts) h (unpack-pack ts)

unpacked_message-parts :
    (ns : List ℕ) (ts : List Text)
    → length ns ≡ 11
    → length ts ≡ 9
    → unpacked_message (ns ++ pack ts) ≡ some (build ns ts)
unfolding unpacked_message
unpacked_message-parts ns ts h h' =
    rw (split_at-append 11 ns (pack ts) h, unpacked_message) (rw (unpack-length 9 ts h') refl)

unpacked_message-packed_message :
    (w : WireMessage) → unpacked_message (packed_message w) ≡ some (bare w)
unfolding packed_message
unpacked_message-packed_message w =
    unpacked_message-parts (numbers_of w) (texts_of w) refl refl ∙ ap some (build-bare w)

abbrev pub wire_of : Content → WireEncoding
wire_of (encoding1 b) = record { format = 1; subject = none; body = some b }
wire_of (encoding2 s b) = record { format = 2; subject = some s; body = some b }

abbrev pub kind_of : Content → ℕ
kind_of (encoding1 b) = 1
kind_of (encoding2 s b) = 2

abbrev pub single : Text → Option ℕ
single [] = none
single (n ∷ []) = some n
single (n ∷ m ∷ ns) = none

abbrev pub behind : Text → Option Text
behind [] = none
behind (n ∷ ns) = some ns

abbrev pub packed : Coding
packed = record {
  Time = ℕ;
  Object = Text;
  zero_time = 0;
  format_time = λ t. t ∷ [];
  parse_time = single;
  encode_object = λ o. 1 ∷ o;
  read_object = behind;
  to_protobuf = wire_of;
  encoding_of = kind_of;
  marshal = λ w. some (packed_message w);
  unmarshal = unpacked_message;
}

pub packed-IsCoding : IsCoding packed
packed-IsCoding = record {
  whole = λ t. t;
  times = λ t. refl;
  dated = λ t e. ground arith;
  objects = λ o. refl;
  solid = λ o e. ground arith;
  first = λ b. refl;
  second = λ s b. refl;
  second_kind = λ s b. refl;
  wires = λ w bs e.
      subst
        (λ (t : Option Text). elim t [ none ↦ Unit | some x ↦ unpacked_message x ≡ some (bare w) ])
        e (unpacked_message-packed_message w);
}
