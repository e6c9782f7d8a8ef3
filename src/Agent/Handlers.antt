-- ===== src/Agent/Handlers.antt =====
-- server.go: what the agent does with the messages and the broadcasts that bmd sends it, and
-- user/email/bmail.go: how a message that was decrypted is read.
pub mod Sends
pub mod Keys
pub mod Firsts
use bmagent.Base.{
  ℕ, zero, suc, Bool, true, false, not, ◌&&◌, ◌||◌, Option, none, some, List, [], ◌∷◌, ◌++◌, length,
  ltb, leb, ◌==◌, if◌then◌else◌, Text, text_eq,
}
use bmagent.Email.Address.{bm_to_email, broadcast}
use bmagent.Store.Bytes.{split_at}
use bmagent.Mailbox.Coding.{Outcome, fine, refused, stopped, Coding, Content, Bmail}
use bmagent.Mailbox.Box.{Folders, Flags, Finish}
use bmagent.User.{User, deliver_from_bmnet, deliver_ack_reply}
use bmagent.Agent.Client.{Stub, send_object}

-- What a message or a broadcast has once it is decrypted.
pub record Decrypted (Time : Type 0) : Type 0 where
  pub from : Text
  pub expiration : Time
  pub content : Content
  pub ack : Option Text

-- `keys.PrivateID`
pub record KeyEntry (Private : Type 0) : Type 0 where
  pub private : Private
  pub is_chan : Bool
  pub disabled : Bool

-- The header of a request for a key, and the hash or the tag that it has.
pub record GetPubKey : Type 0 where
  pub version : ℕ
  pub ripe : Text
  pub tag : Text

-- What the packages cipher, wire, obj and hash provide; none is an error.
pub record Ciphering (C : Coding) : Type 1 where
  pub Msg : Type 0
  pub Cast : Type 0
  pub Private : Type 0
  pub Address : Type 0
  pub ack_length : ℕ
  pub message_header_size : ℕ
  pub decode_message : Text → Option Msg
  pub encrypted_length : Msg → ℕ
  pub try_decrypt_message : Msg → Private → Option (Decrypted (C.Time))
  pub decode_broadcast : Text → Option Cast
  pub broadcast_length : Cast → ℕ
  pub try_decrypt_broadcast : Cast → Address → Option (Decrypted (C.Time))
  pub decode_getpubkey : Text → Option GetPubKey
  pub address_string : Private → Text
  pub address_ripe : Private → Text
  pub address_tag : Private → Text
  pub decodes_object : Text → Bool
  pub inventory_hash : Text → Text
  -- `cipher.GeneratePubKey` in its encoding, and the target of its proof of work.
  pub encode_pub_key : Private → Option Text
  pub pub_key_target : ℕ → ℕ

module _ (C : Coding) (F : Folders) (X : Flags) (probe : ℕ → ℕ → ℕ → ℕ → ℕ → ℕ) (S : Stub)
    (K : Ciphering C) where
  open C use {Time}
  open K use {Msg, Cast, Private, Address}

  abbrev pub Mail : Type 0
  Mail = User C F X probe

  abbrev pub Keys : Type 0
  Keys = List (KeyEntry Private)

  -- `server`: the connection to bmd, the three counters, the keys of each user, the mail of each user, the
  -- broadcast addresses of each user of the store, and the orders of the proof of work.
  pub record Server : Type 0 where
    pub bmd : S.Net
    pub msg_counter : ℕ
    pub broadcast_counter : ℕ
    pub getpubkey_counter : ℕ
    pub users : List (ℕ × Keys)
    pub imap_user : List (ℕ × Mail)
    pub listened : List (List Address)
    pub pow : List (ℕ × Text)

  -- `MsgRead`
  unfoldable pub msg_read : Decrypted Time → Text → Bool → Bmail Time
  unfolding bm_to_email
  msg_read msg to_address of_chan = record {
    from = bm_to_email msg.from;
    to = bm_to_email to_address;
    of_channel = of_chan;
    content = msg.content;
    ack = msg.ack;
    expiration = msg.expiration;
    imap_data = none;
    state = none;
  }

  -- `BroadcastRead`
  unfoldable pub broadcast_read : Decrypted Time → Bmail Time
  unfolding bm_to_email
  broadcast_read msg = record {
    from = broadcast;
    to = bm_to_email msg.from;
    of_channel = false;
    content = msg.content;
    ack = none;
    expiration = msg.expiration;
    imap_data = none;
    state = none;
  }

  -- The loop over the users for an ack: the first that knows its hash gets it.
  unfoldable pub deliver_ack : Time → Text → List (ℕ × Mail) → List (ℕ × Mail) × Finish
  deliver_ack now hash [] = ([], fine tt)
  deliver_ack now hash ((id, u) ∷ us) =
      let rest = deliver_ack now hash us in
      elim (u.acks hash) [
        | none ↦ let (us', out) = rest in ((id, u) ∷ us', out)
        | some uid ↦
            let (u', out) = deliver_ack_reply C F X probe now hash u in
            ((id, u') ∷ us, elim out [ stopped ↦ stopped | _ ↦ fine tt ])
      ]

  -- The keys of a user, up to the first that opens the message: its address and whether it is of a channel.
  unfoldable pub try_keys : Msg → Keys → Option (Text × Bool × Decrypted Time)
  try_keys msg [] = none
  try_keys msg (id ∷ ids) =
      let rest = try_keys msg ids in
      elim (K.try_decrypt_message msg id.private) [
        | none ↦ rest
        | some m ↦ some (K.address_string id.private, id.is_chan, m)
      ]

  -- The loop over the users.
  unfoldable pub try_users : Msg → List (ℕ × Keys) → Option (ℕ × (Text × Bool × Decrypted Time))
  unfolding try_keys
  try_users msg [] = none
  try_users msg ((uid, keys) ∷ users) =
      let rest = try_users msg users in
      elim (try_keys msg keys) [ none ↦ rest | some found ↦ some (uid, found) ]

  -- `DeliverFromBMNet` of the user of a number; a user that is not there panics.
  unfoldable pub deliver_to : Time → ℕ → Bmail Time → List (ℕ × Mail) → List (ℕ × Mail) × Finish
  deliver_to now id m [] = ([], stopped)
  deliver_to now id m ((j, u) ∷ us) =
      let rest = deliver_to now id m us in
      if j == id
      then (let (u', out) = deliver_from_bmnet C F X probe now m u in ((j, u') ∷ us, out))
      else (let (us', out) = rest in ((j, u) ∷ us', out))

  -- The ack of a message is sent back, unless it is too short or the message is of a channel.
  unfoldable pub send_ack : Option Text → Bool → Server → Server
  unfolding split_at send_object
  send_ack none of_chan s = s
  send_ack (some ack) of_chan s =
      if ltb (length ack) K.message_header_size || of_chan
      then s
      else elim (split_at K.message_header_size ack) [
        | none ↦ s
        | some (header, object) ↦
            if not (K.decodes_object object)
            then s
            else record s { bmd = (send_object S ack s.bmd).0 }
      ]

  -- A message that was decrypted with a key of the user.
  unfoldable pub take_message : Time → ℕ × (Text × Bool × Decrypted Time) → Server → Server × Finish
  unfolding msg_read send_ack
  take_message now (id, (address, of_chan, m)) s =
      let (us, out) = deliver_to now id (msg_read m address of_chan) s.imap_user in
      let s' : Server = record s { imap_user = us } in
      elim out [
        | refused ↦ (s', fine tt)
        | stopped ↦ (s', stopped)
        | fine x ↦ (send_ack m.ack of_chan s', fine tt)
      ]

  -- `newMessage`
  unfoldable pub new_message : Time → ℕ → Text → Server → Server × Finish
  new_message now counter object s =
      let s' : Server = record s { msg_counter = counter } in
      elim (K.decode_message object) [
        | none ↦ (s', fine tt)
        | some msg ↦
            if length object == K.ack_length
            then (let (us, out) = deliver_ack now (K.inventory_hash object) s.imap_user in
                (record s' { imap_user = us }, out))
            else if leb (K.encrypted_length msg) 134
            then (s', fine tt)
            else elim (try_users msg s.users) [
              | none ↦ (s', fine tt)
              | some found ↦ take_message now found s'
            ]
      ]

  -- The loop over the addresses that a user listens to. A broadcast that an address does not open is a nil
  -- pointer that `BroadcastRead` follows; one that is opened and delivered ends the loop.
  unfoldable pub try_addresses :
      Time → Cast → List Address → List (ℕ × Mail) → List (ℕ × Mail) × Finish
  unfolding broadcast_read
  try_addresses now cast [] us = (us, fine tt)
  try_addresses now cast (addr ∷ addrs) us = elim (K.try_decrypt_broadcast cast addr) [
    | none ↦ (us, stopped)
    | some m ↦
        let (us', out) = deliver_to now 1 (broadcast_read m) us in
        (us', elim out [ stopped ↦ stopped | _ ↦ fine tt ])
  ]

  unfoldable pub try_listeners :
      Time → Cast → List (List Address) → List (ℕ × Mail) → List (ℕ × Mail) × Finish
  try_listeners now cast [] us = (us, fine tt)
  try_listeners now cast (addrs ∷ users) us =
      let rest = try_listeners now cast users in
      let (us', out) = try_addresses now cast addrs us in
      elim out [ stopped ↦ (us', stopped) | refused ↦ rest us' | fine x ↦ rest us' ]

  -- `newBroadcast`
  unfoldable pub new_broadcast : Time → ℕ → Text → Server → Server × Finish
  new_broadcast now counter object s =
      let s' : Server = record s { broadcast_counter = counter } in
      elim (K.decode_broadcast object) [
        | none ↦ (s', fine tt)
        | some cast ↦
            if leb (K.broadcast_length cast) 134
            then (s', fine tt)
            else (let (us, out) = try_listeners now cast s.listened s.imap_user in
                (record s' { imap_user = us }, out))
      ]
