-- ===== src/Agent/Handlers/Sends.antt =====
-- What the handlers of messages and broadcasts come to.
use bmagent.Email.Address.{bm_to_email}
use bmagent.Agent.Handlers.Firsts.{
  NoneOpens, FirstUser, DeliveredTo, AckTo, try_users-cases, deliver_to-DeliveredTo,
  deliver_ack-AckTo,
}
use bmagent.User.{User}
use bmagent.Base.{
  ℕ, ◌<◌, ◌≤◌, ◌≡◌, ◌⊎◌, inl, inr, refl, Bool, false, Option, none, some, List, ◌∷◌, length, ltb,
  leb, ◌==◌, Text, arith, Bool-cases, Option-cases, ◌≢◌, [], true,
}
use bmagent.Store.Bytes.{split_at}
use bmagent.Mailbox.Coding.{fine, stopped, Coding, Bmail, refused}
use bmagent.Mailbox.Box.{Folders, Flags, Finish}
use bmagent.Mailbox.Box.Own.{Outcome-cases}
use bmagent.Agent.Client.{Stub, send_object}
use bmagent.Agent.Handlers.{
  Decrypted, Ciphering, Server, msg_read, deliver_ack, deliver_to, send_ack, take_message,
  new_message,
}

module _ (C : Coding) (F : Folders) (X : Flags) (probe : ℕ → ℕ → ℕ → ℕ → ℕ → ℕ) (S : Stub)
    (K : Ciphering C) where
  open C use {Time}

  abbrev Hub : Type 0
  Hub = Server C F X probe S K

  -- Why no ack goes out: there is none, the message is of a channel, or the ack is too short or no object.
  abbrev pub NoAck : Option Text → Bool → Type 0
  NoAck ack of_chan =
      (ack ≡ none)
      ⊎ ((of_chan ≡ true)
          ⊎ ((a : Text) × (ack ≡ some a)
              × ((length a < K.message_header_size)
                  ⊎ ((split_at K.message_header_size a ≡ none)
                      ⊎ ((header : Text) × (object : Text) × (split_at K.message_header_size a
                            ≡ some (header, object))
                          × (K.decodes_object object ≡ false))))))

  -- The ack goes out as it is, or there is a reason that it does not.
  abbrev pub AckSent : Option Text → Bool → Hub → Hub → Type 0
  AckSent ack of_chan s s' =
      ((a : Text) × (header : Text) × (object : Text) × (ack ≡ some a)
        × (of_chan ≡ false)
        × (K.message_header_size ≤ length a)
        × (split_at K.message_header_size a ≡ some (header, object))
        × (K.decodes_object object ≡ true)
        × (s' ≡ record s { bmd = (send_object S a s.bmd).0 }))
      ⊎ (NoAck ack of_chan × (s' ≡ s))

  send_ack-AckSent :
      (ack : Option Text) (of_chan : Bool) (s : Hub)
      → AckSent ack of_chan s (send_ack C F X probe S K ack of_chan s)
  unfolding send_ack
  send_ack-AckSent none of_chan s = inr (inl refl, refl)
  send_ack-AckSent (some a) of_chan s = elim (Bool-cases (ltb (length a) K.message_header_size)) [
    | inl t ↦ inr (inr (inr (a, refl, inl (ground arith))), rw (t, send_ack) refl)
    | inr f ↦ elim (Bool-cases of_chan) [
      | inl c ↦ inr (inr (inl c), rw (f, send_ack) (rw c refl))
      | inr c ↦ elim (Option-cases (split_at K.message_header_size a)) [
        | inl e ↦ inr (inr (inr (a, refl, inr (inl e))), rw (f, send_ack) (rw c (rw e refl)))
        | inr ((header, object), e) ↦ elim (Bool-cases (K.decodes_object object)) [
          | inr bad ↦ inr (
            inr (inr (a, refl, inr (inr (header, object, e, bad)))),
            rw (f, send_ack) (rw c (rw e (rw bad refl))),
          )
          | inl good ↦ inl (
            a,
            header,
            object,
            refl,
            c,
            ground arith,
            e,
            good,
            rw (f, send_ack) (rw c (rw e (rw good refl))),
          )
        ]
      ]
    ]
  ]

  -- The message for the user: from the sender, to the address of the key.
  abbrev pub letter : Decrypted Time → Text → Bool → Bmail Time
  letter m address of_chan = record {
    from = bm_to_email m.from;
    to = bm_to_email address;
    of_channel = of_chan;
    content = m.content;
    ack = m.ack;
    expiration = m.expiration;
    imap_data = none;
    state = none;
  }

  -- The message is delivered to the user of the number, and the ack is seen to if that gave no error; a
  -- panic there is one of the whole.
  abbrev pub Delivered : Time → ℕ → Text → Bool → Decrypted Time → Hub → Hub × Finish → Type 0
  Delivered now id address of_chan m s r =
      (us : List (ℕ × User C F X probe)) × (out : Finish) × DeliveredTo C F X probe S K now id
        (letter m address of_chan) s.imap_user (us, out)
      × (((out ≡ refused) × (r ≡ (record s { imap_user = us }, fine tt)))
          ⊎ (((out ≡ stopped) × (r ≡ (record s { imap_user = us }, stopped)))
              ⊎ ((out ≡ fine tt)
                  × AckSent m.ack of_chan (record s { imap_user = us }) r.0
                  × (r.1 ≡ fine tt))))

  take_message-Delivered :
      (now : Time) (id : ℕ) (address : Text) (of_chan : Bool) (m : Decrypted Time) (s : Hub)
      → Delivered now id address of_chan m s
          (take_message C F X probe S K now (id, (address, of_chan, m)) s)
  unfolding take_message msg_read
  take_message-Delivered now id address of_chan m s =
      let b = letter m address of_chan in
      let (us, out) = deliver_to C F X probe S K now id b s.imap_user in
      (
        us,
        out,
        deliver_to-DeliveredTo C F X probe S K now id b s.imap_user,
        elim (Outcome-cases out) [
          | inl (inl e) ↦ inl (e, rw (e, take_message) refl)
          | inl (inr e) ↦ inr (inl (e, rw (e, take_message) refl))
          | inr (x, e) ↦ inr (
              inr (
                e,
                rw (e, take_message) (send_ack-AckSent m.ack of_chan (record s { imap_user = us })),
                rw (e, take_message) refl,
              ))
        ],
      )

  -- What a message comes to, where the object is a message, by its length and by the keys of the users.
  abbrev pub Handled : Time → Text → K.Msg → Hub → Hub × Finish → Type 0
  Handled now object msg s r =
      ((length object ≡ K.ack_length)
        × (us : List (ℕ × User C F X probe)) × (out : Finish) × AckTo C F X probe S K now
            (K.inventory_hash object) s.imap_user (us, out)
        × (r ≡ (record s { imap_user = us }, out)))
      ⊎ ((length object ≢ K.ack_length)
          × ((((K.encrypted_length msg ≤ 134) ⊎ NoneOpens C F X probe S K msg s.users)
                × (r ≡ (s, fine tt)))
              ⊎ ((134 < K.encrypted_length msg)
                  × (id : ℕ) × (address : Text) × (of_chan : Bool) × (m : Decrypted Time)
                  × FirstUser C F X probe S K msg s.users id address of_chan m
                  × Delivered now id address of_chan m s r)))

  abbrev pub Taken : Time → ℕ → Text → Hub → Hub × Finish → Type 0
  Taken now counter object s r =
      let counted : Hub = record s { msg_counter = counter } in
      ((K.decode_message object ≡ none) × (r ≡ (counted, fine tt)))
      ⊎ ((msg : K.Msg) × (K.decode_message object ≡ some msg) × Handled now object msg counted r)

  -- `newMessage` counts every object, and does no more with one that is no message. One of the length of
  -- an ack goes to the first user that knows its hash, if any. Another one that is not too short goes
  -- to the first user, in the order of the users and of their keys, one of whose keys opens it, as a
  -- message from its sender to the address of that key, and nothing changes if no key opens it. The ack in
  -- it goes out exactly if it was delivered without an error, is of no channel, and its ack is not
  -- shorter than a header and has an object behind it. It panics exactly where a delivery does.
  pub new_message-Taken :
      (now : Time) (counter : ℕ) (object : Text) (s : Hub)
      → Taken now counter object s (new_message C F X probe S K now counter object s)
  unfolding new_message
  new_message-Taken now counter object s = elim (Option-cases (K.decode_message object)) [
    | inl e ↦ inl (e, rw (e, new_message) refl)
    | inr (msg, e) ↦
        let counted : Hub = record s { msg_counter = counter } in
        inr (
          msg,
          e,
          elim (Bool-cases (length object == K.ack_length)) [
            | inl t ↦
                let (us, out) =
                  deliver_ack C F X probe S K now (K.inventory_hash object) s.imap_user in
                inl (
                  ground arith,
                  us,
                  out,
                  deliver_ack-AckTo C F X probe S K now (K.inventory_hash object) s.imap_user,
                  rw (e, new_message) (rw t refl),
                )
            | inr f ↦ inr (λ h. ground arith, by_length counted msg e f)
          ],
        )
  ]
    where
      by_length :
          (counted : Hub) (msg : K.Msg)
          → K.decode_message object ≡ some msg
          → (length object == K.ack_length) ≡ false
          → (((K.encrypted_length msg ≤ 134) ⊎ NoneOpens C F X probe S K msg s.users)
              × (new_message C F X probe S K now counter object s
                  ≡ (record s { msg_counter = counter }, fine tt)))
            ⊎ ((134 < K.encrypted_length msg)
                × (id : ℕ) × (address : Text) × (of_chan : Bool) × (m : Decrypted Time) × FirstUser
                    C F X probe S K msg s.users id address of_chan m
                × Delivered now id address of_chan m
                    (record s { msg_counter = counter })
                    (new_message C F X probe S K now counter object s))
      by_length counted msg e f = elim (Bool-cases (leb (K.encrypted_length msg) 134)) [
        | inl short ↦ inl (inl (ground arith), rw (e, new_message) (rw f (rw short refl)))
        | inr long ↦ elim (try_users-cases C F X probe S K msg s.users) [
          | inl (shut, none_open) ↦
              inl (inr none_open, rw (e, new_message) (rw f (rw long (rw shut refl))))
          | inr (id, address, of_chan, m, opens, first) ↦ inr (
            ground arith,
            id,
            address,
            of_chan,
            m,
            first,
            rw (e, new_message)
                (rw f (
                  rw long (
                    rw opens (
                      take_message-Delivered now id address of_chan m
                        (record s { msg_counter = counter }))))),
          )
        ]
      ]

  -- Every user that listens to any address has a first one that opens the broadcast.
  abbrev pub AllOpen : K.Cast → List (List (K.Address)) → Type 0
  AllOpen cast [] = Unit
  AllOpen cast ([] ∷ users) = AllOpen cast users
  AllOpen cast ((addr ∷ addrs) ∷ users) =
      ((m : Decrypted Time) × (K.try_decrypt_broadcast cast addr ≡ some m)) × AllOpen cast users
