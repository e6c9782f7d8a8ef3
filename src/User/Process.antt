-- ===== src/User/Process.antt =====
-- user/process.go: what is done with a message on its way out, up to the proof of work and from there on.
use bmagent.Base.{
  ℕ, ◌+◌, Bool, Option, none, some, List, [], ◌∷◌, ◌++◌, length, if◌then◌else◌, u32, Text, text_eq,
}
use bmagent.Store.Bytes.{split_at}
use bmagent.Mailbox.Coding.{fine, refused, stopped, Coding, Bmail}
use bmagent.Mailbox.Box.{Folders, Flags, Finish}
use bmagent.Mailbox.Box.Changes.{save_bitmessage}
use bmagent.User.{User, set_box, move, outbox_folder_name, limbo_folder_name, sent_folder_name}
use bmagent.User.Objects.{
  Network, Expiration, generate_object, generate_ack, made, pubkey_requested, ack_missing, not_made,
  crashed,
}

module _ (C : Coding) (N : Network C) (parse_address : Text → Option Text) (decodes : Text → Bool)
    (F : Folders) (X : Flags) (probe : ℕ → ℕ → ℕ → ℕ → ℕ → ℕ) where
  open C use {Time, Object}
  open N use {Keys, Server, PowData}

  abbrev pub Message : Type 0
  Message = Bmail Time

  abbrev pub Boxes : Type 0
  Boxes = User C F X probe

  -- What a callback of the proof of work goes on with: a message with its object, or a message whose ack
  -- is worked on.
  pub data Task : Type 0 where
    send_object : Object → Message → Task
    add_ack : Message → Task

  -- An order with its callback. The callback gets the bytes with the nonce in front.
  pub record Job : Type 0 where
    pub target : ℕ
    pub bytes : Text
    pub task : Task

  -- `User`: the mailboxes and acks, the keys, the server, `expiration`, and the orders that `pm` has not
  -- called back yet; `expiration` and `pm` are none while they are nil.
  pub record Sender : Type 0 where
    pub user : Boxes
    pub keys : Keys
    pub server : Server
    pub expiration : Expiration C N parse_address decodes
    pub pm : Option (List Job)

  -- `saveBitmessage` of the mailbox of a name, which writes the uid into the message.
  unfoldable pub save_in : Text → Message → Boxes → Boxes × Message × Finish
  unfolding set_box
  save_in name m u = elim (u.boxes name) [
    | none ↦ (u, m, stopped)
    | some box ↦
        let (box', m', out) = save_bitmessage C F X probe m box in
        (set_box C F X probe name box' u, m', out)
  ]

  -- `sendPow`; an encoding of fewer than eight bytes and a nil `pm` panic.
  unfoldable pub send_pow : Time → Object → PowData → Task → Sender → Sender × Finish
  unfolding split_at
  send_pow now object d task s = elim (split_at 8 (C.encode_object object)) [
    | none ↦ (s, stopped)
    | some (front, q) ↦ elim s.pm [
      | none ↦ (s, stopped)
      | some jobs ↦
          let job : Job = record {
            target =
                N.calculate_target (length q) (N.seconds_until (N.object_expiration object) now) d;
            bytes = q;
            task = task;
          } in
          (record s { pm = some (jobs ++ (job ∷ [])) }, fine tt)
    ]
  ]

  -- `sendPreparedMessage`
  unfoldable pub send_prepared_message :
      Time → Object → PowData → Message → Sender → Sender × Finish
  send_prepared_message now object d m s =
      let (user', m', out) = save_in outbox_folder_name m s.user in
      let s' : Sender = record s { user = user' } in
      elim out [
        | refused ↦ (s', refused)
        | stopped ↦ (s', stopped)
        | fine x ↦ send_pow now object d (send_object object m') s'
      ]

  -- The mailbox for a message that was sent; a nil state panics.
  unfoldable pub new_box_name : Message → Option Text
  new_box_name m = elim m.state [
    | none ↦ none
    | some st ↦ some (if st.ack_expected then limbo_folder_name else sent_folder_name)
  ]

  -- `SendTries++` and `LastSend`
  unfoldable pub count_try : Time → Message → Message
  count_try now m = elim m.state [
    | none ↦ m
    | some st ↦ record m {
      state = some (record st { send_tries = u32 (st.send_tries + 1); last_send = now });
    }
  ]

  -- An error is logged, and a panic is not.
  unfoldable pub logged : Finish → Finish
  logged refused = fine tt
  logged stopped = stopped
  logged (fine x) = fine x

  -- What follows the second save of the message.
  unfoldable pub send_completed : Time → Text → Message → Sender → Sender × Finish
  unfolding new_box_name count_try logged
  send_completed now completed m s =
      let s' : Sender = record s { server = N.send completed s.server } in
      elim (new_box_name m) [
        | none ↦ (s', stopped)
        | some name ↦
            let (user', out) =
              move C F X probe now (count_try now m) outbox_folder_name name s.user in
            (record s' { user = user' }, logged out)
      ]

  -- The callback of `sendPreparedMessage`.
  unfoldable pub object_done : Time → Text → Message → Sender → Sender × Finish
  object_done now completed m s =
      let (user', m', out) = save_in outbox_folder_name m s.user in
      let s' : Sender = record s { user = user' } in
      elim out [
        | refused ↦ (s', fine tt)
        | stopped ↦ (s', stopped)
        | fine x ↦ send_completed now completed m' s'
      ]

  -- The callback for an ack: the message gets it, and its object must be made now.
  unfoldable pub ack_done : Time → Text → Message → Sender → Sender × Finish
  unfolding logged
  ack_done now completed m s =
      let (server', m', out) =
        generate_object C N parse_address decodes F X probe now s.expiration s.keys
          (record m { ack = some completed }) (s.user.boxes outbox_folder_name) s.server in
      let s' : Sender = record s { server = server' } in
      elim out [
        | made (object, d) ↦
            let (s2, sent) = send_prepared_message now object d m' s' in (s2, logged sent)
        | crashed ↦ (s', stopped)
        | _ ↦ (s', fine tt)
      ]

  -- The acks with one more.
  unfoldable pub set_ack : Text → ℕ → Boxes → Boxes
  set_ack hash uid u = record u {
    acks = λ other. if text_eq hash other then some uid else u.acks other;
  }

  -- The branch of `process` for a missing ack.
  unfoldable pub start_ack : Time → ℕ → Message → Sender → Sender × Finish
  unfolding set_ack
  start_ack now num m s =
      elim (generate_ack C N parse_address decodes now num s.expiration s.keys m) [
        | refused ↦ (s, refused)
        | stopped ↦ (s, stopped)
        | fine (ack, d) ↦ elim m.imap_data [
          | none ↦ (s, stopped)
          | some i ↦
              let s' : Sender = record s { user = set_ack (N.inventory_hash ack) i.uid s.user } in
              send_pow now ack d (add_ack m) s'
        ]
      ]

  -- `process`
  unfoldable pub process : Time → ℕ → Message → Sender → Sender × Finish
  process now num m s =
      let (server', m', out) =
        generate_object C N parse_address decodes F X probe now s.expiration s.keys m
          (s.user.boxes outbox_folder_name) s.server in
      let s' : Sender = record s { server = server' } in
      elim out [
        | made (object, d) ↦ send_prepared_message now object d m' s'
        | pubkey_requested ↦
            let (user', m2, saved) = save_in outbox_folder_name m' s'.user in
            (record s' { user = user' }, saved)
        | ack_missing ↦ start_ack now num m' s'
        | not_made ↦ (s', refused)
        | crashed ↦ (s', stopped)
      ]

  -- The callback of a job, with the bytes of the nonce that was found.
  unfoldable pub call_back : Time → Text → Job → Sender → Sender × Finish
  unfolding object_done ack_done
  call_back now drawn job s = elim job.task [
    | send_object object m ↦ object_done now (drawn ++ job.bytes) m s
    | add_ack m ↦ ack_done now (drawn ++ job.bytes) m s
  ]
