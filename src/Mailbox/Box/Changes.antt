-- ===== src/Mailbox/Box/Changes.antt =====
-- user/mailbox.go: the methods that change a mailbox.
use bmagent.Base.{
  ℕ, ◌+◌, false, not, Option, none, some, List, [], ◌∷◌, ◌==◌, if◌then◌else◌, u32, Text, remove,
}
use bmagent.Mailbox.Coding.{
  Outcome, fine, refused, stopped, Coding, ImapData, MessageState, Bmail, serialize_bitmessage,
}
use bmagent.Mailbox.Box.{Folders, Flags, Mailbox, Finish, messages, refresh, bmsg_by_uid}

-- Without the first such uid.
unfoldable pub remove_uid : ℕ → List ℕ → List ℕ
remove_uid id [] = []
remove_uid id (x ∷ xs) = let rest = remove_uid id xs in if x == id then xs else x ∷ rest

-- `n--` on a uint32
abbrev pub decrement : ℕ → ℕ
decrement n = u32 (n + 4294967295)

module _ (C : Coding) (F : Folders) (X : Flags) (probe : ℕ → ℕ → ℕ → ℕ → ℕ → ℕ) where
  open C use {Time, Object}

  abbrev Box : Type 0
  Box = Mailbox C F X probe

  -- `delete(box.objects, uid)`, which does nothing to a nil map.
  unfoldable pub drop_object : ℕ → Box → Box
  drop_object uid box = elim box.objects [
    | none ↦ box
    | some objects ↦ record box { objects = some (remove uid objects) }
  ]

  -- The branch of `saveBitmessage` for a message with a uid.
  unfoldable pub replace_message : ℕ → Text → ℕ → Box → Box × Finish
  unfolding drop_object
  replace_message uid encode encoding box =
      let (mbox, deleted) = F.delete_message uid box.mbox in
      let box' : Box = record box { mbox = mbox } in
      if not deleted
      then (box', refused)
      else (let box2 = drop_object uid box' in
          elim (F.get_message uid box2.mbox) [
            | some found ↦ (box2, refused)
            | none ↦
                let (mbox2, inserted) = F.insert_message uid encode encoding box2.mbox in
                let box3 : Box = record box2 { mbox = mbox2 } in
                if not inserted then (box3, refused) else refresh C F X probe box3
          ])

  -- The branch for a message without one, which gets the uid of the folder, or 0 after an error.
  unfoldable pub insert_new : Text → ℕ → Box → Box × ℕ × Finish
  insert_new encode encoding box =
      let (mbox, id) = F.insert_new_message encode encoding box.mbox in
      let box' : Box = record box { mbox = mbox } in
      elim id [
        | none ↦ (box', 0, refused)
        | some uid ↦ let (box2, out) = refresh C F X probe box' in (box2, uid, out)
      ]

  -- `saveBitmessage`, which writes the uid into the message.
  unfoldable pub save_bitmessage : Bmail Time → Box → Box × Bmail Time × Finish
  unfolding insert_new replace_message
  save_bitmessage msg box = elim (serialize_bitmessage C msg none) [
    | none ↦ (box, msg, refused)
    | some encode ↦ elim msg.imap_data [
      | none ↦ (box, msg, stopped)
      | some i ↦
          if i.uid == 0
          then (let (box', uid, out) = insert_new encode (C.encoding_of msg.content) box in
              let numbered : ImapData Time = record i { uid = uid } in
              (box', record msg { imap_data = some numbered }, out))
          else (let (box', out) = replace_message i.uid encode (C.encoding_of msg.content) box in
              (box', msg, out))
    ]
  ]

  abbrev new_state : MessageState Time
  new_state = record {
    pubkey_request_outstanding = false;
    send_tries = 0;
    last_send = C.zero_time;
    ack_expected = false;
    ack_received = false;
    received = false;
  }

  -- What `addNew` makes of the message before it saves it.
  unfoldable pub prepared : Time → ℕ → Bmail Time → Box → Bmail Time
  unfolding messages
  prepared now flags msg box = record msg {
    imap_data = some (record {
      uid = 0;
      sequence_number = u32 (messages C F X probe box + 1);
      flags = flags;
      time_received = now;
    });
    state = elim msg.state [ none ↦ some new_state | some s ↦ some s ];
  }

  -- `addNew` at the time `now`: an error of `saveBitmessage` is dropped.
  unfoldable pub add_new : Time → ℕ → Bmail Time → Box → Box × Bmail Time × Finish
  unfolding prepared save_bitmessage
  add_new now flags msg box =
      let (box', msg', out) = save_bitmessage (prepared now flags msg box) box in
      elim out [
        | fine x ↦ (box', msg', fine tt)
        | refused ↦ (box', msg', fine tt)
        | stopped ↦ (box', msg', stopped)
      ]

  -- The counters after a message was deleted.
  unfoldable pub uncount : Bmail Time → Box → Box
  uncount msg box = elim msg.imap_data [
    | none ↦ box
    | some i ↦ record box {
      num_recent =
          if X.both i.flags X.recent == X.recent then decrement box.num_recent else box.num_recent;
      num_unseen =
          if not (X.both i.flags X.seen == X.seen)
          then decrement box.num_unseen
          else box.num_unseen;
    }
  ]

  -- What `DeleteBitmessageByUID` does with the message that it read.
  unfoldable pub delete_read : ℕ → Box × Outcome (Option (Bmail Time)) → Box × Finish
  unfolding uncount drop_object remove_uid
  delete_read id (box, refused) = (box, refused)
  delete_read id (box, stopped) = (box, stopped)
  delete_read id (box, fine none) = (box, fine tt)
  delete_read id (box, fine (some msg)) =
      let (mbox, deleted) = F.delete_message id box.mbox in
      let box2 : Box = record box { mbox = mbox } in
      if not deleted
      then (box2, refused)
      else (let box3 = drop_object id (uncount msg box2) in
          (record box3 { uids = remove_uid id box3.uids }, fine tt))

  -- `DeleteBitmessageByUID`
  unfoldable pub delete_bitmessage_by_uid : ℕ → Box → Box × Finish
  unfolding delete_read
  delete_bitmessage_by_uid id box = delete_read id (bmsg_by_uid C F X probe id box)

  -- The first loop of `DeleteFlaggedMessages`
  unfoldable pub flagged : List ℕ → Box → Box × Outcome (List (Bmail Time))
  unfolding bmsg_by_uid
  flagged [] box = (box, fine [])
  flagged (uid ∷ uids) box =
      let rest = flagged uids in
      let (box', read) = bmsg_by_uid C F X probe uid box in
      elim read [
        | refused ↦ (box', refused)
        | stopped ↦ (box', stopped)
        | fine none ↦ rest box'
        | fine (some l) ↦
            let (box2, others) = rest box' in
            elim l.imap_data [
              | none ↦ (box', stopped)
              | some i ↦
                  if X.has_flags i.flags X.deleted
                  then elim others [
                    | refused ↦ (box2, refused)
                    | stopped ↦ (box2, stopped)
                    | fine ls ↦ (box2, fine (l ∷ ls))
                  ]
                  else (box2, others)
            ]
      ]

  -- The second loop; a message that does not convert to an email is deleted like the others.
  unfoldable pub delete_each {ℓ} :
      {Email : Type ℓ}
      → (Bmail Time → Option Email)
      → List (Bmail Time)
      → Box
      → Box × Outcome (List Email)
  unfolding delete_bitmessage_by_uid
  delete_each to_email [] box = (box, fine [])
  delete_each to_email (b ∷ bs) box =
      let rest = delete_each to_email bs in
      elim b.imap_data [
        | none ↦ (box, stopped)
        | some i ↦
            let (box', out) = delete_bitmessage_by_uid i.uid box in
            elim out [
              | refused ↦ (box', refused)
              | stopped ↦ (box', stopped)
              | fine x ↦
                  let (box2, others) = rest box' in
                  elim others [
                    | refused ↦ (box2, refused)
                    | stopped ↦ (box2, stopped)
                    | fine es ↦ elim (to_email b) [
                      | none ↦ (box2, fine es)
                      | some e ↦ (box2, fine (e ∷ es))
                    ]
                  ]
            ]
      ]

  -- `DeleteFlaggedMessages`
  unfoldable pub delete_flagged_messages {ℓ} :
      {Email : Type ℓ} → (Bmail Time → Option Email) → Box → Box × Outcome (List Email)
  unfolding flagged delete_each
  delete_flagged_messages to_email box =
      let (box', found) = flagged box.uids box in
      elim found [
        | refused ↦ (box', refused)
        | stopped ↦ (box', stopped)
        | fine bs ↦ delete_each to_email bs box'
      ]
