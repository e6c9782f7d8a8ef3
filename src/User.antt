-- ===== src/User.antt =====
-- user/user.go: the mailboxes of a user, and how messages are delivered to them and moved.
pub mod Objects
pub mod Process
pub mod Create
pub mod Unset
pub mod Deliver
pub mod Keeps
mod Tests
use bmagent.Base.{ℕ, true, not, Option, none, some, if◌then◌else◌, Text, codes, text_eq}
use bmagent.Mailbox.Coding.{Outcome, fine, refused, stopped, Coding, Bmail}
use bmagent.Mailbox.Box.{Folders, Flags, Mailbox, Finish, bmsg_by_uid}
use bmagent.Mailbox.Box.Changes.{add_new, delete_bitmessage_by_uid}

abbrev pub inbox_folder_name : Text
inbox_folder_name = codes "Inbox"

abbrev pub limbo_folder_name : Text
limbo_folder_name = codes "Limbo"

abbrev pub outbox_folder_name : Text
outbox_folder_name = codes "Outbox"

abbrev pub sent_folder_name : Text
sent_folder_name = codes "Sent"

module _ (C : Coding) (F : Folders) (X : Flags) (probe : ℕ → ℕ → ℕ → ℕ → ℕ → ℕ) where
  open C use {Time}

  abbrev Box : Type 0
  Box = Mailbox C F X probe

  -- `boxes` and `acks`, maps from names to mailboxes and from the hashes of acks to uids.
  pub record User : Type 0 where
    pub boxes : Text → Option Box
    pub acks : Text → Option ℕ

  unfoldable pub set_box : Text → Box → User → User
  set_box name box u = record u {
    boxes = λ other. if text_eq name other then some box else u.boxes other;
  }

  -- `MailboxByName`; the inbox is found in any case of its letters.
  unfoldable pub mailbox_by_name : (Text → Text) → Text → User → Option Box
  mailbox_by_name to_lower name u =
      if text_eq (to_lower name) (to_lower inbox_folder_name)
      then u.boxes inbox_folder_name
      else u.boxes name

  -- A method of the mailbox of a name; a nil mailbox panics.
  unfoldable pub in_box {ℓ} :
      {A : Type ℓ} → Text → (Box → Box × Outcome A) → User → User × Outcome A
  unfolding set_box
  in_box name method u = elim (u.boxes name) [
    | none ↦ (u, stopped)
    | some box ↦ let (box', out) = method box in (set_box name box' u, out)
  ]

  unfoldable pub add_to : Text → Time → ℕ → Bmail Time → User → User × Finish
  unfolding in_box add_new
  add_to name now flags m u =
      in_box name (λ box. let (box', m', out) = add_new C F X probe now flags m box in (box', out))
        u

  -- `DeliverFromBMNet`
  unfoldable pub deliver_from_bmnet : Time → Bmail Time → User → User × Finish
  unfolding add_to
  deliver_from_bmnet now bm u = add_to inbox_folder_name now X.recent bm u

  -- The last step of `Move`, once the message was deleted.
  unfoldable pub put_moved : Time → Bmail Time → Text → User × Finish → User × Finish
  put_moved now b to (u, refused) = (u, refused)
  put_moved now b to (u, stopped) = (u, stopped)
  put_moved now b to (u, fine x) = add_to to now X.seen (record b { imap_data = none }) u

  -- What `Move` does with the message that it read.
  unfoldable pub move_read :
      Time → ℕ → Text → Text → User × Outcome (Option (Bmail Time)) → User × Finish
  unfolding put_moved
  move_read now uid from to (u, refused) = (u, refused)
  move_read now uid from to (u, stopped) = (u, stopped)
  move_read now uid from to (u, fine none) = (u, fine tt)
  move_read now uid from to (u, fine (some b)) =
      put_moved now b to (in_box from (delete_bitmessage_by_uid C F X probe uid) u)

  -- `Move`: it moves the message that the mailbox has under the uid.
  unfoldable pub move : Time → Bmail Time → Text → Text → User → User × Finish
  unfolding move_read
  move now m from to u = elim m.imap_data [
    | none ↦ (u, stopped)
    | some i ↦ move_read now i.uid from to (in_box from (bmsg_by_uid C F X probe i.uid) u)
  ]

  -- `DeliverAckReply`
  unfoldable pub deliver_ack_reply : Time → Text → User → User × Finish
  unfolding move in_box
  deliver_ack_reply now hash u = elim (u.acks hash) [
    | none ↦ (u, refused)
    | some uid ↦
        let (u', read) = in_box limbo_folder_name (bmsg_by_uid C F X probe uid) u in
        elim read [
          | refused ↦ (u', refused)
          | stopped ↦ (u', stopped)
          | fine none ↦ (u', refused)
          | fine (some m) ↦ elim m.state [
            | none ↦ (u', stopped)
            | some s ↦
                if not s.ack_expected
                then (u', refused)
                else (let received : Bmail Time = record m {
                  state = some (record s { ack_received = true });
                } in
                    move now received limbo_folder_name sent_folder_name u')
          ]
        ]
  ]
