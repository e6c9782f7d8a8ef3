-- ===== src/User/Unset.antt =====
-- user/process.go: `process` for a user as `NewUser` of user/user.go makes it.
use bmagent.Base.{ℕ, ◌≡◌, ◌⊎◌, inl, inr, refl, Bool, Option, none, List, Text, arith, Option-cases}
use bmagent.Store.Bytes.{split_at}
use bmagent.Mailbox.Coding.{fine, refused, stopped, Coding, Bmail}
use bmagent.Mailbox.Box.{Folders, Flags, Finish}
use bmagent.Mailbox.Box.Own.{Outcome-cases}
use bmagent.User.{outbox_folder_name}
use bmagent.User.Objects.{
  Network, Expiration, generate_object, generate_ack, Generated-cases, pubkey_requested,
}
use bmagent.User.Process.{
  Sender, Job, Task, process, save_in, send_pow, send_prepared_message, start_ack,
}
use bmagent.User.Create.{FolderSet, add_boxes, new_user}

module _ (C : Coding) (N : Network C) (parse_address : Text → Option Text) (decodes : Text → Bool)
    (F : Folders) (X : Flags) (probe : ℕ → ℕ → ℕ → ℕ → ℕ → ℕ) where
  open C use {Time, Object}

  abbrev Mailer : Type 0
  Mailer = Sender C N parse_address decodes F X probe

  -- No order was made, and it did not succeed.
  abbrev Fails : Mailer × Finish → Type 0
  Fails (s, out) = (s.pm ≡ none) × ((out ≡ refused) ⊎ (out ≡ stopped))

  send_pow-Fails :
      (now : Time) (o : Object) (d : N.PowData) (task : Task C N parse_address decodes F X probe)
      (s : Mailer)
      → s.pm ≡ none
      → Fails (send_pow C N parse_address decodes F X probe now o d task s)
  unfolding send_pow
  send_pow-Fails now o d task s e = elim (Option-cases (split_at 8 (C.encode_object o))) [
    | inl bad ↦ rw (bad, send_pow) (e, inr refl)
    | inr ((front, q), good) ↦ rw (good, send_pow) (rw e (e, inr refl))
  ]

  send_prepared-Fails :
      (now : Time) (o : Object) (d : N.PowData) (m : Bmail Time) (s : Mailer)
      → s.pm ≡ none
      → Fails (send_prepared_message C N parse_address decodes F X probe now o d m s)
  unfolding send_prepared_message
  send_prepared-Fails now o d m s e =
      let (user', m', out) =
        save_in C N parse_address decodes F X probe outbox_folder_name m s.user in
      elim (Outcome-cases out) [
        | inl (inl bad) ↦ rw (bad, send_prepared_message) (e, inl refl)
        | inl (inr bad) ↦ rw (bad, send_prepared_message) (e, inr refl)
        | inr (x, good) ↦
            rw (good, send_prepared_message)
              (send_pow-Fails now o d (Task.send_object o m') (record s { user = user' }) e)
      ]

  start_ack-Fails :
      (now : Time) (num : ℕ) (m : Bmail Time) (s : Mailer)
      → s.pm ≡ none
      → Fails (start_ack C N parse_address decodes F X probe now num m s)
  unfolding start_ack
  start_ack-Fails now num m s e =
      elim (Outcome-cases (generate_ack C N parse_address decodes now num s.expiration s.keys m)) [
        | inl (inl bad) ↦ rw (bad, start_ack) (e, inl refl)
        | inl (inr bad) ↦ rw (bad, start_ack) (e, inr refl)
        | inr ((ack, d), good) ↦ elim (Option-cases m.imap_data) [
          | inl gone ↦ rw (good, start_ack) (rw gone (e, inr refl))
          | inr (i, there) ↦ rw (good, start_ack) (rw there (send_pow-Fails now ack d _ _ e))
        ]
      ]

  -- Without the manager `process` makes no order and fails, or it asks for the key of the recipient.
  process-Fails :
      (now : Time) (num : ℕ) (m : Bmail Time) (s : Mailer)
      → s.pm ≡ none
      → let (server', m', out) =
          generate_object C N parse_address decodes F X probe now s.expiration s.keys m
            (s.user.boxes outbox_folder_name)
            s.server in
        let (s', reply) = process C N parse_address decodes F X probe now num m s in
        (s'.pm ≡ none) × ((out ≡ pubkey_requested) ⊎ ((reply ≡ refused) ⊎ (reply ≡ stopped)))
  unfolding process
  process-Fails now num m s e =
      let (server', m', out) =
        generate_object C N parse_address decodes F X probe now s.expiration s.keys m
          (s.user.boxes outbox_folder_name) s.server in
      elim (Generated-cases out) [
        | inl ((o, d), g) ↦
            let (kept, fails) = send_prepared-Fails now o d m' (record s { server = server' }) e in
            rw (g, process) (kept, inr fails)
        | inr (inl g) ↦ rw (g, process) (e, inl refl)
        | inr (inr (inl g)) ↦
            let (kept, fails) = start_ack-Fails now num m' (record s { server = server' }) e in
            rw (g, process) (kept, inr fails)
        | inr (inr (inr (inl g))) ↦ rw (g, process) (e, inr (inl refl))
        | inr (inr (inr (inr g))) ↦ rw (g, process) (e, inr (inr refl))
      ]

  module _ (D : FolderSet F) where
    -- No message of a user that `NewUser` made ever goes out, whatever expiration and proof-of-work manager
    -- it is given: `process` makes no order, and it fails or panics unless it asks for the key of the
    -- recipient.
    pub process-new_user :
        (keys : N.Keys) (expiration : Expiration C N parse_address decodes)
        (pm : Option (List (Job C N parse_address decodes F X probe))) (server : N.Server)
        (folders : D.State) (now : Time) (num : ℕ) (m : Bmail Time) (s : Mailer)
        → (new_user C N parse_address decodes F X probe D keys expiration pm server folders).1
          ≡ fine s
        → let (server', m', out) =
            generate_object C N parse_address decodes F X probe now s.expiration s.keys m
              (s.user.boxes outbox_folder_name)
              s.server in
          let (s', reply) = process C N parse_address decodes F X probe now num m s in
          (s'.pm ≡ none) × ((out ≡ pubkey_requested) ⊎ ((reply ≡ refused) ⊎ (reply ≡ stopped)))
    unfolding new_user
    process-new_user keys expiration pm server folders now num m s e =
        process-Fails now num m s (unset e)
      where
        unset :
            (new_user C N parse_address decodes F X probe D keys expiration pm server folders).1
              ≡ fine s
            → s.pm ≡ none
        unset e' =
            elim (Outcome-cases
              (add_boxes C N parse_address decodes F X probe D (D.names folders) folders
                (record { boxes = λ name. none; acks = λ hash. none })).1) [
                  | inl (inl bad) ↦ absurd (ground arith)
                  | inl (inr bad) ↦ absurd (ground arith)
                  | inr (u, good) ↦ ground arith
                ]
