-- ===== src/User/Keeps.antt =====
-- user/user.go: what deliveries and moves make of the mailboxes of a user.
use bmagent.Mailbox.Sequence.Count.{AreSmall}
use bmagent.Base.{
  ℕ, ◌-◌, ◌≡◌, ◌⊎◌, inl, inr, refl, sym, subst, Option, none, some, ◌∷◌, length, get_elem?, ltb,
  ◌==◌, u32, Text, text_eq, text_eq_refl, IdMap, arith, Bool-cases, Option-cases, ◌≤◌,
}
use bmagent.Mailbox.Sequence.{Found, at, out_of_range, out_of_fuel, get_sequence_number}
use bmagent.Mailbox.Sequence.Probe.{IsProbe}
use bmagent.Mailbox.Coding.{Outcome, fine, refused, stopped, encoding2, Coding, ImapData, Bmail}
use bmagent.Mailbox.Coding.Trip.{IsCoding}
use bmagent.Mailbox.Box.{Folders, Flags, Mailbox, Finish, bmsg_by_uid}
use bmagent.Mailbox.Box.Changes.{add_new, delete_bitmessage_by_uid}
use bmagent.Mailbox.Box.Stats.{Shows}
use bmagent.Mailbox.Box.Add.{Appends, add_new-Shows}
use bmagent.Mailbox.Box.Delete.{IsFolder, AreFlags}
use bmagent.Mailbox.Box.Delete.Readings.{With, read_uid-Read}
use bmagent.Mailbox.Box.Delete.Fate.{Shows-With, delete_bitmessage_by_uid-Shows}
use bmagent.User.{
  User, set_box, in_box, add_to, deliver_from_bmnet, inbox_folder_name, put_moved, move_read, move,
}

Found-cases : (f : Found) → ((f ≡ out_of_range) ⊎ (f ≡ out_of_fuel)) ⊎ ((n : ℕ) × (f ≡ at n))
Found-cases out_of_range = inl (inl refl)
Found-cases out_of_fuel = inl (inr refl)
Found-cases (at n) = inr (n, refl)

module _ (C : Coding) (F : Folders) (X : Flags) (probe : ℕ → ℕ → ℕ → ℕ → ℕ → ℕ) where
  open C use {Time, Object}

  abbrev Box : Type 0
  Box = Mailbox C F X probe

  -- Every mailbox has the uids and the counters of the messages in its folder.
  abbrev pub AllShow : User C F X probe → Type 0
  AllShow u = (name : Text) (box : Box) → u.boxes name ≡ some box → Shows C F X probe box

  pub set_box-AllShow :
      (name : Text) (box : Box) (u : User C F X probe)
      → AllShow u
      → Shows C F X probe box
      → AllShow (set_box C F X probe name box u)
  unfolding set_box
  set_box-AllShow name box u all v other found e = elim (Bool-cases (text_eq name other)) [
    | inl t ↦ let same : box ≡ found = ground arith in subst (Shows C F X probe) same v
    | inr f ↦ all other found (ground arith)
  ]

  -- Only the objects differ.
  abbrev Alike : Box → Box → Type 0
  Alike box box' = (objects : Option (IdMap Object)) × (box' ≡ With C F X probe objects box)

  bmsg_by_uid-Alike : (uid : ℕ) (box : Box) → Alike box (bmsg_by_uid C F X probe uid box).0
  unfolding bmsg_by_uid
  bmsg_by_uid-Alike uid box = elim (Found-cases (get_sequence_number probe box.uids uid)) [
    | inl (inl e) ↦ rw (e, bmsg_by_uid) (box.objects, refl)
    | inl (inr e) ↦ rw (e, bmsg_by_uid) (box.objects, refl)
    | inr (n, e) ↦ elim (Bool-cases (ltb (u32 (length box.uids)) n)) [
      | inl past ↦ rw (e, bmsg_by_uid) (rw past (box.objects, refl))
      | inr within ↦ elim (Option-cases (get_elem? box.uids (n - 1))) [
        | inl out ↦ rw (e, bmsg_by_uid) (rw within (rw out (box.objects, refl)))
        | inr (x, there) ↦ elim (Bool-cases (x == uid)) [
          | inr ne ↦ rw (e, bmsg_by_uid) (rw within (rw there (rw ne (box.objects, refl))))
          | inl eq ↦
              rw (e, bmsg_by_uid)
                (rw within (rw there (rw eq (read_uid-Read C F X probe uid n box).0)))
        ]
      ]
    ]
  ]

  in_box-runs {ℓ} :
      {A : Type ℓ} (name : Text) (method : Box → Box × Outcome A) (u : User C F X probe) (box : Box)
      → u.boxes name ≡ some box
      → in_box C F X probe name method u
        ≡ (set_box C F X probe name (method box).0 u, (method box).1)
  unfolding in_box
  in_box-runs name method u box e = rw (e, in_box) refl

  -- The folder of the mailbox of a name, if there is one, has a new message after its others.
  abbrev pub AppendsTo : Text → User C F X probe → Type 0
  AppendsTo name u = (box : Box) → u.boxes name ≡ some box → Appends F box.mbox

  module _ (coding : IsCoding C) where
    -- `addNew` of a message with a body, to the mailbox of a name.
    add_to-AllShow :
        (name : Text) (now : Time) (flags a : ℕ) (body subject : Text) (m : Bmail Time)
        (u : User C F X probe)
        → m.content ≡ encoding2 subject (a ∷ body)
        → AppendsTo name u
        → AllShow u
        → AllShow (add_to C F X probe name now flags m u).0
    unfolding add_to in_box
    add_to-AllShow name now flags a body subject m u content law all =
        elim (Option-cases (u.boxes name)) [
          | inl e ↦ rw (e, in_box) all
          | inr (box, e) ↦
              let after = (add_new C F X probe now flags m box).0 in
              let runs : (add_to C F X probe name now flags m u).0
                  ≡ set_box C F X probe name after u =
                rw (e, in_box) refl in
              subst AllShow (sym runs) (
                set_box-AllShow name after u all (
                  add_new-Shows C F X probe coding now flags a body subject m box content
                    (law box e) (all name box e)))
        ]

    -- A delivery from the network keeps the uids and the counters of every mailbox those of the messages
    -- in its folder, whatever fails in it. The message has encoding 2 and a body that is not empty, the
    -- packages read back what they wrote, and the folder of the inbox has a new message after its others.
    deliver_from_bmnet-AllShow :
        (now : Time) (a : ℕ) (body subject : Text) (m : Bmail Time) (u : User C F X probe)
        → m.content ≡ encoding2 subject (a ∷ body)
        → AppendsTo inbox_folder_name u
        → AllShow u
        → AllShow (deliver_from_bmnet C F X probe now m u).0
    unfolding deliver_from_bmnet
    deliver_from_bmnet-AllShow now a body subject m u content law all =
        add_to-AllShow inbox_folder_name now X.recent a body subject m u content law all

    module _ (p : IsProbe probe) (same_flags : AreFlags X) where
      -- What a message that is read is like: encoding 2 with a body that is not empty.
      abbrev pub IsFull : Outcome (Option (Bmail Time)) → Type 0
      IsFull (fine (some b)) =
          (subject : Text) × (a : ℕ) × (body : Text) × (b.content ≡ encoding2 subject (a ∷ body))
      IsFull _ = Unit

      -- The mailbox of a name, deleted from and then added to another.
      put_moved-AllShow :
          (now : Time) (b : Bmail Time) (to subject body : Text) (a : ℕ) (u : User C F X probe)
          (out : Finish)
          → b.content ≡ encoding2 subject (a ∷ body)
          → AppendsTo to u
          → AllShow u
          → AllShow (put_moved C F X probe now b to (u, out)).0
      unfolding put_moved
      put_moved-AllShow now b to subject body a u refused content law all = all
      put_moved-AllShow now b to subject body a u stopped content law all = all
      put_moved-AllShow now b to subject body a u (fine x) content law all =
          add_to-AllShow to now X.seen a body subject (record b { imap_data = none }) u content law
            all

      move_read-AllShow :
          (now : Time) (uid : ℕ) (from to : Text) (u : User C F X probe) (box : Box)
          (out : Outcome (Option (Bmail Time)))
          → u.boxes from ≡ some box
          → length box.uids ≤ 1048576
          → AreSmall box.uids
          → IsFull out
          → IsFolder F box.mbox uid
          → AppendsTo to
              (set_box C F X probe from (delete_bitmessage_by_uid C F X probe uid box).0 u)
          → AllShow u
          → AllShow (move_read C F X probe now uid from to (u, out)).0
      unfolding move_read
      move_read-AllShow now uid from to u box refused e small low full law after all = all
      move_read-AllShow now uid from to u box stopped e small low full law after all = all
      move_read-AllShow now uid from to u box (fine none) e small low full law after all = all
      move_read-AllShow now uid from to u box (fine (some b)) e small low
            (subject, a, body, content) law after all =
          let (box', out) = delete_bitmessage_by_uid C F X probe uid box in
          let v =
            delete_bitmessage_by_uid-Shows C F X probe box uid p law same_flags small low
              (all from box e) in
          subst (λ (r : User C F X probe × Finish). AllShow (put_moved C F X probe now b to r).0)
            (sym (in_box-runs from (delete_bitmessage_by_uid C F X probe uid) u box e))
            (put_moved-AllShow now b to subject body a (set_box C F X probe from box' u) out content
              after (set_box-AllShow from box' u all v))

      -- The move of a message from a mailbox that is there to any other, itself included, keeps the uids
      -- and the counters of every mailbox those of the messages in its folder, whatever fails in it. The
      -- message that is read has encoding 2 and a body that is not empty, the packages do what they
      -- document, the folder of the mailbox returns and forgets the message as it says, the folder of
      -- the other, once it was deleted, has a new message after its others, and the mailbox has no more
      -- than 2 ^ 20 uids, of 32 bits.
      pub move-AllShow :
          (now : Time) (m : Bmail Time) (i : ImapData Time) (from to : Text) (u : User C F X probe)
          (box : Box)
          → m.imap_data ≡ some i
          → u.boxes from ≡ some box
          → length box.uids ≤ 1048576
          → AreSmall box.uids
          → IsFull (bmsg_by_uid C F X probe i.uid box).1
          → IsFolder F box.mbox i.uid
          → (let box' = (bmsg_by_uid C F X probe i.uid box).0 in
              AppendsTo to (
                set_box C F X probe from
                  (delete_bitmessage_by_uid C F X probe i.uid box').0
                  (set_box C F X probe from box' u)))
          → AllShow u
          → AllShow (move C F X probe now m from to u).0
      unfolding move set_box
      move-AllShow now m i from to u box has e small low full law after all =
          let (box', out) = bmsg_by_uid C F X probe i.uid box in
          let (objects, same) = bmsg_by_uid-Alike i.uid box in
          let v =
            subst (Shows C F X probe) (sym same)
              (Shows-With C F X probe objects box (all from box e)) in
          let u' = set_box C F X probe from box' u in
          let read = in_box-runs from (bmsg_by_uid C F X probe i.uid) u box e in
          let there : u'.boxes from ≡ some box' = rw (text_eq_refl from, set_box) refl in
          let less : length box'.uids ≤ 1048576 =
            subst (λ (t : Box). length t.uids ≤ 1048576) (sym same) small in
          let low' : AreSmall box'.uids = subst (λ (t : Box). AreSmall t.uids) (sym same) low in
          let law' : IsFolder F box'.mbox i.uid =
            subst (λ (t : Box). IsFolder F t.mbox i.uid) (sym same) law in
          rw (has, move)
            (rw read (
              move_read-AllShow now i.uid from to u' box' out there less low' full law' after
                (set_box-AllShow from box' u all v)))
