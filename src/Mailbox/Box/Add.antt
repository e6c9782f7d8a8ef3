-- ===== src/Mailbox/Box/Add.antt =====
-- `addNew` keeps the uids and the counters true to the folder.
use bmagent.Base.{
  ℕ, ◌+◌, ◌≡◌, inl, inr, refl, sym, ap, subst, ◌∙◌, Bool, false, Option, none, some, List, [], ◌∷◌,
  ◌++◌, u32, Text, text_eq, arith, Bool-cases, Option-cases,
}
use bmagent.Mailbox.Coding.{
  fine, encoding2, Coding, ImapData, Bmail, serialize_bitmessage, decode_bitmessage,
}
use bmagent.Mailbox.Coding.Trip.{
  IsCoding, body_of, stored, stored_imap_data, decode_bitmessage-serialize_bitmessage,
}
use bmagent.Mailbox.Box.{Folders, Flags, Mailbox, belongs, messages, refresh}
use bmagent.Mailbox.Box.Changes.{insert_new, save_bitmessage, prepared, add_new}
use bmagent.Mailbox.Box.Stats.{Shows, refresh-Shows, refresh-readable}
use bmagent.Mailbox.Box.Own.{Outcome-cases, classify, AreReadable}

-- What a state of a folder promises of a new message: it comes after the others, and after an error the
-- folder is as it was.
pub record Appends (F : Folders) (f : F.Folder) : Type 0 where
  pub appends :
      (msg : Text) (id : ℕ)
      → (F.insert_new_message msg 2 f).1 ≡ some id
      → (F.visited 0 0 2 (F.insert_new_message msg 2 f).0).0
        ≡ (F.visited 0 0 2 f).0 ++ ((id, msg) ∷ [])
  pub ends :
      (msg : Text) (id : ℕ)
      → (F.insert_new_message msg 2 f).1 ≡ some id
      → (F.visited 0 0 2 (F.insert_new_message msg 2 f).0).1 ≡ (F.visited 0 0 2 f).1
  pub keeps :
      (msg : Text) → (F.insert_new_message msg 2 f).1 ≡ none → (F.insert_new_message msg 2 f).0 ≡ f

module _ (C : Coding) (F : Folders) (X : Flags) (probe : ℕ → ℕ → ℕ → ℕ → ℕ → ℕ) where
  open C use {Time, Object}

  abbrev Box : Type 0
  Box = Mailbox C F X probe

  abbrev Sub : Type 0
  Sub = Option (Bmail Time → Bool)

  AreReadable-append :
      (sub : Sub) (id : ℕ) (msg : Text) (es : List (ℕ × Text))
      → AreReadable C F X probe sub es
      → (mine : Option ℕ) → classify C F X probe sub msg ≡ fine mine
      → AreReadable C F X probe sub (es ++ ((id, msg) ∷ []))
  AreReadable-append sub id msg [] h mine e = ((mine, e), tt)
  AreReadable-append sub id msg ((j, m) ∷ es) (here, h) mine e =
      (here, AreReadable-append sub id msg es h mine e)

  -- A message that decodes, with IMAP data, is of some class.
  classify-decoded :
      (sub : Sub) (msg : Text) (b : Bmail Time) (o : Option Object) (i : ImapData Time)
      → decode_bitmessage C msg ≡ fine (b, o)
      → b.imap_data ≡ some i
      → (mine : Option ℕ) × (classify C F X probe sub msg ≡ fine mine)
  unfolding classify
  classify-decoded sub msg b o i e e' = elim (Bool-cases (belongs C F X probe sub b)) [
    | inl t ↦ (some i.flags, rw (e, classify) (rw t (rw e' refl)))
    | inr t ↦ (none, rw (e, classify) (rw t refl))
  ]

  -- A refresh after a new message that can be read.
  inserted-Shows :
      (box : Box) (law : Appends F box.mbox) (msg : Text) (id : ℕ) (mine : Option ℕ)
      → Shows C F X probe box
      → (F.insert_new_message msg 2 box.mbox).1 ≡ some id
      → classify C F X probe box.sub msg ≡ fine mine
      → let box' : Box = record box { mbox = (F.insert_new_message msg 2 box.mbox).0 } in
        Shows C F X probe (refresh C F X probe box').0
  inserted-Shows box law msg id mine v e c =
      let box' : Box = record box { mbox = (F.insert_new_message msg 2 box.mbox).0 } in
      let good =
        refresh-readable C F X probe box'
          (subst (AreReadable C F X probe box.sub) (sym (law.appends msg id e))
            (AreReadable-append box.sub id msg (F.visited 0 0 2 box.mbox).0 v.readable mine c))
          (law.ends msg id e ∙ v.ended) in
      elim (refresh-Shows C F X probe box') [
        | inl (_, shows, _, _, _) ↦ shows
        | inr (inl bad, _, _) ↦ absurd (ground arith)
        | inr (inr bad, _, _) ↦ absurd (ground arith)
      ]

  insert_new-cases :
      (box : Box) (law : Appends F box.mbox) (msg : Text) (mine : Option ℕ)
      → Shows C F X probe box
      → classify C F X probe box.sub msg ≡ fine mine
      → Shows C F X probe (insert_new C F X probe msg 2 box).0
  unfolding insert_new
  insert_new-cases box law msg mine v c =
      elim (Option-cases (F.insert_new_message msg 2 box.mbox).1) [
        | inl e ↦
            rw (e, insert_new)
              (subst (λ m. Shows C F X probe (record box { mbox = m })) (sym (law.keeps msg e)) v)
        | inr (id, e) ↦ rw (e, insert_new) (inserted-Shows box law msg id mine v e c)
      ]

  module _ (coding : IsCoding C) where
    serialized-read :
        (m : Bmail Time) (i : ImapData Time) (a : ℕ) (body subject bs : Text) (sub : Sub)
        → m.content ≡ encoding2 subject (a ∷ body)
        → m.imap_data ≡ some i
        → serialize_bitmessage C m none ≡ some bs
        → (mine : Option ℕ) × (classify C F X probe sub bs ≡ fine mine)
    unfolding stored stored_imap_data text_eq
    serialized-read m i a body subject bs sub content imap e =
        let back = decode_bitmessage-serialize_bitmessage C coding m none bs e in
        let full : text_eq (body_of m.content) [] ≡ false = rw content refl in
        let kept : ImapData Time = record {
          uid = 0;
          sequence_number = 0;
          flags = i.flags;
          time_received = coding.whole i.time_received;
        } in
        classify-decoded sub bs (stored C coding m) none kept (back ∙ rw full refl)
          (ap (stored_imap_data C coding) imap)

    -- A message that is saved for the first time.
    saved-Shows :
        (m : Bmail Time) (i : ImapData Time) (a : ℕ) (body subject : Text) (box : Box)
        → m.content ≡ encoding2 subject (a ∷ body)
        → m.imap_data ≡ some i
        → i.uid ≡ 0
        → Appends F box.mbox
        → Shows C F X probe box
        → Shows C F X probe (save_bitmessage C F X probe m box).0
    unfolding save_bitmessage
    saved-Shows m i a body subject box content imap new law v =
        elim (Option-cases (serialize_bitmessage C m none)) [
          | inl e ↦ rw (e, save_bitmessage) v
          | inr (bs, e) ↦
              let (mine, c) = serialized-read m i a body subject bs box.sub content imap e in
              let two : C.encoding_of m.content ≡ 2 =
                ap C.encoding_of content ∙ coding.second_kind subject (a ∷ body) in
              rw (e, save_bitmessage)
                (rw imap (rw new (rw two (insert_new-cases box law bs mine v c))))
        ]

    -- `AddNew` of a message of encoding 2 with a body that is not empty, whatever fails in it, keeps the
    -- uids and the counters those of the messages in the folder. The packages read back what they wrote
    -- and the mailbox's folder, as it is, has a new message after its others.
    pub add_new-Shows :
        (now : Time) (flags a : ℕ) (body subject : Text) (m : Bmail Time) (box : Box)
        → m.content ≡ encoding2 subject (a ∷ body)
        → Appends F box.mbox
        → Shows C F X probe box
        → Shows C F X probe (add_new C F X probe now flags m box).0
    unfolding add_new prepared
    add_new-Shows now flags a body subject m box content law v =
        let saved =
          saved-Shows (prepared C F X probe now flags m box)
            (record {
              uid = 0;
              sequence_number = u32 (messages C F X probe box + 1);
              flags = flags;
              time_received = now;
            })
            a body subject box content refl refl law v in
        elim (Outcome-cases
          (save_bitmessage C F X probe (prepared C F X probe now flags m box) box).2) [
            | inl (inl e) ↦ rw (e, add_new) saved
            | inl (inr e) ↦ rw (e, add_new) saved
            | inr (x, e) ↦ rw (e, add_new) saved
          ]
