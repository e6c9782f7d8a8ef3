-- ===== src/Mailbox/Box/Delete/Readings.antt =====
-- What reading a message leaves of a mailbox, and what it comes to.
use bmagent.Base.{
  ℕ, ◌≡◌, ◌⊎◌, inl, inr, refl, sym, ap, subst, ◌∙◌, Option, none, some, ◌==◌, Text, IdMap, put,
  arith, Bool-cases, Option-cases,
}
use bmagent.Mailbox.Coding.{Outcome, fine, stopped, Coding, ImapData, Bmail, decode_bitmessage}
use bmagent.Mailbox.Box.{Folders, Flags, Mailbox, keep_object, decode_bitmessage_for_imap, read_uid}
use bmagent.Mailbox.Box.Own.{Outcome-cases}

module _ (C : Coding) (F : Folders) (X : Flags) (probe : ℕ → ℕ → ℕ → ℕ → ℕ → ℕ) where
  open C use {Time, Object}

  abbrev pub Box : Type 0
  Box = Mailbox C F X probe

  abbrev pub With : Option (IdMap Object) → Box → Box
  With objects box = record box { objects = objects }

  abbrev pub Numbered : Bmail Time → ImapData Time → ℕ → ℕ → Bmail Time
  Numbered b i uid seqno = record b {
    imap_data = some (record i { uid = uid; sequence_number = seqno });
  }

  pub keep_object-cases :
      (uid : ℕ) (o : Option Object) (box : Box)
      → (keep_object C F X probe uid o box ≡ stopped)
        ⊎ ((objects : Option (IdMap Object)) × (keep_object C F X probe uid o box
              ≡ fine (With objects box)))
  unfolding keep_object
  keep_object-cases uid none box = inr (box.objects, refl)
  keep_object-cases uid (some o) box = elim (Option-cases box.objects) [
    | inl e ↦ inl (rw (e, keep_object) refl)
    | inr (m, e) ↦ inr (some (put uid o m), rw (e, keep_object) refl)
  ]

  -- What reading a message comes to: no message, a panic, or a message of its own with IMAP data.
  abbrev pub Read : ℕ → ℕ → Box → Box × Outcome (Option (Bmail Time)) → Type 0
  Read uid seqno box (box', out) =
      ((objects : Option (IdMap Object)) × (box' ≡ With objects box))
      × ((out ≡ fine none)
          ⊎ ((out ≡ stopped)
              ⊎ ((msg : Text) × (b : Bmail Time) × (o : Option Object) × (i : ImapData Time)
                  × (F.get_message uid box.mbox ≡ some (2, msg))
                  × (decode_bitmessage C msg ≡ fine (b, o))
                  × (b.imap_data ≡ some i)
                  × (out ≡ fine (some (Numbered b i uid seqno))))))

  pub decode-Read :
      (uid seqno : ℕ) (msg : Text) (box : Box)
      → F.get_message uid box.mbox ≡ some (2, msg)
      → Read uid seqno box (decode_bitmessage_for_imap C F X probe uid seqno msg box)
  unfolding decode_bitmessage_for_imap
  decode-Read uid seqno msg box got = elim (Outcome-cases (decode_bitmessage C msg)) [
    | inl (inl e) ↦ rw (e, decode_bitmessage_for_imap) ((box.objects, refl), inl refl)
    | inl (inr e) ↦ rw (e, decode_bitmessage_for_imap) ((box.objects, refl), inr (inl refl))
    | inr ((b, o), e) ↦ elim (keep_object-cases uid o box) [
      | inl c ↦ rw (e, decode_bitmessage_for_imap) (rw c ((box.objects, refl), inr (inl refl)))
      | inr (objects, c) ↦ elim (Option-cases b.imap_data) [
        | inl n ↦ rw (e, decode_bitmessage_for_imap) (rw c (rw n ((objects, refl), inr (inl refl))))
        | inr (i, n) ↦
            rw (e, decode_bitmessage_for_imap)
              (rw c (rw n ((objects, refl), inr (inr (msg, b, o, i, got, e, n, refl)))))
      ]
    ]
  ]

  pub read_uid-Read :
      (uid seqno : ℕ) (box : Box) → Read uid seqno box (read_uid C F X probe uid seqno box)
  unfolding read_uid
  read_uid-Read uid seqno box = elim (Option-cases (F.get_message uid box.mbox)) [
    | inl e ↦ rw (e, read_uid) ((box.objects, refl), inl refl)
    | inr ((suffix, msg), e) ↦ elim (Bool-cases (suffix == 2)) [
      | inr ne ↦ rw (e, read_uid) (rw ne ((box.objects, refl), inl refl))
      | inl two ↦
          let here : suffix ≡ 2 = ground arith in
          let runs : read_uid C F X probe uid seqno box
              ≡ decode_bitmessage_for_imap C F X probe uid seqno msg box =
            rw (e, read_uid) (rw two refl) in
          subst (Read uid seqno box) (sym runs)
            (decode-Read uid seqno msg box (e ∙ ap (λ n. some (n, msg)) here))
    ]
  ]
