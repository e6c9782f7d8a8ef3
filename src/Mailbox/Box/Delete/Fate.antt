-- ===== src/Mailbox/Box/Delete/Fate.antt =====
-- What `DeleteBitmessageByUID` does in each case.
use bmagent.Base.{
  ℕ, ◌+◌, ◌≡◌, inl, inr, refl, sym, ap, subst, ◌∙◌, Bool, true, not, Option, none, some, List,
  length, get_elem?, ◌==◌, if◌then◌else◌, u32, Text, IdMap, remove, arith, Bool-cases, Option-cases,
  ◌≤◌,
}
use bmagent.Mailbox.Sequence.Count.{IsSorted, AreSmall}
use bmagent.Mailbox.Sequence.Probe.{IsProbe}
use bmagent.Mailbox.Coding.{Outcome, fine, Coding, ImapData, Bmail, decode_bitmessage}
use bmagent.Mailbox.Box.{Folders, Flags, Mailbox, sort_uids, belongs, read_uid}
use bmagent.Mailbox.Box.Changes.{
  remove_uid, decrement, drop_object, uncount, delete_read, delete_bitmessage_by_uid,
}
use bmagent.Mailbox.Box.Stats.{Shows}
use bmagent.Mailbox.Box.Own.{
  sort_uids-IsSorted, classify, AreReadable, count, own_ids, is_recent, is_unseen,
}
use bmagent.Mailbox.Box.Reads.{bmsg_by_uid-reads}
use bmagent.Mailbox.Box.Delete.{
  find, without, IsFolder, AreFlags, own_ids-IsSorted, without-IsSorted, without-AreReadable,
  without-own_ids, count-without, own_ids-own,
}
use bmagent.Mailbox.Box.Delete.Readings.{With, Numbered, Read, read_uid-Read}

module _ (C : Coding) (F : Folders) (X : Flags) (probe : ℕ → ℕ → ℕ → ℕ → ℕ → ℕ) where
  open C use {Time, Object}

  abbrev Box : Type 0
  Box = Mailbox C F X probe

  drop_object-With :
      (uid : ℕ) (box : Box)
      → (objects : Option (IdMap Object)) × (drop_object C F X probe uid box
          ≡ With C F X probe objects box)
  unfolding drop_object
  drop_object-With uid box = elim (Option-cases box.objects) [
    | inl e ↦ (none, rw (e, drop_object) (ap (λ o. (With C F X probe) o box) e))
    | inr (m, e) ↦ (some (remove uid m), rw (e, drop_object) refl)
  ]

  pub Shows-With :
      (objects : Option (IdMap Object)) (box : Box)
      → Shows C F X probe box
      → Shows C F X probe (With C F X probe objects box)
  Shows-With objects box v = record {
    readable = v.readable;
    ended = v.ended;
    uids = v.uids;
    num_recent = v.num_recent;
    num_unseen = v.num_unseen;
    next_uid = v.next_uid;
  }

  module _ (same_flags : AreFlags X) (box : Box) (id : ℕ) (law : IsFolder F box.mbox id)
      (v : Shows C F X probe box) where
    abbrev entries : List (ℕ × Text)
    entries = (F.visited 0 0 2 box.mbox).0

    own : box.uids ≡ own_ids C F X probe box.sub entries
    own =
        v.uids
        ∙ sort_uids-IsSorted (own_ids C F X probe box.sub entries)
            (own_ids-IsSorted C F X probe box.sub entries (law.rising))

    pub uids-IsSorted : IsSorted box.uids
    uids-IsSorted =
        subst IsSorted (sym own) (own_ids-IsSorted C F X probe box.sub entries (law.rising))

    -- The counter of the messages whose flags pass the test, less one for a message that does.
    uncounted :
        (q : ℕ → Bool) (flags n : ℕ) (msg : Text) (less : Bool)
        → find id entries ≡ some msg
        → classify C F X probe box.sub msg ≡ fine (some flags)
        → less ≡ q flags
        → n ≡ u32 (count C F X probe q box.sub entries)
        → (if less then decrement n else n) ≡ u32 (count C F X probe q box.sub (without id entries))
    uncounted q flags n msg less at mine same e =
        let c = count-without C F X probe q box.sub id flags msg entries at mine in
        elim (Bool-cases less) [
          | inl t ↦ rw t (
              omega (
                arith,
                e,
                c
                    ∙ ap
                        (λ b.
                          (if b then 1 else 0) + count C F X probe q box.sub (without id entries))
                        (sym same ∙ t),
              ))
          | inr t ↦ rw t (
              omega (
                arith,
                e,
                c
                    ∙ ap
                        (λ b.
                          (if b then 1 else 0) + count C F X probe q box.sub (without id entries))
                        (sym same ∙ t),
              ))
        ]

    classify-flags :
        (msg : Text) (b : Bmail Time) (o : Option Object) (i : ImapData Time) (flags : ℕ)
        → decode_bitmessage C msg ≡ fine (b, o)
        → b.imap_data ≡ some i
        → classify C F X probe box.sub msg ≡ fine (some flags)
        → i.flags ≡ flags
    unfolding classify
    classify-flags msg b o i flags e e' c = elim (Bool-cases (belongs C F X probe box.sub b)) [
      | inl t ↦
          let here : classify C F X probe box.sub msg ≡ fine (some i.flags) =
            rw (e, classify) (rw t (rw e' refl)) in
          let same : fine (some i.flags) ≡ fine (some flags) = sym here ∙ c in ground arith
      | inr t ↦
          let here : classify C F X probe box.sub msg ≡ fine none = rw (e, classify) (rw t refl) in
          let same : fine none ≡ fine (some flags) = sym here ∙ c in absurd (ground arith)
    ]

    -- The mailbox after the message was deleted from the folder.
    deleted-Shows :
        (n : ℕ) (msg : Text) (b : Bmail Time) (o : Option Object) (i : ImapData Time)
        (objects' : Option (IdMap Object))
        → get_elem? box.uids n ≡ some id
        → F.get_message id box.mbox ≡ some (2, msg)
        → decode_bitmessage C msg ≡ fine (b, o)
        → b.imap_data ≡ some i
        → (F.delete_message id box.mbox).1 ≡ true
        → Shows C F X probe (record box {
          mbox = (F.delete_message id box.mbox).0;
          objects = objects';
          num_recent =
              if X.both i.flags X.recent == X.recent
              then decrement box.num_recent
              else box.num_recent;
          num_unseen =
              if not (X.both i.flags X.seen == X.seen)
              then decrement box.num_unseen
              else box.num_unseen;
          uids = remove_uid id box.uids;
        })
    deleted-Shows n msg b o i objects' there got e e' deleted =
        let found = law.gets msg got in
        let (flags, mine) =
          own_ids-own C F X probe box.sub id n msg entries (law.rising) found
            (ap (λ xs. get_elem? xs n) (sym own) ∙ there) in
        let same = classify-flags msg b o i flags e e' mine in
        let less = law.deletes deleted in
        record {
          readable =
              subst (AreReadable C F X probe box.sub) (sym less)
                (without-AreReadable C F X probe box.sub id entries v.readable);
          ended = law.ends deleted ∙ v.ended;
          uids =
              ap (remove_uid id) own
              ∙ sym (without-own_ids C F X probe box.sub id flags msg entries found mine)
              ∙ sym (
                  sort_uids-IsSorted (own_ids C F X probe box.sub (without id entries)) (
                    own_ids-IsSorted C F X probe box.sub (without id entries)
                      (without-IsSorted id entries (law.rising))))
              ∙ ap (λ es. sort_uids (own_ids C F X probe box.sub es)) (sym less);
          num_recent =
              uncounted (is_recent C F X probe) flags box.num_recent msg
                (X.both i.flags X.recent == X.recent) found mine
                (sym (same_flags i.flags X.recent) ∙ ap (is_recent C F X probe) same) v.num_recent
              ∙ ap (λ es. u32 (count C F X probe (is_recent C F X probe) box.sub es)) (sym less);
          num_unseen =
              uncounted (is_unseen C F X probe) flags box.num_unseen msg
                (not (X.both i.flags X.seen == X.seen)) found mine
                (ap not (sym (same_flags i.flags X.seen)) ∙ ap (is_unseen C F X probe) same)
                v.num_unseen
              ∙ ap (λ es. u32 (count C F X probe (is_unseen C F X probe) box.sub es)) (sym less);
          next_uid = v.next_uid ∙ ap u32 (sym (law.next));
        }

    -- What follows a read.
    delete_read-Shows :
        (n : ℕ) (r : Box × Outcome (Option (Bmail Time)))
        → get_elem? box.uids n ≡ some id
        → Read C F X probe id (n + 1) box r
        → Shows C F X probe (delete_read C F X probe id r).0
    unfolding delete_read uncount
    delete_read-Shows n (box', out) there ((objects, same), fate) =
        subst (λ x. Shows C F X probe (delete_read C F X probe id (x, out)).0) (sym same)
          (elim fate [
            | inl e ↦ rw e (Shows-With objects box v)
            | inr (inl e) ↦ rw e (Shows-With objects box v)
            | inr (inr (msg, b, o, i, got, e, e', out_is)) ↦
                rw out_is (elim (Bool-cases (F.delete_message id box.mbox).1) [
                  | inr failed ↦ rw failed (
                      subst (λ m. Shows C F X probe (record box { mbox = m; objects = objects }))
                        (sym (law.keeps failed)) (Shows-With objects box v))
                  | inl deleted ↦
                      let base : Box =
                        uncount C F X probe (Numbered C F X probe b i id (n + 1))
                          (record (With C F X probe objects box) {
                            mbox = (F.delete_message id box.mbox).0;
                          }) in
                      let (objects', d) = drop_object-With id base in
                      rw deleted (
                        subst
                          (λ (x : Box).
                            Shows C F X probe (record x { uids = remove_uid id x.uids }))
                          (sym d) (deleted-Shows n msg b o i objects' there got e e' deleted))
                ])
          ])

-- `DeleteBitmessageByUID`, whatever it returns, keeps the uids and the counters those of the messages
-- in the folder, without a refresh. The mailbox's folder, as it is, is iterated in the order of its ids
-- and returns and forgets the message of the uid as it says, the probe of the search is as on uids of 32 bits, no more than 2 ^ 20,
-- and the mailbox has such uids, and `HasFlags` is the test with `&`.
pub delete_bitmessage_by_uid-Shows :
    (C : Coding) (F : Folders) (X : Flags) (probe : ℕ → ℕ → ℕ → ℕ → ℕ → ℕ)
    (box : Mailbox C F X probe) (id : ℕ)
    → IsProbe probe
    → IsFolder F box.mbox id
    → AreFlags X
    → length box.uids ≤ 1048576
    → AreSmall box.uids
    → Shows C F X probe box
    → Shows C F X probe (delete_bitmessage_by_uid C F X probe id box).0
unfolding delete_bitmessage_by_uid
delete_bitmessage_by_uid-Shows C F X probe box id p law same_flags small low v =
    elim (bmsg_by_uid-reads C F X probe p box (uids-IsSorted C F X probe same_flags box id law v)
      small low id) [
        | inr (gone, e) ↦ rw (e, delete_bitmessage_by_uid) (unfold delete_read in v)
        | inl (n, there, e, e') ↦
            subst (λ r. Shows C F X probe (delete_read C F X probe id r).0) (sym e)
              (delete_read-Shows C F X probe same_flags box id law v n
                (read_uid C F X probe id (n + 1) box) there
                (read_uid-Read C F X probe id (n + 1) box))
      ]
