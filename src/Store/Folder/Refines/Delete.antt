-- ===== src/Store/Folder/Refines/Delete.antt =====
-- `DeleteMessage` of a folder in the database, against the folder in memory.
use bmagent.Base.{
  ℕ, ◌<◌, ◌≡◌, ◌≢◌, ◌⊎◌, inl, inr, refl, sym, ap, subst, ◌∙◌, true, false, ◌||◌, Option, none, some,
  [], ◌∷◌, ◌++◌, leb, ◌==◌, Text, text_eq_refl, text_eq-false, arith, Option-cases, remove,
}
use bmagent.Data.MemFolder as Mem
use bmagent.Data.MemFolder.{Message, MemFolder, Got, got}
use bmagent.Data.MemFolder.Last.{IsValid}
use bmagent.Data.MemFolder.Contents.{delete_message-contents}
use bmagent.Data.MemFolder.Delete.{delete_message-IsValid}
use bmagent.Store.Bytes.{put_uint64}
use bmagent.Store.Box.{Boxes}
use bmagent.Store.Bucket.{Buckets, entry, IsBolt}
use bmagent.Store.Folder.{
  database, invalid_id, not_found, delete_message, delete_entry, Reply, done, failed, Place, there,
  Folder,
}
use bmagent.Store.Bytes.Trip.{split_at-put_uint64}
use bmagent.Store.Bucket.{Entries, drop_below}
use bmagent.Store.Bucket.Seek.{drop_below-entry, drop_below-found}
use bmagent.Store.Folder.Valid.{max_u64, key_of, Holds, Entries-cases}
use bmagent.Store.Folder.Changes.{Holds-remove}
use bmagent.Store.Folder.Refines.{Refines, IsBroken, reply_to}

module _ (S : Boxes) (B : Buckets) (law : IsBolt B) (f : Folder S B) (g : MemFolder)
    (r : Refines S B f g) where
  -- What the update leaves, when the bucket of the messages is as before.
  abbrev Put : B.Bucket → Folder S B
  Put m = record f { place = there m r.data_bucket }

  put-same : Put r.messages ≡ f
  put-same = ap (λ (p : Place (B.Bucket)). record f { place = p }) (sym r.place)

  delete_out :
      (id : ℕ)
      → (id == 0 || leb f.next_id id) ≡ true
      → delete_message S B id f ≡ (f, failed invalid_id)
  unfolding delete_message
  delete_out id out = rw (out, delete_message) refl

  delete_runs :
      (id : ℕ)
      → (id == 0 || leb f.next_id id) ≡ false
      → delete_message S B id f ≡ elim (drop_below (put_uint64 id) (B.entries r.messages)) [
        | [] ↦ (f, failed not_found)
        | (k, v) ∷ rest ↦
            let (m', reply) = delete_entry S B (put_uint64 id) k v r.messages in (Put m', reply)
      ]
  unfolding delete_message
  delete_runs id given =
      rw (given, delete_message) (rw r.place (rw (law.seeks (put_uint64 id) r.messages) refl))

  entry_found :
      (id suffix : ℕ) (v : Text)
      → delete_entry S B (put_uint64 id) (key_of id suffix) (some v) r.messages
        ≡ elim (B.delete (key_of id suffix) r.messages) [
          | none ↦ (r.messages, failed database)
          | some m' ↦ (m', done tt)
        ]
  unfolding delete_entry
  entry_found id suffix v =
      rw (split_at-put_uint64 id (put_uint64 suffix), delete_entry)
        (rw (text_eq_refl (put_uint64 id)) refl)

  entry_other :
      (p : Text) (id suffix : ℕ) (v : Text)
      → put_uint64 id ≢ p
      → delete_entry S B p (key_of id suffix) (some v) r.messages ≡ (r.messages, failed not_found)
  unfolding delete_entry
  entry_other p id suffix v ne =
      rw (split_at-put_uint64 id (put_uint64 suffix), delete_entry)
        (rw (text_eq-false (put_uint64 id) p ne) refl)

  entry_missing :
      (id : ℕ)
      → id < max_u64
      → g.messages id ≡ none
      → (k : Text) (x : Option Text) (rest : Entries)
      → drop_below (put_uint64 id) (B.entries r.messages) ≡ (k, x) ∷ rest
      → delete_entry S B (put_uint64 id) k x r.messages ≡ (r.messages, failed not_found)
  unfolding delete_entry
  entry_missing id small gone k none rest e = refl
  entry_missing id small gone k (some x) rest e =
      let (here, le) =
        drop_below-entry (put_uint64 id) k (some x) (B.entries r.messages) rest
          (law.sorted r.messages) e in
      let (id', suffix, key, pos, lt, hs) = r.holds.keys k x here in
      subst
        (λ t.
          delete_entry S B (put_uint64 id) t (some x) r.messages ≡ (r.messages, failed not_found))
        (sym key)
        (entry_other (put_uint64 id) id' suffix x (λ same.
          r.holds.free id small gone (put_uint64 suffix) (some x) (
            subst (λ t. entry (t ++ put_uint64 suffix) (B.entries r.messages) ≡ some (some x)) same
              (subst (λ t. entry t (B.entries r.messages) ≡ some (some x)) key here))))

  delete_missing :
      (id : ℕ)
      → (id == 0 || leb f.next_id id) ≡ false
      → id < max_u64
      → g.messages id ≡ none
      → delete_message S B id f ≡ (f, failed not_found)
  delete_missing id given small gone =
      elim (Entries-cases (drop_below (put_uint64 id) (B.entries r.messages))) [
        | inl e ↦ rw (delete_runs id given) (rw e refl)
        | inr (k, x, rest, e) ↦
            delete_runs id given
            ∙ rw e (
                rw (entry_missing id small gone k x rest e)
                  (ap {B = Folder S B × Reply Unit} (λ t. (t, failed not_found)) put-same))
      ]

  delete_found :
      (id : ℕ) (msg : Message)
      → (id == 0 || leb f.next_id id) ≡ false
      → id < max_u64
      → g.messages id ≡ some msg
      → delete_message S B id f ≡ (
          let t : B.Bucket × Reply Unit = elim (B.delete (key_of id msg.suffix) r.messages) [
            | none ↦ (r.messages, failed database)
            | some m' ↦ (m', done tt)
          ] in
          (Put t.0, t.1))
  delete_found id msg given small at =
      let (x, here, opens, hs) = r.holds.stored id msg small at in
      let (rest, found) =
        drop_below-found (put_uint64 id) (put_uint64 msg.suffix) (some x) (B.entries r.messages)
          (law.sorted r.messages) here
          (λ q y e'. r.holds.single id q (put_uint64 msg.suffix) y (some x) small e' here) in
      rw (delete_runs id given) (rw found (rw (entry_found id msg.suffix x) refl))

  deleted-Refines :
      (id : ℕ) (msg : Message) (m' : B.Bucket)
      → id < max_u64
      → g.messages id ≡ some msg
      → B.delete (key_of id msg.suffix) r.messages ≡ some m'
      → (g' : MemFolder) → g'.messages ≡ remove id g.messages
      → g'.next_index ≡ g.next_index
      → IsValid g'
      → Refines S B (Put m') g'
  deleted-Refines id msg m' small at deleted g' contents counter v = record {
    messages = m';
    data_bucket = r.data_bucket;
    place = refl;
    holds =
        subst (λ ms. Holds S B f.master_key f.next_id m' ms) (sym contents)
          (Holds-remove S B law f.master_key f.next_id r.messages g.messages r.holds id msg m' small
            at deleted);
    next = r.next ∙ sym counter;
    small = r.small;
    written = r.written;
    valid = v;
  }

  -- `DeleteMessage`
  pub delete_message-Refines :
      (id : ℕ)
      → let (f', reply) = delete_message S B id f in
        let (g', e) = Mem.delete_message id g in
        (Refines S B f' g' × (reply ≡ reply_to e)) ⊎ (IsBroken reply × (f' ≡ f))
  delete_message-Refines id = elim (delete_message-contents id g) [
    | inr (inr (out, e, same)) ↦
        rw (delete_out id (ground (arith, r.next)))
          (inl (subst (λ x. Refines S B f x) (sym same) r, ap reply_to (sym e)))
    | inr (inl ((pos, lt), gone, e, same)) ↦
        rw (delete_missing id (ground (arith, r.next)) (omega (arith, r.next, r.small)) gone)
          (inl (subst (λ x. Refines S B f x) (sym same) r, ap reply_to (sym e)))
    | inl (msg, (pos, lt), at, e, contents, counter) ↦
        elim (Option-cases (B.delete (key_of id msg.suffix) r.messages)) [
          | inl d ↦
              rw (delete_found id msg (ground (arith, r.next)) (omega (arith, r.next, r.small)) at)
                (rw d (inr (inr refl, put-same)))
          | inr (m', d) ↦
              rw (delete_found id msg (ground (arith, r.next)) (omega (arith, r.next, r.small)) at)
                (rw d (
                  inl (
                    deleted-Refines id msg m' (omega (arith, r.next, r.small)) at d
                        (Mem.delete_message id g).0 contents counter
                        (delete_message-IsValid id g r.valid),
                    ap reply_to (sym e),
                  )))
        ]
  ]
