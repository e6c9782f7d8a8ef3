-- ===== src/Store/Folder/Refines/New.antt =====
-- `InsertNewMessage` of a folder in the database, against the folder in memory.
use bmagent.Base.{
  ℕ, ◌+◌, ◌<◌, ◌≡◌, ◌⊎◌, inl, inr, refl, sym, ap, subst, ◌∙◌, Option, none, some, u64, Text, arith,
  Option-cases, put,
}
use bmagent.Data.MemFolder as Mem
use bmagent.Data.MemFolder.{Message, MemFolder, Got, got}
use bmagent.Data.MemFolder.Contents.{insert_new_message-contents}
use bmagent.Data.MemFolder.Insert.{insert_new_message-IsValid, unused}
use bmagent.Store.Bytes.{put_uint64}
use bmagent.Store.Box.{Boxes, opened, encrypt, decrypt}
use bmagent.Store.Bucket.{Buckets, IsBolt}
use bmagent.Store.Folder.{
  Error, database, not_encrypted, done, failed, Place, there, Folder, folder_next_id_key, add_new,
  insert_new_message,
}
use bmagent.Store.Folder.Valid.{max_u64, key_of, Holds}
use bmagent.Store.Folder.Changes.{taken-free, Holds-put}
use bmagent.Store.Folder.Refines.{Opens, IsNonce, Refines, IsBroken, encrypted, get-put}

module _ (S : Boxes) (B : Buckets) (law : IsBolt B) (opens : Opens S) where
  module _ (f : Folder S B) (g : MemFolder) (r : Refines S B f g) where
    not_encrypted_new :
        (drawn : Option Text) (msg : Text) (suffix : ℕ)
        → encrypt S f.master_key drawn msg ≡ none
        → insert_new_message S B drawn (some msg) suffix f ≡ (f, failed not_encrypted)
    unfolding insert_new_message
    not_encrypted_new drawn msg suffix e = rw (e, insert_new_message) refl

    module _ (drawn : Option Text) (msg enc : Text) (suffix : ℕ)
        (e : encrypt S f.master_key drawn msg ≡ some enc) where
      add_new-runs : insert_new_message S B drawn (some msg) suffix f ≡ (
          let (place, e) = add_new S B f.next_id suffix enc r.messages r.data_bucket in
          elim e [
            | some error ↦ (f, failed error)
            | none ↦ (record f { place = place; next_id = u64 (f.next_id + 1) }, done f.next_id)
          ])
      unfolding insert_new_message
      add_new-runs = rw (e, insert_new_message) (rw r.place refl)

    unused_next : g.messages f.next_id ≡ none
    unused_next = unused g f.next_id r.valid (omega (arith, r.next))

    add_new_cases :
        (suffix : ℕ) (enc : Text)
        → (add_new S B f.next_id suffix enc r.messages r.data_bucket
            ≡ (there r.messages r.data_bucket, some database))
          ⊎ ((m' : B.Bucket) × (d' : B.Bucket) × (B.put (key_of f.next_id suffix) enc r.messages
                ≡ some m')
              × (B.put folder_next_id_key (put_uint64 (u64 (f.next_id + 1))) r.data_bucket
                  ≡ some d')
              × (add_new S B f.next_id suffix enc r.messages r.data_bucket ≡ (there m' d', none)))
    unfolding add_new
    add_new_cases suffix enc =
        let free =
          taken-free S B law f.master_key f.next_id r.messages g.messages r.holds f.next_id r.small
            unused_next in
        elim (Option-cases
          (B.put folder_next_id_key (put_uint64 (u64 (f.next_id + 1))) r.data_bucket)) [
            | inl e1 ↦ inl (rw (e1, add_new) refl)
            | inr (d', e1) ↦ elim (Option-cases (B.put (key_of f.next_id suffix) enc r.messages)) [
              | inl e2 ↦ inl (rw (e1, add_new) (rw free (rw e2 refl)))
              | inr (m', e2) ↦ inr (m', d', e2, e1, rw (e1, add_new) (rw free (rw e2 refl)))
            ]
          ]

    added-Refines :
        (msg enc : Text) (suffix : ℕ) (m' d' : B.Bucket)
        → suffix < max_u64
        → f.next_id + 1 < max_u64
        → decrypt S f.master_key enc ≡ opened msg
        → B.put (key_of f.next_id suffix) enc r.messages ≡ some m'
        → B.put folder_next_id_key (put_uint64 (u64 (f.next_id + 1))) r.data_bucket ≡ some d'
        → Refines S B
            (record f { place = there m' d'; next_id = u64 (f.next_id + 1) })
            (Mem.insert_new_message (some msg) suffix g).0
    added-Refines msg enc suffix m' d' hs more opens' e2 e1 =
        let (contents, counter, _, _) = insert_new_message-contents msg suffix g in
        let next : u64 (f.next_id + 1) ≡ f.next_id + 1 = omega arith in
        let message : Message = record { payload = msg; suffix = suffix } in
        record {
          messages = m';
          data_bucket = d';
          place = refl;
          holds =
              subst (λ ms. Holds S B f.master_key (u64 (f.next_id + 1)) m' ms)
                (ap (λ n. put n message g.messages) r.next ∙ sym contents)
                (Holds-put S B law f.master_key f.next_id r.messages g.messages r.holds f.next_id
                  (u64 (f.next_id + 1)) message enc m' (omega (arith, r.next, r.valid.started))
                  (omega arith) (omega arith) r.small hs unused_next opens' e2);
          next = omega (arith, counter, r.next);
          small = omega arith;
          written =
              get-put S B law opens folder_next_id_key (put_uint64 (u64 (f.next_id + 1)))
                r.data_bucket d' e1;
          valid = insert_new_message-IsValid (some msg) suffix g r.valid (omega (arith, r.next));
        }

    -- `InsertNewMessage`
    pub insert_new_message-Refines :
        (drawn : Option Text) (msg : Text) (suffix : ℕ)
        → IsNonce drawn
        → suffix < max_u64
        → f.next_id + 1 < max_u64
        → let (f', reply) = insert_new_message S B drawn (some msg) suffix f in
          let (g', id, e) = Mem.insert_new_message (some msg) suffix g in
          (Refines S B f' g' × (reply ≡ done id)) ⊎ (IsBroken reply × (f' ≡ f))
    insert_new_message-Refines drawn msg suffix hn hs more =
        elim (Option-cases (encrypt S f.master_key drawn msg)) [
          | inl e ↦ rw (not_encrypted_new drawn msg suffix e) (inr (inl refl, refl))
          | inr (enc, e) ↦ elim (add_new_cases suffix enc) [
            | inl e' ↦ rw (add_new-runs drawn msg enc suffix e) (rw e' (inr (inr refl, refl)))
            | inr (m', d', e2, e1, e') ↦ rw (add_new-runs drawn msg enc suffix e) (
                rw (ap (λ (t : Place (B.Bucket) × Option Error). t.1) e') (
                  rw (ap (λ (t : Place (B.Bucket) × Option Error). t.0) e') (
                    inl (
                      added-Refines msg enc suffix m' d' hs more
                          (encrypted S B law opens f.master_key drawn msg enc hn e) e2 e1,
                      ap done (r.next ∙ sym (insert_new_message-contents msg suffix g).2),
                    ))))
          ]
        ]
