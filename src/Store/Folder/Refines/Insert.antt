-- ===== src/Store/Folder/Refines/Insert.antt =====
-- `InsertMessage` of a folder in the database, against the folder in memory.
use bmagent.Base.{
  ℕ, ◌<◌, ◌≡◌, ◌⊎◌, inl, inr, refl, sym, ap, subst, ◌∙◌, true, false, ◌||◌, Option, none, some, leb,
  ◌==◌, Text, arith, Option-cases, put,
}
use bmagent.Data.MemFolder as Mem
use bmagent.Data.MemFolder.{Message, MemFolder, Got, got}
use bmagent.Data.MemFolder.Last.{IsValid}
use bmagent.Data.MemFolder.Contents.{Given, insert_message-contents}
use bmagent.Data.MemFolder.Insert.{insert_message-IsValid}
use bmagent.Store.Box.{Boxes, opened, encrypt, decrypt}
use bmagent.Store.Bucket.{Buckets, IsBolt}
use bmagent.Store.Folder.{
  Error, database, not_encrypted, duplicate_id, invalid_id, insert_message, add_at, taken, done,
  failed, there, Folder,
}
use bmagent.Store.Folder.Valid.{max_u64, key_of, Holds}
use bmagent.Store.Folder.Changes.{taken-free, taken-stored, Holds-put}
use bmagent.Store.Folder.Refines.{Opens, IsNonce, Refines, IsBroken, encrypted, reply_to}

module _ (S : Boxes) (B : Buckets) (law : IsBolt B) (opens : Opens S) (f : Folder S B)
    (g : MemFolder) (r : Refines S B f g) where
  insert_out :
      (drawn : Option Text) (id : ℕ) (msg : Text) (suffix : ℕ)
      → (id == 0 || leb f.next_id id) ≡ true
      → insert_message S B drawn id (some msg) suffix f ≡ (f, failed invalid_id)
  unfolding insert_message
  insert_out drawn id msg suffix out = rw (out, insert_message) refl

  insert_not_encrypted :
      (drawn : Option Text) (id : ℕ) (msg : Text) (suffix : ℕ)
      → (id == 0 || leb f.next_id id) ≡ false
      → encrypt S f.master_key drawn msg ≡ none
      → insert_message S B drawn id (some msg) suffix f ≡ (f, failed not_encrypted)
  unfolding insert_message
  insert_not_encrypted drawn id msg suffix given e = rw (given, insert_message) (rw e refl)

  add_at-runs :
      (drawn : Option Text) (id : ℕ) (msg enc : Text) (suffix : ℕ)
      → (id == 0 || leb f.next_id id) ≡ false
      → encrypt S f.master_key drawn msg ≡ some enc
      → insert_message S B drawn id (some msg) suffix f ≡ (
          let (m', e) = add_at S B id suffix enc r.messages in
          elim e [
            | some error ↦ (f, failed error)
            | none ↦ (record f { place = there m' r.data_bucket }, done tt)
          ])
  unfolding insert_message
  add_at-runs drawn id msg enc suffix given e = rw (given, insert_message) (rw e (rw r.place refl))

  insert_error :
      (drawn : Option Text) (id : ℕ) (msg enc : Text) (suffix : ℕ) (m' : B.Bucket) (x : Error)
      → (id == 0 || leb f.next_id id) ≡ false
      → encrypt S f.master_key drawn msg ≡ some enc
      → add_at S B id suffix enc r.messages ≡ (m', some x)
      → insert_message S B drawn id (some msg) suffix f ≡ (f, failed x)
  insert_error drawn id msg enc suffix m' x given e a =
      rw (add_at-runs drawn id msg enc suffix given e)
        (rw (ap (λ (t : B.Bucket × Option Error). t.1) a) refl)

  insert_done :
      (drawn : Option Text) (id : ℕ) (msg enc : Text) (suffix : ℕ) (m' : B.Bucket)
      → (id == 0 || leb f.next_id id) ≡ false
      → encrypt S f.master_key drawn msg ≡ some enc
      → add_at S B id suffix enc r.messages ≡ (m', none)
      → insert_message S B drawn id (some msg) suffix f
        ≡ (record f { place = there m' r.data_bucket }, done tt)
  insert_done drawn id msg enc suffix m' given e a =
      rw (add_at-runs drawn id msg enc suffix given e) (
        rw (ap (λ (t : B.Bucket × Option Error). t.1) a)
          (rw (ap (λ (t : B.Bucket × Option Error). t.0) a) refl))

  add_at-taken :
      (id suffix : ℕ) (enc : Text)
      → taken S B id r.messages ≡ true
      → add_at S B id suffix enc r.messages ≡ (r.messages, some duplicate_id)
  unfolding add_at
  add_at-taken id suffix enc t = rw (t, add_at) refl

  add_at_free :
      (id suffix : ℕ) (enc : Text)
      → taken S B id r.messages ≡ false
      → add_at S B id suffix enc r.messages ≡ elim (B.put (key_of id suffix) enc r.messages) [
        | none ↦ (r.messages, some database)
        | some m' ↦ (m', none)
      ]
  unfolding add_at
  add_at_free id suffix enc t = rw (t, add_at) refl

  Given-here : (id : ℕ) → Given id g → (id == 0 || leb f.next_id id) ≡ false
  Given-here id (pos, lt) = ground (arith, r.next)

  inserted-Refines :
      (id suffix : ℕ) (msg enc : Text) (m' : B.Bucket)
      → Given id g
      → g.messages id ≡ none
      → suffix < max_u64
      → decrypt S f.master_key enc ≡ opened msg
      → B.put (key_of id suffix) enc r.messages ≡ some m'
      → (g' : MemFolder)
      → g'.messages ≡ put id (record { payload = msg; suffix = suffix }) g.messages
      → g'.next_index ≡ g.next_index
      → IsValid g'
      → Refines S B (record f { place = there m' r.data_bucket }) g'
  inserted-Refines id suffix msg enc m' (pos, lt) e hs opens' e2 g' contents counter v =
      let message : Message = record { payload = msg; suffix = suffix } in
      record {
        messages = m';
        data_bucket = r.data_bucket;
        place = refl;
        holds =
            subst (λ ms. Holds S B f.master_key f.next_id m' ms) (sym contents)
              (Holds-put S B law f.master_key f.next_id r.messages g.messages r.holds id f.next_id
                message enc m' pos (omega (arith, r.next)) (omega arith)
                (omega (arith, r.next, r.small)) hs e opens' e2);
        next = r.next ∙ sym counter;
        small = r.small;
        written = r.written;
        valid = v;
      }

  -- `InsertMessage`
  pub insert_message-Refines :
      (drawn : Option Text) (id : ℕ) (msg : Text) (suffix : ℕ)
      → IsNonce drawn
      → suffix < max_u64
      → let (f', reply) = insert_message S B drawn id (some msg) suffix f in
        let (g', e) = Mem.insert_message id (some msg) suffix g in
        (Refines S B f' g' × (reply ≡ reply_to e)) ⊎ (IsBroken reply × (f' ≡ f))
  insert_message-Refines drawn id msg suffix hn hs =
      elim (insert_message-contents id msg suffix g) [
        | inr (inr (out, e, same)) ↦
            rw (insert_out drawn id msg suffix (ground (arith, r.next)))
              (inl (subst (λ x. Refines S B f x) (sym same) r, ap reply_to (sym e)))
        | inr (inl (m, given, at, e, same)) ↦
            elim (Option-cases (encrypt S f.master_key drawn msg)) [
              | inl c ↦
                  rw (insert_not_encrypted drawn id msg suffix (Given-here id given) c)
                    (inr (inl refl, refl))
              | inr (enc, c) ↦
                  let t =
                    taken-stored S B law f.master_key f.next_id r.messages g.messages r.holds id m
                      (omega (arith, given.1, r.next, r.small)) at in
                  rw
                    (insert_error drawn id msg enc suffix r.messages duplicate_id
                      (Given-here id given) c (add_at-taken id suffix enc t))
                    (inl (subst (λ x. Refines S B f x) (sym same) r, ap reply_to (sym e)))
            ]
        | inl (given, at, e, contents, counter) ↦
            elim (Option-cases (encrypt S f.master_key drawn msg)) [
              | inl c ↦
                  rw (insert_not_encrypted drawn id msg suffix (Given-here id given) c)
                    (inr (inl refl, refl))
              | inr (enc, c) ↦
                  let t =
                    taken-free S B law f.master_key f.next_id r.messages g.messages r.holds id
                      (omega (arith, given.1, r.next, r.small)) at in
                  elim (Option-cases (B.put (key_of id suffix) enc r.messages)) [
                    | inl w ↦
                        rw
                          (insert_error drawn id msg enc suffix r.messages database
                            (Given-here id given) c (add_at_free id suffix enc t ∙ rw w refl))
                          (inr (inr refl, refl))
                    | inr (m', w) ↦
                        rw
                          (insert_done drawn id msg enc suffix m' (Given-here id given) c
                            (add_at_free id suffix enc t ∙ rw w refl))
                          (inl (
                            inserted-Refines id suffix msg enc m' given at hs
                                (encrypted S B law opens f.master_key drawn msg enc hn c) w
                                (Mem.insert_message id (some msg) suffix g).0 contents counter
                                (insert_message-IsValid id (some msg) suffix g r.valid),
                            ap reply_to (sym e),
                          ))
                  ]
            ]
      ]
