-- ===== src/Store/Folder/Refines/Open.antt =====
-- `newFolder` of a folder that is not in the database yet, and of one that is.
use mathlib.Core.Option.{some-ne-none}
use bmagent.Base.{
  ℕ, ◌≡◌, ◌≢◌, ◌⊎◌, inl, inr, refl, sym, ap, ◌∙◌, Option, none, some, ◌∷◌, ◌++◌, Text, text_eq,
  text_eq_iff, arith, Bool-cases, Option-cases, empty_map,
}
use bmagent.Data.MemFolder.{MemFolder, new_mem_folder}
use bmagent.Data.MemFolder.Last.{new_mem_folder-IsValid}
use bmagent.Store.Bytes.{put_uint64, split_at}
use bmagent.Store.Bytes.Trip.{split_at-put_uint64, uint64-alone}
use bmagent.Store.Box.{Boxes}
use bmagent.Store.Bucket.{Buckets, entry, IsBolt}
use bmagent.Store.Folder.{
  Error, database, Reply, done, failed, panicked, Place, no_folder, there, Folder, create_folder,
  initialize, new_folder, folder_data_bucket, folder_next_id_key, folder_created_on_key,
}
use bmagent.Store.Folder.Valid.{Holds}
use bmagent.Store.Folder.Refines.{Opens, Refines, get-put}

module _ (S : Boxes) (B : Buckets) (law : IsBolt B) (opens : Opens S) where
  new_entries :
      (b m : B.Bucket) (k : Text) (x : Option Text)
      → B.create ≡ some b
      → B.nest folder_data_bucket b ≡ some m
      → entry k (B.entries m) ≡ some x
      → (folder_data_bucket ≡ k) × (x ≡ none)
  unfolding entry
  new_entries b m k x created nested at =
      let there = law.nests folder_data_bucket k b m nested in
      let empty : entry k (B.entries b) ≡ none = rw (law.creates b created) refl in
      elim (Bool-cases (text_eq folder_data_bucket k)) [
        | inl same ↦ ((text_eq_iff folder_data_bucket k).0 same, ground arith)
        | inr ne ↦ absurd (ground arith)
      ]

  not_data : (id : ℕ) (q : Text) → folder_data_bucket ≢ put_uint64 id ++ q
  unfolding split_at
  not_data id q e =
      some-ne-none (put_uint64 id, q) (sym (split_at-put_uint64 id q) ∙ sym (ap (split_at 8) e))

  new_bucket-Holds :
      (key : Option (S.Key)) (b m : B.Bucket)
      → B.create ≡ some b
      → B.nest folder_data_bucket b ≡ some m
      → Holds S B key 1 m empty_map
  new_bucket-Holds key b m created nested = record {
    keys = λ k v at. absurd (some-ne-none v (new_entries b m k (some v) created nested at).1);
    single = λ id q q' x x' small at at'.
        absurd (not_data id q (new_entries b m (put_uint64 id ++ q) x created nested at).0);
    stored = λ id msg small at. absurd (ground arith);
    free = λ id small gone q x at.
        not_data id q (new_entries b m (put_uint64 id ++ q) x created nested at).0;
  }

  -- The buckets of a new folder, where the number of the next message is written or not.
  IsNew : B.Bucket → B.Bucket → Type 0
  IsNew m d =
      ((key : Option (S.Key)) → Holds S B key 1 m empty_map)
      × ((B.get folder_next_id_key d ≡ some (put_uint64 1))
          ⊎ ((B.get folder_next_id_key d ≡ none)
              × (B.put folder_next_id_key (put_uint64 1) d ≡ none)))

  -- What makes the database refuse a new folder: a bucket that is not made, a time that is not written
  -- out, or an entry that is not put.
  abbrev pub Refuses : Option Text → Type 0
  Refuses now =
      (B.create ≡ none)
      ⊎ ((b : B.Bucket) × (B.create ≡ some b)
          × ((B.nest folder_data_bucket b ≡ none)
              ⊎ ((now ≡ none)
                  ⊎ ((created : Text) × (now ≡ some created)
                      × (B.put folder_created_on_key created b ≡ none)))))

  unwritten :
      (created : Text) (b d : B.Bucket)
      → B.create ≡ some b
      → B.put folder_created_on_key created b ≡ some d
      → B.get folder_next_id_key d ≡ none
  unfolding entry text_eq
  unwritten created b d fresh put =
      let there = law.puts folder_created_on_key created folder_next_id_key b d put in
      let empty : entry folder_next_id_key (B.entries b) ≡ none = rw (law.creates b fresh) refl in
      rw (law.gets folder_next_id_key d) (rw there (rw empty refl))

  create_folder-cases :
      (now : Option Text)
      → ((create_folder S B now ≡ (no_folder, some database)) × Refuses now)
        ⊎ ((m : B.Bucket) × (d : B.Bucket) × (create_folder S B now ≡ (there m d, none))
            × IsNew m d)
  unfolding create_folder IsNew
  create_folder-cases now = elim (Option-cases B.create) [
    | inl e ↦ inl (rw (e, create_folder) refl, inl e)
    | inr (b, e) ↦ elim (Option-cases (B.nest folder_data_bucket b)) [
      | inl e1 ↦ inl (rw (e, create_folder) (rw e1 refl), inr (b, e, inl e1))
      | inr (m, e1) ↦ elim (Option-cases now) [
        | inl e2 ↦ inl (rw (e, create_folder) (rw e1 (rw e2 refl)), inr (b, e, inr (inl e2)))
        | inr (created, e2) ↦ elim (Option-cases (B.put folder_created_on_key created b)) [
          | inl e3 ↦ inl (
            rw (e, create_folder) (rw e1 (rw e2 (rw e (rw e3 refl)))),
            inr (b, e, inr (inr (created, e2, e3))),
          )
          | inr (d, e3) ↦ elim (Option-cases (B.put folder_next_id_key (put_uint64 1) d)) [
            | inl e4 ↦ inr (
              m,
              d,
              rw (e, create_folder) (rw e1 (rw e2 (rw e (rw e3 (rw e4 refl))))),
              (λ key. new_bucket-Holds key b m e e1, inr (unwritten created b d e e3, e4)),
            )
            | inr (d', e4) ↦ inr (
              m,
              d',
              rw (e, create_folder) (rw e1 (rw e2 (rw e (rw e3 (rw e4 refl))))),
              (
                λ key. new_bucket-Holds key b m e e1,
                inl (get-put S B law opens folder_next_id_key (put_uint64 1) d d' e4),
              ),
            )
          ]
        ]
      ]
    ]
  ]

  opened_at : Option (S.Key) → ℕ → Place (B.Bucket) → Folder S B
  opened_at key next place = record { master_key = key; next_id = next; place = place }

  new_folder-runs :
      (key : Option (S.Key)) (c : ℕ) (name : Text) (now : Option Text)
      → new_folder S B key (c ∷ name) now no_folder ≡ (
          let (place, e) = create_folder S B now in
          elim e [
            | some error ↦ (opened_at key 1 no_folder, failed error)
            | none ↦ (opened_at key 1 place, done tt)
          ])
  unfolding new_folder initialize text_eq opened_at
  new_folder-runs key c name now = refl

  initialize-lost :
      (now : Option Text) (f : Folder S B) (m d : B.Bucket)
      → f.place ≡ there m d
      → B.get folder_next_id_key d ≡ none
      → (initialize S B now f).1 ≡ panicked
  unfolding initialize
  initialize-lost now f m d e e' = rw (e, initialize) (rw e' refl)

  new_folder-lost :
      (key : Option (S.Key)) (c : ℕ) (name : Text) (now : Option Text) (m d : B.Bucket)
      → B.get folder_next_id_key d ≡ none
      → (new_folder S B key (c ∷ name) now (there m d)).1 ≡ panicked
  unfolding new_folder text_eq opened_at
  new_folder-lost key c name now m d e =
      initialize-lost now (opened_at key 1 (there m d)) m d refl e

  -- `newFolder` of a name, where the database has no such folder: it is refused where a bucket is not
  -- made, the time is not written out or its entry is not put; or the folder stands for an empty folder
  -- in memory, with the number of its next message written; or the database refused to put that number,
  -- no error is returned, and to open the folder again is a panic.
  pub new_folder-Refines :
      (key : Option (S.Key)) (c : ℕ) (name : Text) (now : Option Text)
      → let (f, reply) = new_folder S B key (c ∷ name) now no_folder in
        ((reply ≡ failed database) × Refuses now)
        ⊎ ((reply ≡ done tt) × Refines S B f new_mem_folder)
        ⊎ ((reply ≡ done tt)
            × ((m : B.Bucket) × (d : B.Bucket) × (f.place ≡ there m d)
                × (B.put folder_next_id_key (put_uint64 1) d ≡ none))
            × ((again : Option Text) → (new_folder S B key (c ∷ name) again f.place).1 ≡ panicked))
  unfolding IsNew new_mem_folder opened_at
  new_folder-Refines key c name now = elim (create_folder-cases now) [
    | inl (e, why) ↦
        rw (new_folder-runs key c name now)
          (rw (ap (λ (t : Place (B.Bucket) × Option Error). t.1) e) (inl (refl, why)))
    | inr (m, d, e, (held, next)) ↦ rw (new_folder-runs key c name now) (
        rw (ap (λ (t : Place (B.Bucket) × Option Error). t.1) e) (
          rw (ap (λ (t : Place (B.Bucket) × Option Error). t.0) e) (
            inr (elim next [
              | inl written ↦ inl (
                refl,
                record {
                  messages = m;
                  data_bucket = d;
                  place = refl;
                  holds = held key;
                  next = refl;
                  small = omega arith;
                  written = written;
                  valid = new_mem_folder-IsValid;
                },
              )
              | inr (lost, unput) ↦
                  inr
                    (refl, (m, d, refl, unput), λ again. new_folder-lost key c name again m d lost)
            ]))))
  ]

  -- To open a folder of the database again, with the number of its next message forgotten, gives the
  -- folder as it was.
  pub initialize-Refines :
      (now : Option Text) (f : Folder S B) (g : MemFolder)
      → Refines S B f g
      → initialize S B now (record f { next_id = 1 }) ≡ (f, done tt)
  unfolding initialize
  initialize-Refines now f g r =
      rw (r.place, initialize)
        (rw r.written (
          rw (uint64-alone f.next_id r.small) (
            ap {B = Folder S B × Reply Unit}
              (λ (p : Place (B.Bucket)). (record f { place = p }, done tt)) r.place)))
