-- ===== src/Store/Loader/Made.antt =====
-- `Construct` of a new database.
use bmagent.Base.{
  ◌≡◌, inl, inr, refl, sym, ap, subst, ◌∙◌, true, false, Option, none, some, Text, text_eq, arith,
  Bool-cases,
}
use bmagent.Store.Bucket.{Buckets, IsBolt, entry}
use bmagent.Store.Loader.{
  database, Result, ok, >>=-ok, Result-cases, checked, checked-ok, version_key, db_master_key_enc,
  counters_bucket, Ciphers, Drawn, Database, create_missing, nest_missing, verify, prepare,
  new_database,
}
use bmagent.Store.Loader.Users.{finish_construct, construct}
use bmagent.Store.Loader.Locked.{IsCipher, IsDrawn, Locked, new_database-Locked}
use bmagent.Store.Loader.Opening.{
  Disk, Shop, IsReady, Constructed, create_missing-cases, finish_construct-IsReady,
  construct-IsReady,
}

module _ (H : Ciphers) (B : Buckets) (law : IsBolt B) (cipher : IsCipher H) where
  nested_empty :
      (m m1 c : B.Bucket) (o : Option (B.Bucket)) (k : Text)
      → B.create ≡ some m
      → nest_missing H B counters_bucket m o ≡ ok (m1, c)
      → text_eq counters_bucket k ≡ false
      → B.get k m1 ≡ none
  unfolding nest_missing entry
  nested_empty m m1 c (some b) k fresh e ne =
      let same : m ≡ m1 = ground arith in
      subst (λ t. B.get k t ≡ none) same (rw (law.gets k m) (rw (law.creates m fresh) refl))
  nested_empty m m1 c none k fresh e ne =
      let (m2, e1, r1) = >>=-ok (checked database (B.nest counters_bucket m)) _ e in
      let (c2, e2, r2) = >>=-ok (checked database B.create) _ r1 in
      let nested = checked-ok database (B.nest counters_bucket m) e1 in
      let same : m2 ≡ m1 = ground arith in
      subst (λ t. B.get k t ≡ none) same
        (rw (law.gets k m2)
          (rw (law.nests counters_bucket k m m2 nested) (rw ne (rw (law.creates m fresh) refl))))

  -- The first transaction makes the buckets of a new database.
  prepare-new :
      (pass : Option Text) (drawn : Drawn) (file file' : Database H B) (master : Text)
      → IsDrawn drawn
      → file.misc ≡ none
      → prepare H B pass drawn file ≡ ok (master, file')
      → (misc : B.Bucket) × (counters : B.Bucket) × (users : B.Bucket) × (file'
          ≡ record file { misc = some misc; counters = some counters; users = some users })
        × Locked H B pass master misc
  unfolding prepare create_missing nest_missing verify entry text_eq
  prepare-new pass drawn file file' master d new e =
      let (m, e0, r0) = >>=-ok (create_missing H B (file.misc)) _ e in
      let fresh : B.create ≡ some m =
        checked-ok database B.create (ap (create_missing H B) (sym new) ∙ e0) in
      let ((m1, c), e1, r1) = >>=-ok (nest_missing H B counters_bucket m (file.counters)) _ r0 in
      let (u, e2, r2) = >>=-ok (create_missing H B (file.users)) _ r1 in
      let ((k, m2), e3, r3) = >>=-ok (verify H B pass drawn m1) _ r2 in
      let empty = λ (k : Text). nested_empty m m1 c (file.counters) k fresh e1 in
      let made : new_database H B pass drawn m1 ≡ ok (k, m2) =
        sym (rw ((empty version_key refl), verify) refl) ∙ e3 in
      let same : (k, (record file { misc = some m2; counters = some c; users = some u }))
          ≡ (master, file') =
        ground arith in
      (
        m2,
        c,
        u,
        sym (ap (λ (t : Text × Database H B). t.1) same),
        subst (λ t. Locked H B pass t m2) (ap (λ (t : Text × Database H B). t.0) same)
            (new_database-Locked H B law pass drawn m1 m2 k d (empty db_master_key_enc refl) made),
      )

module _ (H : Ciphers) (B : Buckets) {Address : Type 0} (decode : Text → Option Address)
    (ripe : Address → Text) (law : IsBolt B) (cipher : IsCipher H) where
  abbrev Out : Type 0
  Out = Disk H B decode ripe × Result (Shop H B decode ripe)

  construct-ok :
      (pass : Option Text) (drawn : Drawn) (l l' : Disk H B decode ripe) (s : Shop H B decode ripe)
      → construct H B decode ripe pass drawn l ≡ (l', ok s)
      → (master : Text) × (file : Database H B) × (prepare H B pass drawn l.file
          ≡ ok (master, file))
        × (finish_construct H B decode ripe master file l ≡ (l', ok s))
  unfolding construct
  construct-ok pass drawn l l' s e = elim (Bool-cases (l.is_open)) [
    | inr shut ↦ absurd (ground arith)
    | inl t ↦ elim (Result-cases (prepare H B pass drawn l.file)) [
      | inl (x, bad) ↦ absurd (ground arith)
      | inr (inl bad) ↦ absurd (ground arith)
      | inr (inr ((master, file), good)) ↦ (master, file, good, ground arith)
    ]
  ]

  finish_construct-made :
      (master : Text) (file : Database H B) (pk : B.Bucket) (l : Disk H B decode ripe)
      → create_missing H B file.pk_requests ≡ ok pk
      → finish_construct H B decode ripe master file l
        ≡ finish_construct H B decode ripe master (record file { pk_requests = some pk }) l
  unfolding finish_construct create_missing
  finish_construct-made master file pk l e = rw (e, finish_construct) refl

  finish_construct-ok :
      (master : Text) (file : Database H B) (l l' : Disk H B decode ripe) (s : Shop H B decode ripe)
      → finish_construct H B decode ripe master file l ≡ (l', ok s)
      → (pk : B.Bucket) × (create_missing H B file.pk_requests ≡ ok pk)
  unfolding finish_construct
  finish_construct-ok master file l l' s e =
      elim (create_missing-cases H B decode ripe file.pk_requests) [
        | inl bad ↦ absurd (ground arith)
        | inr (pk, good) ↦ (pk, good)
      ]

  same_result :
      (pass : Option Text) (master : Text) (l' : Disk H B decode ripe) (s : Shop H B decode ripe)
      → Constructed H B decode ripe law cipher pass master (l', ok s)
      → (s.master_key ≡ some master) × IsReady H B decode ripe pass master l'.file
  same_result pass master l' s (l2, s2, e, key, v) =
      let same_s : s ≡ s2 = ground arith in
      let same_l : l' ≡ l2 = ground arith in
      (
        ap (λ (t : Shop H B decode ripe). t.master_key) same_s ∙ key,
        subst (λ (t : Disk H B decode ripe). IsReady H B decode ripe pass master t.file)
            (sym same_l) v,
      )

  -- A new database that was constructed is ready.
  pub construct-new :
      (pass : Option Text) (drawn : Drawn) (l l' : Disk H B decode ripe) (s : Shop H B decode ripe)
      → IsDrawn drawn
      → l.file.misc ≡ none
      → construct H B decode ripe pass drawn l ≡ (l', ok s)
      → (master : Text) × (s.master_key ≡ some master) × IsReady H B decode ripe pass master l'.file
  construct-new pass drawn l l' s d new e =
      let (master, file, prepared, finished) = construct-ok pass drawn l l' s e in
      let (misc, counters, users, is_file, locked) =
        prepare-new H B law cipher pass drawn l.file file master d new prepared in
      let (pk, made) = finish_construct-ok master file l l' s finished in
      let ready : Database H B = record file { pk_requests = some pk } in
      let v : IsReady H B decode ripe pass master ready = record {
        misc = misc;
        counters = counters;
        users = users;
        pk_requests = pk;
        has_misc = ap (λ (t : Database H B). t.misc) is_file;
        has_counters = ap (λ (t : Database H B). t.counters) is_file;
        has_users = ap (λ (t : Database H B). t.users) is_file;
        has_pk_requests = refl;
        locked = locked;
      } in
      let runs = sym (finish_construct-made master file pk l made) ∙ finished in
      let (key, v') = same_result pass master l' s (
        subst (Constructed H B decode ripe law cipher pass master) runs
          (finish_construct-IsReady H B decode ripe law cipher pass master ready l v)) in
      (master, key, v')

  -- A database that was made with a password, or without one, opens with it again: `Construct` succeeds,
  -- whatever is drawn, and gives the store the same master key. The boxes open and are 16 bytes longer
  -- than what they hold, `rand.Read` gave its bytes when the database was made, and the buckets read
  -- what was put.
  pub construct-construct :
      (pass : Option Text) (drawn again : Drawn) (l l' : Disk H B decode ripe)
      (s : Shop H B decode ripe)
      → IsDrawn drawn
      → l.file.misc ≡ none
      → construct H B decode ripe pass drawn l ≡ (l', ok s)
      → (l2 : Disk H B decode ripe) × (s2 : Shop H B decode ripe) × (construct H B decode ripe pass
            again
            (record l' { is_open = true })
          ≡ (l2, ok s2))
        × (s2.master_key ≡ s.master_key)
  construct-construct pass drawn again l l' s d new e =
      let (master, key, v) = construct-new pass drawn l l' s d new e in
      let (l2, s2, opens, key', _) =
        construct-IsReady H B decode ripe law cipher pass again master
          (record l' { is_open = true }) refl v in
      (l2, s2, opens, key' ∙ sym key)
