-- ===== src/Store/Loader/Passwords.antt =====
-- Passwords that are changed, and passwords that are refused.
use bmagent.Base.{
  ◌≡◌, ◌⊎◌, inl, inr, refl, sym, ap, subst, ◌∙◌, true, false, Option, none, some, [], Text, text_eq,
  arith, Option-cases,
}
use bmagent.Store.Bucket.{Buckets, IsBolt, get-put}
use bmagent.Store.Loader.{
  Trouble, database, no_password, password_given, invalid_passphrase, key_too_short, Result, ok,
  err, ◌>>=◌, >>=-ok, Result-cases, checked, checked-ok, version_key, salt_key, db_master_key_enc,
  Ciphers, Drawn, derive_key, encrypt_key, or_nil, put_key, unlock, change_passphrase, Database,
  prepare, verify, open_key,
}
use bmagent.Store.Loader.Users.{construct}
use bmagent.Store.Loader.Locked.{
  IsCipher, IsDrawn, Locked, put_key-Seals, unlock-other, opened_with,
}
use bmagent.Store.Loader.Opening.{Disk, Shop, IsReady, stood, prepare-IsReady, construct-IsReady}

module _ (H : Ciphers) (B : Buckets) {Address : Type 0} (decode : Text → Option Address)
    (ripe : Address → Text) (law : IsBolt B) (cipher : IsCipher H) where
  abbrev Machine : Type 0
  Machine = Disk H B decode ripe

  abbrev Out : Type 0
  Out = Machine × Result (Shop H B decode ripe)

  abbrev pub Shut : Machine → Trouble → Out
  Shut l e = (record l { is_open = false }, err e)

  -- An error of the password closes the database and leaves the file as it is.
  construct-err :
      (pass q : Option Text) (drawn : Drawn) (master : Text) (l : Machine) (e : Trouble)
      → l.is_open ≡ true
      → (v : IsReady H B decode ripe pass master l.file) → unlock H B q v.misc ≡ err e
      → construct H B decode ripe q drawn l ≡ Shut l e
  unfolding construct
  construct-err pass q drawn master l e t v bad =
      let runs : prepare H B q drawn l.file ≡ err e =
        prepare-IsReady H B decode ripe law cipher pass q drawn master l.file v
        ∙ ap
            (λ (r : Result Text).
              r >>= λ m. ok (m, stood H B decode ripe law cipher pass master l.file v))
            bad in
      ground arith

  -- What a password comes to that is not the one of the database.
  abbrev pub Refused : Option Text → Option Text → Text → Machine → Out → Type 0
  Refused none none master l r = Unit
  Refused none (some q) master l r = r ≡ Shut l password_given
  Refused (some p) none master l r = r ≡ Shut l no_password
  Refused (some p) (some q) master l r =
      (r ≡ Shut l invalid_passphrase)
      ⊎ ((nonce : Text) × (salt : Text) × (m : Text) × (H.unseal nonce (derive_key H q salt)
              (H.seal nonce (derive_key H p salt) master)
            ≡ some m))

  -- A password for a database without one, and none for a database that has one, are refused. Another
  -- password is refused, unless the box that holds the master key opens with the key that is derived of
  -- it. A refusal closes the database, and the file stays as it is. The database was constructed before.
  pub construct-refuses :
      (pass q : Option Text) (drawn : Drawn) (master : Text) (l : Machine)
      → l.is_open ≡ true
      → IsReady H B decode ripe pass master l.file
      → Refused pass q master l (construct H B decode ripe q drawn l)
  unfolding unlock opened_with
  construct-refuses none none drawn master l t v = tt
  construct-refuses none (some q) drawn master l t v =
      construct-err none (some q) drawn master l password_given t v
        (rw (v.locked.seals.0, unlock) refl)
  construct-refuses (some p) none drawn master l t v =
      let (nonce, salt, h, has_salt, enc) = v.locked.seals in
      construct-err (some p) none drawn master l no_password t v (rw (enc, unlock) refl)
  construct-refuses (some p) (some q) drawn master l t v =
      let (nonce, salt, e) = unlock-other H B cipher p q master v.misc v.locked in
      elim (Option-cases
        (H.unseal nonce (derive_key H q salt) (H.seal nonce (derive_key H p salt) master))) [
          | inl shut ↦ inl (
              construct-err (some p) (some q) drawn master l invalid_passphrase t v
                (e ∙ rw (shut, opened_with) refl))
          | inr (m, opens) ↦ inr (nonce, salt, m, opens)
        ]

  change_passphrase-ok :
      (drawn : Drawn) (master q : Text) (l l' : Machine) (m : B.Bucket)
      → l.file.misc ≡ some m
      → change_passphrase H B drawn (some master) q l ≡ (l', ok tt)
      → (m' : B.Bucket) × (put_key H B drawn master q m ≡ ok m')
        × (l' ≡ record l { file = record (l.file) { misc = some m' } })
        × (l.is_open ≡ true)
  unfolding change_passphrase
  change_passphrase-ok drawn master q l l' m has e =
      elim (Result-cases (put_key H B drawn master q m)) [
        | inl (x, bad) ↦ absurd (ground arith)
        | inr (inl bad) ↦ absurd (ground arith)
        | inr (inr (m', good)) ↦ (m', good, ground arith, ground arith)
      ]

  -- The file of a ready database with another bucket `misc`.
  IsReady-misc :
      (pass pass' : Option Text) (master : Text) (file : Database H B) (m' : B.Bucket)
      → IsReady H B decode ripe pass master file
      → Locked H B pass' master m'
      → IsReady H B decode ripe pass' master (record file { misc = some m' })
  IsReady-misc pass pass' master file m' v locked = record {
    misc = m';
    counters = v.counters;
    users = v.users;
    pk_requests = v.pk_requests;
    has_misc = refl;
    has_counters = v.has_counters;
    has_users = v.has_users;
    has_pk_requests = v.has_pk_requests;
    locked = locked;
  }

  change_passphrase-IsReady :
      (pass : Option Text) (drawn : Drawn) (master q : Text) (l l' : Machine)
      → IsDrawn drawn
      → IsReady H B decode ripe pass master l.file
      → change_passphrase H B drawn (some master) q l ≡ (l', ok tt)
      → IsReady H B decode ripe (some q) master l'.file × (l'.is_open ≡ true)
  change_passphrase-IsReady pass drawn master q l l' d v e =
      let (m', made, same, t) = change_passphrase-ok drawn master q l l' v.misc v.has_misc e in
      let (seals, version) = put_key-Seals H B law drawn master q v.misc m' d made in
      let locked : Locked H B (some q) master m' = record {
        version = version ∙ v.locked.version;
        size = v.locked.size;
        seals = seals;
      } in
      (
        subst (λ (x : Machine). IsReady H B decode ripe (some q) master x.file) (sym same)
            (IsReady-misc pass (some q) master l.file m' v locked),
        ap (λ (x : Machine). x.is_open) same ∙ t,
      )

  -- After the passphrase of a store was changed, the new one opens the database and gives the same
  -- master key, and none is refused. The database was constructed before, and `rand.Read` gave its
  -- bytes for the change.
  pub change_passphrase-construct :
      (pass : Option Text) (drawn again : Drawn) (master q : Text) (l l' : Machine)
      → IsDrawn drawn
      → IsReady H B decode ripe pass master l.file
      → change_passphrase H B drawn (some master) q l ≡ (l', ok tt)
      → ((l2 : Machine) × (s2 : Shop H B decode ripe) × (construct H B decode ripe (some q) again l'
            ≡ (l2, ok s2))
          × (s2.master_key ≡ some master))
        × (construct H B decode ripe none again l' ≡ Shut l' no_password)
  change_passphrase-construct pass drawn again master q l l' d v e =
      let (v', t) = change_passphrase-IsReady pass drawn master q l l' d v e in
      let (l2, s2, opens, key, _) =
        construct-IsReady H B decode ripe law cipher (some q) again master l' t v' in
      ((l2, s2, opens, key), construct-refuses (some q) none again master l' t v')

  -- `rand.Read` failed.
  abbrev pub IsUndrawn : Drawn → Type 0
  IsUndrawn drawn = (drawn.nonce ≡ none) ⊎ (drawn.salt ≡ none)

  undrawn_key :
      (drawn : Drawn) (master q : Text) → IsUndrawn drawn → encrypt_key H drawn master q ≡ none
  unfolding encrypt_key
  undrawn_key drawn master q (inl e) = rw (e, encrypt_key) refl
  undrawn_key drawn master q (inr e) = elim (Option-cases drawn.nonce) [
    | inl e' ↦ rw (e', encrypt_key) refl
    | inr (n, e') ↦ rw (e', encrypt_key) (rw e refl)
  ]

  undrawn-put :
      (drawn : Drawn) (master q : Text) (m m' : B.Bucket)
      → IsUndrawn drawn
      → put_key H B drawn master q m ≡ ok m'
      → (B.get db_master_key_enc m' ≡ some []) × (B.get version_key m' ≡ B.get version_key m)
  unfolding put_key text_eq
  undrawn-put drawn master q m m' d e =
      let runs : put_key H B drawn master q m ≡ (
          checked database (B.put salt_key [] m) >>= λ t.
          checked database (B.put db_master_key_enc [] t)) =
        ap
          (λ o. checked database (B.put salt_key (or_nil o).0 m) >>= λ t.
            checked database (B.put db_master_key_enc (or_nil o).1 t))
          (undrawn_key drawn master q d) in
      let (m1, e1, rest) =
        >>=-ok (checked database (B.put salt_key [] m))
          (λ t. checked database (B.put db_master_key_enc [] t)) (sym runs ∙ e) in
      let p1 = checked-ok database (B.put salt_key [] m) e1 in
      let p2 = checked-ok database (B.put db_master_key_enc [] m1) rest in
      (
        get-put B law db_master_key_enc db_master_key_enc [] m1 m' p2,
        get-put B law db_master_key_enc version_key [] m1 m' p2
            ∙ get-put B law salt_key version_key [] m m1 p1,
      )

  undrawn-runs :
      (drawn : Drawn) (master q : Text) (m m1 m2 : B.Bucket)
      → IsUndrawn drawn
      → B.put salt_key [] m ≡ some m1
      → B.put db_master_key_enc [] m1 ≡ some m2
      → put_key H B drawn master q m ≡ ok m2
  unfolding put_key
  undrawn-runs drawn master q m m1 m2 d e e' =
      rw (undrawn_key drawn master q d, put_key) (rw e (rw e' refl))

  -- Where `rand.Read` fails and the database takes the two entries, `ChangePassphrase` returns no error
  -- all the same, and overwrites the sealed key: no password opens the database any more. The database was
  -- constructed before, and is open.
  pub change_passphrase-lost :
      (pass : Option Text) (drawn again : Drawn) (master q p : Text) (l : Machine)
      (m m1 m2 : B.Bucket)
      → IsUndrawn drawn
      → IsReady H B decode ripe pass master l.file
      → l.is_open ≡ true
      → l.file.misc ≡ some m
      → B.put salt_key [] m ≡ some m1
      → B.put db_master_key_enc [] m1 ≡ some m2
      → let (l', reply) = change_passphrase H B drawn (some master) q l in
        (reply ≡ ok tt)
        × (l'.file.misc ≡ some m2)
        × (verify H B (some p) again m2 ≡ err key_too_short)
  unfolding change_passphrase verify unlock open_key
  change_passphrase-lost pass drawn again master q p l m m1 m2 d v opened has e e' =
      let good = undrawn-runs drawn master q m m1 m2 d e e' in
      let (gone, version) = undrawn-put drawn master q m m2 d good in
      let same : v.misc ≡ m = ground (arith, v.has_misc) in
      let old = ap (B.get version_key) (sym same) ∙ v.locked.version in
      (
        rw (opened, change_passphrase) (rw has (rw good refl)),
        rw (opened, change_passphrase) (rw has (rw good refl)),
        rw ((version ∙ old), verify) (rw (gone, unlock) refl),
      )
