-- ===== src/Store/Loader/Locked.antt =====
-- What the bucket `misc` of a database has for its password, and what opens it.
use bmagent.Base.{
  ℕ, zero, suc, ◌+◌, ◌≡◌, refl, sym, ap, subst, ◌∙◌, false, Option, none, some, [], ◌∷◌, ◌++◌,
  length, length-append, ltb, Text, text_eq, arith,
}
use bmagent.Store.Bytes.{put_uint64}
use bmagent.Store.Bytes.Trip.{split_at-append}
use bmagent.Store.Bucket.{Buckets, IsBolt, get-put}
use bmagent.Store.Loader.{
  no_random, database, invalid_passphrase, Result, ok, err, ◌>>=◌, >>=-ok, checked, checked-ok,
  version_key, salt_key, db_master_key_enc, pow_queue_latest_id_key, users_latest_id_key, Ciphers,
  Drawn, array, derive_key, encrypt_key, or_nil, put_key, new_key, new_database, is_old, open_key,
  unlock, verify,
}

-- A box opens with the nonce and the key that sealed it, and is 16 bytes longer than what it holds.
pub record IsCipher (H : Ciphers) : Type 0 where
  pub opens : (n k m : Text) → H.unseal n k (H.seal n k m) ≡ some m
  pub longer : (n k m : Text) → length (H.seal n k m) ≡ length m + 16

-- `rand.Read` gives all the bytes that it is asked for.
pub record IsDrawn (drawn : Drawn) : Type 0 where
  pub key : Text
  pub nonce : Text
  pub salt : Text
  pub has_key : drawn.key ≡ some key
  pub has_nonce : drawn.nonce ≡ some nonce
  pub has_salt : drawn.salt ≡ some salt
  pub key_length : length key ≡ 32
  pub nonce_length : length nonce ≡ 24

pub array-length : (n : ℕ) (bs : Text) → length bs ≡ n → array n bs ≡ bs
unfolding array
array-length zero [] h = refl
array-length zero (b ∷ bs) h = absurd (omega arith)
array-length (suc n) [] h = absurd (omega arith)
array-length (suc n) (b ∷ bs) h = ap (λ (t : Text). b ∷ t) (array-length n bs (omega arith))

module _ (H : Ciphers) (B : Buckets) where
  -- What a bucket has for its password: nothing for none, and otherwise the salt and the sealed key.
  abbrev pub Seals : Option Text → Text → B.Bucket → Type 0
  Seals none master misc = (B.get db_master_key_enc misc ≡ none) × (master ≡ array 32 [])
  Seals (some p) master misc =
      (nonce : Text) × (salt : Text) × (length nonce ≡ 24)
      × (B.get salt_key misc ≡ some salt)
      × (B.get db_master_key_enc misc ≡ some (nonce ++ H.seal nonce (derive_key H p salt) master))

  -- The master key and the password, if there is one, of the bucket `misc`.
  pub record Locked (pass : Option Text) (master : Text) (misc : B.Bucket) : Type 0 where
    pub version : B.get version_key misc ≡ some (1 ∷ [])
    pub size : length master ≡ 32
    pub seals : Seals pass master misc

  -- What a password makes of the sealed key.
  unfoldable pub opened_with : Text → Text → Text → Text → Text → Result Text
  opened_with nonce salt p q master =
      elim (H.unseal nonce (derive_key H q salt) (H.seal nonce (derive_key H p salt) master)) [
        | none ↦ err invalid_passphrase
        | some m ↦ ok (array 32 m)
      ]

  module _ (cipher : IsCipher H) where
    sealed_length :
        (nonce k master : Text)
        → length nonce ≡ 24
        → length master ≡ 32
        → ltb (length (nonce ++ H.seal nonce k master)) 72 ≡ false
    sealed_length nonce k master h size =
        ground (arith, length-append nonce (H.seal nonce k master), cipher.longer nonce k master)

    open_key-sealed :
        (nonce salt p q master : Text)
        → length nonce ≡ 24
        → length master ≡ 32
        → open_key H B (nonce ++ H.seal nonce (derive_key H p salt) master) q (some salt)
          ≡ opened_with nonce salt p q master
    unfolding open_key opened_with
    open_key-sealed nonce salt p q master h size =
        rw (sealed_length nonce (derive_key H p salt) master h size, open_key)
          (rw (split_at-append 24 nonce (H.seal nonce (derive_key H p salt) master) h) refl)

    opened_with-right :
        (nonce salt p master : Text)
        → length master ≡ 32
        → opened_with nonce salt p p master ≡ ok master
    unfolding opened_with
    opened_with-right nonce salt p master size =
        rw (cipher.opens nonce (derive_key H p salt) master, opened_with)
          (ap ok (array-length 32 master size))

    unlock-sealed :
        (q v salt : Text) (misc : B.Bucket)
        → B.get db_master_key_enc misc ≡ some v
        → B.get salt_key misc ≡ some salt
        → unlock H B (some q) misc ≡ open_key H B v q (some salt)
    unfolding unlock
    unlock-sealed q v salt misc enc has_salt = rw (enc, unlock) (ap (open_key H B v q) has_salt)

    -- The password opens the bucket.
    pub unlock-Locked :
        (pass : Option Text) (master : Text) (misc : B.Bucket)
        → Locked pass master misc
        → unlock H B pass misc ≡ ok master
    unfolding unlock
    unlock-Locked none master misc v = rw (v.seals.0, unlock) (ap ok (sym v.seals.1))
    unlock-Locked (some p) master misc v =
        let (nonce, salt, h, has_salt, enc) = v.seals in
        unlock-sealed p (nonce ++ H.seal nonce (derive_key H p salt) master) salt misc enc has_salt
        ∙ open_key-sealed nonce salt p p master h v.size
        ∙ opened_with-right nonce salt p master v.size

    -- Whether another password opens the box is up to the cipher.
    pub unlock-other :
        (p q master : Text) (misc : B.Bucket)
        → Locked (some p) master misc
        → (nonce : Text) × (salt : Text) × (unlock H B (some q) misc
            ≡ opened_with nonce salt p q master)
    unlock-other p q master misc v =
        let (nonce, salt, h, has_salt, enc) = v.seals in
        (
          nonce,
          salt,
          unlock-sealed q (nonce ++ H.seal nonce (derive_key H p salt) master) salt misc enc
                has_salt
              ∙ open_key-sealed nonce salt p q master h v.size,
        )

    pub verify-Locked :
        (pass q : Option Text) (drawn : Drawn) (master : Text) (misc : B.Bucket)
        → Locked pass master misc
        → verify H B q drawn misc ≡ (unlock H B q misc >>= λ m. ok (m, misc))
    unfolding verify is_old
    verify-Locked pass q drawn master misc v = rw (v.version, verify) refl

  module _ (law : IsBolt B) where
    pub put_key-Seals :
        (drawn : Drawn) (master p : Text) (misc misc' : B.Bucket)
        → IsDrawn drawn
        → put_key H B drawn master p misc ≡ ok misc'
        → Seals (some p) master misc' × (B.get version_key misc' ≡ B.get version_key misc)
    unfolding put_key encrypt_key text_eq
    put_key-Seals drawn master p misc misc' d e =
        let enc = d.nonce ++ H.seal d.nonce (derive_key H p d.salt) master in
        let drew : encrypt_key H drawn master p ≡ some (d.salt, enc) =
          rw (d.has_nonce, encrypt_key) (rw d.has_salt refl) in
        let runs : put_key H B drawn master p misc ≡ (
            checked database (B.put salt_key d.salt misc) >>= λ m.
            checked database (B.put db_master_key_enc enc m)) =
          ap
            (λ o. checked database (B.put salt_key (or_nil o).0 misc) >>= λ m.
              checked database (B.put db_master_key_enc (or_nil o).1 m))
            drew in
        let (m1, e1, rest) =
          >>=-ok (checked database (B.put salt_key d.salt misc))
            (λ m. checked database (B.put db_master_key_enc enc m)) (sym runs ∙ e) in
        let p1 = checked-ok database (B.put salt_key d.salt misc) e1 in
        let p2 = checked-ok database (B.put db_master_key_enc enc m1) rest in
        (
          (
            d.nonce,
            d.salt,
            d.nonce_length,
            get-put B law db_master_key_enc salt_key enc m1 misc' p2
                ∙ get-put B law salt_key salt_key d.salt misc m1 p1,
            get-put B law db_master_key_enc db_master_key_enc enc m1 misc' p2,
          ),
          get-put B law db_master_key_enc version_key enc m1 misc' p2
              ∙ get-put B law salt_key version_key d.salt misc m1 p1,
        )

    -- What stands under the other keys does not matter.
    Seals-put :
        (pass : Option Text) (master k v : Text) (m m' : B.Bucket)
        → text_eq k salt_key ≡ false
        → text_eq k db_master_key_enc ≡ false
        → B.put k v m ≡ some m'
        → Seals pass master m
        → Seals pass master m'
    Seals-put none master k v m m' ne ne' e (gone, zeros) =
        (get-put B law k db_master_key_enc v m m' e ∙ rw ne' gone, zeros)
    Seals-put (some p) master k v m m' ne ne' e (nonce, salt, h, has_salt, enc) = (
      nonce,
      salt,
      h,
      get-put B law k salt_key v m m' e ∙ rw ne has_salt,
      get-put B law k db_master_key_enc v m m' e ∙ rw ne' enc,
    )

    -- The last three entries of a new database.
    new_entries-Locked :
        (pass : Option Text) (master : Text) (m m1 m2 m3 : B.Bucket) (v v' : Text)
        → length master ≡ 32
        → Seals pass master m
        → B.put version_key (1 ∷ []) m ≡ some m1
        → B.put pow_queue_latest_id_key v m1 ≡ some m2
        → B.put users_latest_id_key v' m2 ≡ some m3
        → Locked pass master m3
    unfolding text_eq
    new_entries-Locked pass master m m1 m2 m3 v v' size seals e1 e2 e3 = record {
      version =
          get-put B law users_latest_id_key version_key v' m2 m3 e3
          ∙ get-put B law pow_queue_latest_id_key version_key v m1 m2 e2
          ∙ get-put B law version_key version_key (1 ∷ []) m m1 e1;
      size = size;
      seals = Seals-put pass master users_latest_id_key v' m2 m3 refl refl e3 (
          Seals-put pass master pow_queue_latest_id_key v m1 m2 refl refl e2
            (Seals-put pass master version_key (1 ∷ []) m m1 refl refl e1 seals));
    }

    new_key-Seals :
        (pass : Option Text) (drawn : Drawn) (misc misc' : B.Bucket) (master : Text)
        → IsDrawn drawn
        → B.get db_master_key_enc misc ≡ none
        → new_key H B pass drawn misc ≡ ok (master, misc')
        → Seals pass master misc' × (length master ≡ 32)
    unfolding new_key array
    new_key-Seals none drawn misc misc' master d gone e =
        let same : (array 32 [], misc) ≡ (master, misc') = ground arith in
        subst (λ (t : Text × B.Bucket). Seals none t.0 t.1 × (length t.0 ≡ 32)) same
          ((gone, refl), refl)
    new_key-Seals (some p) drawn misc misc' master d gone e =
        let runs : new_key H B (some p) drawn misc
            ≡ (put_key H B drawn d.key p misc >>= λ m. ok (d.key, m)) =
          ap (λ o. checked no_random o >>= λ k. put_key H B drawn k p misc >>= λ m. ok (k, m))
            d.has_key in
        let (m1, e1, rest) =
          >>=-ok (put_key H B drawn d.key p misc) (λ m. ok (d.key, m)) (sym runs ∙ e) in
        let same : (d.key, m1) ≡ (master, misc') = ground arith in
        subst (λ (t : Text × B.Bucket). Seals (some p) t.0 t.1 × (length t.0 ≡ 32)) same
          ((put_key-Seals drawn d.key p misc m1 d e1).0, d.key_length)

    -- A new database is locked with the password that it is made with.
    pub new_database-Locked :
        (pass : Option Text) (drawn : Drawn) (misc misc' : B.Bucket) (master : Text)
        → IsDrawn drawn
        → B.get db_master_key_enc misc ≡ none
        → new_database H B pass drawn misc ≡ ok (master, misc')
        → Locked pass master misc'
    unfolding new_database
    new_database-Locked pass drawn misc misc' master d gone e =
        let ((k, m), e0, r0) = >>=-ok (new_key H B pass drawn misc) _ e in
        let (m1, e1, r1) = >>=-ok (checked database (B.put version_key (1 ∷ []) m)) _ r0 in
        let (m2, e2, r2) =
          >>=-ok (checked database (B.put pow_queue_latest_id_key (put_uint64 0) m1)) _ r1 in
        let (m3, e3, r3) =
          >>=-ok (checked database (B.put users_latest_id_key (put_uint64 0) m2)) _ r2 in
        let (seals, size) = new_key-Seals pass drawn misc m k d gone e0 in
        let same : (k, m3) ≡ (master, misc') = ground arith in
        subst (λ (t : Text × B.Bucket). Locked pass t.0 t.1) same
          (new_entries-Locked pass k m m1 m2 m3 (put_uint64 0) (put_uint64 0) size seals
            (checked-ok database _ e1) (checked-ok database _ e2) (checked-ok database _ e3))
