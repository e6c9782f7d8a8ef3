-- ===== src/Store/Loader/Opening.antt =====
-- `Construct` of a new database, and of one that was constructed before.
use bmagent.Base.{
  ◌≡◌, ◌⊎◌, inl, inr, refl, sym, ap, subst, ◌∙◌, true, Option, none, some, List, [], ◌∷◌,
  if◌then◌else◌, Text, text_eq, Bool-cases, Option-cases,
}
use bmagent.Store.Bucket.{Buckets, IsBolt}
use bmagent.Store.Broadcasts.{Broadcasts, load_keys, new_broadcasts_store}
use bmagent.Store.Loader.{
  Trouble, database, Result, ok, err, panicked, ◌>>=◌, checked, Ciphers, Drawn, Database, Db,
  create_missing, nest_missing, unlock, verify, prepare,
}
use bmagent.Store.Loader.Users.{
  User, Store, read_broadcasts, open_broadcasts, add_user, add_users, finish_construct, construct,
  keys_of,
}
use bmagent.Store.Loader.Locked.{IsCipher, Locked, unlock-Locked, verify-Locked}

module _ (H : Ciphers) (B : Buckets) {Address : Type 0} (decode : Text → Option Address)
    (ripe : Address → Text) where
  abbrev pub File : Type 0
  File = Database H B

  abbrev pub Disk : Type 0
  Disk = Db H B

  abbrev pub Shop : Type 0
  Shop = Store H B decode ripe

  -- A database that was constructed with the password, if there is one.
  pub record IsReady (pass : Option Text) (master : Text) (file : File) : Type 0 where
    pub misc : B.Bucket
    pub counters : B.Bucket
    pub users : B.Bucket
    pub pk_requests : B.Bucket
    pub has_misc : file.misc ≡ some misc
    pub has_counters : file.counters ≡ some counters
    pub has_users : file.users ≡ some users
    pub has_pk_requests : file.pk_requests ≡ some pk_requests
    pub locked : Locked H B pass master misc

  pub create_missing-cases :
      (o : Option (B.Bucket))
      → (create_missing H B o ≡ err database) ⊎ ((b : B.Bucket) × (create_missing H B o ≡ ok b))
  unfolding create_missing
  create_missing-cases (some b) = inr (b, refl)
  create_missing-cases none = elim (Option-cases B.create) [
    | inl e ↦ inl (ap (checked database) e)
    | inr (b, e) ↦ inr (b, ap (checked database) e)
  ]

  -- Only the buckets of the broadcasts differ.
  abbrev Near : File → File → Type 0
  Near file file' = (made : Text → Option (B.Bucket)) × (file' ≡ record file { broadcasts = made })

  read_broadcasts-cases :
      (name : Text) (file : File) (b : B.Bucket)
      → (read_broadcasts H B decode ripe name file b ≡ err database)
        ⊎ ((store : Broadcasts B decode ripe) × (made : File) × (read_broadcasts H B decode ripe
                name file b
              ≡ ok (store, made))
            × Near file made)
  unfolding read_broadcasts
  read_broadcasts-cases name file b =
      elim (Option-cases (load_keys B decode ripe (B.entries b) [])) [
        | inl e ↦ inl (rw (e, read_broadcasts, new_broadcasts_store) refl)
        | inr (addrs, e) ↦ inr (
          record { bucket = b; root = none; addrs = addrs },
          record file {
            broadcasts = λ other. if text_eq name other then some b else file.broadcasts other;
          },
          rw (e, read_broadcasts, new_broadcasts_store) refl,
          (_, refl),
        )
      ]

  open_broadcasts-cases :
      (name : Text) (file : File)
      → (open_broadcasts H B decode ripe name file ≡ err database)
        ⊎ ((store : Broadcasts B decode ripe) × (made : File) × (open_broadcasts H B decode ripe
                name file
              ≡ ok (store, made))
            × Near file made)
  unfolding open_broadcasts
  open_broadcasts-cases name file =
      let f = read_broadcasts H B decode ripe name file in
      elim (create_missing-cases (file.broadcasts name)) [
        | inl e ↦ inl (ap (λ r. r >>= f) e)
        | inr (b, e) ↦ elim (read_broadcasts-cases name file b) [
          | inl e1 ↦ inl (ap (λ r. r >>= f) e ∙ e1)
          | inr (store, made, e1, near) ↦ inr (store, made, ap (λ r. r >>= f) e ∙ e1, near)
        ]
      ]

  -- Only the buckets of the broadcasts and the users in memory differ.
  abbrev Beside : Shop → Disk → Shop → Disk → Type 0
  Beside s l s' l' = (s'.master_key ≡ s.master_key) × Near (l.file) (l'.file)

  abbrev Added : Result (User H B decode ripe) → Type 0
  Added r = ((e : Trouble) × (r ≡ err e)) ⊎ ((u : User H B decode ripe) × (r ≡ ok u))

  add_user-Beside :
      (name : Text) (s : Shop) (l : Disk)
      → let (s', l', r) = add_user H B decode ripe name s l in Beside s l s' l' × Added r
  unfolding add_user
  add_user-Beside name s l = elim (Bool-cases (l.is_open)) [
    | inr shut ↦ rw (shut, add_user) ((refl, (_, refl)), inl (_, refl))
    | inl t ↦ elim (open_broadcasts-cases name l.file) [
      | inl e ↦ rw (t, add_user) (rw e ((refl, (_, refl)), inl (_, refl)))
      | inr (store, made, e, near) ↦ rw (t, add_user) (rw e ((refl, near), inr (_, refl)))
    ]
  ]

  Near-trans : (a b c : File) → Near a b → Near b c → Near a c
  Near-trans a b c (m, e) (n, e') = (n, e' ∙ ap (λ (f : File). record f { broadcasts = n }) e)

  add_users-Beside :
      (names : List Text) (s : Shop) (l : Disk)
      → let (s', l', r) = add_users H B decode ripe names s l in Beside s l s' l' × (r ≡ ok tt)
  unfolding add_users
  add_users-Beside [] s l = ((refl, (_, refl)), refl)
  add_users-Beside (name ∷ names) s l =
      let (s', l', r) = add_user H B decode ripe name s l in
      let ((same, near), added) = add_user-Beside name s l in
      let ((same', near'), ended) = add_users-Beside names s' l' in
      let both : Beside s l (add_users H B decode ripe names s' l').0
          (add_users H B decode ripe names s' l').1 =
        (same' ∙ same, Near-trans (l.file) (l'.file) _ near near') in
      elim added [
        | inl (e, is_err) ↦ rw (is_err, add_users) (both, ended)
        | inr (u, is_ok) ↦ rw (is_ok, add_users) (both, ended)
      ]

  module _ (law : IsBolt B) (cipher : IsCipher H) where
    IsReady-Near :
        (pass : Option Text) (master : Text) (file file' : File)
        → Near file file'
        → IsReady pass master file
        → IsReady pass master file'
    IsReady-Near pass master file file' (made, same) v =
        subst (IsReady pass master) (sym same) (record {
          misc = v.misc;
          counters = v.counters;
          users = v.users;
          pk_requests = v.pk_requests;
          has_misc = v.has_misc;
          has_counters = v.has_counters;
          has_users = v.has_users;
          has_pk_requests = v.has_pk_requests;
          locked = v.locked;
        })

    -- The file of a database that is ready, written out.
    unfoldable pub stood :
        (pass : Option Text) (master : Text) (file : File) → IsReady pass master file → File
    stood pass master file v = record file {
      misc = some v.misc;
      counters = some v.counters;
      users = some v.users;
      pk_requests = some v.pk_requests;
    }

    stood-eq :
        (pass : Option Text) (master : Text) (file : File) (v : IsReady pass master file)
        → file ≡ stood pass master file v
    unfolding stood
    stood-eq pass master file v = λ i. record file {
      misc = v.has_misc i;
      counters = v.has_counters i;
      users = v.has_users i;
      pk_requests = v.has_pk_requests i;
    }

    pub stood-IsReady :
        (pass : Option Text) (master : Text) (file : File) (v : IsReady pass master file)
        → IsReady pass master (stood pass master file v)
    stood-IsReady pass master file v = subst (IsReady pass master) (stood-eq pass master file v) v

    -- A store with the master key, of a database that is ready.
    abbrev pub Constructed : Option Text → Text → Disk × Result Shop → Type 0
    Constructed pass master r =
        (l' : Disk) × (s : Shop) × (r ≡ (l', ok s))
        × (s.master_key ≡ some master)
        × IsReady pass master (l'.file)

    -- What follows the first transaction.
    pub finish_construct-IsReady :
        (pass : Option Text) (master : Text) (file : File) (l : Disk)
        → IsReady pass master file
        → Constructed pass master (finish_construct H B decode ripe master file l)
    unfolding finish_construct create_missing stood
    finish_construct-IsReady pass master file l v =
        let at = stood pass master file v in
        let s0 : Shop = record { master_key = some master; users = [] } in
        let l0 : Disk = record l { file = at } in
        let names = keys_of (B.entries v.users) in
        let (s', l', r) = add_users H B decode ripe names s0 l0 in
        let ((key, near), ended) = add_users-Beside names s0 l0 in
        let runs : finish_construct H B decode ripe master at l ≡ (l', ok s') =
          rw (ended, finish_construct) refl in
        (
          l',
          s',
          ap (λ f. finish_construct H B decode ripe master f l) (stood-eq pass master file v)
              ∙ runs,
          key,
          IsReady-Near pass master at (l'.file) near (stood-IsReady pass master file v),
        )

    bind_ok :
        (r : Result Text) (m : B.Bucket) (f : Text × B.Bucket → Result (Text × File))
        → ((r >>= λ t. ok (t, m)) >>= f) ≡ (r >>= λ t. f (t, m))
    bind_ok (ok t) m f = refl
    bind_ok (err e) m f = refl
    bind_ok panicked m f = refl

    -- The first transaction leaves such a database as it is.
    pub prepare-IsReady :
        (pass q : Option Text) (drawn : Drawn) (master : Text) (file : File)
        → (v : IsReady pass master file)
        → prepare H B q drawn file ≡ (unlock H B q v.misc >>= λ m. ok (m, stood pass master file v))
    unfolding prepare create_missing nest_missing stood
    prepare-IsReady pass q drawn master file v =
        let at = stood pass master file v in
        let f : Text × B.Bucket → Result (Text × File) = λ t.
          ok (
            t.0,
            record at { misc = some t.1; counters = some v.counters; users = some v.users },
          ) in
        let runs : prepare H B q drawn at ≡ (verify H B q drawn v.misc >>= f) = refl in
        ap (prepare H B q drawn) (stood-eq pass master file v)
        ∙ runs
        ∙ ap (λ r. r >>= f) (verify-Locked H B cipher pass q drawn master v.misc v.locked)
        ∙ bind_ok (unlock H B q v.misc) v.misc f

    -- The password opens the database again, with the same master key.
    pub construct-IsReady :
        (pass : Option Text) (drawn : Drawn) (master : Text) (l : Disk)
        → l.is_open ≡ true
        → IsReady pass master (l.file)
        → Constructed pass master (construct H B decode ripe pass drawn l)
    unfolding construct
    construct-IsReady pass drawn master l t v =
        let at = stood pass master (l.file) v in
        let runs : prepare H B pass drawn (l.file) ≡ ok (master, at) =
          prepare-IsReady pass pass drawn master (l.file) v
          ∙ ap (λ r. r >>= λ m. ok (m, at))
              (unlock-Locked H B cipher pass master v.misc v.locked) in
        rw (t, construct)
          (rw runs
            (finish_construct-IsReady pass master at l (stood-IsReady pass master (l.file) v)))
