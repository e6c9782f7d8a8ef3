-- ===== src/Idmgr/Manager/Imported.antt =====
-- Identities that are imported: from a decoded file, and from the sections of another client's.
use bmagent.Base.{
  ◌+◌, ◌≡◌, ◌≢◌, ◌⊎◌, refl, true, false, ◌||◌, ◌==◌, String, str_eq, str_eq_iff, none, some, List,
  [], ◌∷◌, length, if◌then◌else◌, arith, find, set_name, keys, find-set_name, AreDistinct,
  Option-cases, Bool-cases, inl, inr,
}
use bmagent.Idmgr.Manager.{
  Libraries, PrivateId, Db, Manager, with_imported, from_db, import_identity,
  import_keys_from_py_bitmessage, read_section,
}
use bmagent.Idmgr.Manager.Listed.{IsValid, is_some, member, import_identity-IsValid}

with_imported-listed :
    {I : Type 0} (a : String) (ids : List (String × PrivateId I))
    → (member a (with_imported true ids) || member a (with_imported false ids))
      ≡ is_some (find a ids)
unfolding with_imported member find
with_imported-listed a [] = refl
with_imported-listed a ((b, id) ∷ ids) = ground (arith, with_imported-listed a ids)

with_imported-counted :
    {I : Type 0} (ids : List (String × PrivateId I))
    → length (keys ids) ≡ length (with_imported true ids) + length (with_imported false ids)
unfolding with_imported
with_imported-counted [] = refl
with_imported-counted ((b, id) ∷ ids) = ground (arith, with_imported-counted ids)

module _ (L : Libraries) where
  -- `FromPlaintext` refuses every version but 1. Of a file of version 1 whose addresses are distinct
  -- and those of their identities it makes a manager with that file's identities, all of them listed.
  from_db-IsValid :
      (db : Db (L.Master) (L.Identity))
      → AreDistinct db.ids
      → ((a : String) (p : PrivateId (L.Identity))
          → find a db.ids ≡ some p
          → L.address p.identity ≡ a)
      → ((db.version ≢ 1) × (from_db L db ≡ none))
        ⊎ ((db.version ≡ 1)
            × (mgr : Manager (L.Master) (L.Identity)) × (from_db L db ≡ some mgr)
            × (mgr.db ≡ db)
            × IsValid L mgr)
  unfolding from_db
  from_db-IsValid db distinct addressed = elim (Bool-cases (db.version == 1)) [
    | inl e ↦ inr (
      ground arith,
      record {
        db = db;
        imported_ids = with_imported true db.ids;
        derived_ids = with_imported false db.ids;
      },
      rw e refl,
      refl,
      record {
        distinct = distinct;
        addressed = addressed;
        listed = λ a. with_imported-listed a db.ids;
        counted = with_imported-counted db.ids;
      },
    )
    | inr ne ↦ inl (λ e. ground arith, rw ne refl)
  ]

  -- What `import_identity` stores.
  import_identity-find :
      (id : PrivateId (L.Identity)) (a : String) (mgr : Manager (L.Master) (L.Identity))
      → find a (import_identity L id mgr).db.ids ≡ elim (find a mgr.db.ids) [
        | some p ↦ some p
        | none ↦
            if str_eq (L.address id.identity) a then some (record id { imported = true }) else none
      ]
  unfolding import_identity
  import_identity-find id a mgr = ground (
    arith,
    str_eq_iff (L.address id.identity) a,
    find-set_name (L.address id.identity) a (record id { imported = true }) mgr.db.ids,
  )

  module _ (k : String) (s : List (String × String)) (f : List (String × List (String × String)))
      (addresses : List (String × String)) (mgr : Manager (L.Master) (L.Identity)) where
    import_skip :
        read_section L k s ≡ none
        → import_keys_from_py_bitmessage L ((k, s) ∷ f) addresses mgr
          ≡ import_keys_from_py_bitmessage L f addresses mgr
    unfolding import_keys_from_py_bitmessage
    import_skip e = rw (e, import_keys_from_py_bitmessage) refl

    import_step :
        (p : PrivateId (L.Identity))
        → read_section L k s ≡ some p
        → import_keys_from_py_bitmessage L ((k, s) ∷ f) addresses mgr
          ≡ import_keys_from_py_bitmessage L f
              (set_name (L.address p.identity) p.name addresses)
              (import_identity L p mgr)
    unfolding import_keys_from_py_bitmessage
    import_step p e = rw (e, import_keys_from_py_bitmessage) refl

  -- Keys of PyBitmessage are imported beside what the manager has: the invariant is kept, and every
  -- address that was known keeps its identity.
  pub import_keys-kept :
      (f : List (String × List (String × String))) (addresses : List (String × String)) (a : String)
      (p : PrivateId (L.Identity)) (mgr : Manager (L.Master) (L.Identity))
      → IsValid L mgr
      → find a mgr.db.ids ≡ some p
      → let mgr' = (import_keys_from_py_bitmessage L f addresses mgr).0 in
        IsValid L mgr' × (find a mgr'.db.ids ≡ some p)
  unfolding import_keys_from_py_bitmessage
  import_keys-kept [] addresses a p mgr v at = (v, at)
  import_keys-kept ((k, s) ∷ f) addresses a p mgr v at = elim (Option-cases (read_section L k s)) [
    | inl e ↦ rw (import_skip k s f addresses mgr e) (import_keys-kept f addresses a p mgr v at)
    | inr (id, e) ↦ rw (import_step k s f addresses mgr id e) (
        import_keys-kept f (set_name (L.address id.identity) id.name addresses) a p
          (import_identity L id mgr) (import_identity-IsValid L id mgr v)
          (ground (arith, import_identity-find id a mgr)))
  ]

  known_kept :
      (f : List (String × List (String × String))) (addresses : List (String × String))
      (mgr : Manager (L.Master) (L.Identity)) (a : String)
      → ((b : String) → is_some (find b addresses) ≡ true → is_some (find b mgr.db.ids) ≡ true)
      → is_some (find a (import_keys_from_py_bitmessage L f addresses mgr).1) ≡ true
      → is_some (find a (import_keys_from_py_bitmessage L f addresses mgr).0.db.ids) ≡ true
  unfolding import_keys_from_py_bitmessage
  known_kept [] addresses mgr a known h = known a h
  known_kept ((k, s) ∷ f) addresses mgr a known h = elim (Option-cases (read_section L k s)) [
    | inl e ↦
        rw (import_skip k s f addresses mgr e)
          (known_kept f addresses mgr a known (rw (import_skip k s f addresses mgr e) at h))
    | inr (id, e) ↦ rw (import_step k s f addresses mgr id e) (
        known_kept f (set_name (L.address id.identity) id.name addresses) (import_identity L id mgr)
          a
          (λ b h'. ground (
            arith,
            import_identity-find id b mgr,
            known b,
            find-set_name (L.address id.identity) b id.name addresses,
          ))
          (rw (import_step k s f addresses mgr id e) at h))
  ]

  -- The addresses that the import of PyBitmessage's keys reports are all known to the manager
  -- afterwards.
  import_keys-reported :
      (f : List (String × List (String × String))) (mgr : Manager (L.Master) (L.Identity))
      (a : String)
      → is_some (find a (import_keys_from_py_bitmessage L f [] mgr).1) ≡ true
      → is_some (find a (import_keys_from_py_bitmessage L f [] mgr).0.db.ids) ≡ true
  unfolding find
  import_keys-reported f mgr a h = known_kept f [] mgr a (λ b h'. ground arith) h
