-- ===== src/Idmgr/Manager/Listed.antt =====
-- The two lists of addresses of the manager, against its map of identities.
use bmagent.Base.{
  suc, ◌+◌, ◌≡◌, refl, Bool, true, false, not, ◌||◌, ◌&&◌, String, str_eq, str_eq_iff, Option, none,
  some, List, [], ◌∷◌, ◌++◌, map, length, length-append, if◌then◌else◌, arith, find, set_name, keys,
  find-set_name, AreDistinct, set_name-AreDistinct, Option-cases, inl, inr,
}
use bmagent.Idmgr.Manager.{
  Libraries, PrivateId, Manager, new_manager, import_identity, name_address, names,
}

unfoldable pub member : String → List String → Bool
member a [] = false
member a (b ∷ bs) = str_eq b a || member a bs

abbrev pub is_some {ℓ} : {A : Type ℓ} → Option A → Bool
is_some none = false
is_some (some a) = true

-- Every address has one entry, under the address of its identity, and stands in one of the lists;
-- the lists have nothing else, and nothing twice.
pub record IsValid (L : Libraries) (mgr : Manager (L.Master) (L.Identity)) : Type 0 where
  pub distinct : AreDistinct mgr.db.ids
  pub addressed :
      (a : String) (p : PrivateId (L.Identity))
      → find a mgr.db.ids ≡ some p
      → L.address p.identity ≡ a
  pub listed :
      (a : String)
      → (member a mgr.imported_ids || member a mgr.derived_ids) ≡ is_some (find a mgr.db.ids)
  pub counted : length (keys mgr.db.ids) ≡ length mgr.imported_ids + length mgr.derived_ids

pub member-snoc :
    (a b : String) (xs : List String) → member a (xs ++ b ∷ []) ≡ (member a xs || str_eq b a)
unfolding member
member-snoc a b [] = ground arith
member-snoc a b (x ∷ xs) = ground (arith, member-snoc a b xs)

pub length-set_name {ℓ} :
    {V : Type ℓ} (k : String) (v : V) (m : List (String × V))
    → length (keys (set_name k v m))
      ≡ (if is_some (find k m) then length (keys m) else suc (length (keys m)))
unfolding find set_name
length-set_name k v [] = refl
length-set_name k v ((j, w) ∷ m) = ground (arith, length-set_name k v m)

module _ (L : Libraries) where
  -- A new manager satisfies the invariant.
  pub new_manager-IsValid : (key : L.Master) → IsValid L (new_manager L key)
  unfolding new_manager member find
  new_manager-IsValid key = record {
    distinct = tt;
    addressed = λ a p h. ground arith;
    listed = λ a. refl;
    counted = refl;
  }

  -- To import an identity keeps the invariant.
  pub import_identity-IsValid :
      (id : PrivateId (L.Identity)) (mgr : Manager (L.Master) (L.Identity))
      → IsValid L mgr
      → IsValid L (import_identity L id mgr)
  unfolding import_identity
  import_identity-IsValid id mgr v = elim (Option-cases (find (L.address id.identity) mgr.db.ids)) [
    | inr (p, e) ↦ rw (e, import_identity) v
    | inl e ↦
        rw (e, import_identity)
          (record {
            distinct = set_name-AreDistinct _ _ mgr.db.ids v.distinct;
            addressed = λ a p h. ground (
              arith,
              str_eq_iff (L.address id.identity) a,
              v.addressed a p,
              find-set_name (L.address id.identity) a (record id { imported = true }) mgr.db.ids,
            );
            listed = λ a. ground (
              arith,
              v.listed a,
              member-snoc a (L.address id.identity) mgr.imported_ids,
              find-set_name (L.address id.identity) a (record id { imported = true }) mgr.db.ids,
            );
            counted = ground (
              arith,
              v.counted,
              length-append mgr.imported_ids (L.address id.identity ∷ []),
              length-set_name (L.address id.identity) (record id { imported = true }) mgr.db.ids,
            );
          })
  ]

  find-names :
      (a : String) (ids : List (String × PrivateId (L.Identity)))
      → find a (map (λ entry. (entry.0, entry.1.name)) ids)
        ≡ elim (find a ids) [ none ↦ none | some id ↦ some id.name ]
  unfolding find
  find-names a [] = refl
  find-names a ((b, id) ∷ ids) = ground (arith, find-names a ids)

  -- To name an address keeps the invariant; afterwards the address has the name, if it is known, and
  -- every other address keeps its name. An error is returned exactly if the address is unknown.
  names-name_address :
      (addr name a : String) (mgr : Manager (L.Master) (L.Identity))
      → IsValid L mgr
      → let (mgr', e) = name_address L addr name mgr in
        IsValid L mgr'
        × (e ≡ not (is_some (find addr mgr.db.ids)))
        × (find a (names L mgr') ≡ (
            if str_eq addr a && is_some (find addr mgr.db.ids)
            then some name
            else find a (names L mgr)))
  unfolding name_address names
  names-name_address addr name a mgr v = elim (Option-cases (find addr mgr.db.ids)) [
    | inl e ↦ rw (e, name_address) (v, refl, ground arith)
    | inr (id, e) ↦
        let renamed = record id { name = name } in
        rw (e, name_address)
          (
            record {
              distinct = set_name-AreDistinct _ _ mgr.db.ids v.distinct;
              addressed = λ b p h. ground (
                arith,
                str_eq_iff addr b,
                v.addressed b p,
                v.addressed addr id e,
                find-set_name addr b renamed mgr.db.ids,
              );
              listed = λ b.
                  ground
                    (arith, v.listed b, str_eq_iff addr b, find-set_name addr b renamed mgr.db.ids);
              counted = ground (arith, v.counted, length-set_name addr renamed mgr.db.ids);
            },
            refl,
            ground (
              arith,
              str_eq_iff addr a,
              find-set_name addr a renamed mgr.db.ids,
              find-names a mgr.db.ids,
              find-names a (set_name addr renamed mgr.db.ids),
            ),
          )
  ]
