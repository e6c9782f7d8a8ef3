-- ===== src/Idmgr/Manager/Derived.antt =====
-- `New` of the manager: its loop ends at the first index that gives a key, and the new identity is
-- listed.
use bmagent.Base.{
  ℕ, zero, suc, ◌+◌, ◌<◌, ◌≡◌, refl, sym, ap, ◌∙◌, subst, String, str_eq_iff, none, some, [], ◌∷◌,
  length-append, u32, arith, find, find-set_name, set_name-AreDistinct,
}
use bmagent.Idmgr.Manager.{Libraries, PrivateId, Manager, derive, add_derived, new}
use bmagent.Idmgr.Manager.Listed.{IsValid, member-snoc, length-set_name}

module _ (L : Libraries) where
  module _ (key : L.Master) (index stream : ℕ) where
    derive_here :
        (fuel i : ℕ) (priv : L.PrivateKey)
        → L.new_hd key (u32 (index + i)) stream ≡ some priv
        → derive L (suc fuel) key index i stream ≡ some (i, priv)
    unfolding derive
    derive_here fuel i priv e = rw (e, derive) refl

    derive_next :
        (fuel i : ℕ)
        → L.new_hd key (u32 (index + i)) stream ≡ none
        → derive L (suc fuel) key index i stream ≡ derive L fuel key index (u32 (i + 1)) stream
    unfolding derive
    derive_next fuel i e = rw (e, derive) refl

    -- From the offset `i`, with `d` offsets to go that give no key.
    derive_from :
        (fuel d i : ℕ) (priv : L.PrivateKey)
        → i + d < 4294967296
        → d < fuel
        → ((j : ℕ) → j < d → L.new_hd key (u32 (index + (i + j))) stream ≡ none)
        → L.new_hd key (u32 (index + (i + d))) stream ≡ some priv
        → derive L fuel key index i stream ≡ some (i + d, priv)
    derive_from zero d i priv small lt none_before e = absurd (omega arith)
    derive_from (suc fuel) zero i priv small lt none_before e =
        let z : i + 0 ≡ i = omega arith in
        subst (λ x. derive L (suc fuel) key index i stream ≡ some (x, priv)) (sym z)
          (derive_here fuel i priv
            (subst (λ x. L.new_hd key (u32 (index + x)) stream ≡ some priv) z e))
    derive_from (suc fuel) (suc d) i priv small lt none_before e =
        let z : i + 0 ≡ i = omega arith in
        let next : u32 (i + 1) ≡ i + 1 = omega arith in
        let shift : (j : ℕ) → i + suc j ≡ (i + 1) + j = λ j. omega arith in
        derive_next fuel i (
          subst (λ x. L.new_hd key (u32 (index + x)) stream ≡ none) z (none_before 0 (omega arith)))
        ∙ subst (λ x. derive L fuel key index x stream ≡ some (i + suc d, priv)) (sym next)
            (subst (λ x. derive L fuel key index (i + 1) stream ≡ some (x, priv)) (sym (shift d))
              (derive_from fuel d (i + 1) priv (omega arith) (omega arith)
                (λ j lt'.
                  subst (λ x. L.new_hd key (u32 (index + x)) stream ≡ none) (shift j)
                    (none_before (suc j) (omega arith)))
                (subst (λ x. L.new_hd key (u32 (index + x)) stream ≡ some priv) (shift d) e)))

  add_derived-IsValid :
      (i : ℕ) (priv : L.PrivateKey) (name : String) (stream behavior : ℕ)
      (mgr : Manager (L.Master) (L.Identity))
      → find (L.address (add_derived L (i, priv) name stream behavior mgr).1.identity) mgr.db.ids
        ≡ none
      → IsValid L mgr
      → IsValid L (add_derived L (i, priv) name stream behavior mgr).0
  unfolding add_derived
  add_derived-IsValid i priv name stream behavior mgr fresh v =
      let id = (add_derived L (i, priv) name stream behavior mgr).1 in
      record {
        distinct = set_name-AreDistinct _ _ mgr.db.ids v.distinct;
        addressed = λ a p h. ground (
          arith,
          str_eq_iff (L.address id.identity) a,
          v.addressed a p,
          find-set_name (L.address id.identity) a id mgr.db.ids,
        );
        listed = λ a. ground (
          arith,
          v.listed a,
          member-snoc a (L.address id.identity) mgr.derived_ids,
          find-set_name (L.address id.identity) a id mgr.db.ids,
        );
        counted = ground (
          arith,
          v.counted,
          length-append mgr.derived_ids (L.address id.identity ∷ []),
          length-set_name (L.address id.identity) id mgr.db.ids,
        );
      }

  -- On a manager that keeps the invariant `New` ends at the first of the indices, from the one that
  -- the manager has, that gives a key, if the fuel is more than the indices before it, which are
  -- fewer than 2 ^ 32 - 1, and the address of that key is not stored yet. It makes an identity of the
  -- key with the given name and stores it under its address; the next index follows the one that was
  -- used, and the invariant is kept.
  pub new-first :
      (fuel d : ℕ) (priv : L.PrivateKey) (name : String) (stream behavior : ℕ)
      (mgr : Manager (L.Master) (L.Identity))
      → let id = L.new_private_id (L.new_private_address priv stream) behavior none in
        IsValid L mgr
        → d + 1 < 4294967296
        → d < fuel
        → ((j : ℕ)
            → j < d
            → L.new_hd mgr.db.master_key (u32 (mgr.db.new_id_index + j)) stream ≡ none)
        → L.new_hd mgr.db.master_key (u32 (mgr.db.new_id_index + d)) stream ≡ some priv
        → find (L.address id) mgr.db.ids ≡ none
        → (mgr' : Manager (L.Master) (L.Identity)) × (p : PrivateId (L.Identity)) × (new L fuel name
              stream behavior mgr
            ≡ some (mgr', p))
          × (p.identity ≡ id)
          × (p.name ≡ name)
          × (find (L.address id) mgr'.db.ids ≡ some p)
          × (mgr'.db.new_id_index ≡ u32 (mgr.db.new_id_index + (d + 1)))
          × IsValid L mgr'
  unfolding new add_derived
  new-first fuel d priv name stream behavior mgr v small lt none_before e fresh =
      let key = mgr.db.master_key in
      let index = mgr.db.new_id_index in
      let at = L.address (L.new_private_id (L.new_private_address priv stream) behavior none) in
      let z : (j : ℕ) → j ≡ 0 + j = λ j. omega arith in
      let next : d + 1 ≡ u32 (d + 1) = omega arith in
      let found : derive L fuel key index 0 stream ≡ some (d, priv) =
        subst (λ x. derive L fuel key index 0 stream ≡ some (x, priv)) (sym (z d))
          (derive_from key index stream fuel d 0 priv (omega arith) lt
            (λ j lt'.
              subst (λ x. L.new_hd key (u32 (index + x)) stream ≡ none) (z j) (none_before j lt'))
            (subst (λ x. L.new_hd key (u32 (index + x)) stream ≡ some priv) (z d) e)) in
      let made = add_derived L (d, priv) name stream behavior mgr in
      (
        made.0,
        made.1,
        rw (found, new) refl,
        refl,
        refl,
        ground (arith, str_eq_iff at at, find-set_name at at made.1 mgr.db.ids),
        ap (λ x. u32 (index + x)) (sym next),
        add_derived-IsValid d priv name stream behavior mgr fresh v,
      )
