-- ===== src/Store/Broadcasts/Removal.antt =====
-- `Remove` of a broadcast address, on every branch.
use bmagent.Base.{◌≡◌, ◌⊎◌, inl, inr, refl, ap, Option, none, some, Text, Option-cases}
use bmagent.Store.Bucket.{Buckets}
use bmagent.Store.Folder.{database, not_found, invalid_id, done, failed, panicked}
use bmagent.Store.Broadcasts.{Broadcasts, forget, remove_address}

module _ (B : Buckets) {Address : Type 0} (decode : Text → Option Address)
    (ripe : Address → Text) where
  -- `Remove` never changes the bucket of the user, so that an address is there again when the store is
  -- made anew. It succeeds only where there is a bucket of the same name outside; where there is none
  -- it refuses an address or panics, and changes nothing.
  pub remove_address-kept :
      (address : Text) (s : Broadcasts B decode ripe)
      → let (s', reply) = remove_address B decode ripe address s in
        (s'.bucket ≡ s.bucket)
        × ((s' ≡ s)
              × ((reply ≡ failed invalid_id)
                  ⊎ ((reply ≡ failed not_found)
                      ⊎ ((reply ≡ failed database) ⊎ ((reply ≡ panicked) × (s.root ≡ none)))))
            ⊎ ((r : B.Bucket) × (addr : Address) × (s.root ≡ some r)
                × (reply ≡ done tt)
                × (s'.addrs ≡ forget B decode ripe addr s.addrs)))
  unfolding remove_address
  remove_address-kept address s = elim (Option-cases (decode address)) [
    | inl e ↦ rw (e, remove_address) (refl, inl (refl, inl refl))
    | inr (addr, e) ↦ elim (Option-cases (B.get address s.bucket)) [
      | inl e1 ↦ rw (e, remove_address) (rw e1 (refl, inl (refl, inr (inl refl))))
      | inr (v, e1) ↦ elim (Option-cases s.root) [
        | inl e2 ↦
            rw (e, remove_address)
              (rw e1 (
                rw e2 (
                  refl,
                  inl (
                    ap (λ (o : Option (B.Bucket)). record s { root = o }) e2,
                    inr (inr (inr (refl, refl))),
                  ),
                )))
        | inr (r, e2) ↦ elim (Option-cases (B.delete address r)) [
          | inl e3 ↦
              rw (e, remove_address)
                (rw e1 (
                  rw e2 (
                    rw e3 (
                      refl,
                      inl (
                        ap (λ (o : Option (B.Bucket)). record s { root = o }) e2,
                        inr (inr (inl refl)),
                      ),
                    ))))
          | inr (r', e3) ↦
              rw (e, remove_address) (rw e1 (rw e2 (rw e3 (refl, inr (r, addr, refl, refl, refl)))))
        ]
      ]
    ]
  ]
