-- ===== src/Store/Broadcasts.antt =====
-- store/broadcasts.go: `BroadcastAddresses`, the broadcasts that a user listens to, in the database and
-- in a list beside it.
pub mod Removal
use bmagent.Base.{
  ℕ, ◌≡◌, ◌⊎◌, inl, inr, refl, Bool, true, false, Option, none, some, List, [], ◌∷◌, ◌++◌,
  if◌then◌else◌, Text, text_eq, arith, Option-cases,
}
use bmagent.Store.Bucket.{Buckets, Entries}
use bmagent.Store.Folder.{Error, database, not_found, invalid_id, Reply, done, failed, panicked}

-- `DecodeAddress` and the hash of an address, of another package; its error is `invalid_id`.
module _ (B : Buckets) {Address : Type 0} (decode : Text → Option Address)
    (ripe : Address → Text) where
  open B use {Bucket}

  -- `bucket` stands in the bucket of the user; `root` is a bucket of the same name outside, nil if none.
  pub record Broadcasts : Type 0 where
    pub bucket : Bucket
    pub root : Option Bucket
    pub addrs : List Address

  -- The loop of `newBroadcastsStore` over the keys of the bucket.
  unfoldable pub load_keys : Entries → List Address → Option (List Address)
  load_keys [] addrs = some addrs
  load_keys ((k, v) ∷ es) addrs =
      let rest = load_keys es in
      elim (decode k) [ none ↦ none | some addr ↦ rest (addrs ++ (addr ∷ [])) ]

  -- `newBroadcastsStore`, where the buckets are there.
  unfoldable pub new_broadcasts_store : Bucket → Option Bucket → Reply Broadcasts
  unfolding load_keys
  new_broadcasts_store bucket root = elim (load_keys (B.entries bucket) []) [
    | none ↦ failed invalid_id
    | some addrs ↦
        let store : Broadcasts = record { bucket = bucket; root = root; addrs = addrs } in
        done store
  ]

  -- `Add`
  unfoldable pub add : Text → Broadcasts → Broadcasts × Reply Unit
  add address s = elim (decode address) [
    | none ↦ (s, failed invalid_id)
    | some addr ↦ elim (B.put address [] s.bucket) [
      | none ↦ (s, failed database)
      | some b ↦ (record s { bucket = b; addrs = s.addrs ++ (addr ∷ []) }, done tt)
    ]
  ]

  -- Without the first address of the same hash.
  unfoldable pub forget : Address → List Address → List Address
  forget addr [] = []
  forget addr (t ∷ ts) =
      let rest = forget addr ts in if text_eq (ripe t) (ripe addr) then ts else t ∷ rest

  -- `Remove`, which deletes from the bucket outside.
  unfoldable pub remove_address : Text → Broadcasts → Broadcasts × Reply Unit
  unfolding forget
  remove_address address s = elim (decode address) [
    | none ↦ (s, failed invalid_id)
    | some addr ↦ elim (B.get address s.bucket) [
      | none ↦ (s, failed not_found)
      | some v ↦ elim s.root [
        | none ↦ (s, panicked)
        | some r ↦ elim (B.delete address r) [
          | none ↦ (s, failed database)
          | some r' ↦ (record s { root = some r'; addrs = forget addr s.addrs }, done tt)
        ]
      ]
    ]
  ]

  -- `ForEach`; the function works on a state of its own.
  unfoldable pub for_each_address {ℓ} :
      {S : Type ℓ} → (Address → S → S × Option Error) → List Address → S → S × Reply Unit
  for_each_address fn [] s = (s, done tt)
  for_each_address fn (addr ∷ addrs) s =
      let rest = for_each_address fn addrs in
      let (s', e) = fn addr s in elim e [ some error ↦ (s', failed error) | none ↦ rest s' ]
