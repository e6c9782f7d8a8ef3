-- ===== src/Store/Folder/Each.antt =====
-- store/folder.go: `ForEachMessage` and `LastID` of a folder in the database.
pub mod Visits
use bmagent.Base.{
  ℕ, zero, suc, ◌+◌, Bool, true, false, not, ◌||◌, ◌&&◌, Option, none, some, List, [], ◌∷◌, ltb,
  ◌==◌, if◌then◌else◌, Text, IdMap, empty_map, put, length,
}
use bmagent.Store.Bytes.{put_uint64, number_of, split_at, uint64}
use bmagent.Store.Box.{Boxes, opened, not_opened, stopped, decrypt}
use bmagent.Store.Bucket.{Buckets, Entries}
use bmagent.Store.Folder.{
  Error, bad_range, not_found, decryption_failed, Reply, done, failed, panicked, no_user,
  no_folders, no_folder, there, Folder,
}

module _ (S : Boxes) (B : Buckets) where
  open S use {Key}

  -- The id and the suffix of a key; none is a panic.
  unfoldable pub key_parts : Text → Option (ℕ × ℕ)
  unfolding split_at number_of uint64
  key_parts k = elim (split_at 8 k) [
    | none ↦ none
    | some (front, back) ↦ elim (uint64 back) [
      | none ↦ none
      | some suffix ↦ some (number_of 0 front, suffix)
    ]
  ]

  -- The loop of `ForEachMessage` from the cursor on; a key without a value is a bucket. The function
  -- works on a state of its own.
  unfoldable pub visit {ℓ} :
      {T : Type ℓ}
      → Option Key
      → ℕ
      → ℕ
      → (ℕ → ℕ → Text → T → T × Option Error)
      → Entries
      → T
      → T × Reply Unit
  unfolding key_parts decrypt
  visit key high suffix fn [] s = (s, done tt)
  visit key high suffix fn ((k, none) ∷ es) s = visit key high suffix fn es s
  visit key high suffix fn ((k, some v) ∷ es) s =
      let rest = visit key high suffix fn es in
      elim (key_parts k) [
        | none ↦ (s, panicked)
        | some (id, sfx) ↦
            if not (high == 0) && ltb high id
            then (s, done tt)
            else if not (suffix == 0) && not (sfx == suffix)
            then rest s
            else elim (decrypt S key v) [
              | stopped ↦ (s, panicked)
              | not_opened ↦ (s, failed decryption_failed)
              | opened msg ↦
                  let (s', e) = fn id sfx msg s in
                  elim e [ some error ↦ (s', failed error) | none ↦ rest s' ]
            ]
      ]

  -- `ForEachMessage`
  unfoldable pub for_each_message {ℓ} :
      {T : Type ℓ}
      → ℕ
      → ℕ
      → ℕ
      → (ℕ → ℕ → Text → T → T × Option Error)
      → Folder S B
      → T
      → T × Reply Unit
  unfolding visit
  for_each_message low high suffix fn f s =
      if not (high == 0) && ltb high low then (s, failed bad_range) else elim f.place [
        | no_user ↦ (s, failed not_found)
        | no_folders ↦ (s, panicked)
        | no_folder ↦ (s, panicked)
        | there m d ↦ visit f.master_key high suffix fn (B.seek (put_uint64 low) m) s
      ]

  -- `if v, ok := lastIDBySuffix[suffix]; ok && v > suffix`
  unfoldable pub is_passed : ℕ → IdMap ℕ → Bool
  is_passed suffix last = elim (last suffix) [ none ↦ false | some v ↦ ltb suffix v ]

  -- The loop of `LastID`
  unfoldable pub last_loop : Entries → ℕ → IdMap ℕ → Option (ℕ × IdMap ℕ)
  unfolding key_parts is_passed
  last_loop [] last by_suffix = some (last, by_suffix)
  last_loop ((k, v) ∷ es) last by_suffix =
      let rest = last_loop es in
      if not (length k == 16) then rest last by_suffix else elim (key_parts k) [
        | none ↦ none
        | some (id, suffix) ↦
            if is_passed suffix by_suffix
            then rest last by_suffix
            else if ltb id last
            then rest last (put suffix id by_suffix)
            else rest id (put suffix id by_suffix)
      ]

  -- `LastID`; none is a panic.
  unfoldable pub last_id : Folder S B → Option (ℕ × IdMap ℕ)
  unfolding last_loop
  last_id f = elim f.place [
    | no_user ↦ none
    | no_folders ↦ none
    | no_folder ↦ none
    | there m d ↦ last_loop (B.entries m) 0 empty_map
  ]
