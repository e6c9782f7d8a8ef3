-- ===== src/Store/Folder/Refines.antt =====
-- A folder in the database does what a folder in memory does.
pub mod New
pub mod Insert
pub mod Delete
pub mod Calls
pub mod Run
pub mod Open
use mathlib.Core.Bool.{true≢false}
use bmagent.Base.{
  ℕ, zero, suc, ◌+◌, ◌<◌, ◌≤◌, ◌≡◌, ◌≢◌, ◌⊎◌, inl, inr, refl, sym, ap, subst, ◌∙◌, Bool, true,
  false, not, ◌||◌, Option, none, some, List, [], ◌∷◌, ◌++◌, ltb, leb, ◌==◌, if◌then◌else◌, u64,
  Text, text_eq, text_eq_refl, arith, Bool-cases, Option-cases, length, put, remove,
}
use bmagent.Data.MemFolder as Mem
use bmagent.Data.MemFolder.{Message, MemFolder, Got, got}
use bmagent.Data.MemFolder.Last.{IsValid}
use bmagent.Data.MemFolder.Contents.{Given, insert_new_message-contents}
use bmagent.Data.MemFolder.Insert.{insert_new_message-IsValid, unused}
use bmagent.Store.Bytes.{put_uint64, uint64}
use bmagent.Store.Bytes.Trip.{uint64-alone}
use bmagent.Store.Box.{Boxes, opened, encrypt, decrypt, decrypt-encrypt}
use bmagent.Store.Bucket.{Buckets, entry, IsBolt}
use bmagent.Store.Folder.{
  Error, database, not_encrypted, duplicate_id, invalid_id, not_found, nil_message, callback, Reply,
  done, failed, panicked, Place, there, Folder, folder_next_id_key, add_new, insert_new_message,
}
use bmagent.Store.Folder.Valid.{max_u64, key_of, Holds}
use bmagent.Store.Folder.Changes.{taken-free, taken-stored, Holds-put, Holds-remove}

-- A box opens with the nonce and the key that sealed it.
abbrev pub Opens : Boxes → Type 0
Opens S = (n : Text) (k : S.Key) (m : Text) → S.unseal n k (S.seal n k m) ≡ some m

-- A nonce that is drawn has 24 bytes.
abbrev pub IsNonce : Option Text → Type 0
IsNonce none = Unit
IsNonce (some bs) = length bs ≡ 24

-- The folder in the database holds the messages of the folder in memory, and has its counter, which
-- is also written in the database.
pub record Refines (S : Boxes) (B : Buckets) (f : Folder S B) (g : MemFolder) : Type 0 where
  pub messages : B.Bucket
  pub data_bucket : B.Bucket
  pub place : f.place ≡ there messages data_bucket
  pub holds : Holds S B f.master_key f.next_id messages g.messages
  pub next : f.next_id ≡ g.next_index
  pub small : f.next_id < max_u64
  pub written : B.get folder_next_id_key data_bucket ≡ some (put_uint64 f.next_id)
  pub valid : IsValid g

-- The errors of the folder in memory, as those of the folder in the database.
abbrev pub error_of : Mem.Error → Error
error_of Mem.duplicate_id = duplicate_id
error_of Mem.invalid_id = invalid_id
error_of Mem.not_found = not_found
error_of Mem.nil_message = nil_message
error_of (Mem.callback n) = callback n

abbrev pub reply_to : Option Mem.Error → Reply Unit
reply_to none = done tt
reply_to (some e) = failed (error_of e)

-- The environment failed: no nonce was drawn, or the database refused.
abbrev pub IsBroken : {A : Type 0} → Reply A → Type 0
IsBroken r = (r ≡ failed not_encrypted) ⊎ (r ≡ failed database)

module _ (S : Boxes) (B : Buckets) (law : IsBolt B) (opens : Opens S) where
  pub encrypted :
      (key : Option (S.Key)) (drawn : Option Text) (msg enc : Text)
      → IsNonce drawn
      → encrypt S key drawn msg ≡ some enc
      → decrypt S key enc ≡ opened msg
  unfolding encrypt decrypt
  encrypted none none msg enc h e = ground arith
  encrypted none (some bs) msg enc h e = ground arith
  encrypted (some key) none msg enc h e = absurd (ground arith)
  encrypted (some key) (some bs) msg enc h e = decrypt-encrypt S (some key) bs msg enc opens h e

  -- What is put under a key is read from it.
  pub get-put : (k v : Text) (b b' : B.Bucket) → B.put k v b ≡ some b' → B.get k b' ≡ some v
  get-put k v b b' e = ground (arith, law.gets k b', law.puts k v k b b' e, text_eq_refl k)
