-- ===== src/Store/Folder.antt =====
-- store/folder.go: `folder`, a folder of messages in the database. A message stands under its id and
-- its suffix, eight bytes each; the number that the next message gets stands in a bucket `data`.
pub mod Valid
pub mod Keys
pub mod Changes
pub mod Refines
pub mod Each
use bmagent.Base.{
  ℕ, zero, suc, ◌+◌, Bool, true, false, not, ◌||◌, ◌&&◌, Option, none, some, List, [], ◌∷◌, ◌++◌,
  ltb, leb, ◌==◌, if◌then◌else◌, u64, Text, codes, text_eq,
}
use bmagent.Store.Bytes.{put_uint64, number_of, split_at, uint64}
use bmagent.Store.Box.{Boxes, Opened, opened, not_opened, stopped, encrypt, decrypt}
use bmagent.Store.Bucket.{Buckets, Entries}

pub data Error : Type 0 where
  duplicate_id invalid_id not_found nil_message bad_range not_encrypted decryption_failed : Error
  database empty_name : Error
  callback : ℕ → Error

-- What a method returns: a value, an error, or a panic.
pub data Reply (A : Type 0) : Type 0 where
  done : A → Reply A
  failed : Error → Reply A
  panicked : Reply A

abbrev pub folder_next_id_key : Text
folder_next_id_key = codes "folderNextID"

abbrev pub folder_data_bucket : Text
folder_data_bucket = codes "data"

abbrev pub folder_created_on_key : Text
folder_created_on_key = codes "createdOn"

-- What the path to the folder leads to: no bucket of the user, no bucket of folders in it, none of
-- this folder, or its bucket and the bucket `data` in it.
pub data Place (Bucket : Type 0) : Type 0 where
  no_user no_folders no_folder : Place Bucket
  there : Bucket → Bucket → Place Bucket

-- Whether the key is at least eight bytes long, and begins with the given bytes.
unfoldable pub begins : Text → Text → Bool
unfolding split_at
begins p k = elim (split_at 8 k) [ none ↦ false | some (front, back) ↦ text_eq front p ]

module _ (S : Boxes) (B : Buckets) where
  open S use {Key}
  open B use {Bucket, create, nest, put, delete, get, seek}

  -- The fields that the methods read and write; `place` is the database.
  pub record Folder : Type 0 where
    pub master_key : Option Key
    pub next_id : ℕ
    pub place : Place Bucket

  -- The buckets of a new folder; the error of the last `Put` is not looked at.
  unfoldable pub create_folder : Option Text → Place Bucket × Option Error
  create_folder now = elim create [
    | none ↦ (no_folder, some database)
    | some b ↦ elim (nest folder_data_bucket b) [
      | none ↦ (no_folder, some database)
      | some m ↦ elim now [
        | none ↦ (no_folder, some database)
        | some created ↦ elim create [
          | none ↦ (no_folder, some database)
          | some b' ↦ elim (put folder_created_on_key created b') [
            | none ↦ (no_folder, some database)
            | some d ↦ elim (put folder_next_id_key (put_uint64 1) d) [
              | none ↦ (there m d, none)
              | some d' ↦ (there m d', none)
            ]
          ]
        ]
      ]
    ]
  ]

  -- `initialize`, at the time `now`, of a folder whose next id is 1.
  unfoldable pub initialize : Option Text → Folder → Folder × Reply Unit
  unfolding create_folder uint64
  initialize now f = elim f.place [
    | no_user ↦ (f, panicked)
    | no_folders ↦ (f, panicked)
    | no_folder ↦
        let (place, e) = create_folder now in
        elim e [ some error ↦ (f, failed error) | none ↦ (record f { place = place }, done tt) ]
    | there m d ↦ elim (get folder_next_id_key d) [
      | none ↦ (f, panicked)
      | some bs ↦ elim (uint64 bs) [
        | none ↦ (f, panicked)
        | some next ↦ (record f { next_id = next }, done tt)
      ]
    ]
  ]

  -- `newFolder` of a name, which is not empty, with the place that it leads to.
  unfoldable pub new_folder : Option Key → Text → Option Text → Place Bucket → Folder × Reply Unit
  unfolding initialize
  new_folder key name now place =
      let f : Folder = record { master_key = key; next_id = 1; place = place } in
      let opened = initialize now f in if text_eq name [] then (f, failed empty_name) else opened

  -- `kk, _ := Cursor().Seek(k[:8])`, and whether it begins with these bytes.
  unfoldable pub taken : ℕ → Bucket → Bool
  unfolding begins
  taken id m = elim (seek (put_uint64 id) m) [
    | [] ↦ false
    | (k, v) ∷ rest ↦ begins (put_uint64 id) k
  ]

  -- The update of `InsertNewMessage`; an error leaves the database as it was.
  unfoldable pub add_new : ℕ → ℕ → Text → Bucket → Bucket → Place Bucket × Option Error
  unfolding taken
  add_new id suffix enc m d = elim (put folder_next_id_key (put_uint64 (u64 (id + 1))) d) [
    | none ↦ (there m d, some database)
    | some d' ↦
        if taken id m
        then (there m d, some duplicate_id)
        else elim (put (put_uint64 id ++ put_uint64 suffix) enc m) [
          | none ↦ (there m d, some database)
          | some m' ↦ (there m' d', none)
        ]
  ]

  -- `InsertNewMessage`, with the nonce that is drawn for it.
  unfoldable pub insert_new_message : Option Text → Option Text → ℕ → Folder → Folder × Reply ℕ
  unfolding encrypt add_new
  insert_new_message drawn none suffix f = (f, failed nil_message)
  insert_new_message drawn (some msg) suffix f = elim (encrypt S f.master_key drawn msg) [
    | none ↦ (f, failed not_encrypted)
    | some enc ↦ elim f.place [
      | no_user ↦ (f, failed not_found)
      | no_folders ↦ (f, panicked)
      | no_folder ↦ (f, panicked)
      | there m d ↦
          let (place, e) = add_new f.next_id suffix enc m d in
          elim e [
            | some error ↦ (f, failed error)
            | none ↦ (record f { place = place; next_id = u64 (f.next_id + 1) }, done f.next_id)
          ]
    ]
  ]

  -- The update of `InsertMessage`.
  unfoldable pub add_at : ℕ → ℕ → Text → Bucket → Bucket × Option Error
  unfolding taken
  add_at id suffix enc m =
      if taken id m
      then (m, some duplicate_id)
      else elim (put (put_uint64 id ++ put_uint64 suffix) enc m) [
        | none ↦ (m, some database)
        | some m' ↦ (m', none)
      ]

  -- `InsertMessage`
  unfoldable pub insert_message : Option Text → ℕ → Option Text → ℕ → Folder → Folder × Reply Unit
  unfolding encrypt add_at
  insert_message drawn id none suffix f =
      if id == 0 || leb f.next_id id then (f, failed invalid_id) else (f, failed nil_message)
  insert_message drawn id (some msg) suffix f =
      if id == 0 || leb f.next_id id
      then (f, failed invalid_id)
      else elim (encrypt S f.master_key drawn msg) [
        | none ↦ (f, failed not_encrypted)
        | some enc ↦ elim f.place [
          | no_user ↦ (f, failed not_found)
          | no_folders ↦ (f, panicked)
          | no_folder ↦ (f, panicked)
          | there m d ↦
              let (m', e) = add_at id suffix enc m in
              elim e [
                | some error ↦ (f, failed error)
                | none ↦ (record f { place = there m' d }, done tt)
              ]
        ]
      ]

  -- What `GetMessage` makes of the key and the value at the cursor.
  unfoldable pub read_entry : Option Key → Text → Text → Option Text → Reply (ℕ × Text)
  unfolding split_at uint64 decrypt
  read_entry key p k none = failed not_found
  read_entry key p k (some v) = elim (split_at 8 k) [
    | none ↦ panicked
    | some (front, back) ↦ if not (text_eq front p) then failed not_found else elim (uint64 back) [
      | none ↦ panicked
      | some suffix ↦ elim (decrypt S key v) [
        | opened msg ↦ done (suffix, msg)
        | not_opened ↦ failed decryption_failed
        | stopped ↦ panicked
      ]
    ]
  ]

  -- `GetMessage`
  unfoldable pub get_message : ℕ → Folder → Reply (ℕ × Text)
  unfolding read_entry
  get_message id f = elim f.place [
    | no_user ↦ failed not_found
    | no_folders ↦ failed not_found
    | no_folder ↦ panicked
    | there m d ↦ elim (seek (put_uint64 id) m) [
      | [] ↦ failed not_found
      | (k, v) ∷ rest ↦ read_entry f.master_key (put_uint64 id) k v
    ]
  ]

  -- What `DeleteMessage` makes of the key and the value at the cursor.
  unfoldable pub delete_entry : Text → Text → Option Text → Bucket → Bucket × Reply Unit
  unfolding split_at
  delete_entry p k none m = (m, failed not_found)
  delete_entry p k (some v) m = elim (split_at 8 k) [
    | none ↦ (m, panicked)
    | some (front, back) ↦
        if not (text_eq front p)
        then (m, failed not_found)
        else elim (delete k m) [ none ↦ (m, failed database) | some m' ↦ (m', done tt) ]
  ]

  -- `DeleteMessage`
  unfoldable pub delete_message : ℕ → Folder → Folder × Reply Unit
  unfolding delete_entry
  delete_message id f =
      if id == 0 || leb f.next_id id then (f, failed invalid_id) else elim f.place [
        | no_user ↦ (f, failed not_found)
        | no_folders ↦ (f, panicked)
        | no_folder ↦ (f, panicked)
        | there m d ↦ elim (seek (put_uint64 id) m) [
          | [] ↦ (f, failed not_found)
          | (k, v) ∷ rest ↦
              let (m', reply) = delete_entry (put_uint64 id) k v m in
              (record f { place = there m' d }, reply)
        ]
      ]
