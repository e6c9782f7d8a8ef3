-- ===== src/Data/MemFolder/Reads.antt =====
-- What `GetMessage` of `memFolder` returns after each operation.
use bmagent.Base.{
  ℕ, ◌+◌, ◌-◌, ◌<◌, ◌≡◌, refl, ◌⊎◌, ◌↔◌, inl, inr, Option, none, some, arith, ◌==◌, if◌then◌else◌,
  remove, Option-cases,
}
use bmagent.Data.MemFolder.{
  Bytes, Error, not_found, MemFolder, insert_new_message, insert_message, get_message,
  found_message, Got, got, failed, delete_message, delete_found,
}
use bmagent.Data.MemFolder.Last.{IsValid}
use bmagent.Data.MemFolder.Insert.{unused}
use bmagent.Data.MemFolder.Scan.{scan_down-kept}

-- The first where there is no error, and else the second.
abbrev pub after : Option Error → Got → Got → Got
after none done kept = done
after (some e) done kept = kept

-- On a valid folder `GetMessage` is the lookup in the map.
pub get_message-lookup :
    (id : ℕ) (f : MemFolder) → IsValid f → get_message id f ≡ found_message (f.messages id)
unfolding get_message found_message
get_message-lookup id f v = elim (Option-cases (f.messages id)) [
  | inl e ↦ ground arith
  | inr (m, at) ↦ ground (arith, v.below id m, v.positive id m)
]

-- On a valid folder whose counter does not wrap a new message is stored at the counter; it can be
-- read back under the returned id, and every other id reads as before.
get_message-insert_new_message :
    (msg : Bytes) (suffix j : ℕ) (f : MemFolder)
    → IsValid f
    → f.next_index + 1 < 18446744073709551616
    → let (f', id, e) = insert_new_message (some msg) suffix f in
      (e ≡ none)
      × (id ≡ f.next_index)
      × (get_message j f' ≡ (if j == id then got suffix msg else get_message j f))
unfolding insert_new_message get_message
get_message-insert_new_message msg suffix j f v lt =
    (refl, refl, ground (arith, unused f j v, v.started, found_message))

-- On a valid folder `InsertMessage` of a message succeeds exactly at an id below the counter that holds no message; the
-- message can then be read back and every other id reads as before. If it fails, every id reads as
-- before.
get_message-insert_message :
    (id suffix j : ℕ) (msg : Bytes) (f : MemFolder)
    → IsValid f
    → let (f', e) = insert_message id (some msg) suffix f in
      ((e ≡ none) ↔ ((0 < id) × (id < f.next_index) × (get_message id f ≡ failed not_found)))
      × (get_message j f'
          ≡ after e (if j == id then got suffix msg else get_message j f) (get_message j f))
unfolding insert_message get_message
get_message-insert_message id suffix j msg f v =
    ((λ h. (ground arith, ground arith, ground arith), λ h. ground arith), ground arith)

-- A refused `InsertMessage` or `DeleteMessage` leaves the folder as it was.
refused_unchanged :
    (id suffix : ℕ) (msg : Option Bytes) (f : MemFolder)
    → (((insert_message id msg suffix f).1 ≡ none) ⊎ ((insert_message id msg suffix f).0 ≡ f))
      × (((delete_message id f).1 ≡ none) ⊎ ((delete_message id f).0 ≡ f))
unfolding insert_message delete_message delete_found
refused_unchanged id suffix msg f = (
  elim (Option-cases (insert_message id msg suffix f).1) [
    | inl e ↦ inl e
    | inr (x, e) ↦ inr (ground arith)
  ],
  elim (Option-cases (delete_message id f).1) [ inl e ↦ inl e | inr (x, e) ↦ inr (ground arith) ],
)

-- On a valid folder `DeleteMessage` succeeds exactly where a message can be read; then the id reads as missing, and
-- every other id as before. If it fails, every id reads as before.
get_message-delete_message :
    (id j : ℕ) (f : MemFolder)
    → IsValid f
    → let (f', e) = delete_message id f in
      ((e ≡ none) ↔ ((s : ℕ) × (b : Bytes) × (get_message id f ≡ got s b)))
      × (get_message j f'
          ≡ after e (if j == id then failed not_found else get_message j f) (get_message j f))
unfolding delete_message get_message delete_found
get_message-delete_message id j f v = (
  (
    λ h. elim (Option-cases (f.messages id)) [
      | inl e ↦ absurd (ground arith)
      | inr (m, at) ↦ (m.suffix, m.payload, ground arith)
    ],
    λ (s, b, h). ground arith,
  ),
  ground (arith, scan_down-kept id suffix (id - 1) (record f { messages = remove id f.messages })),
)
  where
    suffix : ℕ
    suffix = elim (f.messages id) [ none ↦ 0 | some m ↦ m.suffix ]
