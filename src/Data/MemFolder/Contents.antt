-- ===== src/Data/MemFolder/Contents.antt =====
-- What each method of `memFolder` does to the messages, the counter and its reply.
use bmagent.Base.{
  ℕ, ◌+◌, ◌-◌, ◌<◌, ◌≡◌, ◌⊎◌, inl, inr, refl, true, ◌||◌, none, some, arith, leb, ◌==◌, u64, put,
  remove, Bool-cases, Option-cases,
}
use bmagent.Data.MemFolder.{
  Bytes, invalid_id, not_found, duplicate_id, Message, MemFolder, update_last, insert_new_message,
  insert_present, insert_message, delete_message, delete_found,
}
use bmagent.Data.MemFolder.Scan.{scan_down-kept}

-- The id is one that has been given out.
abbrev pub Given : ℕ → MemFolder → Type 0
Given id f = (0 < id) × (id < f.next_index)

pub insert_new_message-contents :
    (msg : Bytes) (suffix : ℕ) (f : MemFolder)
    → let (f', id, e) = insert_new_message (some msg) suffix f in
      (f'.messages ≡ put f.next_index (record { payload = msg; suffix = suffix }) f.messages)
      × (f'.next_index ≡ u64 (f.next_index + 1))
      × (id ≡ f.next_index)
      × (e ≡ none)
unfolding insert_new_message update_last
insert_new_message-contents msg suffix f = (ground arith, ground arith, refl, refl)

pub insert_message-contents :
    (id : ℕ) (msg : Bytes) (suffix : ℕ) (f : MemFolder)
    → let (f', e) = insert_message id (some msg) suffix f in
      (Given id f
        × (f.messages id ≡ none)
        × (e ≡ none)
        × (f'.messages ≡ put id (record { payload = msg; suffix = suffix }) f.messages)
        × (f'.next_index ≡ f.next_index))
      ⊎ ((m : Message) × Given id f × (f.messages id ≡ some m) × (e ≡ some duplicate_id) × (f' ≡ f))
      ⊎ (((id == 0 || leb f.next_index id) ≡ true) × (e ≡ some invalid_id) × (f' ≡ f))
unfolding insert_message insert_present update_last
insert_message-contents id msg suffix f = elim (Bool-cases (id == 0 || leb f.next_index id)) [
  | inl out ↦ inr (inr (out, ground arith, ground arith))
  | inr given ↦ elim (Option-cases (f.messages id)) [
    | inl e ↦ inl ((ground arith, ground arith), e, ground arith, ground arith, ground arith)
    | inr (m, e) ↦ inr (inl (m, (ground arith, ground arith), e, ground arith, ground arith))
  ]
]

pub delete_message-contents :
    (id : ℕ) (f : MemFolder)
    → let (f', e) = delete_message id f in
      ((m : Message) × Given id f
        × (f.messages id ≡ some m)
        × (e ≡ none)
        × (f'.messages ≡ remove id f.messages)
        × (f'.next_index ≡ f.next_index))
      ⊎ (Given id f × (f.messages id ≡ none) × (e ≡ some not_found) × (f' ≡ f))
      ⊎ (((id == 0 || leb f.next_index id) ≡ true) × (e ≡ some invalid_id) × (f' ≡ f))
unfolding delete_message delete_found
delete_message-contents id f = elim (Bool-cases (id == 0 || leb f.next_index id)) [
  | inl out ↦ inr (inr (out, ground arith, ground arith))
  | inr given ↦ elim (Option-cases (f.messages id)) [
    | inl e ↦ inr (inl ((ground arith, ground arith), e, ground arith, ground arith))
    | inr (m, e) ↦ inl (
      m,
      (ground arith, ground arith),
      e,
      ground arith,
      ground (
        arith,
        scan_down-kept id m.suffix (id - 1) (record f { messages = remove id f.messages }),
      ),
      ground (
        arith,
        scan_down-kept id m.suffix (id - 1) (record f { messages = remove id f.messages }),
      ),
    )
  ]
]
