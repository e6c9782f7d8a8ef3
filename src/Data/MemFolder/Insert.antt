-- ===== src/Data/MemFolder/Insert.antt =====
-- `InsertNewMessage` and `InsertMessage` of `memFolder`: the invariant, and what can be read.
use bmagent.Base.{
  ℕ, ◌+◌, ◌≤◌, ◌<◌, ◌≡◌, refl, subst, inl, inr, ◌||◌, Option, none, some, arith, leb, ◌==◌, put,
  Bool-cases, Option-cases,
}
use bmagent.Data.MemFolder.{
  Bytes, Message, MemFolder, update_last, insert_new_message, insert_present, insert_message,
}
use bmagent.Data.MemFolder.Last.{IsValid, update_last-last, update_last-by_suffix}

pub update_last-parts :
    (id suffix : ℕ) (f : MemFolder)
    → ((update_last id suffix f).messages ≡ f.messages)
      × ((update_last id suffix f).next_index ≡ f.next_index)
unfolding update_last
update_last-parts id suffix f = ground arith

-- A message put at an unused id, with the indices updated and the counter at `n`.
module _ (f : MemFolder) (id : ℕ) (m : Message) (v : IsValid f) (fresh : f.messages id ≡ none)
    (pos : 0 < id) where
  added-IsValid :
      (n : ℕ)
      → f.next_index ≤ n
      → id < n
      → IsValid
          (record (update_last id m.suffix f) { next_index = n; messages = put id m f.messages })
  added-IsValid n le lt = record {
    started = omega (arith, v.started);
    positive = λ k m' h. ground (arith, v.positive k m');
    below = λ k m' h. ground (arith, v.below k m');
    last = update_last-last f id m v fresh pos;
    by_suffix = update_last-by_suffix f id m v fresh pos;
  }

pub unused : (f : MemFolder) (id : ℕ) → IsValid f → f.next_index ≤ id → f.messages id ≡ none
unused f id v le = elim (Option-cases (f.messages id)) [
  | inl e ↦ e
  | inr (m, at) ↦ absurd (omega (arith, v.below id m at))
]

-- `InsertNewMessage` leaves a valid folder valid while the counter does not wrap.
pub insert_new_message-IsValid :
    (msg : Option Bytes) (suffix : ℕ) (f : MemFolder)
    → IsValid f
    → f.next_index + 1 < 18446744073709551616
    → IsValid (insert_new_message msg suffix f).0
unfolding insert_new_message
insert_new_message-IsValid none suffix f v lt = v
insert_new_message-IsValid (some msg) suffix f v lt = subst IsValid (ground arith) (
    added-IsValid f f.next_index (record { payload = msg; suffix = suffix }) v
      (unused f f.next_index v (omega arith)) v.started (f.next_index + 1) (omega arith)
      (omega arith))

insert_present-IsValid :
    (id : ℕ) (msg : Option Bytes) (suffix : ℕ) (f : MemFolder)
    → IsValid f
    → 0 < id
    → id < f.next_index
    → (o : Option Message) → f.messages id ≡ o
    → IsValid (insert_present id msg suffix o f).0
unfolding insert_present
insert_present-IsValid id none suffix f v pos lt o e = v
insert_present-IsValid id (some msg) suffix f v pos lt (some m) e = v
insert_present-IsValid id (some msg) suffix f v pos lt none e = subst IsValid (ground arith) (
    added-IsValid f id (record { payload = msg; suffix = suffix }) v e pos f.next_index
      (omega arith) lt)

-- `InsertMessage` leaves a valid folder valid, on every branch.
pub insert_message-IsValid :
    (id : ℕ) (msg : Option Bytes) (suffix : ℕ) (f : MemFolder)
    → IsValid f
    → IsValid (insert_message id msg suffix f).0
unfolding insert_message
insert_message-IsValid id msg suffix f v = elim (Bool-cases (id == 0 || leb f.next_index id)) [
  | inl out ↦ rw (out, insert_message) v
  | inr ok ↦
      rw (ok, insert_message)
        (insert_present-IsValid id msg suffix f v (ground arith) (ground arith) (f.messages id)
          refl)
]
