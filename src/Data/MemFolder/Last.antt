-- ===== src/Data/MemFolder/Last.antt =====
-- The indices that `memFolder` caches, against the messages that it holds.
use mathlib.Core.Bool.{true≢false}
use bmagent.Base.{
  ℕ, ◌≤◌, ◌<◌, ◌≡◌, refl, subst, ◌⊎◌, inl, inr, Bool, true, false, Option, none, some, arith, ltb,
  ◌==◌, if◌then◌else◌, IdMap, put, or_zero, Bool-cases,
}
use bmagent.Data.MemFolder.{Message, MemFolder, new_mem_folder, update_last}

-- `o` is the highest id of a message that passes the test, or there is no such message.
abbrev pub IsHighest : (Message → Bool) → IdMap Message → Option ℕ → Type 0
IsHighest p ms none = (k : ℕ) (m : Message) → ms k ≡ some m → p m ≡ false
IsHighest p ms (some j) =
    ((m : Message) × (ms j ≡ some m) × (p m ≡ true))
    × ((k : ℕ) (m : Message) → ms k ≡ some m → p m ≡ true → k ≤ j)

abbrev pub any_message : Message → Bool
any_message m = true

abbrev pub has_suffix : ℕ → Message → Bool
has_suffix s m = m.suffix == s

abbrev pub non_zero : ℕ → Option ℕ
non_zero n = if n == 0 then none else some n

-- Every id lies between 1 and `next_index`, and the cached indices are the highest ids: over all
-- messages, and for each suffix.
pub record IsValid (f : MemFolder) : Type 0 where
  pub started : 0 < f.next_index
  pub positive : (k : ℕ) (m : Message) → f.messages k ≡ some m → 0 < k
  pub below : (k : ℕ) (m : Message) → f.messages k ≡ some m → k < f.next_index
  pub last : IsHighest any_message f.messages (non_zero f.last_index)
  pub by_suffix : (s : ℕ) → IsHighest (has_suffix s) f.messages (f.last_index_by_suffix s)

-- A new folder satisfies the invariant.
pub new_mem_folder-IsValid : IsValid new_mem_folder
unfolding new_mem_folder
new_mem_folder-IsValid = record {
  started = omega arith;
  positive = λ k m h. cc;
  below = λ k m h. cc;
  last = λ k m h. cc;
  by_suffix = λ s k m h. cc;
}

-- What a new message at an unused id does to the highest id.
module _ (p : Message → Bool) (ms : IdMap Message) (id : ℕ) (m : Message)
    (fresh : ms id ≡ none) where
  IsHighest-raise :
      (o : Option ℕ)
      → p m ≡ true
      → or_zero o ≤ id
      → IsHighest p ms o
      → IsHighest p (put id m ms) (some id)
  IsHighest-raise none pm lt h = ((m, ground arith, pm), λ k m' e pm'. ground (arith, h k m'))
  IsHighest-raise (some j) pm lt h = ((m, ground arith, pm), λ k m' e pm'. ground (arith, h.1 k m'))

  IsHighest-keep : (j : ℕ) → id ≤ j → IsHighest p ms (some j) → IsHighest p (put id m ms) (some j)
  IsHighest-keep j le h =
      ((h.0.0, ground (arith, h.0.1), h.0.2), λ k m' e pm'. ground (arith, h.1 k m'))

  IsHighest-skip : (o : Option ℕ) → p m ≡ false → IsHighest p ms o → IsHighest p (put id m ms) o
  IsHighest-skip none pm h = λ k m' e. ground (arith, h k m')
  IsHighest-skip (some j) pm h =
      ((h.0.0, ground (arith, h.0.1), h.0.2), λ k m' e pm'. ground (arith, h.1 k m'))

-- A message that passes a test is no higher than the highest message.
pub highest_mono :
    (p : Message → Bool) (ms : IdMap Message) (o l : Option ℕ)
    → IsHighest any_message ms l
    → IsHighest p ms o
    → or_zero o ≤ or_zero l
highest_mono p ms none l h k = omega arith
highest_mono p ms (some j) none h k = absurd (true≢false (h j k.0.0 k.0.1))
highest_mono p ms (some j) (some i) h k = h.1 j k.0.0 k.0.1 refl

IsHighest-skip_or_keep :
    (p : Message → Bool) (ms : IdMap Message) (id : ℕ) (m : Message) (o : Option ℕ)
    → ms id ≡ none
    → (p m ≡ false) ⊎ (id ≤ or_zero o)
    → 0 < id
    → IsHighest p ms o
    → IsHighest p (put id m ms) o
IsHighest-skip_or_keep p ms id m o fresh (inl pm) pos h = IsHighest-skip p ms id m fresh o pm h
IsHighest-skip_or_keep p ms id m none fresh (inr le) pos h = absurd (omega arith)
IsHighest-skip_or_keep p ms id m (some j) fresh (inr le) pos h =
    IsHighest-keep p ms id m fresh j le h

-- `updateLast` keeps the cached indices right when a message is put at an unused id.
module _ (f : MemFolder) (id : ℕ) (m : Message) (v : IsValid f) (fresh : f.messages id ≡ none)
    (pos : 0 < id) where
  pub update_last-last :
      IsHighest any_message (put id m f.messages) (non_zero (update_last id m.suffix f).last_index)
  unfolding update_last
  update_last-last = elim (Bool-cases (ltb f.last_index id)) [
    | inl lt ↦ subst (IsHighest any_message (put id m f.messages)) {x = some id} (ground arith) (
        IsHighest-raise any_message f.messages id m fresh (non_zero f.last_index) refl
          (ground arith) v.last)
    | inr ge ↦
        subst (IsHighest any_message (put id m f.messages)) {x = non_zero f.last_index}
          (ground arith)
          (IsHighest-skip_or_keep any_message f.messages id m (non_zero f.last_index) fresh
            (inr (ground arith)) pos v.last)
  ]

  pub update_last-by_suffix :
      (s : ℕ)
      → IsHighest
          (has_suffix s)
          (put id m f.messages)
          ((update_last id m.suffix f).last_index_by_suffix s)
  unfolding update_last
  update_last-by_suffix s = elim (Bool-cases (m.suffix == s)) [
    | inl same ↦ elim (Bool-cases (ltb (or_zero (f.last_index_by_suffix s)) id)) [
      | inl lt ↦
          subst (IsHighest (has_suffix s) (put id m f.messages)) {x = some id} (ground arith) (
            IsHighest-raise (has_suffix s) f.messages id m fresh (f.last_index_by_suffix s) same
              (ground arith) (v.by_suffix s))
      | inr ge ↦
          subst (IsHighest (has_suffix s) (put id m f.messages)) {x = f.last_index_by_suffix s}
            (ground (arith, bound))
            (IsHighest-skip_or_keep (has_suffix s) f.messages id m (f.last_index_by_suffix s) fresh
              (inr (ground arith)) pos (v.by_suffix s))
    ]
    | inr other ↦
        subst (IsHighest (has_suffix s) (put id m f.messages)) {x = f.last_index_by_suffix s}
          (ground arith)
          (IsHighest-skip_or_keep (has_suffix s) f.messages id m (f.last_index_by_suffix s) fresh
            (inl other) pos (v.by_suffix s))
  ]
    where
      bound : or_zero (f.last_index_by_suffix s) ≤ or_zero (non_zero f.last_index)
      bound =
          highest_mono (has_suffix s) f.messages (f.last_index_by_suffix s) (non_zero f.last_index)
            v.last (v.by_suffix s)
