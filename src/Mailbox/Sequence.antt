-- ===== src/Mailbox/Sequence.antt =====
-- user/mailbox.go: `MessageSequence`, the sorted uids of a mailbox, and its interpolation search.
pub mod Count
pub mod Probe
pub mod Search
mod Tests
use bmagent.Base.{
  ℕ, zero, suc, ◌+◌, ◌-◌, Bool, true, false, Option, none, some, List, [], ◌∷◌, length, get_elem?,
  ltb, ◌==◌, if◌then◌else◌, u32,
}

-- What the search returns; an index outside the slice is a panic.
pub data Found : Type 0 where
  at : ℕ → Found
  out_of_range : Found
  out_of_fuel : Found

-- `uids[len(uids)-1]` of `x ∷ xs`.
abbrev pub final : ℕ → List ℕ → ℕ
final x [] = x
final x (y ∷ ys) = final y ys

-- What a round of the loop decides: to return, or the next `minIndex`, `maxIndex`, `minUID` and
-- `maxUID`.
pub data Move : Type 0 where
  stop : Found → Move
  narrow : ℕ → ℕ → ℕ → ℕ → Move

-- The floating-point probe of the search is a parameter, with the arguments `minIndex`, `maxIndex`,
-- `minUID`, `maxUID` and `uid`: floor(minIndex + (uid-minUID)/(maxUID-minUID)*(maxIndex-minIndex)).
module _ (probe : ℕ → ℕ → ℕ → ℕ → ℕ → ℕ) (uids : List ℕ) (uid : ℕ) where
  unfoldable pub round : ℕ → ℕ → ℕ → ℕ → Move
  round min_index max_index min_uid max_uid =
      let check = probe min_index max_index min_uid max_uid uid in
      elim (get_elem? uids check) [
        | none ↦ stop out_of_range
        | some new_uid ↦
            if new_uid == uid
            then stop (at (u32 (check + 1)))
            else if ltb uid new_uid
            then narrow min_index check min_uid new_uid
            else elim (get_elem? uids (u32 (check + 1))) [
              | none ↦ stop out_of_range
              | some next_uid ↦
                  if ltb uid next_uid
                  then stop (at (u32 (u32 (check + 1) + 1)))
                  else narrow (u32 (check + 1)) max_index next_uid max_uid
            ]
      ]

  -- The `for` loop.
  unfoldable pub search : ℕ → ℕ → ℕ → ℕ → ℕ → Found
  search zero min_index max_index min_uid max_uid = out_of_fuel
  search (suc fuel) min_index max_index min_uid max_uid =
      elim (round min_index max_index min_uid max_uid) [
        | stop found ↦ found
        | narrow i j lo hi ↦ search fuel i j lo hi
      ]

unfoldable pub get_sequence_number : (ℕ → ℕ → ℕ → ℕ → ℕ → ℕ) → List ℕ → ℕ → Found
get_sequence_number probe [] uid = at 1
get_sequence_number probe (x ∷ xs) uid =
    let last_index = u32 (length xs) in
    if ltb uid x
    then at 1
    else if ltb (final x xs) uid
    then at (u32 (length (x ∷ xs) + 1))
    else if length (x ∷ xs) == 1
    then at 1
    else search probe (x ∷ xs) uid (length (x ∷ xs)) 0 last_index x (final x xs)

-- `Less` and `Swap`, for the sort of the uids.
pub less : ℕ → ℕ → List ℕ → Option Bool
less i j uids = elim (get_elem? uids i) [
  | none ↦ none
  | some a ↦ elim (get_elem? uids j) [ none ↦ none | some b ↦ some (ltb a b) ]
]
