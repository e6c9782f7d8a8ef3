-- ===== src/Mailbox/Box/Sets.antt =====
-- user/mailbox.go: the messages of a range, and of a set of ranges.
use bmagent.Base.{
  ℕ, ◌+◌, ◌-◌, not, ◌||◌, Option, none, some, List, [], ◌∷◌, ◌++◌, map, get_elem?, ltb, ◌==◌,
  if◌then◌else◌, u32, Text,
}
use bmagent.Mailbox.Sequence.{at, out_of_range, out_of_fuel, final, get_sequence_number}
use bmagent.Mailbox.Coding.{Outcome, fine, refused, stopped, Coding, Bmail}
use bmagent.Mailbox.Box.{
  Folders, Flags, Mailbox, belongs, messages, decode_bitmessage_for_imap, bmsg_by_uid,
  bitmessage_by_sequence_number, last_bitmessage,
}

-- A bound of a range: `Nil()`, `Last()`, the number of `Value()`, or its error.
pub data Bound : Type 0 where
  no_bound last unreadable : Bound
  number : ℕ → Bound

module _ (C : Coding) (F : Folders) (X : Flags) (probe : ℕ → ℕ → ℕ → ℕ → ℕ → ℕ) where
  open C use {Time}

  abbrev Box : Type 0
  Box = Mailbox C F X probe

  -- The list that the loop of a set gathers; a message that is not found is none.
  abbrev pub Gathered : Type 0
  Gathered = Outcome (List (Option (Bmail Time)))

  -- The function that `getRange` gives to `ForEachMessage`, over what it is called with; `i` messages
  -- were taken before.
  unfoldable pub take_range : ℕ → ℕ → List (ℕ × Text) → Box → Box × Outcome (List (Bmail Time))
  unfolding decode_bitmessage_for_imap belongs
  take_range start_sequence i [] box = (box, fine [])
  take_range start_sequence i ((id, msg) ∷ entries) box =
      let rest = λ (n : ℕ) (b : Box). take_range start_sequence n entries b in
      let (box', read) =
        decode_bitmessage_for_imap C F X probe id (u32 (start_sequence + i)) msg box in
      elim read [
        | refused ↦ (box', refused)
        | stopped ↦ (box', stopped)
        | fine none ↦ rest i box'
        | fine (some bm) ↦
            if not (belongs C F X probe box.sub bm)
            then rest i box'
            else (let (box2, out) = rest (u32 (i + 1)) box' in
                elim out [
                  | refused ↦ (box2, refused)
                  | stopped ↦ (box2, stopped)
                  | fine bms ↦ (box2, fine (bm ∷ bms))
                ])
      ]

  -- `getRange`; the nil slice of an error is [].
  unfoldable pub get_range : ℕ → ℕ → ℕ → Box → Box × Outcome (List (Bmail Time))
  unfolding take_range
  get_range start_uid end_uid start_sequence box =
      let (entries, ended) = F.visited start_uid end_uid 2 box.mbox in
      let (box', out) = take_range start_sequence 0 entries box in
      elim out [
        | refused ↦ (box', refused)
        | stopped ↦ (box', stopped)
        | fine bms ↦ (box', fine (if ended then bms else []))
      ]

  -- `getSince`; in an empty mailbox the index of the last uid is out of range.
  unfoldable pub get_since : ℕ → ℕ → Box → Box × Outcome (List (Bmail Time))
  unfolding get_range
  get_since start_uid start_sequence box = elim box.uids [
    | [] ↦ (box, stopped)
    | x ∷ xs ↦ get_range start_uid (final x xs) start_sequence box
  ]

  -- `bitmessagesByUIDRange`
  unfoldable pub bitmessages_by_uid_range : ℕ → ℕ → Box → Box × Outcome (List (Bmail Time))
  unfolding get_range
  bitmessages_by_uid_range start end box = elim (get_sequence_number probe box.uids start) [
    | out_of_range ↦ (box, stopped)
    | out_of_fuel ↦ (box, stopped)
    | at start_sequence ↦ elim (get_sequence_number probe box.uids end) [
      | out_of_range ↦ (box, stopped)
      | out_of_fuel ↦ (box, stopped)
      | at end_sequence ↦
          if ltb end_sequence start_sequence
          then (box, fine [])
          else get_range start end start_sequence box
    ]
  ]

  -- `bitmessagesSinceUID`
  unfoldable pub bitmessages_since_uid : ℕ → Box → Box × Outcome (List (Bmail Time))
  unfolding get_since
  bitmessages_since_uid start box = elim (get_sequence_number probe box.uids start) [
    | out_of_range ↦ (box, stopped)
    | out_of_fuel ↦ (box, stopped)
    | at start_sequence ↦ get_since start start_sequence box
  ]

  -- `bitmessagesBySequenceRange`
  unfoldable pub bitmessages_by_sequence_range : ℕ → ℕ → Box → Box × Outcome (List (Bmail Time))
  unfolding get_range messages
  bitmessages_by_sequence_range start end box =
      let n = messages C F X probe box in
      if ltb start 1 || ltb n start || ltb end 1 || ltb n end || ltb end start
      then (box, fine [])
      else elim (get_elem? box.uids (start - 1)) [
        | none ↦ (box, stopped)
        | some start_uid ↦ elim (get_elem? box.uids (end - 1)) [
          | none ↦ (box, stopped)
          | some end_uid ↦ get_range start_uid end_uid start box
        ]
      ]

  -- `bitmessagesSinceSequenceNumber`
  unfoldable pub bitmessages_since_sequence_number : ℕ → Box → Box × Outcome (List (Bmail Time))
  unfolding get_since messages
  bitmessages_since_sequence_number start box =
      if ltb start 1 || ltb (messages C F X probe box) start
      then (box, fine [])
      else elim (get_elem? box.uids (start - 1)) [
        | none ↦ (box, stopped)
        | some start_uid ↦ get_since start_uid start box
      ]

  -- What a range of a set gives: to go on with more messages, or to return those there are.
  pub data Round : Type 0 where
    more : List (Option (Bmail Time)) → Round
    return : Round

  abbrev pub more_one : Box × Outcome (Option (Bmail Time)) → Box × Outcome Round
  more_one (box, refused) = (box, refused)
  more_one (box, stopped) = (box, stopped)
  more_one (box, fine m) = (box, fine (more (m ∷ [])))

  abbrev pub more_all : Box × Outcome (List (Bmail Time)) → Box × Outcome Round
  more_all (box, refused) = (box, refused)
  more_all (box, stopped) = (box, stopped)
  more_all (box, fine ms) = (box, fine (more (map some ms)))

  -- A range of `bitmessageSetByUID`
  unfoldable pub uid_round : Bound × Bound → Box → Box × Outcome Round
  unfolding last_bitmessage bmsg_by_uid bitmessages_since_uid bitmessages_by_uid_range
  uid_round (last, end) box = more_one (last_bitmessage C F X probe box)
  uid_round (no_bound, end) box = (box, fine return)
  uid_round (unreadable, end) box = (box, fine return)
  uid_round (number start, no_bound) box = more_one (bmsg_by_uid C F X probe start box)
  uid_round (number start, last) box = more_all (bitmessages_since_uid start box)
  uid_round (number start, unreadable) box = (box, fine return)
  uid_round (number start, number end) box = more_all (bitmessages_by_uid_range start end box)

  -- The ranges of `bitmessageSetBySequenceNumber`, after the start was replaced by its uid.
  unfoldable pub sequence_round_at : ℕ → Bound → Box → Box × Outcome Round
  unfolding bitmessage_by_sequence_number bitmessages_since_sequence_number
      bitmessages_by_sequence_range
  sequence_round_at start no_bound box =
      more_one (bitmessage_by_sequence_number C F X probe start box)
  sequence_round_at start last box = more_all (bitmessages_since_sequence_number start box)
  sequence_round_at start unreadable box = (box, fine return)
  sequence_round_at start (number end) box = more_all (bitmessages_by_sequence_range start end box)

  -- A range of `bitmessageSetBySequenceNumber`
  unfoldable pub sequence_round : Bound × Bound → Box → Box × Outcome Round
  unfolding last_bitmessage sequence_round_at messages
  sequence_round (last, end) box = more_one (last_bitmessage C F X probe box)
  sequence_round (no_bound, end) box = (box, fine return)
  sequence_round (unreadable, end) box = (box, fine return)
  sequence_round (number start_index, end) box =
      if ltb start_index 1 || ltb (messages C F X probe box) start_index
      then (box, fine return)
      else elim (get_elem? box.uids (start_index - 1)) [
        | none ↦ (box, stopped)
        | some uid ↦ sequence_round_at (u32 uid) end box
      ]

  -- The loop over a set.
  unfoldable pub gather :
      (Bound × Bound → Box → Box × Outcome Round) → List (Bound × Bound) → Box → Box × Gathered
  gather round [] box = (box, fine [])
  gather round (range ∷ set) box =
      let rest = gather round set in
      let (box', out) = round range box in
      elim out [
        | refused ↦ (box', refused)
        | stopped ↦ (box', stopped)
        | fine return ↦ (box', fine [])
        | fine (more msgs) ↦
            let (box2, others) = rest box' in
            elim others [
              | refused ↦ (box2, refused)
              | stopped ↦ (box2, stopped)
              | fine ms ↦ (box2, fine (msgs ++ ms))
            ]
      ]

  -- `bitmessageSetByUID`
  unfoldable pub bitmessage_set_by_uid : List (Bound × Bound) → Box → Box × Gathered
  unfolding gather uid_round messages
  bitmessage_set_by_uid set box =
      if messages C F X probe box == 0 then (box, fine []) else gather uid_round set box

  -- `bitmessageSetBySequenceNumber`
  unfoldable pub bitmessage_set_by_sequence_number : List (Bound × Bound) → Box → Box × Gathered
  unfolding gather sequence_round messages
  bitmessage_set_by_sequence_number set box =
      if messages C F X probe box == 0 then (box, fine []) else gather sequence_round set box
