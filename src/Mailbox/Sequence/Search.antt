-- ===== src/Mailbox/Sequence/Search.antt =====
-- `GetSequenceNumber` finds the place of a uid, and its loop ends.
use native.Mathlib.Decide.{dec_lt, ℕ_discrete}
use bmagent.Base.{
  ◌∙◌, sym, ap, ℕ, zero, suc, ◌+◌, ◌≤◌, ◌<◌, ◌≡◌, refl, some, List, [], ◌∷◌, arith, length,
  get_elem?, ltb, if◌then◌else◌, u32,
}
use bmagent.Mailbox.Sequence.{Found, at, stop, narrow, round, final, search, get_sequence_number}
use bmagent.Mailbox.Sequence.Count.{
  IsSorted, AreSmall, AreSmall-get, count_below, AllGreater-get, count_below-le, lt-count_below,
  count_below-at, count_below-length, get_elem?-some, get_elem?-lt,
}
use bmagent.Mailbox.Sequence.Probe.{IsProbe}

-- A round of the loop, in its four cases, where `n` stands at the probe `c`.
module _ (probe : ℕ → ℕ → ℕ → ℕ → ℕ → ℕ) (uids : List ℕ) (uid i j lo hi n : ℕ) where
  abbrev c : ℕ
  c = probe i j lo hi uid

  round_hit :
      get_elem? uids c ≡ some n → n ≡ uid → round probe uids uid i j lo hi ≡ stop (at (u32 (c + 1)))
  unfolding round
  round_hit here e = ground arith

  round_left :
      get_elem? uids c ≡ some n → uid < n → round probe uids uid i j lo hi ≡ narrow i c lo n
  unfolding round
  round_left here lt = ground arith

  round_next :
      (m : ℕ)
      → get_elem? uids c ≡ some n
      → n < uid
      → c + 1 < 4294967295
      → get_elem? uids (c + 1) ≡ some m
      → round probe uids uid i j lo hi
        ≡ (if ltb uid m then stop (at (c + 2)) else narrow (c + 1) j m hi)
  unfolding round
  round_next m here lt small next =
      let wrap : u32 (c + 1) ≡ c + 1 = omega arith in
      let wrap' : u32 (c + 1 + 1) ≡ c + 2 = omega arith in ground arith

search_stop :
    (probe : ℕ → ℕ → ℕ → ℕ → ℕ → ℕ) (uids : List ℕ) (uid fuel i j lo hi : ℕ) (r : Found)
    → round probe uids uid i j lo hi ≡ stop r
    → search probe uids uid (suc fuel) i j lo hi ≡ r
unfolding search
search_stop probe uids uid fuel i j lo hi r e = rw (e, search)

search_narrow :
    (probe : ℕ → ℕ → ℕ → ℕ → ℕ → ℕ) (uids : List ℕ) (uid fuel i j lo hi i' j' lo' hi' : ℕ)
    → round probe uids uid i j lo hi ≡ narrow i' j' lo' hi'
    → search probe uids uid (suc fuel) i j lo hi ≡ search probe uids uid fuel i' j' lo' hi'
unfolding search
search_narrow probe uids uid fuel i j lo hi i' j' lo' hi' e = rw (e, search)

-- The loop below the highest uid, with more fuel than indices left.
module _ (probe : ℕ → ℕ → ℕ → ℕ → ℕ → ℕ) (p : IsProbe probe) (uids : List ℕ) (uid : ℕ)
    (sorted : IsSorted uids) (small : length uids ≤ 1048576) (low : AreSmall uids) where
  abbrev answer : Found
  answer = at (count_below uid uids + 1)

  get_elem?-length : (i x : ℕ) → get_elem? uids i ≡ some x → i < length uids
  get_elem?-length i x e = length_of_get uids i x e
    where
      length_of_get : (xs : List ℕ) (i x : ℕ) → get_elem? xs i ≡ some x → i < length xs
      length_of_get [] i x e = cc
      length_of_get (y ∷ ys) zero x e = omega arith
      length_of_get (y ∷ ys) (suc i) x e = omega (arith, length_of_get ys i x e)

  -- The two ways to stop: at the uid, and between two uids.
  found_here : (i : ℕ) → get_elem? uids i ≡ some uid → at (u32 (i + 1)) ≡ answer
  found_here i e =
      let count = count_below-at uid uids i sorted e in
      let lt = get_elem?-length i uid e in ap at (omega arith)

  found_between :
      (i x y : ℕ)
      → get_elem? uids i ≡ some x
      → get_elem? uids (i + 1) ≡ some y
      → x < uid
      → uid ≤ y
      → at (i + 2) ≡ answer
  found_between i x y ex ey lt le =
      let low = lt-count_below uid uids i x sorted ex lt in
      let high = count_below-le uid uids (i + 1) y sorted ey le in ap at (omega arith)

  search_below :
      (fuel i j lo hi : ℕ)
      → j < fuel + i
      → get_elem? uids i ≡ some lo
      → get_elem? uids j ≡ some hi
      → lo ≤ uid
      → uid < hi
      → search probe uids uid fuel i j lo hi ≡ answer
  search_below zero i j lo hi f ei ej le lt =
      absurd (omega (arith, get_elem?-lt uids i j lo hi sorted ei ej (omega arith)))
  search_below (suc fuel) i j lo hi f ei ej le lt =
      let ij : i < j = get_elem?-lt uids i j lo hi sorted ei ej (omega arith) in
      let c = probe i j lo hi uid in
      let jl : j < length uids = get_elem?-length j hi ej in
      let hi32 = AreSmall-get uids j hi low ej in
      let (ic, cj) =
        p.within i j lo hi uid (omega arith) (omega arith) le (omega arith) (omega arith) hi32 in
      let c_lt : c < j = p.short i j lo hi uid ij (omega arith) le lt hi32 in
      let (n, en) = get_elem?-some uids c (omega arith) in
      elim (dec_lt uid n) [
        | yes lt' ↦
            search_narrow probe uids uid fuel i j lo hi i c lo n
              (round_left probe uids uid i j lo hi n en lt')
            ∙ search_below fuel i c lo n (omega arith) ei en le lt'
        | no ge ↦ elim (ℕ_discrete n uid) [
          | yes e ↦
              search_stop probe uids uid fuel i j lo hi (at (u32 (c + 1)))
                (round_hit probe uids uid i j lo hi n en e)
              ∙ found_here c (en ∙ ap some e)
          | no ne ↦
              let (m, em) = get_elem?-some uids (c + 1) (omega arith) in
              let step =
                round_next probe uids uid i j lo hi n m en (omega arith) (omega arith) em in
              elim (dec_lt uid m) [
                | yes lt' ↦
                    search_stop probe uids uid fuel i j lo hi (at (c + 2)) (ground (arith, step))
                    ∙ found_between c n m en em (omega arith) (omega arith)
                | no ge' ↦
                    search_narrow probe uids uid fuel i j lo hi (c + 1) j m hi
                      (ground (arith, step))
                    ∙ search_below fuel (c + 1) j m hi (omega arith) em ej (omega arith) lt
              ]
        ]
      ]

get_elem?-final : (x : ℕ) (xs : List ℕ) → get_elem? (x ∷ xs) (length xs) ≡ some (final x xs)
get_elem?-final x [] = refl
get_elem?-final x (y ∷ ys) = get_elem?-final y ys

-- The whole search, from the first index to the last.
module _ (probe : ℕ → ℕ → ℕ → ℕ → ℕ → ℕ) (p : IsProbe probe) (x : ℕ) (xs : List ℕ) (uid : ℕ)
    (sorted : IsSorted (x ∷ xs)) (small : length (x ∷ xs) ≤ 1048576) (low : AreSmall (x ∷ xs)) where
  count_low : uid < x → count_below uid (x ∷ xs) ≡ 0
  count_low lt = omega (arith, count_below-le uid (x ∷ xs) 0 x sorted refl (omega arith))

  count_high : final x xs < uid → count_below uid (x ∷ xs) ≡ suc (length xs)
  count_high lt = omega (
    arith,
    lt-count_below uid (x ∷ xs) (length xs) (final x xs) sorted (get_elem?-final x xs) lt,
    count_below-length uid (x ∷ xs),
  )

  search_all :
      x ≤ uid
      → uid ≤ final x xs
      → x < final x xs
      → search probe (x ∷ xs) uid (suc (length xs)) 0 (length xs) x (final x xs)
        ≡ at (count_below uid (x ∷ xs) + 1)
  search_all le le' lt = elim (dec_lt uid (final x xs)) [
    | yes below ↦
        search_below probe p (x ∷ xs) uid sorted small low (suc (length xs)) 0 (length xs) x
          (final x xs) (omega arith) refl (get_elem?-final x xs) le below
    | no over ↦
        let e : uid ≡ final x xs = omega arith in
        let top : probe 0 (length xs) x (final x xs) uid ≡ length xs = rw e (
          p.top 0 (length xs) x (final x xs) (omega arith) (omega arith) lt
            (AreSmall-get (x ∷ xs) (length xs) (final x xs) low (get_elem?-final x xs))) in
        let here : get_elem? (x ∷ xs) (probe 0 (length xs) x (final x xs) uid) ≡ some (final x xs) =
          rw top (get_elem?-final x xs) in
        search_stop probe (x ∷ xs) uid (length xs) 0 (length xs) x (final x xs) _
          (round_hit probe (x ∷ xs) uid 0 (length xs) x (final x xs) (final x xs) here (sym e))
        ∙ found_here probe p (x ∷ xs) uid sorted small low (probe 0 (length xs) x (final x xs) uid)
            (here ∙ ap some (sym e))
  ]

AllGreater-final : (x y : ℕ) (ys : List ℕ) → IsSorted (x ∷ y ∷ ys) → x < final x (y ∷ ys)
AllGreater-final x y ys s =
    AllGreater-get x (y ∷ ys) (length ys) (final y ys) s.0 (get_elem?-final y ys)

-- `GetSequenceNumber` on sorted uids of 32 bits, each once and no more than 2 ^ 20, terminates with one
-- more than the number of uids that are lower than the given one, which is the place of the lowest
-- uid that is equal or higher. On such uids the probe lies in its interval, reaches the upper index for
-- the highest uid, and stays below it for a lower one.
pub get_sequence_number-count :
    (probe : ℕ → ℕ → ℕ → ℕ → ℕ → ℕ) (uids : List ℕ) (uid : ℕ)
    → IsProbe probe
    → IsSorted uids
    → length uids ≤ 1048576
    → AreSmall uids
    → get_sequence_number probe uids uid ≡ at (count_below uid uids + 1)
unfolding get_sequence_number
get_sequence_number-count probe [] uid p s small low = unfold count_below in refl
get_sequence_number-count probe (x ∷ xs) uid p s small low = elim (dec_lt uid x) [
  | yes below ↦ ground (arith, count_low probe p x xs uid s small low below)
  | no ge ↦ elim (dec_lt (final x xs) uid) [
    | yes high ↦ ground (arith, count_high probe p x xs uid s small low high)
    | no le ↦ between xs s small low (omega arith) (omega arith)
  ]
]
  where
    between :
        (xs : List ℕ)
        → IsSorted (x ∷ xs)
        → length (x ∷ xs) ≤ 1048576
        → AreSmall (x ∷ xs)
        → x ≤ uid
        → uid ≤ final x xs
        → get_sequence_number probe (x ∷ xs) uid ≡ at (count_below uid (x ∷ xs) + 1)
    between [] s small low le le' =
        ground (arith, count_below-at uid (x ∷ []) 0 s (ap some (omega arith)))
    between (y ∷ ys) s small low le le' =
        ground
          (arith, search_all probe p x (y ∷ ys) uid s small low le le' (AllGreater-final x y ys s))
