-- ===== src/Mailbox/Box/Reads.antt =====
-- Which message `bmsgByUID` and `bitmessageBySequenceNumber` read.
use bmagent.Base.{
  ℕ, zero, suc, ◌+◌, ◌-◌, ◌<◌, ◌≡◌, ◌≢◌, ◌⊎◌, inl, inr, refl, ap, ◌∙◌, true, false, ◌||◌, none,
  some, List, [], ◌∷◌, length, get_elem?, ◌==◌, ltb, if◌then◌else◌, u32, arith, Bool-cases,
  Option-cases, ◌≤◌,
}
use bmagent.Mailbox.Sequence.Count.{IsSorted, AreSmall, count_below, count_below-at, get_elem?-some}
use bmagent.Mailbox.Sequence.Probe.{IsProbe}
use bmagent.Mailbox.Sequence.Search.{get_sequence_number-count}
use bmagent.Mailbox.Coding.{Outcome, fine, Coding}
use bmagent.Mailbox.Box.{
  Folders, Flags, Mailbox, messages, read_uid, bmsg_by_uid, bitmessage_by_sequence_number,
}

get_elem?-bound : (xs : List ℕ) (i x : ℕ) → get_elem? xs i ≡ some x → i < length xs
get_elem?-bound [] i x e = cc
get_elem?-bound (y ∷ ys) zero x e = omega arith
get_elem?-bound (y ∷ ys) (suc i) x e = omega (arith, get_elem?-bound ys i x e)

module _ (C : Coding) (F : Folders) (X : Flags) (probe : ℕ → ℕ → ℕ → ℕ → ℕ → ℕ) (p : IsProbe probe)
    (box : Mailbox C F X probe) (sorted : IsSorted box.uids) (small : length box.uids ≤ 1048576)
    (low : AreSmall box.uids) where
  found-runs :
      (uid : ℕ)
      → bmsg_by_uid C F X probe uid box ≡ (
          if ltb (u32 (length box.uids)) (count_below uid box.uids + 1)
          then (box, fine none)
          else elim (get_elem? box.uids (count_below uid box.uids + 1 - 1)) [
            | none ↦ (box, Outcome.stopped)
            | some x ↦
                if x == uid
                then read_uid C F X probe uid (count_below uid box.uids + 1) box
                else (box, fine none)
          ])
  unfolding bmsg_by_uid
  found-runs uid =
      rw (get_sequence_number-count probe box.uids uid p sorted small low, bmsg_by_uid) refl

  bmsg_by_uid-at :
      (uid i : ℕ)
      → get_elem? box.uids i ≡ some uid
      → bmsg_by_uid C F X probe uid box ≡ read_uid C F X probe uid (i + 1) box
  bmsg_by_uid-at uid i e =
      let here = count_below-at uid box.uids i sorted e in
      let lt = get_elem?-bound box.uids i uid e in
      let enough : ltb (u32 (length box.uids)) (i + 1) ≡ false = ground arith in
      let before : i + 1 - 1 ≡ i = omega arith in
      let same : uid == uid ≡ true = ground arith in
      found-runs uid
      ∙ rw here (
          rw enough
            (rw before (rw e (rw same (ap (λ c. read_uid C F X probe uid (c + 1) box) here)))))

  bmsg_by_uid-missing :
      (uid : ℕ)
      → ((i : ℕ) → get_elem? box.uids i ≢ some uid)
      → bmsg_by_uid C F X probe uid box ≡ (box, fine none)
  bmsg_by_uid-missing uid gone =
      let c = count_below uid box.uids in
      let before : c + 1 - 1 ≡ c = omega arith in
      elim (Bool-cases (ltb (u32 (length box.uids)) (c + 1))) [
        | inl out ↦ found-runs uid ∙ rw out refl
        | inr enough ↦
            let (x, e) = get_elem?-some box.uids c (ground arith) in
            let other : x == uid ≡ false = elim (Bool-cases (x == uid)) [
              | inl same ↦ let here : x ≡ uid = ground arith in absurd (gone c (e ∙ ap some here))
              | inr ne ↦ ne
            ] in
            found-runs uid ∙ rw enough (rw before (rw e (rw other refl)))
      ]

  numbered :
      (uid i : ℕ)
      → get_elem? box.uids i ≡ some uid
      → bitmessage_by_sequence_number C F X probe (i + 1) box ≡ bmsg_by_uid C F X probe uid box
  unfolding bitmessage_by_sequence_number messages
  numbered uid i e =
      let lt = get_elem?-bound box.uids i uid e in
      let within : (ltb (i + 1) 1 || ltb (u32 (length box.uids)) (i + 1)) ≡ false = ground arith in
      let before : i + 1 - 1 ≡ i = omega arith in
      rw (within, bitmessage_by_sequence_number) (rw before (rw e refl))

  pub bmsg_by_uid-reads :
      (uid : ℕ)
      → ((i : ℕ) × (get_elem? box.uids i ≡ some uid)
          × (bmsg_by_uid C F X probe uid box ≡ read_uid C F X probe uid (i + 1) box)
          × (bitmessage_by_sequence_number C F X probe (i + 1) box
              ≡ read_uid C F X probe uid (i + 1) box))
        ⊎ (((i : ℕ) → get_elem? box.uids i ≢ some uid)
            × (bmsg_by_uid C F X probe uid box ≡ (box, fine none)))
  bmsg_by_uid-reads uid =
      let c = count_below uid box.uids in
      elim (Option-cases (get_elem? box.uids c)) [
        | inl e ↦ inr (only_there e, bmsg_by_uid-missing uid (only_there e))
        | inr (x, e) ↦ elim (Bool-cases (x == uid)) [
          | inr ne ↦ inr (not_there x e ne, bmsg_by_uid-missing uid (not_there x e ne))
          | inl same ↦
              let here : x ≡ uid = ground arith in
              let there = e ∙ ap some here in
              inl (c, there, bmsg_by_uid-at uid c there, by_number c there)
        ]
      ]
    where
      only_there :
          get_elem? box.uids (count_below uid box.uids) ≡ none
          → (i : ℕ) → get_elem? box.uids i ≢ some uid
      only_there e i there = ground (arith, count_below-at uid box.uids i sorted)

      not_there :
          (x : ℕ)
          → get_elem? box.uids (count_below uid box.uids) ≡ some x
          → (x == uid) ≡ false
          → (i : ℕ) → get_elem? box.uids i ≢ some uid
      not_there x e ne i there = ground (arith, count_below-at uid box.uids i sorted)

      by_number :
          (i : ℕ)
          → get_elem? box.uids i ≡ some uid
          → bitmessage_by_sequence_number C F X probe (i + 1) box
            ≡ read_uid C F X probe uid (i + 1) box
      by_number i there = numbered uid i there ∙ bmsg_by_uid-at uid i there
