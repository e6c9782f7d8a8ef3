-- ===== src/Mailbox/Box/Delete.antt =====
-- `DeleteBitmessageByUID` keeps the uids and the counters true to the folder.
pub mod Readings
pub mod Fate
use bmagent.Base.{
  ℕ, zero, suc, ◌+◌, ◌<◌, ◌≤◌, ◌≡◌, ◌≢◌, ◌⊎◌, inl, inr, refl, sym, ap, subst, ◌∙◌, Bool, true,
  false, not, Option, none, some, List, [], ◌∷◌, length, get_elem?, ◌==◌, if◌then◌else◌, u32, Text,
  IdMap, arith, Bool-cases, Option-cases,
}
use bmagent.Mailbox.Sequence.Count.{IsSorted, AllGreater, AllGreater-get}
use bmagent.Mailbox.Sequence.Probe.{IsProbe}
use bmagent.Mailbox.Coding.{
  Outcome, fine, refused, stopped, Coding, ImapData, Bmail, decode_bitmessage,
}
use bmagent.Mailbox.Box.{
  Folders, Flags, Mailbox, Finish, sort_uids, belongs, keep_object, decode_bitmessage_for_imap,
  read_uid, bmsg_by_uid,
}
use bmagent.Mailbox.Box.Changes.{
  remove_uid, decrement, drop_object, uncount, delete_bitmessage_by_uid,
}
use bmagent.Mailbox.Box.Stats.{Shows}
use bmagent.Mailbox.Box.Own.{
  ids_of, sort_uids-IsSorted, classify, AreReadable, one_if, count, id_if, own_ids, is_recent,
  is_unseen, Outcome-cases,
}
use bmagent.Mailbox.Box.Reads.{bmsg_by_uid-reads}

-- The message of an id, and the list without it.
unfoldable pub find : ℕ → List (ℕ × Text) → Option Text
find id [] = none
find id ((j, msg) ∷ es) = if j == id then some msg else find id es

unfoldable pub without : ℕ → List (ℕ × Text) → List (ℕ × Text)
without id [] = []
without id ((j, msg) ∷ es) = let rest = without id es in if j == id then es else (j, msg) ∷ rest

-- What a state of a folder promises of an id: it is iterated in the increasing order of the ids, over
-- the message that `GetMessage` returns, and without the message once it is deleted.
pub record IsFolder (F : Folders) (f : F.Folder) (id : ℕ) : Type 0 where
  pub rising : IsSorted (ids_of (F.visited 0 0 2 f).0)
  pub gets :
      (msg : Text) → F.get_message id f ≡ some (2, msg) → find id (F.visited 0 0 2 f).0 ≡ some msg
  pub deletes :
      (F.delete_message id f).1 ≡ true
      → (F.visited 0 0 2 (F.delete_message id f).0).0 ≡ without id (F.visited 0 0 2 f).0
  pub ends :
      (F.delete_message id f).1 ≡ true
      → (F.visited 0 0 2 (F.delete_message id f).0).1 ≡ (F.visited 0 0 2 f).1
  pub keeps : (F.delete_message id f).1 ≡ false → (F.delete_message id f).0 ≡ f
  pub next : F.next_id (F.delete_message id f).0 ≡ F.next_id f

-- `HasFlags` is the test with `&`.
abbrev pub AreFlags : Flags → Type 0
AreFlags X = (flags flag : ℕ) → X.has_flags flags flag ≡ (X.both flags flag == flag)

without-AllGreater :
    (x id : ℕ) (es : List (ℕ × Text))
    → AllGreater x (ids_of es)
    → AllGreater x (ids_of (without id es))
unfolding without
without-AllGreater x id [] h = tt
without-AllGreater x id ((j, msg) ∷ es) (lt, h) =
    let IH = without-AllGreater x id es h in
    elim (Bool-cases (j == id)) [ inl e ↦ rw (e, without) h | inr ne ↦ rw (ne, without) (lt, IH) ]

pub without-IsSorted :
    (id : ℕ) (es : List (ℕ × Text)) → IsSorted (ids_of es) → IsSorted (ids_of (without id es))
unfolding without
without-IsSorted id [] h = tt
without-IsSorted id ((j, msg) ∷ es) (after, h) =
    let IH = without-IsSorted id es h in
    elim (Bool-cases (j == id)) [
      | inl e ↦ rw (e, without) h
      | inr ne ↦ rw (ne, without) (without-AllGreater j id es after, IH)
    ]

module _ (C : Coding) (F : Folders) (X : Flags) (probe : ℕ → ℕ → ℕ → ℕ → ℕ → ℕ) where
  open C use {Time}

  abbrev Sub : Type 0
  Sub = Option (Bmail Time → Bool)

  own_ids-AllGreater :
      (sub : Sub) (x : ℕ) (es : List (ℕ × Text))
      → AllGreater x (ids_of es)
      → AllGreater x (own_ids C F X probe sub es)
  unfolding own_ids
  own_ids-AllGreater sub x [] h = tt
  own_ids-AllGreater sub x ((id, msg) ∷ es) (lt, h) =
      let IH = own_ids-AllGreater sub x es h in
      elim (Outcome-cases (classify C F X probe sub msg)) [
        | inl (inl e) ↦ rw (e, own_ids) IH
        | inl (inr e) ↦ rw (e, own_ids) IH
        | inr (none, e) ↦ rw (e, own_ids) IH
        | inr (some flags, e) ↦ rw (e, own_ids) (lt, IH)
      ]

  pub own_ids-IsSorted :
      (sub : Sub) (es : List (ℕ × Text))
      → IsSorted (ids_of es)
      → IsSorted (own_ids C F X probe sub es)
  unfolding own_ids
  own_ids-IsSorted sub [] h = tt
  own_ids-IsSorted sub ((id, msg) ∷ es) (after, h) =
      let IH = own_ids-IsSorted sub es h in
      elim (Outcome-cases (classify C F X probe sub msg)) [
        | inl (inl e) ↦ rw (e, own_ids) IH
        | inl (inr e) ↦ rw (e, own_ids) IH
        | inr (none, e) ↦ rw (e, own_ids) IH
        | inr (some flags, e) ↦ rw (e, own_ids) (own_ids-AllGreater sub id es after, IH)
      ]

  pub without-AreReadable :
      (sub : Sub) (id : ℕ) (es : List (ℕ × Text))
      → AreReadable C F X probe sub es
      → AreReadable C F X probe sub (without id es)
  unfolding without
  without-AreReadable sub id [] h = tt
  without-AreReadable sub id ((j, msg) ∷ es) (here, h) =
      let IH = without-AreReadable sub id es h in
      elim (Bool-cases (j == id)) [
        | inl e ↦ rw (e, without) h
        | inr ne ↦ rw (ne, without) (here, IH)
      ]

  -- A message of the mailbox under an id: without it, it is the list, the count and the uids less one.
  pub without-own_ids :
      (sub : Sub) (id flags : ℕ) (msg : Text) (es : List (ℕ × Text))
      → find id es ≡ some msg
      → classify C F X probe sub msg ≡ fine (some flags)
      → own_ids C F X probe sub (without id es) ≡ remove_uid id (own_ids C F X probe sub es)
  unfolding without find own_ids remove_uid
  without-own_ids sub id flags msg [] at own = absurd (ground arith)
  without-own_ids sub id flags msg ((j, m) ∷ es) at own = elim (Bool-cases (j == id)) [
    | inl e ↦
        let same : m ≡ msg = ground arith in
        rw (e, without) (rw (ap (classify C F X probe sub) same ∙ own) (rw e refl))
    | inr ne ↦
        let IH = without-own_ids sub id flags msg es (ground arith) own in
        rw (ne, without)
          (elim (Outcome-cases (classify C F X probe sub m)) [
            | inl (inl e) ↦ rw e IH
            | inl (inr e) ↦ rw e IH
            | inr (none, e) ↦ rw e IH
            | inr (some other, e) ↦ rw e (rw ne (ap (λ t. j ∷ t) IH))
          ])
  ]

  pub count-without :
      (q : ℕ → Bool) (sub : Sub) (id flags : ℕ) (msg : Text) (es : List (ℕ × Text))
      → find id es ≡ some msg
      → classify C F X probe sub msg ≡ fine (some flags)
      → count C F X probe q sub es
        ≡ (if q flags then 1 else 0) + count C F X probe q sub (without id es)
  unfolding without find count
  count-without q sub id flags msg [] at own = absurd (ground arith)
  count-without q sub id flags msg ((j, m) ∷ es) at own = elim (Bool-cases (j == id)) [
    | inl e ↦
        let same : m ≡ msg = ground arith in
        rw (e, without) (rw (ap (classify C F X probe sub) same ∙ own) refl)
    | inr ne ↦
        let IH = count-without q sub id flags msg es (ground arith) own in
        rw (ne, without) (omega (arith, IH))
  ]

  -- The message under a uid of the mailbox is its own.
  pub own_ids-own :
      (sub : Sub) (id i : ℕ) (msg : Text) (es : List (ℕ × Text))
      → IsSorted (ids_of es)
      → find id es ≡ some msg
      → get_elem? (own_ids C F X probe sub es) i ≡ some id
      → (flags : ℕ) × (classify C F X probe sub msg ≡ fine (some flags))
  unfolding find own_ids
  own_ids-own sub id i msg [] h at there = absurd (ground arith)
  own_ids-own sub id i msg ((j, m) ∷ es) (after, h) at there = elim (Bool-cases (j == id)) [
    | inl e ↦
        let same : m ≡ msg = ground arith in
        let here : j ≡ id = ground arith in
        elim (Outcome-cases (classify C F X probe sub m)) [
          | inr (some flags, c) ↦ (flags, ap (classify C F X probe sub) (sym same) ∙ c)
          | inr (none, c) ↦ absurd (
              later i
                (ap (λ o. get_elem? (id_if C F X probe j o (own_ids C F X probe sub es)) i) (sym c)
                  ∙ there)
                here)
          | inl (inl c) ↦ absurd (
              later i
                (ap (λ o. get_elem? (id_if C F X probe j o (own_ids C F X probe sub es)) i) (sym c)
                  ∙ there)
                here)
          | inl (inr c) ↦ absurd (
              later i
                (ap (λ o. get_elem? (id_if C F X probe j o (own_ids C F X probe sub es)) i) (sym c)
                  ∙ there)
                here)
        ]
    | inr ne ↦
        let (k, deeper) = below ne i there in own_ids-own sub id k msg es h (ground arith) deeper
  ]
    where
      later : (k : ℕ) → get_elem? (own_ids C F X probe sub es) k ≡ some id → j ≢ id
      later k e same =
          let lt =
            AllGreater-get j (own_ids C F X probe sub es) k id (own_ids-AllGreater sub j es after)
              e in
          ground arith

      below :
          (j == id) ≡ false
          → (k : ℕ)
          → get_elem?
              (id_if C F X probe j (classify C F X probe sub m) (own_ids C F X probe sub es))
              k
            ≡ some id
          → (k' : ℕ) × (get_elem? (own_ids C F X probe sub es) k' ≡ some id)
      below ne k e = elim (Outcome-cases (classify C F X probe sub m)) [
        | inr (none, c) ↦ (
          k,
          ap (λ o. get_elem? (id_if C F X probe j o (own_ids C F X probe sub es)) k) (sym c) ∙ e,
        )
        | inl (inl c) ↦ (
          k,
          ap (λ o. get_elem? (id_if C F X probe j o (own_ids C F X probe sub es)) k) (sym c) ∙ e,
        )
        | inl (inr c) ↦ (
          k,
          ap (λ o. get_elem? (id_if C F X probe j o (own_ids C F X probe sub es)) k) (sym c) ∙ e,
        )
        | inr (some flags, c) ↦
            deeper k (
              ap (λ o. get_elem? (id_if C F X probe j o (own_ids C F X probe sub es)) k) (sym c)
              ∙ e)
      ]
        where
          deeper :
              (k : ℕ)
              → get_elem? (j ∷ own_ids C F X probe sub es) k ≡ some id
              → (k' : ℕ) × (get_elem? (own_ids C F X probe sub es) k' ≡ some id)
          deeper zero e = absurd (ground arith)
          deeper (suc k) e = (k, e)
