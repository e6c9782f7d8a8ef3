-- ===== src/Mailbox/Box/Own.antt =====
-- Which messages of a folder are the own messages of a mailbox, and how many have a flag.
use bmagent.Base.{
  ℕ, ◌+◌, ◌≡◌, ◌⊎◌, inl, inr, refl, ap, ◌∙◌, Bool, not, Option, none, some, List, [], ◌∷◌, ◌++◌,
  if◌then◌else◌, u32, Text, arith, ◌≤◌, leb, ◌==◌, Bool-cases,
}
use bmagent.Mailbox.Sequence.Count.{IsSorted, AllGreater}
use bmagent.Mailbox.Coding.{Outcome, fine, refused, stopped, Coding, Bmail, decode_bitmessage}
use bmagent.Mailbox.Box.{Folders, Flags, sort_uids, insert_uid, belongs}

pub Outcome-cases :
    {A : Type 0} (o : Outcome A) → ((o ≡ refused) ⊎ (o ≡ stopped)) ⊎ ((a : A) × (o ≡ fine a))
Outcome-cases refused = inl (inl refl)
Outcome-cases stopped = inl (inr refl)
Outcome-cases (fine a) = inr (a, refl)

pub twice : (n a b : ℕ) → u32 (u32 (n + a) + b) ≡ u32 (n + (a + b))
twice n a b = omega arith

pub with_none : (n c : ℕ) → u32 (n + c) ≡ u32 (n + (0 + c))
with_none n c = omega arith

pub zero_first : (c : ℕ) → u32 (0 + c) ≡ u32 c
zero_first c = omega arith

-- `xs ++ (x ∷ []) ++ ys`
pub append_one :
    {A : Type 0} (xs : List A) (x : A) (ys : List A) → (xs ++ (x ∷ [])) ++ ys ≡ xs ++ (x ∷ ys)
append_one [] x ys = refl
append_one (y ∷ xs) x ys = ap (λ t. y ∷ t) (append_one xs x ys)

pub append_none : {A : Type 0} (xs : List A) → xs ++ [] ≡ xs
append_none [] = refl
append_none (y ∷ xs) = ap (λ t. y ∷ t) (append_none xs)

pub insert_uid-first : (x : ℕ) (xs : List ℕ) → AllGreater x xs → insert_uid x xs ≡ x ∷ xs
unfolding insert_uid
insert_uid-first x [] h = refl
insert_uid-first x (y ∷ ys) (lt, rest) = ground arith

-- Sorted uids are left as they are.
pub sort_uids-IsSorted : (xs : List ℕ) → IsSorted xs → sort_uids xs ≡ xs
unfolding sort_uids
sort_uids-IsSorted [] h = refl
sort_uids-IsSorted (x ∷ xs) (after, h) =
    ap (insert_uid x) (sort_uids-IsSorted xs h) ∙ insert_uid-first x xs after

-- The uids do not fall along the list.
abbrev pub AllAtLeast : ℕ → List ℕ → Type 0
AllAtLeast x [] = Unit
AllAtLeast x (y ∷ ys) = (x ≤ y) × AllAtLeast x ys

abbrev pub IsRising : List ℕ → Type 0
IsRising [] = Unit
IsRising (x ∷ xs) = AllAtLeast x xs × IsRising xs

-- How often a uid stands in the list.
unfoldable pub times : ℕ → List ℕ → ℕ
times n [] = 0
times n (x ∷ xs) = (if x == n then 1 else 0) + times n xs

AllAtLeast-le : (a x : ℕ) (xs : List ℕ) → a ≤ x → AllAtLeast x xs → AllAtLeast a xs
AllAtLeast-le a x [] le h = tt
AllAtLeast-le a x (y ∷ ys) le (here, h) = (omega arith, AllAtLeast-le a x ys le h)

insert_uid-AllAtLeast :
    (a n : ℕ) (xs : List ℕ) → a ≤ n → AllAtLeast a xs → AllAtLeast a (insert_uid n xs)
unfolding insert_uid
insert_uid-AllAtLeast a n [] le h = (le, tt)
insert_uid-AllAtLeast a n (x ∷ xs) le (here, h) =
    let IH = insert_uid-AllAtLeast a n xs le h in
    elim (Bool-cases (leb n x)) [
      | inl t ↦ rw (t, insert_uid) (le, (here, h))
      | inr f ↦ rw (f, insert_uid) (here, IH)
    ]

insert_uid-IsRising : (n : ℕ) (xs : List ℕ) → IsRising xs → IsRising (insert_uid n xs)
unfolding insert_uid
insert_uid-IsRising n [] h = (tt, tt)
insert_uid-IsRising n (x ∷ xs) (after, h) =
    let IH = insert_uid-IsRising n xs h in
    elim (Bool-cases (leb n x)) [
      | inl t ↦
          let le : n ≤ x = ground arith in
          rw (t, insert_uid) ((le, AllAtLeast-le n x xs le after), (after, h))
      | inr f ↦ rw (f, insert_uid) (insert_uid-AllAtLeast x n xs (ground arith) after, IH)
    ]

times-insert_uid :
    (m n : ℕ) (xs : List ℕ) → times m (insert_uid n xs) ≡ (if n == m then 1 else 0) + times m xs
unfolding insert_uid times
times-insert_uid m n [] = refl
times-insert_uid m n (x ∷ xs) =
    let IH = times-insert_uid m n xs in
    elim (Bool-cases (leb n x)) [
      | inl t ↦ rw (t, insert_uid) refl
      | inr f ↦ rw (f, insert_uid) (omega (arith, IH))
    ]

-- The sort gives the same uids, in their order.
pub sort_uids-IsRising : (xs : List ℕ) → IsRising (sort_uids xs)
unfolding sort_uids
sort_uids-IsRising [] = tt
sort_uids-IsRising (x ∷ xs) = insert_uid-IsRising x (sort_uids xs) (sort_uids-IsRising xs)

pub times-sort_uids : (n : ℕ) (xs : List ℕ) → times n (sort_uids xs) ≡ times n xs
unfolding sort_uids times
times-sort_uids n [] = refl
times-sort_uids n (x ∷ xs) =
    omega (arith, times-insert_uid n x (sort_uids xs), times-sort_uids n xs)

abbrev pub ids_of : List (ℕ × Text) → List ℕ
ids_of [] = []
ids_of ((id, msg) ∷ es) = id ∷ ids_of es

module _ (C : Coding) (F : Folders) (X : Flags) (probe : ℕ → ℕ → ℕ → ℕ → ℕ → ℕ) where
  open C use {Time}

  abbrev pub Sub : Type 0
  Sub = Option (Bmail Time → Bool)

  -- What a stored message is to the mailbox: one of its own, with these flags, or none of its own.
  unfoldable pub classify : Sub → Text → Outcome (Option ℕ)
  unfolding decode_bitmessage belongs
  classify sub msg = elim (decode_bitmessage C msg) [
    | refused ↦ refused
    | stopped ↦ stopped
    | fine (b, o) ↦
        if not (belongs C F X probe sub b)
        then fine none
        else elim b.imap_data [ none ↦ stopped | some i ↦ fine (some i.flags) ]
  ]

  -- Every message can be read.
  abbrev pub AreReadable : Sub → List (ℕ × Text) → Type 0
  AreReadable sub [] = Unit
  AreReadable sub ((id, msg) ∷ es) =
      ((own : Option ℕ) × (classify sub msg ≡ fine own)) × AreReadable sub es

  -- One for a message of the mailbox whose flags pass the test.
  abbrev pub one_if : (ℕ → Bool) → Outcome (Option ℕ) → ℕ
  one_if p refused = 0
  one_if p stopped = 0
  one_if p (fine none) = 0
  one_if p (fine (some flags)) = if p flags then 1 else 0

  unfoldable pub count : (ℕ → Bool) → Sub → List (ℕ × Text) → ℕ
  unfolding classify
  count p sub [] = 0
  count p sub ((id, msg) ∷ es) = one_if p (classify sub msg) + count p sub es

  abbrev pub id_if : ℕ → Outcome (Option ℕ) → List ℕ → List ℕ
  id_if id refused rest = rest
  id_if id stopped rest = rest
  id_if id (fine none) rest = rest
  id_if id (fine (some flags)) rest = id ∷ rest

  unfoldable pub own_ids : Sub → List (ℕ × Text) → List ℕ
  unfolding classify
  own_ids sub [] = []
  own_ids sub ((id, msg) ∷ es) = let rest = own_ids sub es in id_if id (classify sub msg) rest

  abbrev pub is_recent : ℕ → Bool
  is_recent flags = X.has_flags flags X.recent

  abbrev pub is_unseen : ℕ → Bool
  is_unseen flags = not (X.has_flags flags X.seen)
