-- ===== src/Store/Bucket/Seek.antt =====
-- What `Seek` finds for a prefix that begins one key at most.
use mathlib.Core.Bool.{true≢false}
use bmagent.Base.{
  ◌≡◌, inl, inr, sym, ap, subst, ◌∙◌, true, false, Option, some, [], ◌∷◌, ◌++◌, Text, text_eq,
  text_le, text_eq_iff, text_le_total, arith, Bool-cases,
}
use bmagent.Store.Bytes.Order.{text_le-append, prefix_between}
use bmagent.Store.Bucket.{Entries, entry, drop_below, AllAfter, AreSorted}

-- A key that is found behind the first comes after it.
pub after_found :
    (k j : Text) (x : Option Text) (es : Entries)
    → AllAfter k es
    → entry j es ≡ some x
    → text_le j k ≡ false
unfolding entry
after_found k j x [] a e = absurd (ground arith)
after_found k j x ((i, v) ∷ es) a e = elim (Bool-cases (text_eq i j)) [
  | inl same ↦ subst (λ t. text_le t k ≡ false) ((text_eq_iff i j).0 same) a.0
  | inr ne ↦ after_found k j x es a.1 (ground arith)
]

not_eq_of_le : (p k j : Text) → text_le p j ≡ false → text_le p k ≡ true → text_eq j k ≡ false
not_eq_of_le p k j n h = elim (Bool-cases (text_eq j k)) [
  | inr ne ↦ ne
  | inl same ↦ absurd (true≢false (sym h ∙ ap (text_le p) (sym ((text_eq_iff j k).0 same)) ∙ n))
]

-- What a cursor finds from a key on is an entry, at that key or behind it.
pub drop_below-entry :
    (p k : Text) (x : Option Text) (es rest : Entries)
    → AreSorted es
    → drop_below p es ≡ (k, x) ∷ rest
    → (entry k es ≡ some x) × (text_le p k ≡ true)
unfolding entry drop_below
drop_below-entry p k x [] rest s e = absurd (ground arith)
drop_below-entry p k x ((j, v) ∷ es) rest s e = elim (Bool-cases (text_le p j)) [
  | inl le ↦
      let same : j ≡ k = ground arith in
      (ground (arith, text_eq_iff j k), subst (λ t. text_le p t ≡ true) same le)
  | inr below ↦
      let (found, le) = drop_below-entry p k x es rest s.1 (ground arith) in
      (ground (arith, not_eq_of_le p k j below le), le)
]

-- Where a key begins with the prefix, the cursor finds such a key.
pub drop_below-begins :
    (p q : Text) (x : Option Text) (es : Entries)
    → AreSorted es
    → entry (p ++ q) es ≡ some x
    → (q' : Text) × (y : Option Text) × (rest : Entries) × (drop_below p es ≡ (p ++ q', y) ∷ rest)
unfolding entry drop_below
drop_below-begins p q x [] s e = absurd (ground arith)
drop_below-begins p q x ((j, v) ∷ es) s e = elim (Bool-cases (text_le p j)) [
  | inl le ↦ elim (Bool-cases (text_eq j (p ++ q))) [
    | inl same ↦ let key : j ≡ p ++ q = (text_eq_iff j (p ++ q)).0 same in (q, v, es, ground arith)
    | inr ne ↦
        let after = after_found j (p ++ q) x es s.0 (ground arith) in
        let (q', key) = prefix_between p j q le (text_le_total (p ++ q) j after) in
        (q', v, es, ground arith)
  ]
  | inr below ↦
      let other = not_eq_of_le p (p ++ q) j below (text_le-append p q) in
      let (q', y, rest, found) = drop_below-begins p q x es s.1 (ground arith) in
      (q', y, rest, ground arith)
]

-- The one key that begins with the prefix is what the cursor finds.
pub drop_below-found :
    (p q : Text) (x : Option Text) (es : Entries)
    → AreSorted es
    → entry (p ++ q) es ≡ some x
    → ((q' : Text) (y : Option Text) → entry (p ++ q') es ≡ some y → q' ≡ q)
    → (rest : Entries) × (drop_below p es ≡ (p ++ q, x) ∷ rest)
drop_below-found p q x es s e only =
    let (q', y, rest, found) = drop_below-begins p q x es s e in
    let (here, le) = drop_below-entry p (p ++ q') y es rest s found in
    let same : p ++ q' ≡ p ++ q = ap (λ t. p ++ t) (only q' y here) in
    let value : some y ≡ some x = sym here ∙ ap (λ t. entry t es) same ∙ e in (rest, ground arith)
