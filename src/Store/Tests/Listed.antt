-- ===== src/Store/Tests/Listed.antt =====
-- Buckets for the tests: lists of entries in the order of their keys, which never refuse.
use mathlib.Core.Bool.{true≢false}
use bmagent.Base.{
  ◌≡◌, inl, inr, refl, sym, subst, ◌∙◌, true, false, Option, none, some, [], ◌∷◌, Text, text_eq,
  text_le, text_eq_iff, text_eq_refl, if◌then◌else◌, arith, Bool-cases,
}
use bmagent.Store.Bytes.Order.{text_le_trans, text_le_antisym}
use bmagent.Store.Bucket.{Entries, entry, drop_below, AllAfter, AreSorted, Buckets, IsBolt}

unfoldable pub with_entry : Text → Option Text → Entries → Entries
with_entry k x [] = (k, x) ∷ []
with_entry k x ((j, v) ∷ es) =
    let rest = with_entry k x es in
    if text_eq k j then (k, x) ∷ es else if text_le k j then (k, x) ∷ (j, v) ∷ es else (j, v) ∷ rest

unfoldable pub without : Text → Entries → Entries
without k [] = []
without k ((j, v) ∷ es) = let rest = without k es in if text_eq k j then rest else (j, v) ∷ rest

eq_sym : (a b : Text) → text_eq a b ≡ text_eq b a
eq_sym a b = elim (Bool-cases (text_eq a b)) [
  | inl e ↦ ground (arith, text_eq_iff a b, text_eq_refl a, text_eq_refl b)
  | inr e ↦ elim (Bool-cases (text_eq b a)) [
    | inl e' ↦ ground (arith, text_eq_iff b a, text_eq_refl a, text_eq_refl b)
    | inr e' ↦ e ∙ sym e'
  ]
]

entry-with_entry :
    (k : Text) (x : Option Text) (j : Text) (es : Entries)
    → entry j (with_entry k x es) ≡ (if text_eq k j then some x else entry j es)
unfolding with_entry entry
entry-with_entry k x j [] = refl
entry-with_entry k x j ((i, v) ∷ es) =
    let IH = entry-with_entry k x j es in
    elim (Bool-cases (text_eq k i)) [
      | inl e ↦
          let same = (text_eq_iff k i).0 e in
          rw (e, with_entry)
            (subst
              (λ t.
                (if text_eq k j then some x else entry j es)
                ≡ (if text_eq k j then some x else if text_eq t j then some v else entry j es))
              same (ground arith))
      | inr ne ↦ elim (Bool-cases (text_le k i)) [
        | inl le ↦ rw (ne, with_entry) (rw le refl)
        | inr lt ↦
            rw (ne, with_entry)
              (rw lt (elim (Bool-cases (text_eq i j)) [
                | inl same ↦
                    let there = (text_eq_iff i j).0 same in
                    let apart : text_eq k j ≡ false = subst (λ t. text_eq k t ≡ false) there ne in
                    rw same (rw apart refl)
                | inr other ↦ rw other IH
              ]))
      ]
    ]

entry-without :
    (k j : Text) (es : Entries)
    → entry j (without k es) ≡ (if text_eq k j then none else entry j es)
unfolding without entry
entry-without k j [] = ground arith
entry-without k j ((i, v) ∷ es) =
    let IH = entry-without k j es in
    elim (Bool-cases (text_eq k i)) [
      | inl e ↦
          let same = (text_eq_iff k i).0 e in
          rw (e, without)
            (IH
              ∙ subst
                  (λ t.
                    (if text_eq k j then none else entry j es)
                    ≡ (if text_eq k j then none else if text_eq t j then some v else entry j es))
                  same (ground arith))
      | inr ne ↦
          rw (ne, without)
            (elim (Bool-cases (text_eq i j)) [
              | inl same ↦
                  let there = (text_eq_iff i j).0 same in
                  let apart : text_eq k j ≡ false = subst (λ t. text_eq k t ≡ false) there ne in
                  rw same (rw apart refl)
              | inr other ↦ rw other IH
            ])
    ]

AllAfter-mono : (k j : Text) (es : Entries) → text_le k j ≡ true → AllAfter j es → AllAfter k es
AllAfter-mono k j [] le h = tt
AllAfter-mono k j ((i, v) ∷ es) le (h, rest) = (
  elim (Bool-cases (text_le i k)) [
    | inl le' ↦ absurd (true≢false (sym (text_le_trans i k j le' le) ∙ h))
    | inr lt ↦ lt
  ],
  AllAfter-mono k j es le rest,
)

AllAfter-with_entry :
    (i k : Text) (x : Option Text) (es : Entries)
    → text_le k i ≡ false
    → AllAfter i es
    → AllAfter i (with_entry k x es)
unfolding with_entry
AllAfter-with_entry i k x [] lt h = (lt, tt)
AllAfter-with_entry i k x ((j, v) ∷ es) lt (h, rest) =
    let IH = AllAfter-with_entry i k x es lt rest in
    elim (Bool-cases (text_eq k j)) [
      | inl e ↦ rw (e, with_entry) (lt, rest)
      | inr ne ↦ elim (Bool-cases (text_le k j)) [
        | inl le ↦ rw (ne, with_entry) (rw le (lt, (h, rest)))
        | inr gt ↦ rw (ne, with_entry) (rw gt (h, IH))
      ]
    ]

pub AreSorted-with_entry :
    (k : Text) (x : Option Text) (es : Entries) → AreSorted es → AreSorted (with_entry k x es)
unfolding with_entry
AreSorted-with_entry k x [] h = (tt, tt)
AreSorted-with_entry k x ((j, v) ∷ es) (after, h) =
    let IH = AreSorted-with_entry k x es h in
    elim (Bool-cases (text_eq k j)) [
      | inl e ↦
          rw (e, with_entry) (subst (λ t. AllAfter t es) (sym ((text_eq_iff k j).0 e)) after, h)
      | inr ne ↦ elim (Bool-cases (text_le k j)) [
        | inl le ↦
            rw (ne, with_entry)
              (rw le (
                (
                  elim (Bool-cases (text_le j k)) [
                    | inl le' ↦
                        absurd
                          (true≢false (sym ((text_eq_iff k j).1 (text_le_antisym k j le le')) ∙ ne))
                    | inr lt ↦ lt
                  ],
                  AllAfter-mono k j es le after,
                ),
                (after, h),
              ))
        | inr gt ↦ rw (ne, with_entry) (rw gt (AllAfter-with_entry j k x es gt after, IH))
      ]
    ]

AllAfter-without : (i k : Text) (es : Entries) → AllAfter i es → AllAfter i (without k es)
unfolding without
AllAfter-without i k [] h = tt
AllAfter-without i k ((j, v) ∷ es) (h, rest) =
    let IH = AllAfter-without i k es rest in
    elim (Bool-cases (text_eq k j)) [
      | inl e ↦ rw (e, without) IH
      | inr ne ↦ rw (ne, without) (h, IH)
    ]

pub AreSorted-without : (k : Text) (es : Entries) → AreSorted es → AreSorted (without k es)
unfolding without
AreSorted-without k [] h = tt
AreSorted-without k ((j, v) ∷ es) (after, h) =
    let IH = AreSorted-without k es h in
    elim (Bool-cases (text_eq k j)) [
      | inl e ↦ rw (e, without) IH
      | inr ne ↦ rw (ne, without) (AllAfter-without j k es after, IH)
    ]

abbrev pub listed : Buckets
listed = record {
  Bucket = (es : Entries) × AreSorted es;
  create = some ([], tt);
  nest = λ k b. some (with_entry k none b.0, AreSorted-with_entry k none b.0 b.1);
  put = λ k v b. some (with_entry k (some v) b.0, AreSorted-with_entry k (some v) b.0 b.1);
  delete = λ k b. some (without k b.0, AreSorted-without k b.0 b.1);
  get = λ k b. elim (entry k b.0) [ none ↦ none | some v ↦ v ];
  seek = λ k b. drop_below k b.0;
  entries = λ b. b.0;
}

pub listed-IsBolt : IsBolt listed
listed-IsBolt = record {
  sorted = λ b. b.1;
  seeks = λ k b. refl;
  gets = λ k b. refl;
  creates = λ b e. ground arith;
  nests = λ k j b b' e.
      subst
        (λ (t : Option ((es : Entries) × AreSorted es)). elim t [
          | none ↦ Unit
          | some c ↦ entry j c.0 ≡ (if text_eq k j then some none else entry j b.0)
        ])
        e (entry-with_entry k none j b.0);
  puts = λ k v j b b' e.
      subst
        (λ (t : Option ((es : Entries) × AreSorted es)). elim t [
          | none ↦ Unit
          | some c ↦ entry j c.0 ≡ (if text_eq k j then some (some v) else entry j b.0)
        ])
        e (entry-with_entry k (some v) j b.0);
  deletes = λ k j b b' e.
      subst
        (λ (t : Option ((es : Entries) × AreSorted es)). elim t [
          | none ↦ Unit
          | some c ↦ entry j c.0 ≡ (if text_eq k j then none else entry j b.0)
        ])
        e (entry-without k j b.0);
}
