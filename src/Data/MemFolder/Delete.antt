-- ===== src/Data/MemFolder/Delete.antt =====
-- `DeleteMessage` of `memFolder`: the cached indices stay right.
use mathlib.Core.Bool.{true≢false}
use bmagent.Base.{
  ℕ, ◌-◌, ◌≤◌, ◌<◌, ◌≡◌, refl, sym, subst, ◌∙◌, ◌≢◌, ◌⊎◌, inl, inr, Bool, true, false, ◌||◌, Option,
  none, some, arith, leb, ◌==◌, IdMap, remove, or_zero, Bool-cases, Option-cases,
}
use bmagent.Data.MemFolder.{Message, MemFolder, scan_down, delete_found, delete_message}
use bmagent.Data.MemFolder.Last.{
  highest_mono, IsHighest, any_message, has_suffix, non_zero, IsValid,
}
use bmagent.Data.MemFolder.Scan.{LastOpen, Scanned, scan_down-Scanned}

-- A highest id other than the deleted one stays the highest.
IsHighest-remove :
    (p : Message → Bool) (ms : IdMap Message) (id : ℕ) (o : Option ℕ)
    → o ≢ some id
    → IsHighest p ms o
    → IsHighest p (remove id ms) o
IsHighest-remove p ms id none ne h = λ k m e. ground (arith, h k m)
IsHighest-remove p ms id (some j) ne h =
    ((h.0.0, ground (arith, h.0.1), h.0.2), λ k m e t. ground (arith, h.1 k m))

highest-passes :
    (p : Message → Bool) (ms : IdMap Message) (id : ℕ) (m : Message)
    → ms id ≡ some m
    → IsHighest p ms (some id)
    → p m ≡ true
highest-passes p ms id m at ((m', at', t), b) = ground arith

highest-le :
    (p : Message → Bool) (ms : IdMap Message) (o : Option ℕ) (j : ℕ) (m : Message)
    → IsHighest p ms o
    → ms j ≡ some m
    → p m ≡ true
    → j ≤ or_zero o
highest-le p ms none j m h at t = absurd (true≢false (sym t ∙ h j m at))
highest-le p ms (some i) j m h at t = h.1 j m at t

-- A cached index that is not the deleted id: over all messages, and for a suffix.
module _ (f : MemFolder) (id : ℕ) (m : Message) (v : IsValid f) (at : f.messages id ≡ some m) where
  last-remove :
      f.last_index ≢ id → IsHighest any_message (remove id f.messages) (non_zero f.last_index)
  last-remove ne =
      IsHighest-remove any_message f.messages id (non_zero f.last_index) (λ e. ground arith) v.last

  by_suffix-remove :
      (s : ℕ)
      → ((m.suffix == s) ≡ false) ⊎ (f.last_index_by_suffix s ≢ some id)
      → IsHighest (has_suffix s) (remove id f.messages) (f.last_index_by_suffix s)
  by_suffix-remove s (inr ne) =
      IsHighest-remove (has_suffix s) f.messages id (f.last_index_by_suffix s) ne (v.by_suffix s)
  by_suffix-remove s (inl ne) =
      IsHighest-remove (has_suffix s) f.messages id (f.last_index_by_suffix s)
        (λ e. true≢false (
          sym (
            highest-passes (has_suffix s) f.messages id m at
              (subst (IsHighest (has_suffix s) f.messages) e (v.by_suffix s)))
          ∙ ne))
        (v.by_suffix s)

  -- An id below the highest of its suffix is not the last index.
  last-ne : or_zero (f.last_index_by_suffix m.suffix) ≢ id → f.last_index ≢ id
  last-ne ne e = ground (
    arith,
    highest-le (has_suffix m.suffix) f.messages (f.last_index_by_suffix m.suffix) id m
        (v.by_suffix m.suffix) at (ground arith),
    highest_mono (has_suffix m.suffix) f.messages (f.last_index_by_suffix m.suffix)
        (non_zero f.last_index) v.last (v.by_suffix m.suffix),
  )

  remove-positive : (j : ℕ) (m' : Message) → remove id f.messages j ≡ some m' → 0 < j
  remove-positive j m' h = ground (arith, v.positive j m')

  LastOpen-start : LastOpen id m.suffix (remove id f.messages) remove-positive (id - 1) f.last_index
  LastOpen-start = elim (Bool-cases (f.last_index == id)) [
    | inl t ↦ inl (
      ground arith,
      λ j m' h. ground (
        arith,
        highest-le any_message f.messages (non_zero f.last_index) j m' v.last (ground arith) refl,
      ),
    )
    | inr t ↦ inr (last-remove (ground arith), ground arith)
  ]

  suffix-start :
      or_zero (f.last_index_by_suffix m.suffix) ≡ id
      → (j : ℕ) (m' : Message) → remove id f.messages j ≡ some m'
      → (m'.suffix == m.suffix) ≡ true
      → j ≤ id - 1
  suffix-start e j m' h t = ground (
    arith,
    highest-le (has_suffix m.suffix) f.messages (f.last_index_by_suffix m.suffix) j m'
        (v.by_suffix m.suffix) (ground arith) t,
  )

  -- The two ways out of the deletion: the loop ran, or the suffix has a higher message.
  scanned-IsValid :
      or_zero (f.last_index_by_suffix m.suffix) ≡ id
      → IsValid (scan_down id m.suffix (id - 1) (record f { messages = remove id f.messages }))
  scanned-IsValid e = record {
    started = rw c.next v.started;
    positive = λ j m' h. remove-positive j m' (left j m' h);
    below = λ j m' h. rw c.next (ground (arith, v.below j m', left j m' h));
    last = rw c.kept c.last;
    by_suffix = λ s. rw c.kept (elim (Bool-cases (m.suffix == s)) [
      | inl t ↦
          let q : m.suffix ≡ s = ground arith in
          subst (λ s'. IsHighest (has_suffix s') (remove id f.messages) (r.last_index_by_suffix s'))
            q c.own
      | inr t ↦ rw (c.other s t) (by_suffix-remove s (inl t))
    ]);
  }
    where
      r : MemFolder
      r = scan_down id m.suffix (id - 1) (record f { messages = remove id f.messages })

      c :
          Scanned id m.suffix
            (remove id f.messages)
            remove-positive
            (record f { messages = remove id f.messages })
            (scan_down id m.suffix (id - 1) (record f { messages = remove id f.messages }))
      c =
          scan_down-Scanned id m.suffix (remove id f.messages) remove-positive (id - 1)
            (record f { messages = remove id f.messages }) refl (omega (arith, v.positive id m at))
            LastOpen-start (suffix-start e)

      left : (j : ℕ) (m' : Message) → r.messages j ≡ some m' → remove id f.messages j ≡ some m'
      left j m' h = subst (λ (q : IdMap Message). q j ≡ some m') c.kept h

  kept-IsValid :
      or_zero (f.last_index_by_suffix m.suffix) ≢ id
      → IsValid (record f { messages = remove id f.messages })
  kept-IsValid ne = record {
    started = v.started;
    positive = remove-positive;
    below = λ j m' h. ground (arith, v.below j m');
    last = last-remove (last-ne ne);
    by_suffix = λ s. by_suffix-remove s (elim (Bool-cases (m.suffix == s)) [
      | inl t ↦ inr (λ e. ne (ground arith))
      | inr t ↦ inl t
    ]);
  }

  delete_found-IsValid : IsValid (delete_found id (some m) f).0
  unfolding delete_found
  delete_found-IsValid = elim (Bool-cases (or_zero (f.last_index_by_suffix m.suffix) == id)) [
    | inl e ↦ rw (e, delete_found) (scanned-IsValid (ground arith))
    | inr ne ↦ rw (ne, delete_found) (kept-IsValid (ground arith))
  ]

delete_none-IsValid : (id : ℕ) (f : MemFolder) → IsValid f → IsValid (delete_found id none f).0
unfolding delete_found
delete_none-IsValid id f v = v

-- On a valid folder every deletion, the refused ones too, leaves a valid folder: the cached indices
-- are lowered to the highest messages that are left.
pub delete_message-IsValid : (id : ℕ) (f : MemFolder) → IsValid f → IsValid (delete_message id f).0
unfolding delete_message
delete_message-IsValid id f v = elim (Bool-cases (id == 0 || leb f.next_index id)) [
  | inl out ↦ rw (out, delete_message) v
  | inr in_range ↦
      rw (in_range, delete_message)
        (elim (Option-cases (f.messages id)) [
          | inl gone ↦ rw gone (delete_none-IsValid id f v)
          | inr (m, at) ↦ rw at (delete_found-IsValid f id m v at)
        ])
]
