-- ===== src/Data/MemFolder/Scan.antt =====
-- The loop of `DeleteMessage` of `memFolder`, which looks for the index below the deleted one.
use bmagent.Base.{
  ℕ, zero, suc, ◌≤◌, ◌<◌, ◌≡◌, refl, sym, subst, ◌≢◌, ◌⊎◌, inl, inr, Bool, true, false, none, some,
  arith, ◌==◌, IdMap, put, remove, Bool-cases, Option-cases,
}
use bmagent.Data.MemFolder.{Message, MemFolder, lower_last, scan_down}
use bmagent.Data.MemFolder.Last.{IsHighest, any_message, has_suffix, non_zero}

-- A round of the loop, in its three cases.
module _ (id suffix k : ℕ) (f : MemFolder) where
  pub scan_gap : f.messages (suc k) ≡ none → scan_down id suffix (suc k) f ≡ scan_down id suffix k f
  unfolding scan_down
  scan_gap e = rw (e, scan_down)

  pub scan_hit :
      (m : Message)
      → f.messages (suc k) ≡ some m
      → (m.suffix == suffix) ≡ true
      → let f' = lower_last id (suc k) f in
        scan_down id suffix (suc k) f
        ≡ record f' { last_index_by_suffix = put suffix (suc k) f'.last_index_by_suffix }
  unfolding scan_down
  scan_hit m e t = rw (e, scan_down) (rw (t, scan_down))

  pub scan_miss :
      (m : Message)
      → f.messages (suc k) ≡ some m
      → (m.suffix == suffix) ≡ false
      → scan_down id suffix (suc k) f ≡ scan_down id suffix k (lower_last id (suc k) f)
  unfolding scan_down
  scan_miss m e t = rw (e, scan_down) (rw (t, scan_down))

-- The loop writes the cached indices alone.
pub scan_down-kept :
    (id suffix k : ℕ) (f : MemFolder)
    → ((scan_down id suffix k f).messages ≡ f.messages)
      × ((scan_down id suffix k f).next_index ≡ f.next_index)
unfolding scan_down
scan_down-kept id suffix zero f = ground arith
scan_down-kept id suffix (suc k) f =
    ground
      (arith, scan_down-kept id suffix k f, scan_down-kept id suffix k (lower_last id (suc k) f))

-- The messages that are left after the deletion of `id`, all of them below `suffix`'s bound.
module _ (id suffix : ℕ) (ms : IdMap Message)
    (positive : (j : ℕ) (m : Message) → ms j ≡ some m → 0 < j) where
  -- The cached last index with `k` rounds to go: it is still the deleted id, and every message
  -- lies at `k` or below, or it is right already.
  abbrev pub LastOpen : ℕ → ℕ → Type 0
  LastOpen k n =
      ((n ≡ id) × ((j : ℕ) (m : Message) → ms j ≡ some m → j ≤ k))
      ⊎ (IsHighest any_message ms (non_zero n) × (n ≢ id))

  pub record Scanned (f r : MemFolder) : Type 0 where
    pub kept : r.messages ≡ ms
    pub next : r.next_index ≡ f.next_index
    pub last : IsHighest any_message ms (non_zero r.last_index)
    pub own : IsHighest (has_suffix suffix) ms (r.last_index_by_suffix suffix)
    pub other :
        (s : ℕ) → (suffix == s) ≡ false → r.last_index_by_suffix s ≡ f.last_index_by_suffix s

  pub lower_last-done :
      (k : ℕ) (f : MemFolder)
      → k < id
      → LastOpen k f.last_index
      → IsHighest any_message ms (non_zero k) ⊎ (f.last_index ≢ id)
      → IsHighest any_message ms (non_zero (lower_last id k f).last_index)
        × ((lower_last id k f).last_index ≢ id)
  unfolding lower_last
  lower_last-done k f lt (inl (e, all)) (inl top) =
      (subst (IsHighest any_message ms) {x = non_zero k} (ground arith) top, ground arith)
  lower_last-done k f lt (inl (e, all)) (inr ne) = absurd (ne e)
  lower_last-done k f lt (inr (h, ne)) _ =
      (subst (IsHighest any_message ms) {x = non_zero f.last_index} (ground arith) h, ground arith)

  pub IsHighest-at :
      (k : ℕ) (m : Message) (n : ℕ)
      → ms (suc k) ≡ some m
      → LastOpen (suc k) n
      → IsHighest any_message ms (non_zero (suc k)) ⊎ (n ≢ id)
  IsHighest-at k m n at (inl (e, all)) = inl (
      subst (IsHighest any_message ms) {x = some (suc k)} (ground arith)
        ((m, at, refl), λ j m' h _. all j m' h))
  IsHighest-at k m n at (inr (h, ne)) = inr ne

  pub none_left :
      (p : Message → Bool)
      → ((j : ℕ) (m : Message) → ms j ≡ some m → p m ≡ true → j ≤ 0)
      → IsHighest p ms none
  none_left p b = λ j m e. elim (Bool-cases (p m)) [
    | inl t ↦ absurd (omega (arith, positive j m e, b j m e t))
    | inr f ↦ f
  ]

  pub LastOpen-pred : (k n : ℕ) → ms (suc k) ≡ none → LastOpen (suc k) n → LastOpen k n
  LastOpen-pred k n gap (inl (e, all)) = inl (e, λ j m h. ground (arith, all j m h))
  LastOpen-pred k n gap (inr d) = inr d

  pub Scanned-of_lower :
      (k : ℕ) {f r : MemFolder} → Scanned (lower_last id (suc k) f) r → Scanned f r
  unfolding lower_last
  Scanned-of_lower k c = record {
    kept = c.kept;
    next = ground (arith, c.next);
    last = c.last;
    own = c.own;
    other = λ s ne. ground (arith, c.other s ne);
  }

  -- The loop leaves the highest ids of the messages that are left.
  pub scan_down-Scanned :
      (k : ℕ) (f : MemFolder)
      → f.messages ≡ ms
      → k < id
      → LastOpen k f.last_index
      → ((j : ℕ) (m : Message) → ms j ≡ some m → (m.suffix == suffix) ≡ true → j ≤ k)
      → Scanned f (scan_down id suffix k f)
  unfolding scan_down
  scan_down-Scanned zero f e lt o b = record {
    kept = ground arith;
    next = ground arith;
    last =
        (lower_last-done zero
          (record f { last_index_by_suffix = remove suffix f.last_index_by_suffix }) lt o
          (elim o [
            | inl (t, all) ↦ inl (none_left any_message (λ j m h _. all j m h))
            | inr (h, ne) ↦ inr ne
          ])).0;
    own =
        subst (IsHighest (has_suffix suffix) ms) {x = none} (ground arith)
          (none_left (has_suffix suffix) b);
    other = λ s ne. ground arith;
  }
  scan_down-Scanned (suc k) f e lt o b = elim (Option-cases (ms (suc k))) [
    | inl gap ↦ subst (Scanned f) (sym (scan_gap id suffix k f (rw e gap))) (
        scan_down-Scanned k f e (omega arith) (LastOpen-pred k f.last_index gap o)
          (λ j m h t. ground (arith, b j m h t)))
    | inr (m, at) ↦
        let at' : f.messages (suc k) ≡ some m = rw e at in
        let done = lower_last-done (suc k) f lt o (IsHighest-at k m f.last_index at o) in
        elim (Bool-cases (m.suffix == suffix)) [
          | inl t ↦ subst (Scanned f) (sym (scan_hit id suffix k f m at' t)) (record {
            kept = ground arith;
            next = ground arith;
            last = done.0;
            own =
                subst (IsHighest (has_suffix suffix) ms) {x = some (suc k)} (ground arith)
                  ((m, at, t), b);
            other = λ s ne. ground arith;
          })
          | inr t ↦ subst (Scanned f) (sym (scan_miss id suffix k f m at' t)) (
              Scanned-of_lower k (
                scan_down-Scanned k (lower_last id (suc k) f) (ground arith) (omega arith)
                  (inr done) (λ j m' h t'. ground (arith, b j m' h t'))))
        ]
  ]
