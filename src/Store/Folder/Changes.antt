-- ===== src/Store/Folder/Changes.antt =====
-- What an update of a bucket does to the messages that it holds.
use bmagent.Base.{
  ℕ, ◌<◌, ◌≤◌, ◌≡◌, ◌≢◌, ◌⊎◌, inl, inr, refl, sym, ap, subst, ◌∙◌, true, false, Option, none, some,
  ◌++◌, ◌==◌, if◌then◌else◌, Text, text_eq, text_eq_iff, text_eq-false, text_eq_refl, arith,
  Bool-cases, IdMap, put, remove,
}
use bmagent.Data.MemFolder.{Message}
use bmagent.Store.Bytes.{put_uint64}
use bmagent.Store.Box.{Boxes, opened, decrypt}
use bmagent.Store.Bucket.{Buckets, entry, drop_below, IsBolt}
use bmagent.Store.Bucket.Seek.{drop_below-entry, drop_below-begins}
use bmagent.Store.Folder.{begins, taken}
use bmagent.Store.Folder.Valid.{max_u64, key_of, Holds, Entries-cases}
use bmagent.Store.Folder.Keys.{key-inj, begins-inv, begins-put_uint64}

module _ (S : Boxes) (B : Buckets) (law : IsBolt B) (key : Option (S.Key)) (n : ℕ) (m : B.Bucket)
    (ms : IdMap Message) (h : Holds S B key n m ms) where
  abbrev Stores : B.Bucket → ℕ → Message → Type 0
  Stores b j t =
      (v : Text) × (entry (key_of j t.suffix) (B.entries b) ≡ some (some v))
      × (decrypt S key v ≡ opened t.payload)
      × (t.suffix < max_u64)

  -- An id whose key the cursor does not find holds no message, and one with a message is found.
  pub taken-free : (id : ℕ) → id < max_u64 → ms id ≡ none → taken S B id m ≡ false
  unfolding taken
  taken-free id small e =
      rw (law.seeks (put_uint64 id) m, taken)
        (elim (Entries-cases (drop_below (put_uint64 id) (B.entries m))) [
          | inl e' ↦ rw e' refl
          | inr (k, x, rest, e') ↦ rw e' (elim (Bool-cases (begins (put_uint64 id) k)) [
            | inr out ↦ out
            | inl there ↦
                let (back, key) = begins-inv (put_uint64 id) k there in
                let (here, le) =
                  drop_below-entry (put_uint64 id) k x (B.entries m) rest (law.sorted m) e' in
                absurd
                  (h.free id small e back x (subst (λ t. entry t (B.entries m) ≡ some x) key here))
          ])
        ])

  pub taken-stored :
      (id : ℕ) (msg : Message) → id < max_u64 → ms id ≡ some msg → taken S B id m ≡ true
  unfolding taken
  taken-stored id msg small e =
      let (v, here, opens, hs) = h.stored id msg small e in
      let (q, y, rest, found) =
        drop_below-begins (put_uint64 id) (put_uint64 msg.suffix) (some v) (B.entries m)
          (law.sorted m) here in
      rw (law.seeks (put_uint64 id) m, taken) (rw found (begins-put_uint64 id q))

  keys_apart :
      (id j a b : ℕ)
      → id < max_u64
      → j < max_u64
      → id == j ≡ false
      → text_eq (key_of id a) (key_of j b) ≡ false
  keys_apart id j a b small hj ne = text_eq-false (key_of id a) (key_of j b) (λ same.
      let (here, _) = key-inj id j (put_uint64 a) (put_uint64 b) small hj same in ground arith)

  -- To put a message under an unused id.
  pub Holds-put :
      (id n' : ℕ) (msg : Message) (enc : Text) (m' : B.Bucket)
      → 0 < id
      → id < n'
      → n ≤ n'
      → id < max_u64
      → msg.suffix < max_u64
      → ms id ≡ none
      → decrypt S key enc ≡ opened msg.payload
      → B.put (key_of id msg.suffix) enc m ≡ some m'
      → Holds S B key n' m' (put id msg ms)
  Holds-put id n' msg enc m' pos lt le small hs e opens written = record {
    keys = λ k v at. elim (was k (some v) at) [
      | inl (same, x) ↦ (id, msg.suffix, sym same, pos, lt, hs)
      | inr old ↦
          let (j, suffix, key, pos', lt', hs') = h.keys k v old in
          (j, suffix, key, pos', omega arith, hs')
    ];
    single = λ j q q' x x' hj at at'. elim (was (put_uint64 j ++ q) x at) [
      | inl (same, _) ↦ elim (was (put_uint64 j ++ q') x' at') [
        | inl (same', _) ↦ (key-inj j j q q' hj hj (sym same ∙ same')).1
        | inr old' ↦ absurd (clash j q q' x' hj same old')
      ]
      | inr old ↦ elim (was (put_uint64 j ++ q') x' at') [
        | inl (same', _) ↦ absurd (clash j q' q x hj same' old)
        | inr old' ↦ h.single j q q' x x' hj old old'
      ]
    ];
    stored = λ j msg' hj at. elim (Bool-cases (id == j)) [
      | inl same ↦
          let here : id ≡ j = ground arith in
          let what : msg ≡ msg' = ground arith in
          subst (λ (t : Message). Stores m' j t) what (subst (λ t. Stores m' t msg) here newly)
      | inr ne ↦
          let (v, old, opens', hs') = h.stored j msg' hj (ground arith) in
          (
            v,
            ground (
              arith,
              put_entry (key_of j msg'.suffix),
              keys_apart id j msg.suffix msg'.suffix small hj ne,
            ),
            opens',
            hs',
          )
    ];
    free = λ j hj gone q x at. elim (was (put_uint64 j ++ q) x at) [
      | inl (same, _) ↦
          let (here, _) = key-inj id j (put_uint64 msg.suffix) q small hj same in ground arith
      | inr old ↦ h.free j hj (ground arith) q x old
    ];
  }
    where
      put_entry :
          (k : Text)
          → entry k (B.entries m')
            ≡ (if text_eq (key_of id msg.suffix) k then some (some enc) else entry k (B.entries m))
      put_entry k = law.puts (key_of id msg.suffix) enc k m m' written

      was :
          (k : Text) (x : Option Text)
          → entry k (B.entries m') ≡ some x
          → ((key_of id msg.suffix ≡ k) × (some enc ≡ x)) ⊎ (entry k (B.entries m) ≡ some x)
      was k x at = elim (Bool-cases (text_eq (key_of id msg.suffix) k)) [
        | inl same ↦
            inl ((text_eq_iff (key_of id msg.suffix) k).0 same, ground (arith, put_entry k))
        | inr ne ↦ inr (ground (arith, put_entry k))
      ]

      clash :
          (j : ℕ) (q q' : Text) (x : Option Text)
          → j < max_u64
          → key_of id msg.suffix ≡ put_uint64 j ++ q
          → entry (put_uint64 j ++ q') (B.entries m) ≢ some x
      clash j q q' x hj same old =
          let (here, _) = key-inj id j (put_uint64 msg.suffix) q small hj same in
          h.free j hj (subst (λ t. ms t ≡ none) here e) q' x old

      newly : Stores m' id msg
      newly = (
        enc,
        ground (arith, put_entry (key_of id msg.suffix), text_eq_refl (key_of id msg.suffix)),
        opens,
        hs,
      )

  -- To delete the message of an id.
  pub Holds-remove :
      (id : ℕ) (msg : Message) (m' : B.Bucket)
      → id < max_u64
      → ms id ≡ some msg
      → B.delete (key_of id msg.suffix) m ≡ some m'
      → Holds S B key n m' (remove id ms)
  Holds-remove id msg m' small e deleted = record {
    keys = λ k v at. h.keys k v (was k (some v) at).1;
    single = λ j q q' x x' hj at at'.
        h.single j q q' x x' hj (was (put_uint64 j ++ q) x at).1
          (was (put_uint64 j ++ q') x' at').1;
    stored = λ j msg' hj at. elim (Bool-cases (id == j)) [
      | inl same ↦ absurd (ground arith)
      | inr ne ↦
          let (v, old, opens, hs) = h.stored j msg' hj (ground arith) in
          (
            v,
            ground (
              arith,
              left (key_of j msg'.suffix),
              keys_apart id j msg.suffix msg'.suffix small hj ne,
            ),
            opens,
            hs,
          )
    ];
    free = λ j hj gone q x at. elim (Bool-cases (id == j)) [
      | inr ne ↦ h.free j hj (ground arith) q x (was (put_uint64 j ++ q) x at).1
      | inl same ↦
          let here : id ≡ j = ground arith in
          let (ne, old) = was (put_uint64 j ++ q) x at in
          let (v, stands, opens, hs) = h.stored id msg small e in
          let behind : put_uint64 msg.suffix ≡ q =
            h.single id (put_uint64 msg.suffix) q (some v) x small stands
              (subst (λ t. entry (put_uint64 t ++ q) (B.entries m) ≡ some x) (sym here) old) in
          ne (ap (λ t. put_uint64 id ++ t) behind ∙ ap (λ t. put_uint64 t ++ q) here)
    ];
  }
    where
      left :
          (k : Text)
          → entry k (B.entries m')
            ≡ (if text_eq (key_of id msg.suffix) k then none else entry k (B.entries m))
      left k = law.deletes (key_of id msg.suffix) k m m' deleted

      was :
          (k : Text) (x : Option Text)
          → entry k (B.entries m') ≡ some x
          → (key_of id msg.suffix ≢ k) × (entry k (B.entries m) ≡ some x)
      was k x at = elim (Bool-cases (text_eq (key_of id msg.suffix) k)) [
        | inl same ↦ absurd (ground (arith, left k))
        | inr ne ↦
            (λ same. ground (arith, text_eq_iff (key_of id msg.suffix) k), ground (arith, left k))
      ]
