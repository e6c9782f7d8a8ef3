-- ===== src/Store/Folder/Valid.antt =====
-- The messages that the bucket of a folder holds, and what `GetMessage` reads from the entries.
use bmagent.Base.{
  ℕ, ◌<◌, ◌≡◌, ◌≢◌, ◌⊎◌, inl, inr, refl, sym, ap, subst, ◌∙◌, Option, none, some, [], ◌∷◌, ◌++◌,
  Text, text_eq-false, text_eq_refl, Option-cases,
}
use bmagent.Base.{IdMap}
use bmagent.Data.MemFolder.{Message}
use bmagent.Store.Bytes.{put_uint64}
use bmagent.Store.Bytes.Trip.{split_at-put_uint64, uint64-alone}
use bmagent.Store.Box.{Boxes, opened, not_opened, stopped, decrypt}
use bmagent.Store.Bucket.{Buckets, Entries, entry, drop_below, IsBolt}
use bmagent.Store.Bucket.Seek.{drop_below-entry, drop_below-found}
use bmagent.Store.Folder.{
  not_found, decryption_failed, Reply, done, failed, panicked, there, Folder, read_entry,
  get_message,
}

abbrev pub max_u64 : ℕ
max_u64 = 18446744073709551616

pub Entries-cases :
    (es : Entries)
    → (es ≡ []) ⊎ ((k : Text) × (x : Option Text) × (rest : Entries) × (es ≡ (k, x) ∷ rest))
Entries-cases [] = inl refl
Entries-cases ((k, x) ∷ rest) = inr (k, x, rest, refl)

-- The key of a message.
abbrev pub key_of : ℕ → ℕ → Text
key_of id suffix = put_uint64 id ++ put_uint64 suffix

-- The reply of `GetMessage` for a message, or for none.
abbrev pub reply_of : Option Message → Reply (ℕ × Text)
reply_of none = failed not_found
reply_of (some msg) = done (msg.suffix, msg.payload)

module _ (S : Boxes) (B : Buckets) where
  -- The bucket of a folder against the messages that stand in it: a value stands under the key of an
  -- id below `n`; no two keys begin with the same eight bytes of an id; a message has a value, which
  -- is decrypted to it; and where no message is, no key begins with the id.
  pub record Holds (key : Option (S.Key)) (n : ℕ) (m : B.Bucket) (ms : IdMap Message) : Type 0 where
    pub keys :
        (k v : Text)
        → entry k (B.entries m) ≡ some (some v)
        → (id : ℕ) × (suffix : ℕ) × (k ≡ key_of id suffix)
          × (0 < id)
          × (id < n)
          × (suffix < max_u64)
    pub single :
        (id : ℕ) (q q' : Text) (x x' : Option Text)
        → id < max_u64
        → entry (put_uint64 id ++ q) (B.entries m) ≡ some x
        → entry (put_uint64 id ++ q') (B.entries m) ≡ some x'
        → q ≡ q'
    pub stored :
        (id : ℕ) (msg : Message)
        → id < max_u64
        → ms id ≡ some msg
        → (v : Text) × (entry (key_of id msg.suffix) (B.entries m) ≡ some (some v))
          × (decrypt S key v ≡ opened msg.payload)
          × (msg.suffix < max_u64)
    pub free :
        (id : ℕ)
        → id < max_u64
        → ms id ≡ none
        → (q : Text) (x : Option Text) → entry (put_uint64 id ++ q) (B.entries m) ≢ some x

  -- What is decrypted from a value.
  unfoldable pub opening : Option (S.Key) → ℕ → Text → Reply (ℕ × Text)
  unfolding decrypt
  opening key suffix v = elim (decrypt S key v) [
    | opened msg ↦ done (suffix, msg)
    | not_opened ↦ failed decryption_failed
    | stopped ↦ panicked
  ]

  read_entry-key :
      (key : Option (S.Key)) (id suffix : ℕ) (v : Text)
      → suffix < max_u64
      → read_entry S B key (put_uint64 id) (key_of id suffix) (some v) ≡ opening key suffix v
  unfolding read_entry opening
  read_entry-key key id suffix v h =
      rw (split_at-put_uint64 id (put_uint64 suffix), read_entry)
        (rw (text_eq_refl (put_uint64 id)) (rw (uint64-alone suffix h) refl))

  read_entry-other :
      (key : Option (S.Key)) (p : Text) (id suffix : ℕ) (v : Text)
      → put_uint64 id ≢ p
      → read_entry S B key p (key_of id suffix) (some v) ≡ failed not_found
  unfolding read_entry
  read_entry-other key p id suffix v ne =
      rw (split_at-put_uint64 id (put_uint64 suffix), read_entry)
        (rw (text_eq-false (put_uint64 id) p ne) refl)

  opening-opened :
      (key : Option (S.Key)) (suffix : ℕ) (v msg : Text)
      → decrypt S key v ≡ opened msg
      → opening key suffix v ≡ done (suffix, msg)
  unfolding opening
  opening-opened key suffix v msg e = rw (e, opening) refl

  module _ (law : IsBolt B) (f : Folder S B) (m d : B.Bucket) (n : ℕ) (ms : IdMap Message)
      (place : f.place ≡ there m d) (v : Holds f.master_key n m ms) where
    get_message-there :
        (id suffix : ℕ) (x : Text)
        → id < max_u64
        → suffix < max_u64
        → entry (key_of id suffix) (B.entries m) ≡ some (some x)
        → get_message S B id f ≡ opening f.master_key suffix x
    unfolding get_message
    get_message-there id suffix x hi hs e =
        let (rest, found) =
          drop_below-found (put_uint64 id) (put_uint64 suffix) (some x) (B.entries m) (law.sorted m)
            e (λ q y e'. v.single id q (put_uint64 suffix) y (some x) hi e' e) in
        rw (place, get_message)
          (rw (law.seeks (put_uint64 id) m) (rw found (read_entry-key f.master_key id suffix x hs)))

    -- What the cursor finds where no key begins with the id.
    read_missing :
        (id : ℕ)
        → ((q : Text) (x : Option Text) → entry (put_uint64 id ++ q) (B.entries m) ≢ some x)
        → (k : Text) (x : Option Text) (rest : Entries)
        → drop_below (put_uint64 id) (B.entries m) ≡ (k, x) ∷ rest
        → read_entry S B f.master_key (put_uint64 id) k x ≡ failed not_found
    unfolding read_entry
    read_missing id none_there k none rest e = refl
    read_missing id none_there k (some x) rest e =
        let (here, le) =
          drop_below-entry (put_uint64 id) k (some x) (B.entries m) rest (law.sorted m) e in
        let (id', suffix, key, pos, lt, small) = v.keys k x here in
        subst (λ t. read_entry S B f.master_key (put_uint64 id) t (some x) ≡ failed not_found)
          (sym key)
          (read_entry-other f.master_key (put_uint64 id) id' suffix x (λ same.
            none_there (put_uint64 suffix) (some x) (
              subst (λ t. entry (t ++ put_uint64 suffix) (B.entries m) ≡ some (some x)) same
                (subst (λ t. entry t (B.entries m) ≡ some (some x)) key here))))

    get_message-missing :
        (id : ℕ)
        → ((q : Text) (x : Option Text) → entry (put_uint64 id ++ q) (B.entries m) ≢ some x)
        → get_message S B id f ≡ failed not_found
    unfolding get_message
    get_message-missing id none_there =
        rw (place, get_message)
          (rw (law.seeks (put_uint64 id) m)
            (elim (Entries-cases (drop_below (put_uint64 id) (B.entries m))) [
              | inl e ↦ rw e refl
              | inr (k, x, rest, e) ↦ rw e (read_missing id none_there k x rest e)
            ]))

    -- `GetMessage` reads the messages that the bucket holds.
    pub get_message-Holds : (id : ℕ) → id < max_u64 → get_message S B id f ≡ reply_of (ms id)
    get_message-Holds id small = elim (Option-cases (ms id)) [
      | inl e ↦ get_message-missing id (v.free id small e) ∙ ap reply_of (sym e)
      | inr (msg, e) ↦
          let (x, here, opens, hs) = v.stored id msg small e in
          get_message-there id msg.suffix x small hs here
          ∙ opening-opened f.master_key msg.suffix x msg.payload opens
          ∙ ap reply_of (sym e)
    ]
