-- ===== src/Store/Folder/Each/Visits.antt =====
-- Which messages `ForEachMessage` of a folder in the database calls back with.
use mathlib.Core.Bool.{true≢false}
use bmagent.Base.{
  ℕ, ◌<◌, ◌≡◌, ◌≢◌, inl, inr, refl, sym, ap, subst, ◌∙◌, true, false, not, ◌||◌, ◌&&◌, Option, none,
  some, List, [], ◌∷◌, ◌++◌, ltb, leb, ◌==◌, if◌then◌else◌, Text, text_le, text_le_total, arith,
  Bool-cases, Option-cases, length,
}
use bmagent.Data.MemFolder.{Message}
use bmagent.Data.MemFolder.Visits.{in_range}
use bmagent.Store.Bytes.{put_uint64}
use bmagent.Store.Bytes.Trip.{
  split_at-put_uint64, number_of-put_uint64, uint64-alone, length-put_uint64,
}
use bmagent.Store.Bytes.Order.{text_le_trans, text_le-append, text_le-put_uint64}
use bmagent.Store.Box.{Boxes, opened, decrypt}
use bmagent.Store.Bucket.{Buckets, Entries, AllAfter, AreSorted, drop_below, IsBolt}
use bmagent.Store.Folder.{Error, bad_range, Reply, done, failed, there, Folder}
use bmagent.Store.Folder.Valid.{max_u64, key_of}
use bmagent.Store.Folder.Each.{key_parts, visit, for_each_message}

-- A prefix of the same length is in the order of the texts.
text_le-prefix :
    (p q x : Text) → length p ≡ length q → text_le p (q ++ x) ≡ true → text_le p q ≡ true
unfolding text_le
text_le-prefix [] q x h le = refl
text_le-prefix (a ∷ p) [] x h le = absurd (omega arith)
text_le-prefix (a ∷ p) (b ∷ q) x h le = ground (arith, text_le-prefix p q x)

-- The order of the keys is that of the ids.
text_le-key :
    (a b s : ℕ) → a < max_u64 → b < max_u64 → text_le (put_uint64 a) (key_of b s) ≡ leb a b
text_le-key a b s ha hb = elim (Bool-cases (leb a b)) [
  | inl le ↦
      text_le_trans (put_uint64 a) (put_uint64 b) (key_of b s) (text_le-put_uint64 a b ha hb ∙ le)
        (text_le-append (put_uint64 b) (put_uint64 s))
      ∙ sym le
  | inr gt ↦ elim (Bool-cases (text_le (put_uint64 a) (key_of b s))) [
    | inr lt ↦ lt ∙ sym gt
    | inl le ↦ absurd (
        true≢false (
          sym (
            text_le-prefix (put_uint64 a) (put_uint64 b) (put_uint64 s)
              (length-put_uint64 a ∙ sym (length-put_uint64 b)) le)
          ∙ text_le-put_uint64 a b ha hb
          ∙ gt))
  ]
]

-- The messages within the bounds, both inclusive, and of the suffix; a bound or a suffix of 0 admits
-- every message.
unfoldable pub choose : ℕ → ℕ → ℕ → List (ℕ × Message) → List (ℕ × Message)
choose low high suffix [] = []
choose low high suffix ((id, m) ∷ ms) =
    let rest = choose low high suffix ms in
    if in_range low high id && (suffix == 0 || m.suffix == suffix) then (id, m) ∷ rest else rest

-- The function on each message in turn, up to its first error.
unfoldable pub each_until {ℓ} :
    {T : Type ℓ} → (ℕ → ℕ → Text → T → T × Option Error) → List (ℕ × Message) → T → T × Reply Unit
each_until fn [] s = (s, done tt)
each_until fn ((id, m) ∷ ms) s =
    let rest = each_until fn ms in
    let (s', e) = fn id m.suffix m.payload s in
    elim e [ some error ↦ (s', failed error) | none ↦ rest s' ]

module _ (S : Boxes) (B : Buckets) (key : Option (S.Key)) where
  -- The entries hold these messages, in order; an entry without a value is a bucket.
  abbrev pub Lists : Entries → List (ℕ × Message) → Type 0
  Lists [] ms = ms ≡ []
  Lists ((k, none) ∷ es) ms = Lists es ms
  Lists ((k, some v) ∷ es) ms =
      (id : ℕ) × (m : Message) × (rest : List (ℕ × Message)) × (ms ≡ (id, m) ∷ rest)
      × (k ≡ key_of id m.suffix)
      × (decrypt S key v ≡ opened m.payload)
      × (id < max_u64)
      × (m.suffix < max_u64)
      × Lists es rest

  key_parts-key :
      (id s : ℕ) → id < max_u64 → s < max_u64 → key_parts S B (key_of id s) ≡ some (id, s)
  unfolding key_parts
  key_parts-key id s hi hs =
      rw (split_at-put_uint64 id (put_uint64 s), key_parts)
        (rw (uint64-alone s hs) (ap (λ n. some (n, s)) (number_of-put_uint64 id hi)))

  -- Every key comes after the bytes of the id.
  abbrev AllFrom : ℕ → Entries → Type 0
  AllFrom low [] = Unit
  AllFrom low ((k, v) ∷ es) = (text_le (put_uint64 low) k ≡ true) × AllFrom low es

  AllFrom-after :
      (low : ℕ) (k : Text) (es : Entries)
      → text_le (put_uint64 low) k ≡ true
      → AllAfter k es
      → AllFrom low es
  AllFrom-after low k [] le h = tt
  AllFrom-after low k ((j, v) ∷ es) le (lt, h) =
      (text_le_trans (put_uint64 low) k j le (text_le_total j k lt), AllFrom-after low k es le h)

  -- Past the highest id no message is chosen.
  choose-past :
      (low high suffix id : ℕ) (es : Entries) (ms : List (ℕ × Message))
      → high ≢ 0
      → high < id
      → id < max_u64
      → AllFrom id es
      → Lists es ms
      → choose low high suffix ms ≡ []
  unfolding choose
  choose-past low high suffix id [] ms ne lt hi h l = rw l refl
  choose-past low high suffix id ((k, none) ∷ es) ms ne lt hi (le, h) l =
      choose-past low high suffix id es ms ne lt hi h l
  choose-past low high suffix id ((k, some v) ∷ es) ms ne lt hi (le, h)
        (j, m, rest, same, key, opens, hj, hs, l) =
      let IH = choose-past low high suffix id es rest ne lt hi h l in
      let later : leb id j ≡ true =
        sym (text_le-key id j m.suffix hi hj)
        ∙ subst (λ t. text_le (put_uint64 id) t ≡ true) key le in
      let out : (in_range low high j && (suffix == 0 || m.suffix == suffix)) ≡ false =
        ground arith in
      rw same (rw out IH)

  module _ {ℓ} {T : Type ℓ} (low high suffix : ℕ) (small : low < max_u64)
      (fn : ℕ → ℕ → Text → T → T × Option Error) where
    visit-choose :
        (es : Entries) (ms : List (ℕ × Message)) (s : T)
        → AllFrom low es
        → AreSorted es
        → Lists es ms
        → visit S B key high suffix fn es s ≡ each_until fn (choose low high suffix ms) s
    unfolding visit choose each_until
    visit-choose [] ms s h sorted l = rw l refl
    visit-choose ((k, none) ∷ es) ms s (le, h) (after, sorted) l = visit-choose es ms s h sorted l
    visit-choose ((k, some v) ∷ es) ms s (le, h) (after, sorted)
          (id, m, rest, same, at, opens, hi, hs, l) =
        let parts : key_parts S B k ≡ some (id, m.suffix) =
          ap (key_parts S B) at ∙ key_parts-key id m.suffix hi hs in
        let from_low : leb low id ≡ true =
          sym (text_le-key low id m.suffix small hi)
          ∙ subst (λ t. text_le (put_uint64 low) t ≡ true) at le in
        let IH = λ (t : T). visit-choose es rest t h sorted l in
        elim (Bool-cases (not (high == 0) && ltb high id)) [
          | inl past ↦
              let here : text_le (put_uint64 id) k ≡ true =
                subst (λ t. text_le (put_uint64 id) t ≡ true) (sym at)
                  (text_le-append (put_uint64 id) (put_uint64 m.suffix)) in
              let gone =
                choose-past low high suffix id es rest (ground arith) (ground arith) hi
                  (AllFrom-after id k es here after) l in
              let out : (in_range low high id && (suffix == 0 || m.suffix == suffix)) ≡ false =
                ground arith in
              rw (parts, visit) (rw past (rw same (rw out (rw gone refl))))
          | inr within ↦ elim (Bool-cases (not (suffix == 0) && not (m.suffix == suffix))) [
            | inl other ↦
                let out : (in_range low high id && (suffix == 0 || m.suffix == suffix)) ≡ false =
                  ground arith in
                rw (parts, visit) (rw within (rw other (rw same (rw out (IH s)))))
            | inr mine ↦
                let kept : (in_range low high id && (suffix == 0 || m.suffix == suffix)) ≡ true =
                  ground arith in
                rw (parts, visit)
                  (rw within (
                    rw mine (
                      rw opens (
                        rw same (
                          rw kept (elim (Option-cases (fn id m.suffix m.payload s).1) [
                            | inl e ↦ rw e (IH (fn id m.suffix m.payload s).0)
                            | inr (x, e) ↦ rw e refl
                          ]))))))
          ]
        ]

    visit-drop_below :
        (es : Entries) (ms : List (ℕ × Message)) (s : T)
        → AreSorted es
        → Lists es ms
        → visit S B key high suffix fn (drop_below (put_uint64 low) es) s
          ≡ each_until fn (choose low high suffix ms) s
    unfolding drop_below choose
    visit-drop_below [] ms s sorted l = visit-choose [] ms s tt tt l
    visit-drop_below ((k, x) ∷ es) ms s (after, sorted) l =
        elim (Bool-cases (text_le (put_uint64 low) k)) [
          | inl le ↦
              rw (le, drop_below)
                (visit-choose ((k, x) ∷ es) ms s (le, AllFrom-after low k es le after)
                  (after, sorted) l)
          | inr lt ↦
              rw (lt, drop_below) (dropped x lt l (λ ms'. λ h. visit-drop_below es ms' s sorted h))
        ]
      where
        dropped :
            (x : Option Text)
            → text_le (put_uint64 low) k ≡ false
            → Lists ((k, x) ∷ es) ms
            → ((ms' : List (ℕ × Message))
                → Lists es ms'
                → visit S B key high suffix fn (drop_below (put_uint64 low) es) s
                  ≡ each_until fn (choose low high suffix ms') s)
            → visit S B key high suffix fn (drop_below (put_uint64 low) es) s
              ≡ each_until fn (choose low high suffix ms) s
        dropped none lt l IH = IH ms l
        dropped (some v) lt (id, m, rest, same, at, opens, hi, hs, l) IH =
            let below : leb low id ≡ false =
              sym (text_le-key low id m.suffix small hi)
              ∙ subst (λ t. text_le (put_uint64 low) t ≡ false) at lt in
            let out : (in_range low high id && (suffix == 0 || m.suffix == suffix)) ≡ false =
              ground arith in
            IH rest l
            ∙ sym (ap (λ t. each_until fn (choose low high suffix t) s) same ∙ rw out refl)

    -- `ForEachMessage` refuses bounds in the wrong order. Otherwise it calls back with the messages of the
    -- folder that lie within the bounds and have the suffix, in the order of their ids, up to the first
    -- error. The buckets are sorted by their keys, and the folder's has these
    -- messages, encrypted under their ids and suffixes.
    pub for_each_message-choose :
        (f : Folder S B) (m d : B.Bucket) (ms : List (ℕ × Message)) (s : T)
        → IsBolt B
        → f.master_key ≡ key
        → f.place ≡ there m d
        → Lists (B.entries m) ms
        → for_each_message S B low high suffix fn f s ≡ (
            if not (high == 0) && ltb high low
            then (s, failed bad_range)
            else each_until fn (choose low high suffix ms) s)
    unfolding for_each_message
    for_each_message-choose f m d ms s law same place l =
        elim (Bool-cases (not (high == 0) && ltb high low)) [
          | inl bad ↦ rw (bad, for_each_message) refl
          | inr good ↦
              rw (good, for_each_message)
                (rw place (
                  rw same (
                    rw (law.seeks (put_uint64 low) m)
                      (visit-drop_below (B.entries m) ms s (law.sorted m) l))))
        ]
