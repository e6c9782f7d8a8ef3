-- ===== src/Store/Folder/Refines/Run.antt =====
-- Calls of a folder in the database one after the other, against those of a folder in memory.
use bmagent.Base.{
  ℕ, ◌+◌, ◌<◌, ◌≡◌, ◌⊎◌, inl, inr, refl, sym, ap, subst, ◌∙◌, true, false, Option, none, some, List,
  [], ◌∷◌, Text, arith, Option-cases, length,
}
use bmagent.Data.MemFolder as Mem
use bmagent.Data.MemFolder.{Message, MemFolder, Got, got, found_message}
use bmagent.Data.MemFolder.Contents.{
  insert_new_message-contents, insert_message-contents, delete_message-contents,
}
use bmagent.Data.MemFolder.Reads.{get_message-lookup}
use bmagent.Store.Box.{Boxes}
use bmagent.Store.Bucket.{Buckets, IsBolt}
use bmagent.Store.Folder.{
  Reply, Folder, insert_new_message, insert_message, delete_message, get_message,
}
use bmagent.Store.Folder.Valid.{max_u64, get_message-Holds}
use bmagent.Store.Folder.Refines.{Opens, Refines, IsBroken, reply_to}
use bmagent.Store.Folder.Refines.New.{insert_new_message-Refines}
use bmagent.Store.Folder.Refines.Insert.{insert_message-Refines}
use bmagent.Store.Folder.Refines.Delete.{delete_message-Refines}
use bmagent.Store.Folder.Refines.Calls.{
  Call, insert_new, insert_at, delete_at, get_at, Output, output_id, output_unit, output_contents,
  is_broken, IsCall, AreCalls, mem_id, mem_contents, mem_call, mem_calls, call, calls,
}

abbrev Step :
    (S : Boxes) (B : Buckets)
    → Folder S B × Reply Output
    → MemFolder × Reply Output
    → Folder S B
    → Type 0
Step S B (f', r) (g', r') f =
    (Refines S B f' g' × (r ≡ r') × (is_broken r ≡ false) × (f'.next_id < f.next_id + 2))
    ⊎ ((f' ≡ f) × (is_broken r ≡ true))

unbroken_id : (id : ℕ) (e : Option Mem.Error) → is_broken (output_id (mem_id id e)) ≡ false
unfolding is_broken
unbroken_id id none = refl
unbroken_id id (some Mem.duplicate_id) = refl
unbroken_id id (some Mem.invalid_id) = refl
unbroken_id id (some Mem.not_found) = refl
unbroken_id id (some Mem.nil_message) = refl
unbroken_id id (some (Mem.callback n)) = refl

unbroken_unit : (e : Option Mem.Error) → is_broken (output_unit (reply_to e)) ≡ false
unfolding is_broken
unbroken_unit none = refl
unbroken_unit (some Mem.duplicate_id) = refl
unbroken_unit (some Mem.invalid_id) = refl
unbroken_unit (some Mem.not_found) = refl
unbroken_unit (some Mem.nil_message) = refl
unbroken_unit (some (Mem.callback n)) = refl

broken_id : (r : Reply ℕ) → IsBroken r → is_broken (output_id r) ≡ true
unfolding is_broken
broken_id r (inl e) = rw e refl
broken_id r (inr e) = rw e refl

broken_unit : (r : Reply Unit) → IsBroken r → is_broken (output_unit r) ≡ true
unfolding is_broken
broken_unit r (inl e) = rw e refl
broken_unit r (inr e) = rw e refl

module _ (S : Boxes) (B : Buckets) (law : IsBolt B) (opens : Opens S) (f : Folder S B)
    (g : MemFolder) (r : Refines S B f g) where
  insert_new-Step :
      (drawn : Option Text) (msg : Text) (suffix : ℕ)
      → IsCall (insert_new drawn msg suffix)
      → f.next_id + 1 < max_u64
      → Step S B
          (call S B (insert_new drawn msg suffix) f)
          (mem_call (insert_new drawn msg suffix) g)
          f
  unfolding call mem_call
  insert_new-Step drawn msg suffix (hn, hs) more =
      let (_, counter, _, fine) = insert_new_message-contents msg suffix g in
      let (g', id, e) = Mem.insert_new_message (some msg) suffix g in
      elim (insert_new_message-Refines S B law opens f g r drawn msg suffix hn hs more) [
        | inl (r', same) ↦
            let both = ap output_id (same ∙ ap (mem_id id) (sym fine)) in
            inl (
              r',
              both,
              ap is_broken both ∙ unbroken_id id e,
              omega (arith, r'.next, counter, r.next),
            )
        | inr (broken, same) ↦
            inr (same, broken_id (insert_new_message S B drawn (some msg) suffix f).1 broken)
      ]

  -- A call that gives no new id.
  unit-Step :
      (x : Folder S B × Reply Unit) (y : MemFolder × Option Mem.Error)
      → (Refines S B x.0 y.0 × (x.1 ≡ reply_to y.1)) ⊎ (IsBroken x.1 × (x.0 ≡ f))
      → y.0.next_index ≡ g.next_index
      → Step S B (x.0, output_unit x.1) (y.0, output_unit (reply_to y.1)) f
  unit-Step (f', reply) (g', e) (inl (r', same)) counter =
      let both = ap output_unit same in
      inl (r', both, ap is_broken both ∙ unbroken_unit e, omega (arith, r'.next, counter, r.next))
  unit-Step (f', reply) (g', e) (inr (broken, same)) counter = inr (same, broken_unit reply broken)

  insert_counter :
      (id : ℕ) (msg : Text) (suffix : ℕ)
      → (Mem.insert_message id (some msg) suffix g).0.next_index ≡ g.next_index
  insert_counter id msg suffix = elim (insert_message-contents id msg suffix g) [
    | inl (_, _, _, _, e) ↦ e
    | inr (inl (_, _, _, _, e)) ↦ ap (λ (t : MemFolder). t.next_index) e
    | inr (inr (_, _, e)) ↦ ap (λ (t : MemFolder). t.next_index) e
  ]

  delete_counter : (id : ℕ) → (Mem.delete_message id g).0.next_index ≡ g.next_index
  delete_counter id = elim (delete_message-contents id g) [
    | inl (_, _, _, _, _, e) ↦ e
    | inr (inl (_, _, _, e)) ↦ ap (λ (t : MemFolder). t.next_index) e
    | inr (inr (_, _, e)) ↦ ap (λ (t : MemFolder). t.next_index) e
  ]

  read_same : (id : ℕ) → id < max_u64 → get_message S B id f ≡ mem_contents (Mem.get_message id g)
  unfolding found_message
  read_same id small =
      get_message-Holds S B law f r.messages r.data_bucket f.next_id g.messages r.place r.holds id
        small
      ∙ elim (Option-cases (g.messages id)) [
        | inl e ↦ rw (get_message-lookup id g r.valid) (rw e refl)
        | inr (m, e) ↦ rw (get_message-lookup id g r.valid) (rw e refl)
      ]

  unbroken_read : (got : Got) → is_broken (output_contents (mem_contents got)) ≡ false
  unfolding is_broken
  unbroken_read (got suffix msg) = refl
  unbroken_read (Mem.failed Mem.duplicate_id) = refl
  unbroken_read (Mem.failed Mem.invalid_id) = refl
  unbroken_read (Mem.failed Mem.not_found) = refl
  unbroken_read (Mem.failed Mem.nil_message) = refl
  unbroken_read (Mem.failed (Mem.callback n)) = refl

  call-Step :
      (c : Call) → IsCall c → f.next_id + 1 < max_u64 → Step S B (call S B c f) (mem_call c g) f
  unfolding call mem_call
  call-Step (insert_new drawn msg suffix) h more = insert_new-Step drawn msg suffix h more
  call-Step (insert_at drawn id msg suffix) (hn, hs) more =
      unit-Step (insert_message S B drawn id (some msg) suffix f)
        (Mem.insert_message id (some msg) suffix g)
        (insert_message-Refines S B law opens f g r drawn id msg suffix hn hs)
        (insert_counter id msg suffix)
  call-Step (delete_at id) h more =
      unit-Step (delete_message S B id f) (Mem.delete_message id g)
        (delete_message-Refines S B law f g r id) (delete_counter id)
  call-Step (get_at id) small more =
      let both = ap output_contents (read_same id small) in
      inl (r, both, ap is_broken both ∙ unbroken_read (Mem.get_message id g), omega arith)

module _ (S : Boxes) (B : Buckets) (law : IsBolt B) (opens : Opens S) where
  -- Inserts, deletions and reads of a folder in the database, one after the other, against a folder in
  -- memory that has the same messages: every reply is the reply of the folder in memory, where the calls
  -- that got an error of the environment (no nonce, or a refusal of the database) are left out, and the
  -- two folders have the same messages in the end. The boxes open and the buckets are sorted by their
  -- keys, nonces have 24 bytes, ids and suffixes are of 64 bits, and the counter does not wrap.
  pub calls-Refines :
      (cs : List Call) (f : Folder S B) (g : MemFolder)
      → Refines S B f g
      → AreCalls cs
      → f.next_id + length cs < max_u64
      → let (f', rs) = calls S B cs f in
        let (g', rs') = mem_calls cs rs g in Refines S B f' g' × (rs ≡ rs')
  unfolding calls mem_calls
  calls-Refines [] f g r h more = (r, refl)
  calls-Refines (c ∷ cs) f g r (h, hs) more =
      elim (call-Step S B law opens f g r c h (omega arith)) [
        | inl (r', same, fine, next) ↦
            let (r2, rest) =
              calls-Refines cs (call S B c f).0 (mem_call c g).0 r' hs (omega arith) in
            rw (fine, mem_calls)
              (
                r2,
                ap (λ (x : Reply Output). x ∷ (calls S B cs (call S B c f).0).1) same
                    ∙ ap (λ (xs : List (Reply Output)). (mem_call c g).1 ∷ xs) rest,
              )
        | inr (same, broken) ↦
            let (r2, rest) =
              calls-Refines cs (call S B c f).0 g
                (subst (λ (x : Folder S B). Refines S B x g) (sym same) r) hs
                (omega (arith, ap (λ (x : Folder S B). x.next_id) same)) in
            rw (broken, mem_calls)
              (r2, ap (λ (xs : List (Reply Output)). (call S B c f).1 ∷ xs) rest)
      ]
