-- ===== src/Store/Folder/Refines/Calls.antt =====
-- Calls of a folder in the database one after the other, and of a folder in memory.
use bmagent.Base.{ℕ, ◌<◌, Bool, true, false, Option, none, some, List, [], ◌∷◌, if◌then◌else◌, Text}
use bmagent.Data.MemFolder as Mem
use bmagent.Data.MemFolder.{Message, MemFolder, Got, got, found_message}
use bmagent.Store.Box.{Boxes}
use bmagent.Store.Bucket.{Buckets}
use bmagent.Store.Folder.{
  database, not_encrypted, duplicate_id, invalid_id, not_found, nil_message, bad_range,
  decryption_failed, empty_name, callback, Reply, done, failed, panicked, Folder,
  insert_new_message, insert_message, delete_message, get_message,
}
use bmagent.Store.Folder.Valid.{max_u64}
use bmagent.Store.Folder.Refines.{IsNonce, error_of, reply_to}

-- A call with its arguments; the first of the two inserts gives the message a new id.
pub data Call : Type 0 where
  insert_new : Option Text → Text → ℕ → Call
  insert_at : Option Text → ℕ → Text → ℕ → Call
  delete_at get_at : ℕ → Call

pub data Output : Type 0 where
  no_output : Output
  number : ℕ → Output
  contents : ℕ → Text → Output

abbrev pub output_id : Reply ℕ → Reply Output
output_id (done n) = done (number n)
output_id (failed e) = failed e
output_id panicked = panicked

abbrev pub output_unit : Reply Unit → Reply Output
output_unit (done n) = done no_output
output_unit (failed e) = failed e
output_unit panicked = panicked

abbrev pub output_contents : Reply (ℕ × Text) → Reply Output
output_contents (done (suffix, msg)) = done (contents suffix msg)
output_contents (failed e) = failed e
output_contents panicked = panicked

-- The error comes from the environment: no nonce was drawn, or the database refused.
unfoldable pub is_broken : Reply Output → Bool
is_broken (done x) = false
is_broken panicked = false
is_broken (failed not_encrypted) = true
is_broken (failed database) = true
is_broken (failed duplicate_id) = false
is_broken (failed invalid_id) = false
is_broken (failed not_found) = false
is_broken (failed nil_message) = false
is_broken (failed bad_range) = false
is_broken (failed decryption_failed) = false
is_broken (failed empty_name) = false
is_broken (failed (callback n)) = false

-- The nonce, the suffix and the id of a call are of their size.
abbrev pub IsCall : Call → Type 0
IsCall (insert_new drawn msg suffix) = IsNonce drawn × (suffix < max_u64)
IsCall (insert_at drawn id msg suffix) = IsNonce drawn × (suffix < max_u64)
IsCall (delete_at id) = Unit
IsCall (get_at id) = id < max_u64

abbrev pub AreCalls : List Call → Type 0
AreCalls [] = Unit
AreCalls (c ∷ cs) = IsCall c × AreCalls cs

abbrev pub mem_id : ℕ → Option Mem.Error → Reply ℕ
mem_id id none = done id
mem_id id (some e) = failed (error_of e)

abbrev pub mem_contents : Got → Reply (ℕ × Text)
mem_contents (got suffix msg) = done (suffix, msg)
mem_contents (Mem.failed e) = failed (error_of e)

-- The call on the folder in memory.
unfoldable pub mem_call : Call → MemFolder → MemFolder × Reply Output
mem_call (insert_new drawn msg suffix) g =
    let (g', id, e) = Mem.insert_new_message (some msg) suffix g in (g', output_id (mem_id id e))
mem_call (insert_at drawn id msg suffix) g =
    let (g', e) = Mem.insert_message id (some msg) suffix g in (g', output_unit (reply_to e))
mem_call (delete_at id) g = let (g', e) = Mem.delete_message id g in (g', output_unit (reply_to e))
mem_call (get_at id) g = (g, output_contents (mem_contents (Mem.get_message id g)))

-- The calls on the folder in memory, where those that got an error of the environment are left out.
unfoldable pub mem_calls :
    List Call → List (Reply Output) → MemFolder → MemFolder × List (Reply Output)
unfolding mem_call is_broken
mem_calls [] rs g = (g, [])
mem_calls (c ∷ cs) [] g = (g, [])
mem_calls (c ∷ cs) (r ∷ rs) g =
    let here : MemFolder × Reply Output = if is_broken r then (g, r) else mem_call c g in
    let after = mem_calls cs rs here.0 in (after.0, here.1 ∷ after.1)

module _ (S : Boxes) (B : Buckets) where
  -- The call on the folder in the database.
  unfoldable pub call : Call → Folder S B → Folder S B × Reply Output
  call (insert_new drawn msg suffix) f =
      let (f', r) = insert_new_message S B drawn (some msg) suffix f in (f', output_id r)
  call (insert_at drawn id msg suffix) f =
      let (f', r) = insert_message S B drawn id (some msg) suffix f in (f', output_unit r)
  call (delete_at id) f = let (f', r) = delete_message S B id f in (f', output_unit r)
  call (get_at id) f = (f, output_contents (get_message S B id f))

  unfoldable pub calls : List Call → Folder S B → Folder S B × List (Reply Output)
  unfolding call
  calls [] f = (f, [])
  calls (c ∷ cs) f =
      let here = call c f in let after = calls cs here.0 in (after.0, here.1 ∷ after.1)

-- One call: either both folders reply the same, or the environment failed and nothing changed.
