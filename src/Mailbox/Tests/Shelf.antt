-- ===== src/Mailbox/Tests/Shelf.antt =====
-- The database's folder as the folder of a mailbox, at concrete buckets and boxes.
use bmagent.Base.{
  ℕ, ◌≡◌, refl, Bool, true, false, Option, none, some, List, [], ◌∷◌, ◌++◌, Text, subst, arith,
  text_eq, text_le,
}
use bmagent.Mailbox.Box.{Folders}
use bmagent.Mailbox.Box.Add.{Appends}
use bmagent.Store.Box.{encrypt, decrypt}
use bmagent.Store.Bytes.{put_uint64, number_of, split_at, uint64, low_bytes}
use bmagent.Store.Bucket.{entry, drop_below}
use bmagent.Store.Folder.{
  Error, Reply, done, failed, panicked, Folder, insert_new_message, insert_message, get_message,
  delete_message, new_folder, initialize, create_folder, add_new, taken, begins,
}
use bmagent.Store.Folder.Each.{for_each_message, visit, key_parts}
use bmagent.Store.Tests.Listed.{listed, with_entry}
use bmagent.Store.Tests.Runs.{toy, bytes, empty_folder}

-- A reply as the mailbox sees it.
abbrev value : {A : Type 0} → Reply A → Option A
value (done x) = some x
value (failed e) = none
value panicked = none

abbrev went : {A : Type 0} → Reply A → Bool
went (done x) = true
went (failed e) = false
went panicked = false

-- A function that collects what it is called with.
abbrev collect : ℕ → ℕ → Text → List (ℕ × Text) → List (ℕ × Text) × Option Error
collect id suffix msg es = (es ++ ((id, msg) ∷ []), none)

abbrev one_row : ℕ → Text → List (ℕ × Text)
one_row id msg = (id, msg) ∷ []

abbrev pub shelf : Folders
shelf = record {
  Folder = Folder toy listed;
  next_id = λ f. f.next_id;
  get_message = λ id f. value (get_message toy listed id f);
  insert_new_message = λ msg suffix f.
      let (f', reply) = insert_new_message toy listed bytes (some msg) suffix f in
      (f', value reply);
  insert_message = λ id msg suffix f.
      let (f', reply) = insert_message toy listed bytes id (some msg) suffix f in (f', went reply);
  delete_message = λ id f. let (f', reply) = delete_message toy listed id f in (f', went reply);
  visited = λ low high suffix f.
      let (es, reply) = for_each_message toy listed low high suffix collect f [] in
      (es, went reply);
}

pub shelf-Appends : Appends shelf empty_folder.0
unfolding insert_new_message encrypt add_new taken begins new_folder initialize create_folder
    with_entry entry put_uint64 low_bytes number_of split_at uint64 text_le text_eq for_each_message
    visit key_parts decrypt drop_below
shelf-Appends = record {
  appends = λ msg id e.
      subst (λ (o : Option ℕ). elim o [ none ↦ Unit | some k ↦ one_row 1 msg ≡ one_row k msg ]) e
        refl;
  ends = λ msg id e. refl;
  keeps = λ msg e. absurd (ground arith);
}
