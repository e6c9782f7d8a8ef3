-- ===== src/Data/MemFolder/Tests.antt =====
-- Runs of `memFolder`, and the theorems about it at concrete folders.
use bmagent.Base.{ℕ, ◌≡◌, refl, Option, none, some, List, [], ◌∷◌, arith}
use bmagent.Data.MemFolder.{
  Bytes, Error, Message, MemFolder, new_mem_folder, insert_new_message, insert_message, get_message,
  found_message, got, delete_message, delete_found, scan_down, update_last, lower_last,
  for_each_message,
}
use bmagent.Data.MemFolder.Last.{IsValid, new_mem_folder-IsValid}
use bmagent.Data.MemFolder.Insert.{insert_new_message-IsValid, insert_message-IsValid}
use bmagent.Data.MemFolder.Delete.{delete_message-IsValid}

abbrev one : MemFolder
one = (insert_new_message (some (10 ∷ [])) 1 new_mem_folder).0

-- Message 1 of encoding 1 and message 2 of encoding 2.
abbrev two : MemFolder
two = (insert_new_message (some (20 ∷ [])) 2 one).0

one-IsValid : IsValid one
unfolding new_mem_folder
one-IsValid =
    insert_new_message-IsValid (some (10 ∷ [])) 1 new_mem_folder new_mem_folder-IsValid
      (omega arith)

two-IsValid : IsValid two
unfolding new_mem_folder insert_new_message update_last
two-IsValid = insert_new_message-IsValid (some (20 ∷ [])) 2 one one-IsValid (omega arith)

two_reads : get_message 2 two ≡ got 2 (20 ∷ [])
unfolding new_mem_folder insert_new_message update_last get_message found_message
two_reads = refl

-- The highest message is deleted, and the last index falls to the message before.
two_deleted : (delete_message 2 two).0.last_index ≡ 1
unfolding new_mem_folder insert_new_message update_last delete_message delete_found scan_down
    lower_last
two_deleted = refl

delete_message-IsValid_example : IsValid (delete_message 2 two).0
delete_message-IsValid_example = delete_message-IsValid 2 two two-IsValid

insert_message-IsValid_example :
    IsValid (insert_message 2 (some (30 ∷ [])) 1 (delete_message 2 two).0).0
insert_message-IsValid_example =
    insert_message-IsValid 2 (some (30 ∷ [])) 1 (delete_message 2 two).0
      (delete_message-IsValid 2 two two-IsValid)

abbrev entries : List (ℕ × Message)
entries =
    (2, record { payload = 20 ∷ []; suffix = 2 })
    ∷ (1, record { payload = 10 ∷ []; suffix = 1 })
    ∷ []

-- The callback that collects the ids.
abbrev note : ℕ → ℕ → Bytes → List ℕ → List ℕ × Option Error
note id suffix msg ids = (id ∷ ids, none)

-- Asked for the messages of encoding 1, the loop visits those of encoding 2 too.
visits_every_suffix : for_each_message entries 1 2 1 note [] ≡ (1 ∷ 2 ∷ [], none)
unfolding for_each_message
visits_every_suffix = refl
