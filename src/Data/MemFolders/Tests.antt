-- ===== src/Data/MemFolders/Tests.antt =====
-- The theorems about `memFolders` at concrete folders.
use bmagent.Base.{◌≡◌, refl, arith, find, set_name}
use bmagent.Data.MemFolders.{MemFolders, new_mem_folders, folder, new, new_at, get}
use bmagent.Data.MemFolders.Names.{IsValid, new-IsValid}

none-IsValid : IsValid new_mem_folders
unfolding new_mem_folders find
none-IsValid = record { distinct = tt; allocated = λ name f h. ground arith }

abbrev inbox : MemFolders
inbox = (new "INBOX" new_mem_folders).0

inbox-IsValid : IsValid (new "INBOX" new_mem_folders).0
inbox-IsValid = new-IsValid "INBOX" new_mem_folders none-IsValid

inbox_there : get "INBOX" inbox ≡ folder 0
unfolding new_mem_folders new new_at get find set_name
inbox_there = refl
