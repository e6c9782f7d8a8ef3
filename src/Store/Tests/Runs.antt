-- ===== src/Store/Tests/Runs.antt =====
-- A folder in the database, with its theorems, at concrete buckets and boxes.
use bmagent.Base.{
  ℕ, ◌≡◌, ◌⊎◌, inl, inr, refl, sym, ◌∙◌, Option, none, some, List, [], ◌∷◌, ◌==◌, if◌then◌else◌,
  Text, codes, text_eq, text_le, arith,
}
use bmagent.Data.MemFolder.{new_mem_folder}
use bmagent.Store.Bytes.{put_uint64, number_of, split_at, uint64, low_bytes}
use bmagent.Store.Box.{Boxes}
use bmagent.Store.Bucket.{entry}
use bmagent.Store.Folder.{
  Reply, done, failed, panicked, database, no_folder, Folder, create_folder, initialize, new_folder,
  there, folder_next_id_key,
}
use bmagent.Store.Folder.Refines.{Opens, Refines}
use bmagent.Store.Folder.Refines.Open.{new_folder-Refines, initialize-Refines, Refuses}
use bmagent.Store.Folder.Refines.Run.{calls-Refines}
use bmagent.Store.Folder.Refines.Calls.{
  delete_at, get_at, Call, insert_new, insert_at, AreCalls, mem_calls, calls,
}
use bmagent.Data.MemFolder.{Message}
use bmagent.Store.Bucket.{AreSorted}
use bmagent.Store.Folder.{Error, folder_data_bucket, there}
use bmagent.Store.Box.{decrypt}
use bmagent.Store.Folder.Valid.{key_of}
use bmagent.Store.Folder.Each.{for_each_message}
use bmagent.Store.Folder.Each.Visits.{choose, each_until, Lists, for_each_message-choose}
use bmagent.Store.Tests.Listed.{listed, listed-IsBolt, with_entry}

-- Boxes that put the key before the message.
abbrev pub toy : Boxes
toy = record {
  Key = ℕ;
  seal = λ n k m. k ∷ m;
  unseal = λ n k s. elim s [ [] ↦ none | j ∷ m ↦ if j == k then some m else none ];
}

toy-Opens : Opens toy
toy-Opens n k m = ground arith

-- A nonce of 24 bytes.
abbrev pub bytes : Option Text
bytes = some (codes "abcdefghijklmnopqrstuvwx")

-- A new folder of the key 7.
abbrev pub empty_folder : Folder toy listed × Reply Unit
empty_folder = new_folder toy listed (some 7) (codes "Inbox") (some []) no_folder

empty_done : empty_folder.1 ≡ done tt
unfolding new_folder initialize create_folder text_eq
empty_done = refl

reopened_done :
    (new_folder toy listed (some 7) (codes "Inbox") none empty_folder.0.place).1 ≡ done tt
unfolding new_folder initialize create_folder text_eq with_entry entry put_uint64 low_bytes
    number_of split_at uint64 text_le
reopened_done = refl

empty-Refines : Refines toy listed empty_folder.0 new_mem_folder
empty-Refines =
    elim (new_folder-Refines toy listed listed-IsBolt toy-Opens (some 7) 73 (codes "nbox")
      (some [])) [
        | inl (e, _) ↦ let bad = sym e ∙ empty_done in absurd (ground arith)
        | inr (inl (_, r)) ↦ r
        | inr (inr (_, _, again)) ↦
            let bad = sym (again none) ∙ reopened_done in absurd (ground arith)
      ]

abbrev script : List Call
script =
    insert_new bytes (codes "hello") 2
    ∷ insert_new bytes (codes "again") 1
    ∷ get_at 1
    ∷ delete_at 1
    ∷ get_at 1
    ∷ insert_at bytes 1 (codes "back") 2
    ∷ insert_new none (codes "lost") 2
    ∷ get_at 1
    ∷ []

script-AreCalls : AreCalls script
script-AreCalls = (
  (refl, omega arith),
  (
    (refl, omega arith),
    (
      omega arith,
      (tt, (omega arith, ((refl, omega arith), ((tt, omega arith), (omega arith, tt))))),
    ),
  ),
)

calls-Refines_example :
    let (f', rs) = calls toy listed script empty_folder.0 in
    let (g', rs') = mem_calls script rs new_mem_folder in Refines toy listed f' g' × (rs ≡ rs')
unfolding new_folder initialize create_folder text_eq
calls-Refines_example =
    calls-Refines toy listed listed-IsBolt toy-Opens script empty_folder.0 new_mem_folder
      empty-Refines script-AreCalls (omega arith)

new_folder-Refines_example :
    let (f, reply) = new_folder toy listed (some 7) (codes "Inbox") (some []) no_folder in
    ((reply ≡ failed database) × Refuses toy listed listed-IsBolt toy-Opens (some []))
    ⊎ ((reply ≡ done tt) × Refines toy listed f new_mem_folder)
    ⊎ ((reply ≡ done tt)
        × ((m : listed.Bucket) × (d : listed.Bucket) × (f.place ≡ there m d)
            × (listed.put folder_next_id_key (put_uint64 1) d ≡ none))
        × ((again : Option Text)
            → (new_folder toy listed (some 7) (codes "Inbox") again f.place).1 ≡ panicked))
new_folder-Refines_example =
    new_folder-Refines toy listed listed-IsBolt toy-Opens (some 7) 73 (codes "nbox") (some [])

initialize-Refines_example :
    initialize toy listed none (record (calls toy listed script empty_folder.0).0 { next_id = 1 })
    ≡ ((calls toy listed script empty_folder.0).0, done tt)
initialize-Refines_example =
    initialize-Refines toy listed listed-IsBolt toy-Opens none
      (calls toy listed script empty_folder.0).0
      (mem_calls script (calls toy listed script empty_folder.0).1 new_mem_folder).0
      calls-Refines_example.0

two_sorted : AreSorted (
    (key_of 1 2, some (codes "one"))
    ∷ (key_of 3 1, some (codes "three"))
    ∷ (folder_data_bucket, none)
    ∷ [])
unfolding text_le put_uint64 low_bytes
two_sorted = ((refl, (refl, tt)), ((refl, tt), (tt, tt)))

-- Two messages of a folder without a key, beside the bucket of its data.
abbrev two_messages : listed.Bucket
two_messages = (
  (key_of 1 2, some (codes "one"))
      ∷ (key_of 3 1, some (codes "three"))
      ∷ (folder_data_bucket, none)
      ∷ [],
  two_sorted,
)

abbrev plain : Folder toy listed
plain = record { master_key = none; next_id = 4; place = there two_messages ([], tt) }

-- Gathers the ids.
abbrev gather : ℕ → ℕ → Text → List ℕ → List ℕ × Option Error
gather id suffix msg ids = (id ∷ ids, none)

abbrev messages : List (ℕ × Message)
messages =
    (1, record { payload = codes "one"; suffix = 2 })
    ∷ (3, record { payload = codes "three"; suffix = 1 })
    ∷ []

two-Lists : Lists toy listed none two_messages.0 messages
unfolding decrypt
two-Lists = (
  1,
  record { payload = codes "one"; suffix = 2 },
  _,
  refl,
  refl,
  refl,
  omega arith,
  omega arith,
  (
    3,
    record { payload = codes "three"; suffix = 1 },
    _,
    refl,
    refl,
    refl,
    omega arith,
    omega arith,
    refl,
  ),
)

for_each_message-choose_example :
    for_each_message toy listed 2 0 1 gather plain [] ≡ each_until gather (choose 2 0 1 messages) []
for_each_message-choose_example =
    for_each_message-choose toy listed none 2 0 1 (omega arith) gather plain two_messages ([], tt)
      messages [] listed-IsBolt refl refl two-Lists
