-- ===== src/Data/MemFolder.antt =====
-- store/data/folder.go: `memFolder`, a folder of messages in memory. A method that mutates the
-- receiver returns the new record beside its results.
pub mod Last
pub mod Scan
pub mod Delete
pub mod Insert
pub mod Reads
pub mod Visits
pub mod Contents
mod Tests
use bmagent.Base.{
  ℕ, zero, suc, ◌+◌, ◌-◌, Bool, true, false, ◌||◌, ◌&&◌, not, Option, none, some, List, [], ◌∷◌,
  ltb, leb, ◌==◌, if◌then◌else◌, u64, IdMap, empty_map, put, remove, or_zero,
}

-- []byte
abbrev pub Bytes : Type 0
Bytes = List ℕ

-- The errors that a folder returns.
pub data Error : Type 0 where
  duplicate_id invalid_id not_found nil_message : Error
  callback : ℕ → Error

pub record Message : Type 0 where
  pub payload : Bytes
  pub suffix : ℕ

pub record MemFolder : Type 0 where
  pub last_index : ℕ
  pub next_index : ℕ
  pub last_index_by_suffix : IdMap ℕ
  pub messages : IdMap Message

unfoldable pub new_mem_folder : MemFolder
new_mem_folder = record {
  last_index = 0;
  next_index = 1;
  last_index_by_suffix = empty_map;
  messages = empty_map;
}

pub next_id : MemFolder → ℕ
next_id f = f.next_index

pub last_id : MemFolder → ℕ × IdMap ℕ
last_id f = (f.last_index, f.last_index_by_suffix)

pub update_last : ℕ → ℕ → MemFolder → MemFolder
update_last id suffix f =
    if ltb f.last_index id
    then record f { last_index = id; last_index_by_suffix = put suffix id f.last_index_by_suffix }
    else if ltb (or_zero (f.last_index_by_suffix suffix)) id
    then record f { last_index_by_suffix = put suffix id f.last_index_by_suffix }
    else f

-- The deferred call runs on the way out: `updateLast`, then `nextIndex++`.
pub insert_new_message : Option Bytes → ℕ → MemFolder → MemFolder × ℕ × Option Error
unfolding update_last
insert_new_message none suffix f = (f, 0, some nil_message)
insert_new_message (some msg) suffix f =
    let id = f.next_index in
    let stored = record f {
      messages = put id (record { payload = msg; suffix = suffix }) f.messages;
    } in
    let noted = update_last id suffix stored in
    (record noted { next_index = u64 (noted.next_index + 1) }, id, none)

pub insert_present : ℕ → Option Bytes → ℕ → Option Message → MemFolder → MemFolder × Option Error
unfolding update_last
insert_present id none suffix found f = (f, some nil_message)
insert_present id (some msg) suffix (some _) f = (f, some duplicate_id)
insert_present id (some msg) suffix none f =
    let noted = update_last id suffix f in
    (
      record noted { messages = put id (record { payload = msg; suffix = suffix }) noted.messages },
      none,
    )

-- `InsertMessage`: the tests of the id, of nil, and of the key, in the order of the source.
pub insert_message : ℕ → Option Bytes → ℕ → MemFolder → MemFolder × Option Error
unfolding insert_present
insert_message id msg suffix f =
    if id == 0 || leb f.next_index id
    then (f, some invalid_id)
    else insert_present id msg suffix (f.messages id) f

pub data Got : Type 0 where
  got : ℕ → Bytes → Got
  failed : Error → Got

unfoldable pub found_message : Option Message → Got
found_message none = failed not_found
found_message (some m) = got m.suffix m.payload

pub get_message : ℕ → MemFolder → Got
unfolding found_message
get_message id f =
    if id == 0 || leb f.next_index id then failed not_found else found_message (f.messages id)

-- `if id == f.lastIndex { f.lastIndex = k }`
pub lower_last : ℕ → ℕ → MemFolder → MemFolder
lower_last id k f = if id == f.last_index then record f { last_index = k } else f

-- The loop of `DeleteMessage`, with `k` rounds to go: `for k := id - 1; k > 0; k--`, and what
-- follows it.
pub scan_down : ℕ → ℕ → ℕ → MemFolder → MemFolder
unfolding lower_last
scan_down id suffix zero f =
    lower_last id 0 (record f { last_index_by_suffix = remove suffix f.last_index_by_suffix })
scan_down id suffix (suc k) f = elim (f.messages (suc k)) [
  | none ↦ scan_down id suffix k f
  | some m ↦
      let f' = lower_last id (suc k) f in
      elim (m.suffix == suffix) [
        | true ↦ record f' { last_index_by_suffix = put suffix (suc k) f'.last_index_by_suffix }
        | false ↦ scan_down id suffix k f'
      ]
]

pub delete_found : ℕ → Option Message → MemFolder → MemFolder × Option Error
delete_found id none f = (f, some not_found)
delete_found id (some m) f =
    let f' = record f { messages = remove id f.messages } in
    if not (or_zero (f'.last_index_by_suffix m.suffix) == id)
    then (f', none)
    else (scan_down id m.suffix (id - 1) f', none)

pub delete_message : ℕ → MemFolder → MemFolder × Option Error
unfolding delete_found
delete_message id f =
    if id == 0 || leb f.next_index id
    then (f, some invalid_id)
    else delete_found id (f.messages id) f

-- `if err != nil { return err }`, and what follows it.
abbrev pub and_then {ℓ} :
    {S : Type ℓ} → S × Option Error → (S → S × Option Error) → S × Option Error
and_then (s, none) rest = rest s
and_then (s, some e) rest = (s, some e)

-- `ForEachMessage` over the entries of the map, in the order in which `range` visits them. The
-- callback works on a state of its own.
pub for_each_message {ℓ} :
    {S : Type ℓ}
    → List (ℕ × Message)
    → ℕ
    → ℕ
    → ℕ
    → (ℕ → ℕ → Bytes → S → S × Option Error)
    → S
    → S × Option Error
for_each_message [] low high suffix fn s = (s, none)
for_each_message ((id, m) ∷ order) low high suffix fn s =
    let rest = for_each_message order low high suffix fn in
    if (ltb high id && not (high == 0)) || ltb id low
    then rest s
    else and_then (fn id m.suffix m.payload s) rest
