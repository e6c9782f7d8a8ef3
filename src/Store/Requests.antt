-- ===== src/Store/Requests.antt =====
-- store/pkrequests.go: `PKRequests`, how often and when the public key of an address was asked for. An
-- address stands over four bytes of the count and the time behind them.
pub mod Counts
use bmagent.Base.{ℕ, ◌+◌, Option, none, some, List, [], ◌∷◌, ◌++◌, u32, Text}
use bmagent.Store.Bytes.{low_bytes, number_of, split_at}
use bmagent.Store.Bucket.{Buckets, Entries}
use bmagent.Store.Folder.{Error, database, not_found, Reply, done, failed, panicked}

-- `PutUint32`
unfoldable pub put_uint32 : ℕ → Text
unfolding low_bytes
put_uint32 v = low_bytes 4 v

-- `binary.BigEndian.Uint32(t[:4])` and `t[4:]`; none is a panic.
unfoldable pub read_count : Text → Option (ℕ × Text)
unfolding split_at number_of
read_count t = elim (split_at 4 t) [
  | none ↦ none
  | some (front, back) ↦ some (number_of 0 front, back)
]

-- `UnmarshalBinary` of a time is a parameter; its errors, like those of the database, are `database`.
module _ (B : Buckets) {Time : Type 0} (unmarshal : Text → Option Time) where
  open B use {Bucket}

  -- The count that `New` writes; none is a panic.
  unfoldable pub next_count : Option Text → Option ℕ
  unfolding read_count
  next_count none = some 1
  next_count (some t) = elim (read_count t) [ none ↦ none | some (n, back) ↦ some (u32 (n + 1)) ]

  -- `New`, with the bytes of the time; none is its error.
  unfoldable pub new_request : Option Text → Text → Bucket → Bucket × Reply ℕ
  unfolding next_count put_uint32
  new_request now addr b = elim (next_count (B.get addr b)) [
    | none ↦ (b, panicked)
    | some count ↦ elim now [
      | none ↦ (b, failed database)
      | some t ↦ elim (B.put addr (put_uint32 count ++ t) b) [
        | none ↦ (b, failed database)
        | some b' ↦ (b', done count)
      ]
    ]
  ]

  -- `LastRequestTime`
  unfoldable pub last_request_time : Text → Bucket → Reply Time
  unfolding read_count
  last_request_time addr b = elim (B.get addr b) [
    | none ↦ failed not_found
    | some t ↦ elim (read_count t) [
      | none ↦ panicked
      | some (n, back) ↦ elim (unmarshal back) [ none ↦ failed database | some time ↦ done time ]
    ]
  ]

  -- `Remove`
  unfoldable pub remove_request : Text → Bucket → Bucket × Reply Unit
  remove_request addr b = elim (B.delete addr b) [
    | none ↦ (b, failed database)
    | some b' ↦ (b', done tt)
  ]

  -- `ForEach`; the function works on a state of its own.
  unfoldable pub for_each_request {ℓ} :
      {S : Type ℓ} → (Text → ℕ → Time → S → S × Option Error) → Entries → S → S × Reply Unit
  unfolding read_count
  for_each_request fn [] s = (s, done tt)
  for_each_request fn ((k, none) ∷ es) s = (s, panicked)
  for_each_request fn ((k, some v) ∷ es) s =
      let rest = for_each_request fn es in
      elim (read_count v) [
        | none ↦ (s, panicked)
        | some (n, back) ↦ elim (unmarshal back) [
          | none ↦ (s, failed database)
          | some time ↦
              let (s', e) = fn k n time s in
              elim e [ some error ↦ (s', failed error) | none ↦ rest s' ]
        ]
      ]
