-- ===== src/Store/Loader.antt =====
-- store/db.go: the set-up of the database file, its passphrase, and the counters of the objects.
pub mod Users
pub mod Locked
pub mod Opening
pub mod Made
pub mod Passwords
pub mod Counters
use bmagent.Base.{
  ℕ, zero, suc, ◌≡◌, ◌⊎◌, inl, inr, refl, Bool, true, false, not, Option, none, some, List, [], ◌∷◌,
  ◌++◌, length, ltb, ◌==◌, if◌then◌else◌, Text, codes,
}
use bmagent.Store.Bytes.{put_uint64, split_at, uint64}
use bmagent.Store.Box.{Boxes}
use bmagent.Store.Bucket.{Buckets}
use bmagent.Store.Requests.{put_uint32}

pub data Trouble : Type 0 where
  closed_database database no_random unrecognized_version password_given no_password : Trouble
  key_too_short invalid_passphrase no_such_user duplicate_user not_encrypted : Trouble

-- A value, an error, or a panic.
pub data Result {ℓ} (A : Type ℓ) : Type ℓ where
  ok : A → Result A
  err : Trouble → Result A
  panicked : Result A

-- No value.
abbrev pub Settled : Type 0
Settled = Result {0} Unit

infixl 5 ◌>>=◌ ◌>>◌
-- The next step, unless this one ended in an error or a panic.
abbrev pub ◌>>=◌ {κ ℓ} : {P : Type κ} {Q : Type ℓ} → Result P → (P → Result Q) → Result Q
panicked >>= next = panicked
err trouble >>= next = err trouble
ok p >>= next = next p

-- A step that gives no value.
abbrev pub ◌>>◌ {ℓ} : {Q : Type ℓ} → Settled → Result Q → Result Q
step >> rest = step >>= λ x. rest

abbrev pub checked {ℓ} : {A : Type ℓ} → Trouble → Option A → Result A
checked e none = err e
checked e (some a) = ok a

-- Both steps gave a value.
pub >>=-ok {κ ℓ} :
    {P : Type κ} {Q : Type ℓ} {q : Q} (step : Result P) (next : P → Result Q)
    → (step >>= next) ≡ ok q
    → (p : P) × (step ≡ ok p) × (next p ≡ ok q)
>>=-ok panicked next both = cc
>>=-ok (err trouble) next both = cc
>>=-ok (ok p) next both = (p, refl, both)

pub checked-ok {ℓ} :
    {A : Type ℓ} (e : Trouble) (o : Option A) {a : A} → checked e o ≡ ok a → o ≡ some a
checked-ok e none h = cc
checked-ok e (some a) h = cc

pub Result-cases {ℓ} :
    {A : Type ℓ} (r : Result A)
    → ((e : Trouble) × (r ≡ err e)) ⊎ ((r ≡ panicked) ⊎ ((a : A) × (r ≡ ok a)))
Result-cases (err e) = inl (e, refl)
Result-cases panicked = inr (inl refl)
Result-cases (ok a) = inr (inr (a, refl))

abbrev pub version_key : Text
version_key = codes "version"

abbrev pub salt_key : Text
salt_key = codes "salt"

abbrev pub db_master_key_enc : Text
db_master_key_enc = codes "dbMasterKeyEnc"

abbrev pub pow_queue_latest_id_key : Text
pow_queue_latest_id_key = codes "powQueueLatestID"

abbrev pub users_latest_id_key : Text
users_latest_id_key = codes "usersLatestIDKey"

abbrev pub counters_bucket : Text
counters_bucket = codes "counters"

-- `pbkdf2.Key` with SHA-256, of a password, a salt, the rounds and the length, and the secret boxes.
pub record Ciphers : Type 0 where
  pub pbkdf2 : Text → Text → ℕ → ℕ → Text
  pub seal : Text → Text → Text → Text
  pub unseal : Text → Text → Text → Option Text

abbrev pub boxes : Ciphers → Boxes
boxes H = record { Key = Text; seal = H.seal; unseal = H.unseal }

-- What `rand.Read` gives for the master key, the nonce and the salt; none is its error.
pub record Drawn : Type 0 where
  pub key : Option Text
  pub nonce : Option Text
  pub salt : Option Text

-- `copy` into a new array.
unfoldable pub array : ℕ → Text → Text
array zero bs = []
array (suc n) [] = 0 ∷ array n []
array (suc n) (b ∷ bs) = b ∷ array n bs

-- `deriveKey`
unfoldable pub derive_key : Ciphers → Text → Text → Text
unfolding array
derive_key H pass salt = array 32 (H.pbkdf2 pass salt 32768 32)

-- `encryptKey`: the salt and the sealed key.
unfoldable pub encrypt_key : Ciphers → Drawn → Text → Text → Option (Text × Text)
unfolding derive_key
encrypt_key H drawn master pass = elim drawn.nonce [
  | none ↦ none
  | some nonce ↦ elim drawn.salt [
    | none ↦ none
    | some salt ↦ some (salt, nonce ++ H.seal nonce (derive_key H pass salt) master)
  ]
]

-- The two slices that are stored; they are nil after an error, which the callers do not look at.
abbrev pub or_nil : Option (Text × Text) → Text × Text
or_nil none = ([], [])
or_nil (some p) = p

module _ (H : Ciphers) (B : Buckets) where
  open B use {Bucket}

  -- The buckets `misc`, `counters` in it, `users` and `pubkeyRequests`; nil before they are made. A user
  -- has a bucket of broadcast addresses, and one of folders beside a bucket `misc`.
  pub record Database : Type 0 where
    pub misc : Option Bucket
    pub counters : Option Bucket
    pub users : Option Bucket
    pub pk_requests : Option Bucket
    pub broadcasts : Text → Option Bucket
    pub folders : Text → Option (Bucket × Bucket)

  -- The file and whether it is open.
  pub record Db : Type 0 where
    pub file : Database
    pub is_open : Bool

  -- `CreateBucketIfNotExists`, at the root and in a bucket.
  unfoldable pub create_missing : Option Bucket → Result Bucket
  create_missing (some b) = ok b
  create_missing none = checked database B.create

  unfoldable pub nest_missing : Text → Bucket → Option Bucket → Result (Bucket × Bucket)
  nest_missing name parent (some b) = ok (parent, b)
  nest_missing name parent none = do
    parent' ← checked database (B.nest name parent)
    b ← checked database B.create
    ok (parent', b)

  -- The two `Put` calls after `encryptKey`.
  unfoldable pub put_key : Drawn → Text → Text → Bucket → Result Bucket
  unfolding encrypt_key
  put_key drawn master pass misc = do
    let (salt, enc) = or_nil (encrypt_key H drawn master pass)
    misc' ← checked database (B.put salt_key salt misc)
    checked database (B.put db_master_key_enc enc misc')

  -- The master key of a new database, and its entries.
  unfoldable pub new_key : Option Text → Drawn → Bucket → Result (Text × Bucket)
  unfolding array put_key
  new_key none drawn misc = ok (array 32 [], misc)
  new_key (some pass) drawn misc = do
    master ← checked no_random drawn.key
    misc' ← put_key drawn master pass misc
    ok (master, misc')

  unfoldable pub new_database : Option Text → Drawn → Bucket → Result (Text × Bucket)
  unfolding new_key put_uint64
  new_database pass drawn misc = do
    keyed ← new_key pass drawn misc
    m1 ← checked database (B.put version_key (1 ∷ []) keyed.1)
    m2 ← checked database (B.put pow_queue_latest_id_key (put_uint64 0) m1)
    m3 ← checked database (B.put users_latest_id_key (put_uint64 0) m2)
    ok (keyed.0, m3)

  -- `bVersion[0] != latestStoreVersion`; an empty slice is a panic.
  unfoldable pub is_old : Text → Result Bool
  is_old [] = panicked
  is_old (b ∷ bs) = ok (not (b == 1))

  -- `upgrade`
  unfoldable pub upgrade : Bucket → Settled
  unfolding is_old
  upgrade misc = elim (B.get version_key misc) [
    | none ↦ panicked
    | some version ↦ is_old version >>= λ old. if old then err unrecognized_version else ok tt
  ]

  -- The master key is opened with the key that is derived of the password.
  unfoldable pub open_key : Text → Text → Option Text → Result Text
  unfolding split_at derive_key array
  open_key v pass salt = if ltb (length v) 72 then err key_too_short else elim (split_at 24 v) [
    | none ↦ panicked
    | some (nonce, sealed) ↦
        let salt' : Text = elim salt [ none ↦ [] | some s ↦ s ] in
        elim (H.unseal nonce (derive_key H pass salt') sealed) [
          | none ↦ err invalid_passphrase
          | some m ↦ ok (array 32 m)
        ]
  ]

  unfoldable pub unlock : Option Text → Bucket → Result Text
  unfolding open_key
  unlock pass misc = elim (B.get db_master_key_enc misc) [
    | none ↦ elim pass [ none ↦ ok (array 32 []) | some p ↦ err password_given ]
    | some v ↦ elim pass [ none ↦ err no_password | some p ↦ open_key v p (B.get salt_key misc) ]
  ]

  -- The transaction of `Construct` on the bucket `misc`.
  unfoldable pub verify : Option Text → Drawn → Bucket → Result (Text × Bucket)
  unfolding new_database upgrade unlock
  verify pass drawn misc = elim (B.get version_key misc) [
    | none ↦ new_database pass drawn misc
    | some version ↦ do
      old ← is_old version
      if old then upgrade misc else ok tt
      master ← unlock pass misc
      ok (master, misc)
  ]

  unfoldable pub prepare : Option Text → Drawn → Database → Result (Text × Database)
  unfolding create_missing nest_missing verify
  prepare pass drawn db = do
    m ← create_missing db.misc
    nested ← nest_missing counters_bucket m db.counters
    u ← create_missing db.users
    verified ← verify pass drawn nested.0
    let db' : Database = record db {
      misc = some verified.1;
      counters = some nested.1;
      users = some u;
    }
    ok (verified.0, db')

  -- `IsEncrypted`; `begins` is whether the transaction begins.
  unfoldable pub is_encrypted : Bool → Db → Db × Bool
  is_encrypted begins l =
      if not l.is_open
      then (l, false)
      else if not begins
      then (record l { is_open = false }, false)
      else elim l.file.misc [
        | none ↦ (l, false)
        | some b ↦ elim (B.get db_master_key_enc b) [ none ↦ (l, false) | some v ↦ (l, true) ]
      ]

  -- `ChangePassphrase`, of a store with its master key. The passphrase is its bytes, which is all that
  -- `encryptKey` reads of it: a nil slice has none, as an empty one.
  unfoldable pub change_passphrase : Drawn → Option Text → Text → Db → Db × Settled
  change_passphrase drawn none pass l = (l, err not_encrypted)
  change_passphrase drawn (some master) pass l =
      if not l.is_open then (l, err closed_database) else elim l.file.misc [
        | none ↦ (l, panicked)
        | some m ↦ elim (put_key drawn master pass m) [
          | err e ↦ (l, err e)
          | panicked ↦ (l, panicked)
          | ok m' ↦
              let file' : Database = record (l.file) { misc = some m' } in
              (record l { file = file' }, ok tt)
        ]
      ]

  -- `GetCounter`
  unfoldable pub get_counter : ℕ → Db → Result ℕ
  unfolding put_uint32 uint64
  get_counter kind l = if not l.is_open then err closed_database else elim l.file.counters [
    | none ↦ panicked
    | some b ↦ elim (B.get (put_uint32 kind) b) [
      | none ↦ ok 1
      | some v ↦ elim (uint64 v) [ none ↦ panicked | some n ↦ ok n ]
    ]
  ]

  -- `SetCounter`
  unfoldable pub set_counter : ℕ → ℕ → Db → Db × Settled
  unfolding put_uint32 put_uint64
  set_counter kind n l = if not l.is_open then (l, err closed_database) else elim l.file.counters [
    | none ↦ (l, panicked)
    | some b ↦ elim (B.put (put_uint32 kind) (put_uint64 n) b) [
      | none ↦ (l, err database)
      | some b' ↦
          let file' : Database = record (l.file) { counters = some b' } in
          (record l { file = file' }, ok tt)
    ]
  ]
