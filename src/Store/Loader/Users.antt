-- ===== src/Store/Loader/Users.antt =====
-- store/db.go, store/user.go: the store that `Construct` makes, its users, and their folders.
use bmagent.Base.{
  ◌+◌, false, not, Option, none, some, List, [], ◌∷◌, ◌++◌, if◌then◌else◌, u64, Text, text_eq,
  codes,
}
use bmagent.Store.Bytes.{put_uint64, uint64}
use bmagent.Store.Bucket.{Buckets, Entries}
use bmagent.Store.Folder.{Reply, done, failed, folder_next_id_key}
use bmagent.Store.Folder as Folder
use bmagent.Store.Broadcasts.{Broadcasts, new_broadcasts_store}
use bmagent.Store.Loader.{
  closed_database, database, no_such_user, duplicate_user, Result, ok, err, panicked, Settled,
  ◌>>=◌, checked, users_latest_id_key, Ciphers, Drawn, Database, Db, create_missing, prepare,
}

-- The value of a key in an association list, and the list with it.
unfoldable pub lookup {ℓ} : {A : Type ℓ} → Text → List (Text × A) → Option A
lookup k [] = none
lookup k ((j, v) ∷ m) = if text_eq j k then some v else lookup k m

unfoldable pub keys_of : Entries → List Text
keys_of [] = []
keys_of ((k, v) ∷ es) = k ∷ keys_of es

-- `DecodeAddress` and the hash of an address are of another package.
module _ (H : Ciphers) (B : Buckets) {Address : Type 0} (decode : Text → Option Address)
    (ripe : Address → Text) where
  open B use {Bucket}

  abbrev pub File : Type 0
  File = Database H B

  abbrev pub Disk : Type 0
  Disk = Db H B

  -- `User`: its bucket, its name, and its broadcasts; it shares the key and the database of the store.
  pub record User : Type 0 where
    pub bucket_id : Text
    pub username : Text
    pub broadcast_addresses : Broadcasts B decode ripe

  -- `Store`; the database is beside it.
  pub record Store : Type 0 where
    pub master_key : Option Text
    pub users : List (Text × User)

  -- `newUser`, of a name with its prefix.
  unfoldable pub new_user_record : Text → Broadcasts B decode ripe → User
  new_user_record name broadcast = record {
    bucket_id = codes "user:" ++ name;
    username = name;
    broadcast_addresses = broadcast;
  }

  -- The transaction of `newBroadcastsStore` for a user, whose bucket it makes if there is none.
  unfoldable pub read_broadcasts : Text → File → Bucket → Result (Broadcasts B decode ripe × File)
  unfolding new_broadcasts_store
  read_broadcasts name file b = elim (new_broadcasts_store B decode ripe b none) [
    | failed e ↦ err database
    | Folder.panicked ↦ panicked
    | done store ↦
        let made : File = record file {
          broadcasts = λ other. if text_eq name other then some b else file.broadcasts other;
        } in
        ok (store, made)
  ]

  unfoldable pub open_broadcasts : Text → File → Result (Broadcasts B decode ripe × File)
  unfolding create_missing read_broadcasts
  open_broadcasts name file =
      create_missing H B (file.broadcasts name) >>= read_broadcasts name file

  -- `addUser`; an error closes the database.
  unfoldable pub add_user : Text → Store → Disk → Store × Disk × Result User
  unfolding open_broadcasts new_user_record
  add_user name s l =
      if not l.is_open then (s, l, err closed_database) else elim (open_broadcasts name l.file) [
        | panicked ↦ (s, l, panicked)
        | err e ↦ (s, record l { is_open = false }, err e)
        | ok (broadcast, file) ↦
            let user = new_user_record name broadcast in
            (record s { users = (name, user) ∷ s.users }, record l { file = file }, ok user)
      ]

  -- The last loop of `Construct`, which does not look at the errors.
  unfoldable pub add_users : List Text → Store → Disk → Store × Disk × Settled
  unfolding add_user
  add_users [] s l = (s, l, ok tt)
  add_users (name ∷ names) s l =
      let rest = add_users names in
      let (s', l', added) = add_user name s l in
      elim added [ panicked ↦ (s', l', panicked) | err e ↦ rest s' l' | ok user ↦ rest s' l' ]

  -- `Construct`, after its first transaction.
  unfoldable pub finish_construct : Text → File → Disk → Disk × Result Store
  unfolding create_missing add_users keys_of
  finish_construct master file l = elim (create_missing H B file.pk_requests) [
    | panicked ↦ (l, panicked)
    | err e ↦ (record l { file = file; is_open = false }, err e)
    | ok pk ↦
        let made : File = record file { pk_requests = some pk } in
        let s : Store = record { master_key = some master; users = [] } in
        let l' : Disk = record l { file = made } in
        elim made.users [
          | none ↦ (l', panicked)
          | some u ↦
              let (s', l2, out) = add_users (keys_of (B.entries u)) s l' in
              elim out [ panicked ↦ (l2, panicked) | err e ↦ (l2, err e) | ok x ↦ (l2, ok s') ]
        ]
  ]

  -- `Construct`; after an error the database is closed.
  unfoldable pub construct : Option Text → Drawn → Disk → Disk × Result Store
  unfolding prepare finish_construct
  construct pass drawn l =
      if not l.is_open then (l, err closed_database) else elim (prepare H B pass drawn l.file) [
        | panicked ↦ (l, panicked)
        | err e ↦ (record l { is_open = false }, err e)
        | ok (master, file) ↦ finish_construct master file l
      ]

  -- `GetUser`
  unfoldable pub get_user : Text → Store → Result User
  unfolding lookup
  get_user name s = checked no_such_user (lookup name s.users)

  -- `NewUser`
  unfoldable pub new_user : Text → Store → Disk → Store × Disk × Result User
  unfolding lookup add_user
  new_user name s l = elim (lookup name s.users) [
    | some user ↦ (s, l, err duplicate_user)
    | none ↦ add_user name s l
  ]

  -- `Put` with an error that is not looked at.
  unfoldable pub put_anyway : Text → Text → Bucket → Bucket
  put_anyway k v b = elim (B.put k v b) [ none ↦ b | some b' ↦ b' ]

  -- The number of a new user, and the two buckets with it.
  unfoldable pub number_user : Text → Bucket → Bucket → Result (Bucket × Bucket)
  unfolding put_anyway uint64 put_uint64
  number_user name users misc = elim (B.get users_latest_id_key misc) [
    | none ↦ panicked
    | some bs ↦ elim (uint64 bs) [
      | none ↦ panicked
      | some n ↦
          let k = put_uint64 (u64 (n + 1)) in
          ok (put_anyway name k users, put_anyway users_latest_id_key k misc)
    ]
  ]

  -- The transaction of `initializeFolders`, for a user that has a bucket or has none.
  unfoldable pub make_folders : Text → File → Result File
  unfolding create_missing number_user
  make_folders name file = elim (file.folders name) [
    | some buckets ↦ ok file
    | none ↦ do
      users ← create_missing H B file.users
      misc ← create_missing H B file.misc
      numbered ← number_user name users misc
      own ← checked database B.create
      folders ← checked database B.create
      own' ← checked database (B.put folder_next_id_key (put_uint64 0) own)
      let made : File = record file {
        users = some numbered.0;
        misc = some numbered.1;
        folders = λ other. if text_eq name other then some (own', folders) else file.folders other;
      }
      ok made
  ]

  -- `initializeFolders`: the names of the folders; an error closes the database.
  unfoldable pub initialize_folders : Text → Disk → Disk × Result (List Text)
  unfolding make_folders keys_of
  initialize_folders name l =
      if not l.is_open then (l, err closed_database) else elim (make_folders name l.file) [
        | panicked ↦ (l, panicked)
        | err e ↦ (record l { is_open = false }, err e)
        | ok file ↦
            let l' : Disk = record l { file = file } in
            elim (file.folders name) [
              | none ↦ (l', panicked)
              | some (own, folders) ↦ (l', ok (keys_of (B.entries folders)))
            ]
      ]
