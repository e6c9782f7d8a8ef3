-- ===== src/Idmgr/Manager.antt =====
-- idmgr/manager.go and idmgr/db.go: the manager of private identities, with the entries of the map
-- `IDs` as a list. The keys, the addresses and the conversions of strings come from other packages.
pub mod Listed
pub mod Derived
pub mod Imported
mod Tests
use bmagent.Base.{
  ℕ, zero, suc, ◌+◌, Bool, true, false, not, ◌==◌, String, str_eq, Option, none, some, List, [],
  ◌∷◌, ◌++◌, map, length, if◌then◌else◌, u32, find, set_name, keys,
}

pub record Libraries : Type 1 where
  pub Master : Type 0
  pub PrivateKey : Type 0
  pub PrivateAddress : Type 0
  pub Identity : Type 0
  -- `identity.NewHD`, of the master key, an index and a stream; none is an error.
  pub new_hd : Master → ℕ → ℕ → Option PrivateKey
  -- `identity.NewPrivateAddress` of the default version, for a stream.
  pub new_private_address : PrivateKey → ℕ → PrivateAddress
  -- `identity.NewPrivateID`, of an address, a behavior and the proof-of-work data if given.
  pub new_private_id : PrivateAddress → ℕ → Option (ℕ × ℕ) → Identity
  pub address : Identity → String
  -- `identity.ImportWIF`; none is an error.
  pub import_wif : String → String → String → Option PrivateAddress
  -- `strings.ToLower`, and `strconv.Atoi` with the conversion to uint64.
  pub to_lower : String → String
  pub atoi_uint64 : String → Option ℕ
  pub default_nonce_trials_per_byte : ℕ
  pub default_extra_bytes : ℕ

infixl 5 ◌>>=◌
abbrev ◌>>=◌ {ℓ κ} : {A : Type ℓ} {B : Type κ} → Option A → (A → Option B) → Option B
none >>= f = none
some a >>= f = f a

-- `keys.PrivateID`
pub record PrivateId (Identity : Type 0) : Type 0 where
  pub identity : Identity
  pub is_chan : Bool
  pub disabled : Bool
  pub imported : Bool
  pub name : String

-- `db`
pub record Db (Master Identity : Type 0) : Type 0 where
  pub version : ℕ
  pub master_key : Master
  pub new_id_index : ℕ
  pub ids : List (String × PrivateId Identity)

pub record Manager (Master Identity : Type 0) : Type 0 where
  pub db : Db Master Identity
  pub imported_ids : List String
  pub derived_ids : List String

-- The addresses with the given flag, as the loop of `FromPlaintext` appends them.
pub with_imported : {I : Type 0} → Bool → List (String × PrivateId I) → List String
with_imported b [] = []
with_imported b ((addr, id) ∷ ids) =
    let rest = with_imported b ids in
    elim id.imported [
      | true ↦ if b then addr ∷ rest else rest
      | false ↦ if b then rest else addr ∷ rest
    ]

-- `readIniBool`
pub read_ini_bool : (String → String) → List (String × String) → String → Bool → Bool
read_ini_bool to_lower m key default = elim (find key m) [
  | none ↦ default
  | some str ↦
      if str_eq (to_lower str) "false"
      then false
      else if str_eq (to_lower str) "true"
      then true
      else default
]

-- `readIniUint64`
pub read_ini_uint64 : (String → Option ℕ) → List (String × String) → String → ℕ → ℕ
read_ini_uint64 atoi m key default = elim (find key m) [
  | none ↦ default
  | some str ↦ elim (atoi str) [ none ↦ default | some n ↦ n ]
]

module _ (L : Libraries) where
  open L use {
    Master, PrivateKey, PrivateAddress, Identity, new_hd, new_private_address, new_private_id,
    address, import_wif, to_lower, atoi_uint64, default_nonce_trials_per_byte, default_extra_bytes,
  }

  -- `New`, the constructor, once the master key is made.
  pub new_manager : Master → Manager Master Identity
  new_manager key = record {
    db = record { version = 1; master_key = key; new_id_index = 0; ids = [] };
    imported_ids = [];
    derived_ids = [];
  }

  -- `FromPlaintext`, once the file is decoded: none for an unknown version.
  pub from_db : Db Master Identity → Option (Manager Master Identity)
  unfolding with_imported
  from_db db =
      let mgr : Manager Master Identity = record {
        db = db;
        imported_ids = with_imported true db.ids;
        derived_ids = with_imported false db.ids;
      } in
      if not (db.version == 1) then none else some mgr

  pub import_identity : PrivateId Identity → Manager Master Identity → Manager Master Identity
  import_identity id mgr =
      let str = address id.identity in
      elim (find str mgr.db.ids) [
        | some _ ↦ mgr
        | none ↦ record mgr {
          db = record mgr.db { ids = set_name str (record id { imported = true }) mgr.db.ids };
          imported_ids = mgr.imported_ids ++ str ∷ [];
        }
      ]

  -- The loop of `New`: the offset of the first index that gives a key, and the key; none if the
  -- fuel runs out.
  pub derive : ℕ → Master → ℕ → ℕ → ℕ → Option (ℕ × PrivateKey)
  derive zero key index i stream = none
  derive (suc fuel) key index i stream =
      let rest = derive fuel key index (u32 (i + 1)) stream in
      elim (new_hd key (u32 (index + i)) stream) [ none ↦ rest | some priv ↦ some (i, priv) ]

  -- What `New` does after its loop.
  pub add_derived :
      ℕ × PrivateKey
      → String
      → ℕ
      → ℕ
      → Manager Master Identity
      → Manager Master Identity × PrivateId Identity
  add_derived (i, priv) name stream behavior mgr =
      let id : PrivateId Identity = record {
        identity = new_private_id (new_private_address priv stream) behavior none;
        is_chan = false;
        disabled = false;
        imported = false;
        name = name;
      } in
      let str = address id.identity in
      (
        record mgr {
          db = record mgr.db {
            new_id_index = u32 (mgr.db.new_id_index + u32 (i + 1));
            ids = set_name str id mgr.db.ids;
          };
          derived_ids = mgr.derived_ids ++ str ∷ [];
        },
        id,
      )

  -- The method `New`, with fuel for its loop.
  pub new :
      ℕ
      → String
      → ℕ
      → ℕ
      → Manager Master Identity
      → Option (Manager Master Identity × PrivateId Identity)
  unfolding derive add_derived
  new fuel name stream behavior mgr =
      elim (derive fuel mgr.db.master_key mgr.db.new_id_index 0 stream) [
        | none ↦ none
        | some found ↦ some (add_derived found name stream behavior mgr)
      ]

  pub get : String → Manager Master Identity → Option (PrivateId Identity)
  get addr mgr = find addr mgr.db.ids

  -- `NumImported`, `NumDeterministic` and `Size`
  pub sizes : Manager Master Identity → ℕ × ℕ × ℕ
  sizes mgr = (length mgr.imported_ids, length mgr.derived_ids, length (keys mgr.db.ids))

  -- `NameAddress`, and `UnnameAddress` with the empty name; true is `ErrNonexistentIdentity`.
  pub name_address : String → String → Manager Master Identity → Manager Master Identity × Bool
  name_address addr name mgr = elim (find addr mgr.db.ids) [
    | none ↦ (mgr, true)
    | some id ↦ (
      record mgr {
        db = record mgr.db { ids = set_name addr (record id { name = name }) mgr.db.ids };
      },
      false,
    )
  ]

  pub names : Manager Master Identity → List (String × String)
  names mgr = map (λ entry. (entry.0, entry.1.name)) mgr.db.ids

  -- What `ImportKeysFromPyBitmessage` reads from the section of an address; none to go on.
  pub read_section : String → List (String × String) → Option (PrivateId Identity)
  unfolding read_ini_bool read_ini_uint64
  read_section k v = if str_eq k "bitmessagesettings" then none else do
    signing_key ← find "privsigningkey" v
    enc_key ← find "privencryptionkey" v
    pr ← import_wif k signing_key enc_key
    some (record {
      identity = new_private_id pr 0 (
          some (
            read_ini_uint64 atoi_uint64 v "noncetrialsperbyte" default_nonce_trials_per_byte,
            read_ini_uint64 atoi_uint64 v "payloadlengthextrabytes" default_extra_bytes,
          ));
      is_chan = read_ini_bool to_lower v "chan" false;
      disabled = not (read_ini_bool to_lower v "enabled" true);
      imported = false;
      name = elim (find "label" v) [ none ↦ "" | some label ↦ label ];
    })

  -- `ImportKeysFromPyBitmessage`, over the sections in the order of the iteration.
  pub import_keys_from_py_bitmessage :
      List (String × List (String × String))
      → List (String × String)
      → Manager Master Identity
      → Manager Master Identity × List (String × String)
  unfolding read_section import_identity
  import_keys_from_py_bitmessage [] addresses mgr = (mgr, addresses)
  import_keys_from_py_bitmessage ((k, v) ∷ f) addresses mgr = elim (read_section k v) [
    | none ↦ import_keys_from_py_bitmessage f addresses mgr
    | some p ↦
        import_keys_from_py_bitmessage f (set_name (address p.identity) p.name addresses)
          (import_identity p mgr)
  ]
