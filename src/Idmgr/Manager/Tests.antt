-- ===== src/Idmgr/Manager/Tests.antt =====
-- The theorems about the manager of identities, with numbers for keys.
use bmagent.Base.{
  ℕ, ◌+◌, ◌≡◌, refl, true, false, ◌==◌, String, none, some, List, [], ◌∷◌, if◌then◌else◌, u32,
  arith, find, set_name,
}
use bmagent.Idmgr.Manager.{
  Libraries, PrivateId, Db, Manager, new_manager, import_identity, new,
  import_keys_from_py_bitmessage, read_section, read_ini_bool, read_ini_uint64,
}
use bmagent.Idmgr.Manager.Listed.{IsValid, new_manager-IsValid, import_identity-IsValid}
use bmagent.Idmgr.Manager.Derived.{new-first}
use bmagent.Idmgr.Manager.Imported.{import_keys-kept}

-- The index 0 gives no key.
abbrev numbers : Libraries
numbers = record {
  Master = ℕ;
  PrivateKey = ℕ;
  PrivateAddress = ℕ;
  Identity = ℕ;
  new_hd = λ m i s. if i == 0 then none else some i;
  new_private_address = λ k s. k;
  new_private_id = λ a b p. a;
  address = λ n. if n == 1 then "BM-1" else "BM-2";
  import_wif = λ a s e. some 2;
  to_lower = λ s. s;
  atoi_uint64 = λ s. none;
  default_nonce_trials_per_byte = 1000;
  default_extra_bytes = 1000;
}

abbrev id_two : PrivateId ℕ
id_two = record { identity = 2; is_chan = false; disabled = false; imported = false; name = "old" }

abbrev empty_manager : Manager ℕ ℕ
empty_manager = new_manager numbers 7

abbrev with_two : Manager ℕ ℕ
with_two = import_identity numbers id_two empty_manager

with_two-IsValid : IsValid numbers with_two
with_two-IsValid =
    import_identity-IsValid numbers id_two empty_manager (new_manager-IsValid numbers 7)

new-first_example :
    (mgr' : Manager ℕ ℕ) × (p : PrivateId ℕ) × (new numbers 2 "me" 1 0 with_two ≡ some (mgr', p))
    × (p.identity ≡ 1)
    × (p.name ≡ "me")
    × (find "BM-1" mgr'.db.ids ≡ some p)
    × (mgr'.db.new_id_index ≡ u32 (with_two.db.new_id_index + 2))
    × IsValid numbers mgr'
unfolding import_identity new_manager find set_name
new-first_example =
    new-first numbers 2 1 1 "me" 1 0 with_two with_two-IsValid (omega arith) (omega arith)
      (λ j lt. ground arith) refl refl

abbrev stored : Db ℕ ℕ
stored = record { version = 1; master_key = 7; new_id_index = 3; ids = ("BM-2", id_two) ∷ [] }

abbrev sections : List (String × List (String × String))
sections =
    ("bitmessagesettings", [])
    ∷ ("BM-2", ("privsigningkey", "s") ∷ ("privencryptionkey", "e") ∷ ("label", "new") ∷ [])
    ∷ []

-- The name that is reported is the file's, though the manager keeps its own.
reported_name :
    (import_keys_from_py_bitmessage numbers sections [] with_two).1 ≡ ("BM-2", "new") ∷ []
unfolding import_keys_from_py_bitmessage read_section read_ini_bool read_ini_uint64 find set_name
reported_name = refl

import_keys-kept_example :
    let mgr' = (import_keys_from_py_bitmessage numbers sections [] with_two).0 in
    IsValid numbers mgr' × (find "BM-2" mgr'.db.ids ≡ some (record id_two { imported = true }))
unfolding import_identity new_manager find set_name
import_keys-kept_example =
    import_keys-kept numbers sections [] "BM-2" (record id_two { imported = true }) with_two
      with_two-IsValid refl
