-- ===== src/Store/Tests/Loads.antt =====
-- A database that is made and opened again, with its theorems, at concrete buckets and ciphers.
use bmagent.Base.{
  ℕ, zero, suc, ◌≡◌, inl, refl, sym, subst, true, Option, none, some, [], ◌∷◌, ◌++◌, length,
  length-append, if◌then◌else◌, Text, codes, text_eq, text_eq_refl, text_le, arith,
}
use bmagent.Store.Bytes.{split_at, put_uint64, low_bytes}
use bmagent.Store.Bytes.Trip.{split_at-append}
use bmagent.Store.Bucket.{entry}
use bmagent.Store.Loader.{
  ok, err, key_too_short, no_password, Ciphers, Drawn, Db, array, put_key, change_passphrase,
  get_counter, set_counter, verify, prepare, new_database, salt_key, db_master_key_enc,
}
use bmagent.Store.Loader.Users.{Store, construct, finish_construct}
use bmagent.Store.Loader.Locked.{IsCipher, IsDrawn}
use bmagent.Store.Loader.Opening.{IsReady}
use bmagent.Store.Loader.Made.{construct-new, construct-construct}
use bmagent.Store.Loader.Passwords.{
  Shut, Refused, construct-refuses, change_passphrase-construct, change_passphrase-lost,
}
use bmagent.Store.Loader.Counters.{get_counter-set_counter}
use bmagent.Store.Tests.Listed.{listed, listed-IsBolt, with_entry}

-- The key is the password and the salt, and a box begins with 16 bytes of its key.
unbox : Text → Text → Option Text
unfolding split_at
unbox k s = elim (split_at 16 s) [
  | none ↦ none
  | some (front, back) ↦ if text_eq front (array 16 k) then some back else none
]

abbrev plain : Ciphers
plain = record {
  pbkdf2 = λ pass salt rounds n. pass ++ salt;
  seal = λ n k m. array 16 k ++ m;
  unseal = λ n k s. unbox k s;
}

length-array : (n : ℕ) (bs : Text) → length (array n bs) ≡ n
unfolding array
length-array zero bs = refl
length-array (suc n) [] = omega (arith, length-array n [])
length-array (suc n) (b ∷ bs) = omega (arith, length-array n bs)

unbox-append : (k m : Text) → unbox k (array 16 k ++ m) ≡ some m
unfolding unbox
unbox-append k m =
    rw (split_at-append 16 (array 16 k) m (length-array 16 k), unbox)
      (rw (text_eq_refl (array 16 k)) refl)

plain-IsCipher : IsCipher plain
plain-IsCipher = record {
  opens = λ n k m. unbox-append k m;
  longer = λ n k m. omega (arith, length-append (array 16 k) m, length-array 16 k);
}

abbrev drawn : Drawn
drawn = record {
  key = some (codes "0123456789abcdef0123456789abcdef");
  nonce = some (codes "abcdefghijklmnopqrstuvwx");
  salt = some (codes "salt");
}

drawn-IsDrawn : IsDrawn drawn
drawn-IsDrawn = record {
  key = codes "0123456789abcdef0123456789abcdef";
  nonce = codes "abcdefghijklmnopqrstuvwx";
  salt = codes "salt";
  has_key = refl;
  has_nonce = refl;
  has_salt = refl;
  key_length = refl;
  nonce_length = refl;
}

-- Nothing is drawn.
abbrev undrawn : Drawn
undrawn = record { key = none; nonce = none; salt = none }

abbrev bytes : Text → Option Text
bytes t = some t

abbrev same : Text → Text
same t = t

abbrev new_file : Db plain listed
new_file = record {
  file = record {
    misc = none;
    counters = none;
    users = none;
    pk_requests = none;
    broadcasts = λ name. none;
    folders = λ name. none;
  };
  is_open = true;
}

abbrev first : Db plain listed
first = (construct plain listed bytes same (some (codes "pw")) drawn new_file).0

abbrev shop : Store plain listed bytes same
shop = record { master_key = some (codes "0123456789abcdef0123456789abcdef"); users = [] }

first_ok : construct plain listed bytes same (some (codes "pw")) drawn new_file ≡ (first, ok shop)
unfolding construct prepare finish_construct verify new_database put_key with_entry entry array
    text_eq text_le put_uint64 low_bytes
first_ok = refl

construct-construct_example :
    (l2 : Db plain listed) × (s2 : Store plain listed bytes same) × (construct plain listed bytes
        same
        (some (codes "pw"))
        undrawn
        (record first { is_open = true })
      ≡ (l2, ok s2))
    × (s2.master_key ≡ shop.master_key)
construct-construct_example =
    construct-construct plain listed bytes same listed-IsBolt plain-IsCipher (some (codes "pw"))
      drawn undrawn new_file first shop drawn-IsDrawn refl first_ok

first-IsReady :
    (master : Text) × (shop.master_key ≡ some master)
    × IsReady plain listed bytes same (some (codes "pw")) master first.file
first-IsReady =
    construct-new plain listed bytes same listed-IsBolt plain-IsCipher (some (codes "pw")) drawn
      new_file first shop drawn-IsDrawn refl first_ok

ready :
    IsReady plain listed bytes same
      (some (codes "pw"))
      (codes "0123456789abcdef0123456789abcdef")
      first.file
ready =
    let (master, key, v) = first-IsReady in
    subst (λ t. IsReady plain listed bytes same (some (codes "pw")) t first.file)
      (sym (some-inj key)) v
  where
    some-inj : {a b : Text} → some a ≡ some b → a ≡ b
    some-inj e = ground arith

construct-refuses_example :
    Refused plain listed bytes same listed-IsBolt plain-IsCipher
      (some (codes "pw"))
      (some (codes "no"))
      (codes "0123456789abcdef0123456789abcdef")
      first
      (construct plain listed bytes same (some (codes "no")) undrawn first)
unfolding construct entry with_entry text_eq
construct-refuses_example =
    construct-refuses plain listed bytes same listed-IsBolt plain-IsCipher (some (codes "pw"))
      (some (codes "no")) undrawn (codes "0123456789abcdef0123456789abcdef") first refl ready

-- The passphrase is changed.
abbrev changed : Db plain listed
changed =
    (change_passphrase plain listed drawn (some (codes "0123456789abcdef0123456789abcdef"))
      (codes "new") first).0

change_passphrase-construct_example :
    ((l2 : Db plain listed) × (s2 : Store plain listed bytes same) × (construct plain listed bytes
          same
          (some (codes "new"))
          undrawn
          changed
        ≡ (l2, ok s2))
      × (s2.master_key ≡ some (codes "0123456789abcdef0123456789abcdef")))
    × (construct plain listed bytes same none undrawn changed
        ≡ Shut plain listed bytes same listed-IsBolt plain-IsCipher changed no_password)
unfolding construct prepare finish_construct verify new_database put_key with_entry entry array
    text_eq text_le put_uint64 low_bytes change_passphrase
change_passphrase-construct_example =
    change_passphrase-construct plain listed bytes same listed-IsBolt plain-IsCipher
      (some (codes "pw")) drawn undrawn (codes "0123456789abcdef0123456789abcdef") (codes "new")
      first changed drawn-IsDrawn ready refl

abbrev or_empty : Option listed.Bucket → listed.Bucket
or_empty none = ([], tt)
or_empty (some b) = b

-- The bucket `misc`, and what it is after the two entries were put.
abbrev misc_before : listed.Bucket
misc_before = or_empty first.file.misc

abbrev misc_salted : listed.Bucket
misc_salted = or_empty (listed.put salt_key [] misc_before)

abbrev misc_lost : listed.Bucket
misc_lost = or_empty (listed.put db_master_key_enc [] misc_salted)

change_passphrase-lost_example :
    let (l', reply) =
      change_passphrase plain listed undrawn
        (some (codes "0123456789abcdef0123456789abcdef"))
        (codes "new")
        first in
    (reply ≡ ok tt)
    × (l'.file.misc ≡ some misc_lost)
    × (verify plain listed (some (codes "pw")) drawn misc_lost ≡ err key_too_short)
unfolding construct prepare finish_construct verify new_database put_key with_entry entry array
    text_eq text_le put_uint64 low_bytes change_passphrase
change_passphrase-lost_example =
    change_passphrase-lost plain listed bytes same listed-IsBolt plain-IsCipher (some (codes "pw"))
      undrawn drawn (codes "0123456789abcdef0123456789abcdef") (codes "new") (codes "pw") first
      misc_before misc_salted misc_lost (inl refl) ready refl refl refl refl

abbrev counted : Db plain listed
counted = (set_counter plain listed 2 300 first).0

get_counter-set_counter_example : get_counter plain listed 2 counted ≡ ok 300
unfolding construct prepare finish_construct verify new_database put_key with_entry entry array
    text_eq text_le put_uint64 low_bytes set_counter
get_counter-set_counter_example =
    get_counter-set_counter plain listed 2 2 300 first counted listed-IsBolt (omega arith)
      (omega arith) (omega arith) refl
