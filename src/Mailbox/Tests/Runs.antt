-- ===== src/Mailbox/Tests/Runs.antt =====
-- A mailbox with its theorems, at concrete packages and a concrete folder.
use bmagent.Base.{
  Option, ◌++◌, text_le, ℕ, ◌≡◌, ◌⊎◌, refl, ap, false, none, some, [], ◌∷◌, Text, codes, text_eq,
  ◌==◌, if◌then◌else◌, arith, length, subst, sym,
}
use bmagent.Mailbox.Sequence.Probe.{exact_probe, exact_probe-IsProbe}
use bmagent.Mailbox.Sequence.Count.{AreSmall}
use bmagent.Mailbox.Coding.{
  fine, refused, stopped, encoding2, Bmail, to_wire, serialize_bitmessage, decode_bitmessage,
}
use bmagent.Mailbox.Coding.Trip.{stored, decode_bitmessage-serialize_bitmessage}
use bmagent.Mailbox.Box.{Flags, Mailbox, sort_uids, refresh}
use bmagent.Mailbox.Box.Changes.{add_new, delete_bitmessage_by_uid}
use bmagent.Mailbox.Box.Stats.{Shows, refresh-Shows}
use bmagent.Mailbox.Box.Own.{own_ids, count, IsRising, times}
use bmagent.Mailbox.Box.Delete.Fate.{delete_bitmessage_by_uid-Shows}
use bmagent.Mailbox.Box.Add.{Appends, add_new-Shows}
use bmagent.Mailbox.Box.Delete.{IsFolder, find, without}
use bmagent.Mailbox.Tests.Packed.{packed, packed-IsCoding, packed_message, unpacked_message}
use bmagent.Mailbox.Tests.Shelf.{shelf, shelf-Appends}
use bmagent.Store.Tests.Runs.{empty_folder}
use bmagent.Store.Box.{encrypt, decrypt}
use bmagent.Store.Bytes.{put_uint64, number_of, split_at, uint64, low_bytes}
use bmagent.Store.Bucket.{entry, drop_below}
use bmagent.Store.Folder.{
  insert_new_message, get_message, delete_message, new_folder, initialize, create_folder,
  add_new as put_new, taken, begins, read_entry, delete_entry,
}
use bmagent.Store.Folder.Each.{for_each_message, visit, key_parts}
use bmagent.Store.Tests.Listed.{with_entry, without as without_key}

-- Seen is 1 and recent is 2, and a test is for the flag alone.
abbrev pub flags : Flags
flags = record {
  seen = 1;
  recent = 2;
  deleted = 4;
  has_flags = λ a b. (if a == b then b else 0) == b;
  both = λ a b. if a == b then b else 0;
}

abbrev Box : Type 0
Box = Mailbox packed shelf flags exact_probe

abbrev pub letter : Bmail ℕ
letter = record {
  from = codes "BM-a";
  to = codes "BM-b";
  of_channel = false;
  content = encoding2 (codes "Hi") (codes "Hello");
  ack = none;
  expiration = 5;
  imap_data = none;
  state = none;
}

abbrev pub empty_box : Box
empty_box = record {
  mbox = empty_folder.0;
  sub = none;
  objects = none;
  drafts = false;
  uids = [];
  num_recent = 0;
  num_unseen = 0;
  next_uid = 1;
}

pub empty-Shows : Shows packed shelf flags exact_probe empty_box
unfolding own_ids count sort_uids new_folder initialize create_folder with_entry entry put_uint64
    low_bytes number_of split_at uint64 text_le text_eq for_each_message visit key_parts decrypt
    drop_below
empty-Shows = record {
  readable = tt;
  ended = refl;
  uids = refl;
  num_recent = refl;
  num_unseen = refl;
  next_uid = refl;
}

-- Two letters arrive.
abbrev pub one_letter : Box
one_letter = (add_new packed shelf flags exact_probe 9 2 letter empty_box).0

abbrev pub two_letters : Box
two_letters = (add_new packed shelf flags exact_probe 10 1 letter one_letter).0

pub one-Appends : Appends shelf one_letter.mbox
unfolding insert_new_message encrypt put_new taken begins new_folder initialize create_folder
    with_entry entry put_uint64 low_bytes number_of split_at uint64 text_le text_eq for_each_message
    visit key_parts decrypt drop_below add_new serialize_bitmessage refresh decode_bitmessage
    unpacked_message packed_message
one-Appends = record {
  appends = λ msg id e.
      subst
        (λ (o : Option ℕ). elim o [
          | none ↦ Unit
          | some k ↦
              (shelf.visited 0 0 2 one_letter.mbox).0 ++ ((2, msg) ∷ [])
              ≡ (shelf.visited 0 0 2 one_letter.mbox).0 ++ ((k, msg) ∷ [])
        ])
        e refl;
  ends = λ msg id e. refl;
  keeps = λ msg e. absurd (ground arith);
}

pub one-Shows : Shows packed shelf flags exact_probe one_letter
one-Shows =
    add_new-Shows packed shelf flags exact_probe packed-IsCoding 9 2 72 (codes "ello") (codes "Hi")
      letter empty_box refl shelf-Appends empty-Shows

add_new-Shows_example : Shows packed shelf flags exact_probe two_letters
add_new-Shows_example =
    add_new-Shows packed shelf flags exact_probe packed-IsCoding 10 1 72 (codes "ello") (codes "Hi")
      letter one_letter refl one-Appends one-Shows

pub two_uids : two_letters.uids ≡ 1 ∷ 2 ∷ []
unfolding insert_new_message encrypt put_new taken begins new_folder initialize create_folder
    with_entry entry put_uint64 low_bytes number_of split_at uint64 text_le text_eq for_each_message
    visit key_parts decrypt drop_below add_new serialize_bitmessage refresh decode_bitmessage
    unpacked_message packed_message
two_uids = refl

pub two-IsFolder : IsFolder shelf two_letters.mbox 1
unfolding insert_new_message encrypt put_new taken begins new_folder initialize create_folder
    with_entry entry put_uint64 low_bytes number_of split_at uint64 text_le text_eq for_each_message
    visit key_parts decrypt drop_below add_new serialize_bitmessage refresh decode_bitmessage
    unpacked_message packed_message find without get_message read_entry delete_message delete_entry
    without_key
two-IsFolder = record {
  rising = ((omega arith, tt), (tt, tt));
  gets = λ msg e. ground arith;
  deletes = λ e. refl;
  ends = λ e. refl;
  keeps = λ e. absurd (ground arith);
  next = refl;
}

pub two-AreSmall : AreSmall two_letters.uids
two-AreSmall = subst AreSmall (sym two_uids) (ground arith)

-- The first of them is deleted.
delete_bitmessage_by_uid-Shows_example :
    Shows packed shelf flags exact_probe
      (delete_bitmessage_by_uid packed shelf flags exact_probe 1 two_letters).0
delete_bitmessage_by_uid-Shows_example =
    delete_bitmessage_by_uid-Shows packed shelf flags exact_probe two_letters 1 exact_probe-IsProbe
      two-IsFolder (λ a b. refl) (omega (arith, ap length two_uids)) two-AreSmall
      add_new-Shows_example

refresh-Shows_example :
    let (box', out) = refresh packed shelf flags exact_probe two_letters in
    ((out ≡ fine tt)
      × Shows packed shelf flags exact_probe box'
      × (box'.mbox ≡ two_letters.mbox)
      × IsRising box'.uids
      × ((n : ℕ)
          → times n box'.uids
            ≡ times n (
                own_ids packed shelf flags exact_probe two_letters.sub
                  (shelf.visited 0 0 2 two_letters.mbox).0)))
    ⊎ (((out ≡ refused) ⊎ (out ≡ stopped))
        × (box'.uids ≡ two_letters.uids)
        × (box'.mbox ≡ two_letters.mbox))
refresh-Shows_example = refresh-Shows packed shelf flags exact_probe two_letters

-- The bytes of the letter.
abbrev letter_bytes : Text
letter_bytes = packed_message (to_wire packed letter none)

decode_bitmessage-serialize_bitmessage_example :
    decode_bitmessage packed letter_bytes ≡ fine (stored packed packed-IsCoding letter, none)
unfolding serialize_bitmessage text_eq
decode_bitmessage-serialize_bitmessage_example =
    decode_bitmessage-serialize_bitmessage packed packed-IsCoding letter none letter_bytes refl
