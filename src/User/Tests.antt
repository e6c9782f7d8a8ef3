-- ===== src/User/Tests.antt =====
-- The mail of a user with its theorems, at concrete packages, folders and a concrete network.
use bmagent.Base.{
  text_le, subst, ℕ, ◌+◌, ◌≡◌, ◌⊎◌, refl, ap, Bool, true, false, Option, none, some, List, [], ◌∷◌,
  ◌++◌, Text, codes, text_eq, if◌then◌else◌, arith, length,
}
use bmagent.Mailbox.Sequence.{round, search, get_sequence_number}
use bmagent.Mailbox.Sequence.Probe.{exact_probe, exact_probe-IsProbe}
use bmagent.Mailbox.Coding.{
  fine, refused, stopped, ImapData, Bmail, serialize_bitmessage, decode_bitmessage,
}
use bmagent.Mailbox.Box.{Mailbox, refresh, blank_box, new_box, bmsg_by_uid}
use bmagent.Mailbox.Box.Changes.{add_new}
use bmagent.Mailbox.Box.Stats.{Shows}
use bmagent.Mailbox.Box.Add.{Appends, add_new-Shows}
use bmagent.Mailbox.Box.Delete.{find}
use bmagent.Mailbox.Tests.Packed.{packed, packed-IsCoding, packed_message, unpacked_message}
use bmagent.Mailbox.Tests.Shelf.{shelf, shelf-Appends}
use bmagent.Store.Tests.Runs.{empty_folder}
use bmagent.Store.Box.{encrypt, decrypt}
use bmagent.Store.Bytes.{put_uint64, number_of, split_at, uint64, low_bytes}
use bmagent.Store.Bucket.{entry, drop_below}
use bmagent.Store.Folder.{
  insert_new_message, get_message, new_folder, initialize, create_folder, add_new as put_new, taken,
  begins, read_entry,
}
use bmagent.Store.Folder.Each.{for_each_message, visit, key_parts}
use bmagent.Store.Tests.Listed.{with_entry}
use bmagent.Mailbox.Tests.Runs.{
  flags, letter, empty_box, empty-Shows, two_letters, one_letter, one-Shows, two_uids, two-AreSmall,
  one-Appends, two-IsFolder,
}
use bmagent.User.{User, set_box, move, inbox_folder_name, sent_folder_name, outbox_folder_name}
use bmagent.User.Keeps.{AllShow, set_box-AllShow, move-AllShow}
use bmagent.User.Objects.{Network, known, pubkey_requested, generate_object}
use bmagent.User.Process.{add_ack, Job, Sender, process}
use bmagent.User.Create.{FolderSet, new_user, new_user-AllShow}
use bmagent.User.Unset.{process-new_user}

abbrev Box : Type 0
Box = Mailbox packed shelf flags exact_probe

abbrev Boxes : Type 0
Boxes = User packed shelf flags exact_probe

abbrev no_boxes : Boxes
no_boxes = record { boxes = λ name. none; acks = λ hash. none }

no_boxes-AllShow : AllShow packed shelf flags exact_probe no_boxes
no_boxes-AllShow name box e = absurd (ground arith)

-- An inbox with two letters, and nothing sent.
abbrev two_boxes : Boxes
two_boxes =
    set_box packed shelf flags exact_probe sent_folder_name empty_box
      (set_box packed shelf flags exact_probe inbox_folder_name two_letters no_boxes)

two-Shows : Shows packed shelf flags exact_probe two_letters
two-Shows =
    add_new-Shows packed shelf flags exact_probe packed-IsCoding 10 1 72 (codes "ello") (codes "Hi")
      letter one_letter refl one-Appends one-Shows

two_boxes-AllShow : AllShow packed shelf flags exact_probe two_boxes
two_boxes-AllShow =
    set_box-AllShow packed shelf flags exact_probe sent_folder_name empty_box
      (set_box packed shelf flags exact_probe inbox_folder_name two_letters no_boxes)
      (set_box-AllShow packed shelf flags exact_probe inbox_folder_name two_letters no_boxes
        no_boxes-AllShow two-Shows)
      empty-Shows

-- The first letter of the inbox is moved.
abbrev first_place : ImapData ℕ
first_place = record { uid = 1; sequence_number = 1; flags = 2; time_received = 9 }

abbrev first_letter : Bmail ℕ
first_letter = record letter { imap_data = some first_place }

move-AllShow_example :
    AllShow packed shelf flags exact_probe
      (move packed shelf flags exact_probe 12 first_letter inbox_folder_name sent_folder_name
        two_boxes).0
unfolding insert_new_message encrypt put_new taken begins new_folder initialize create_folder
    with_entry entry put_uint64 low_bytes number_of split_at uint64 text_le text_eq for_each_message
    visit key_parts decrypt drop_below add_new serialize_bitmessage refresh decode_bitmessage
    unpacked_message packed_message set_box bmsg_by_uid get_sequence_number search round exact_probe
    find get_message read_entry
move-AllShow_example =
    move-AllShow packed shelf flags exact_probe packed-IsCoding exact_probe-IsProbe (λ a b. refl) 12
      first_letter first_place inbox_folder_name sent_folder_name two_boxes two_letters refl refl
      (omega (arith, ap length two_uids)) two-AreSmall (codes "Hi", 72, codes "ello", refl)
      two-IsFolder
      (λ b e.
        subst (λ (o : Option Box). elim o [ none ↦ Unit | some t ↦ Appends shelf t.mbox ]) e
          shelf-Appends)
      two_boxes-AllShow

-- Every identity wants acks, none is of a channel, and every key is known but `BM-b`.
abbrev net : Network packed
net = record {
  PrivateId = Text;
  Public = Text;
  PowData = ℕ;
  Keys = List Text;
  Server = List Text;
  get_key = λ addr keys. if text_eq addr (codes "BM-b") then none else some addr;
  is_chan = λ id. false;
  address_version = λ id. 4;
  address_stream = λ id. 1;
  data_pow = λ id. 1000;
  get_or_request_public_id = λ addr server. (server, known addr);
  send = λ bytes server. bytes ∷ server;
  is_broadcast = λ id. false;
  expects_ack = λ id. true;
  add_duration = λ t d. t + d;
  seconds_until = λ t now. t;
  create_tagless_broadcast = λ t content from. none;
  create_tagged_broadcast = λ t content from. none;
  sign_and_encrypt_message = λ t stream content ack from to. some (from ++ to);
  new_msg_object = λ t stream num. num ∷ [];
  object_expiration = λ o. 5;
  inventory_hash = λ o. o;
  calculate_target = λ len ttl d. len;
}

abbrev parses : Text → Option Text
parses t = some t

abbrev decodes : Text → Bool
decodes t = true

abbrev Mailer : Type 0
Mailer = Sender packed net parses decodes shelf flags exact_probe

-- An ack is worked on.
abbrev waiting : List (Job packed net parses decodes shelf flags exact_probe)
waiting = record { target = 3; bytes = codes "object"; task = add_ack letter } ∷ []

-- A store with an outbox alone.
abbrev shelves : FolderSet shelf
shelves = record {
  State = Unit;
  names = λ s. outbox_folder_name ∷ [];
  get = λ name s. (s, some empty_folder.0);
}

abbrev fresh : Mailer
fresh = record {
  user =
      set_box packed shelf flags exact_probe outbox_folder_name
        (refresh packed shelf flags exact_probe
          (blank_box packed shelf flags exact_probe false empty_folder.0)).0
        no_boxes;
  keys = [];
  server = [];
  expiration = none;
  pm = none;
}

new_user_fresh :
    (new_user packed net parses decodes shelf flags exact_probe shelves []
      (some (λ o. 60))
      (some waiting)
      []
      tt).1
    ≡ fine fresh
unfolding new_user text_eq new_box refresh new_folder initialize create_folder with_entry entry
    put_uint64 low_bytes number_of split_at uint64 text_le for_each_message visit key_parts decrypt
    drop_below
new_user_fresh = refl

new_user-AllShow_example : AllShow packed shelf flags exact_probe fresh.user
new_user-AllShow_example =
    new_user-AllShow packed net parses decodes shelf flags exact_probe shelves [] (some (λ o. 60))
      (some waiting) [] tt fresh new_user_fresh

process-new_user_example :
    let (server', m', out) =
      generate_object packed net parses decodes shelf flags exact_probe 7 fresh.expiration
        fresh.keys letter
        (fresh.user.boxes outbox_folder_name)
        fresh.server in
    let (s', reply) = process packed net parses decodes shelf flags exact_probe 7 8 letter fresh in
    (s'.pm ≡ none) × ((out ≡ pubkey_requested) ⊎ ((reply ≡ refused) ⊎ (reply ≡ stopped)))
process-new_user_example =
    process-new_user packed net parses decodes shelf flags exact_probe shelves [] (some (λ o. 60))
      (some waiting) [] tt 7 8 letter fresh new_user_fresh
