-- ===== src/Agent/Tests.antt =====
-- The agent with its theorems, at a concrete connection and concrete packages.
use bmagent.Base.{
  ℕ, ◌≡◌, ◌≢◌, refl, Bool, true, false, Option, none, some, List, [], ◌∷◌, Text, codes, text_eq,
  if◌then◌else◌, arith,
}
use bmagent.Email.Address.{to_bm, match_email, before_at}
use bmagent.Mailbox.Sequence.Probe.{exact_probe}
use bmagent.Mailbox.Coding.{fine, encoding2}
use bmagent.Mailbox.Tests.Packed.{packed}
use bmagent.Mailbox.Tests.Shelf.{shelf}
use bmagent.Mailbox.Tests.Runs.{flags}
use bmagent.Store.Tests.Listed.{listed}
use bmagent.User.Objects.{known}
use bmagent.Agent.Client.{Stub, response, IdentityReply, get_identity}
use bmagent.Agent.Ops.{
  broadcast_id, public_id, Requests, Ops, cache, look_up, get_or_request_public_id,
  get_or_request_public_identity,
}
use bmagent.Agent.Ops.Known.{
  NoBroadcast, get_or_request_public_id-NoBroadcast, get_or_request_public_id-again,
}
use bmagent.Agent.Handlers.{Decrypted, Ciphering, Server, new_message}
use bmagent.Agent.Handlers.Sends.{Taken, new_message-Taken}

abbrev reply : IdentityReply
reply = record {
  signing_key = codes "sign";
  encryption_key = codes "encrypt";
  behavior = 1;
  nonce_trials = 1000;
  extra_bytes = 1000;
}

-- bmd knows every identity, and every object is sent.
abbrev stub : Stub
stub = record {
  Net = List Text;
  Address = Text;
  PubKey = Text;
  Identity = Text;
  get_identity = λ addr net. (net, response reply);
  send_object = λ obj net. (obj ∷ net, response 1);
  decode_address = λ addr. some addr;
  parse_pub_key = λ key. some key;
  new_public = λ ver enc addr behavior trials extra. some addr;
}

abbrev requests : Requests stub
requests = record { encode_get_pub_key = λ addr. addr; request_target = λ n. n }

abbrev parses : Text → Option Text
parses t = some t

abbrev decodes : Text → Bool
decodes t = true

abbrev no_time : Text → Option ℕ
no_time t = none

abbrev Asker : Type 0
Asker = Ops stub listed requests parses decodes no_time

-- Nothing is cached yet.
abbrev asker : Asker
asker = record { pub_ids = λ addr. none; bmd = []; pow = []; pk = ([], tt) }

abbrev recipient : Text
recipient = codes "BM-a@bm.addr"

get_or_request_public_id-NoBroadcast_example :
    let (s', r) =
      get_or_request_public_id stub listed requests parses decodes no_time
        (λ addr. false)
        recipient
        asker in
    NoBroadcast stub listed requests parses decodes no_time s' × (r ≢ fine (known broadcast_id))
get_or_request_public_id-NoBroadcast_example =
    get_or_request_public_id-NoBroadcast stub listed requests parses decodes no_time (λ addr. false)
      recipient asker (λ addr e. absurd (ground arith))

abbrev asked : Asker
asked =
    cache stub listed requests parses decodes no_time (codes "BM-a") (public_id (codes "BM-a"))
      asker

get_or_request_public_id-again_example :
    get_or_request_public_id stub listed requests parses decodes no_time
      (λ addr. false)
      recipient
      asked
    ≡ (asked, fine (known (public_id (codes "BM-a"))))
unfolding get_or_request_public_id look_up get_or_request_public_identity get_identity to_bm
    match_email before_at text_eq
get_or_request_public_id-again_example =
    get_or_request_public_id-again stub listed requests parses decodes no_time (λ addr. false)
      recipient asker asked (public_id (codes "BM-a")) refl

abbrev opened : Decrypted ℕ
opened = record {
  from = codes "BM-a";
  expiration = 5;
  content = encoding2 (codes "Hi") (codes "Hello");
  ack = some (codes "acknowledgement");
}

-- Every message is opened by every key; a broadcast by the address `BM-c` alone.
abbrev ciphers : Ciphering packed
ciphers = record {
  Msg = Text;
  Cast = Text;
  Private = Text;
  Address = Text;
  ack_length = 30;
  message_header_size = 3;
  decode_message = λ t. some t;
  encrypted_length = λ m. 200;
  try_decrypt_message = λ m id. some opened;
  decode_broadcast = λ t. some t;
  broadcast_length = λ b. 200;
  try_decrypt_broadcast = λ b addr. if text_eq addr (codes "BM-c") then some opened else none;
  decode_getpubkey = λ t. none;
  address_string = λ id. id;
  address_ripe = λ id. id;
  address_tag = λ id. id;
  decodes_object = λ t. true;
  inventory_hash = λ t. t;
  encode_pub_key = λ id. none;
  pub_key_target = λ n. n;
}

abbrev Hub : Type 0
Hub = Server packed shelf flags exact_probe stub ciphers

abbrev hub : Hub
hub = record {
  bmd = [];
  msg_counter = 0;
  broadcast_counter = 0;
  getpubkey_counter = 0;
  users = (1, record { private = codes "BM-b"; is_chan = false; disabled = false } ∷ []) ∷ [];
  imap_user = (1, record { boxes = λ name. none; acks = λ hash. none }) ∷ [];
  listened = (codes "BM-d" ∷ codes "BM-c" ∷ []) ∷ [];
  pow = [];
}

new_message-Taken_example :
    Taken packed shelf flags exact_probe stub ciphers 9 7
      (codes "object")
      hub
      (new_message packed shelf flags exact_probe stub ciphers 9 7 (codes "object") hub)
new_message-Taken_example =
    new_message-Taken packed shelf flags exact_probe stub ciphers 9 7 (codes "object") hub
