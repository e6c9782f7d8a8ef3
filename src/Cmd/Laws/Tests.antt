-- ===== src/Cmd/Laws/Tests.antt =====
-- The theorems about the commands at concrete requests and parameters.
use bmagent.Base.{
  ℕ, Bool, true, false, ◌≡◌, ◌≢◌, ◌⊎◌, refl, Option, none, some, List, [], ◌∷◌, arith, Text, codes,
  text_eq,
}
use bmagent.Cmd.Pattern.{Error, message, ok, fail, panic}
use bmagent.Cmd.Command.{PowData, Command, help_command, new_address_command, with_ack, contains}
use bmagent.Cmd.Table.{read_command}
use bmagent.Cmd.Request.{build_new_address_command, rpc_request}
use bmagent.Cmd.Run.{
  PublicId, User, error_response, execute, bm_agent_request, Answer, email_command,
}
use bmagent.Cmd.Laws.Reading.{AllKnown}
use bmagent.Cmd.Laws.Requests.{build_new_address_command-pow, email_command-answers}

-- A user that remembers the labels of its addresses.
abbrev address : Text → PublicId
address label = record {
  address = codes "BM-1";
  behavior = 0;
  pow = record { nonce_trials_per_byte = 1000; extra_bytes = 1000 };
  label = label;
}

abbrev labels : User
labels = record {
  State = List PublicId;
  new_address = λ label ack us. (address label ∷ us, address label);
  list_addresses = λ us. us;
}

abbrev names : List Text
names = codes "newaddress" ∷ codes "help" ∷ []

names-AllKnown : AllKnown names
unfolding contains text_eq
names-AllKnown = (refl, (refl, tt))

-- The names are sorted as they are read.
names_read :
    (read_command (codes "help") names).1
    ≡ ok (help_command (codes "help" ∷ codes "newaddress" ∷ []))
unfolding read_command text_eq
names_read = refl

not_true : codes "no" ≢ codes "true"
not_true e = ground arith

not_false : codes "no" ≢ codes "false"
not_false e = ground arith

build_new_address_command-pow_example :
    let build = λ (trials extra_bytes : Option ℕ). build_new_address_command (record {
      version = some 1;
      address_version = some 4;
      stream = none;
      label = none;
      ack = some false;
      nonce_trials_per_byte = trials;
      extra_bytes = extra_bytes;
    }) in
    let zeros : PowData = record { nonce_trials_per_byte = 0; extra_bytes = 0 } in
    (build (some 1000) (some 2000)
      ≡ fail (message (codes "Must provide both nonce trials per byte and extra bytes.")))
    × (build (some 1000) none ≡ panic)
    × ((a : Bool) × (build none (some 2000) ≡ ok (new_address_command a none (some zeros) 4 1)))
build_new_address_command-pow_example =
    build_new_address_command-pow (some 1) (some 4) none none (some false) 1000 2000 (some 2000)
      refl refl

-- A request for a new address is executed by a server that runs.
new_address_requested :
    (bm_agent_request labels true (some (rpc_request (with_ack true))) []).0 ≡ address [] ∷ []
unfolding bm_agent_request rpc_request
new_address_requested = refl

email_command-answers_example :
    (a : Answer) × ((email_command labels (codes "a") (codes "b") (codes "help") names []).1
      ≡ some a)
    × (a.from ≡ codes "b")
    × (a.to ≡ codes "a")
    × (((c : Command) × ((read_command (codes "help") names).1 ≡ ok c)
          × (a.body ≡ (execute labels c []).1)
          × ((email_command labels (codes "a") (codes "b") (codes "help") names []).0
              ≡ (execute labels c []).0))
        ⊎ ((x : Error) × ((read_command (codes "help") names).1 ≡ fail x)
            × (a.body ≡ error_response x)
            × ((email_command labels (codes "a") (codes "b") (codes "help") names []).0 ≡ [])))
email_command-answers_example =
    email_command-answers labels (codes "a") (codes "b") (codes "help") names []
