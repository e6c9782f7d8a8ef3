-- ===== src/Cmd/Command.antt =====
-- cmd/help.go, cmd/newaddress.go, cmd/listaddresses.go: the commands, and how parameters are read.
use bmagent.Base.{
  ℕ, Bool, true, false, Option, none, some, List, [], ◌∷◌, if◌then◌else◌, Text, codes, text_eq,
  sort_texts,
}
use bmagent.Cmd.Pattern.{
  unknown_command, invalid_number_of_parameters, Outcome, ok, fail, panic, to_bool, Value,
  bool_value, read_pattern, ◌>>=◌,
}

-- `pow.Data`: nonce trials per byte and extra bytes.
pub record PowData : Type 0 where
  pub nonce_trials_per_byte : ℕ
  pub extra_bytes : ℕ

pub data Command : Type 0 where
  help_command : List Text → Command
  new_address_command : Bool → Option Text → Option PowData → ℕ → ℕ → Command
  list_addresses_command : Command

-- The keys that `init` puts into the map `commands`.
abbrev pub command_names : List Text
command_names =
    codes "help"
    ∷ codes "newaddress"
    ∷ codes "listaddresses"
    ∷ codes "getmessages"
    ∷ codes "deletemessages"
    ∷ codes "sendmessage"
    ∷ codes "subscribe"
    ∷ []

-- `Commands`, the list that the help command prints.
abbrev pub documented_commands : List Text
documented_commands =
    codes "deletemessages"
    ∷ codes "getmessages"
    ∷ codes "help"
    ∷ codes "listaddresses"
    ∷ codes "newaddress"
    ∷ codes "sendmessage"
    ∷ []

unfoldable pub contains : Text → List Text → Bool
contains name [] = false
contains name (n ∷ names) = if text_eq name n then true else contains name names

-- The first parameter that is no command.
unfoldable pub first_unknown : List Text → Option Text
unfolding contains
first_unknown [] = none
first_unknown (p ∷ param) = if contains p command_names then first_unknown param else some p

-- `readHelpCommand`; `sort.Strings` sorts the caller's slice in place, so the parameters after the
-- call are returned beside the result.
unfoldable pub read_help_command : List Text → List Text × Outcome Command
unfolding first_unknown sort_texts
read_help_command param = elim (first_unknown param) [
  | some p ↦ (param, fail (unknown_command p))
  | none ↦ let sorted = sort_texts param in (sorted, ok (help_command sorted))
]

-- `DefaultSendAck`
abbrev pub default_send_ack : Bool
default_send_ack = true

abbrev pub with_ack : Bool → Command
with_ack ack = new_address_command ack none none 4 1

-- The flag that `ReadPattern` read; its list has one element.
abbrev pub read_flag : List Value → Outcome Command
read_flag (bool_value ack ∷ []) = ok (with_ack ack)
read_flag _ = panic

unfoldable pub read_new_address_command : List Text → List Text × Outcome Command
unfolding read_pattern
read_new_address_command [] = ([], ok (with_ack default_send_ack))
read_new_address_command (p ∷ []) = (p ∷ [], read_pattern (p ∷ []) (to_bool ∷ []) >>= read_flag)
read_new_address_command (p ∷ q ∷ param) =
    (p ∷ q ∷ param, fail (invalid_number_of_parameters (p ∷ q ∷ param) 1))

unfoldable pub read_list_addresses_command : List Text → List Text × Outcome Command
read_list_addresses_command [] = ([], ok list_addresses_command)
read_list_addresses_command (p ∷ param) =
    (p ∷ param, fail (invalid_number_of_parameters (p ∷ param) 0))
