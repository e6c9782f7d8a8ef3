-- ===== src/Cmd/Table.antt =====
-- cmd/command.go: the table of commands, and how a command is read. cmd/help.go: the help texts.
use bmagent.Base.{
  ℕ, zero, suc, Option, none, some, List, [], ◌∷◌, ◌++◌, map, if◌then◌else◌, Text, codes, text_eq,
}
use bmagent.Cmd.Pattern.{
  Key, repeated, boolean, natural, string, symbol, unknown_command, unrecognized_pattern, Outcome,
  ok, fail, panic, pattern_string,
}
use bmagent.Cmd.Command.{
  Command, read_help_command, read_new_address_command, read_list_addresses_command,
}

pub record Pattern : Type 0 where
  pub help : Text
  pub key : List Key
  pub read : List Text → List Text × Outcome Command

pub record CommandEntry : Type 0 where
  pub help : Text
  pub patterns : List Pattern

unfoldable pub help_entry : CommandEntry
unfolding read_help_command
help_entry = record {
  help = codes "provides instructions on commands.";
  patterns =
      record {
        key = [];
        help = codes "Print instructions for all commands.";
        read = read_help_command;
      }
      ∷ record {
        key = symbol ∷ repeated ∷ [];
        help = codes "Print instructions for specified commands.";
        read = read_help_command;
      }
      ∷ [];
}

abbrev named_address : List Key → Pattern
named_address key = record {
  key = key;
  help = codes "Create a new named address.";
  read = read_new_address_command;
}

unfoldable pub new_address_entry : CommandEntry
unfolding read_new_address_command
new_address_entry = record {
  help = codes "creates a new address.";
  patterns =
      record {
        key = [];
        help = codes "Create a new unnamed address.";
        read = read_new_address_command;
      }
      ∷ named_address (boolean ∷ [])
      ∷ named_address (boolean ∷ natural ∷ natural ∷ [])
      ∷ named_address (string ∷ [])
      ∷ named_address (string ∷ boolean ∷ [])
      ∷ named_address (string ∷ boolean ∷ natural ∷ natural ∷ [])
      ∷ [];
}

unfoldable pub list_addresses_entry : CommandEntry
unfolding read_list_addresses_command
list_addresses_entry = record {
  help = codes "list all available addresses";
  patterns =
      record {
        key = [];
        help = codes "list all available addresses";
        read = read_list_addresses_command;
      }
      ∷ [];
}

-- `unimplementedStub`
unfoldable pub unimplemented_stub : CommandEntry
unimplemented_stub = record { help = codes "has not yet been implemented."; patterns = [] }

-- The map `commands`, as `init` fills it.
unfoldable pub commands : Text → Option CommandEntry
unfolding help_entry new_address_entry list_addresses_entry unimplemented_stub
commands name =
    if text_eq name (codes "help")
    then some help_entry
    else if text_eq name (codes "newaddress")
    then some new_address_entry
    else if text_eq name (codes "listaddresses")
    then some list_addresses_entry
    else if text_eq name (codes "getmessages")
    then some unimplemented_stub
    else if text_eq name (codes "deletemessages")
    then some unimplemented_stub
    else if text_eq name (codes "sendmessage")
    then some unimplemented_stub
    else if text_eq name (codes "subscribe")
    then some unimplemented_stub
    else none

unfoldable pub recognized_patterns : List Pattern → List (List Key)
recognized_patterns patterns = map (λ p. p.key) patterns

-- The loop over the patterns: the first that reads the parameters. An error leaves the command
-- nil, and the next pattern reads the parameters as this one left them.
unfoldable pub first_match : List Pattern → List Text → List Text × Option (Outcome Command)
first_match [] param = (param, none)
first_match (p ∷ patterns) param =
    let (param', c) = p.read param in
    let rest = first_match patterns param' in
    elim c [
      | ok command ↦ (param', some (ok command))
      | fail e ↦ rest
      | panic ↦ (param', some panic)
    ]

unfoldable pub read_command : Text → List Text → List Text × Outcome Command
unfolding commands first_match recognized_patterns
read_command name param = elim (commands name) [
  | none ↦ (param, fail (unknown_command name))
  | some command ↦
      let (param', c) = first_match command.patterns param in
      elim c [
        | some found ↦ (param', found)
        | none ↦ (param', fail (unrecognized_pattern name (recognized_patterns command.patterns)))
      ]
]

-- `%-14s`
unfoldable pub pad_right : ℕ → Text → Text
pad_right zero s = s
pad_right (suc n) [] = b' ' ∷ pad_right n []
pad_right (suc n) (c ∷ s) = c ∷ pad_right n s

-- `formatHelp` writes the text as it is.
unfoldable pub help_message_short : Text → CommandEntry → Text
unfolding pad_right
help_message_short cmd command = codes "  " ++ pad_right 14 cmd ++ codes " : " ++ command.help

unfoldable pub help_message_pattern : Text → Pattern → Text
unfolding pad_right pattern_string
help_message_pattern cmd pattern =
    codes "  " ++ pad_right 14 cmd ++ codes " " ++ pattern_string pattern.key ++ 10 ∷ pattern.help

unfoldable pub help_patterns : Text → List Pattern → Text
unfolding help_message_pattern
help_patterns cmd [] = []
help_patterns cmd (pat ∷ patterns) = 10 ∷ help_message_pattern cmd pat ++ help_patterns cmd patterns

unfoldable pub help_message_long : Text → CommandEntry → Text
unfolding help_message_short help_patterns
help_message_long cmd command = help_message_short cmd command ++ help_patterns cmd command.patterns
