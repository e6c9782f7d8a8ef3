-- ===== src/Cmd/Laws/NoPanic.antt =====
-- cmd/command.go: reading a command never panics, though the readers index and assert.
use mathlib.Core.Option.{some-ne-none}
use bmagent.Base.{
  Bool, true, false, ◌≡◌, ◌≢◌, inl, inr, sym, subst, Option, some, List, [], ◌∷◌, arith,
  if◌then◌else◌, Text, codes, text_eq, Option-cases,
}
use bmagent.Cmd.Pattern.{Outcome, panic, read_pattern, read_elements, read_element}
use bmagent.Cmd.Command.{
  Command, first_unknown, read_help_command, read_new_address_command, read_list_addresses_command,
}
use bmagent.Cmd.Table.{
  Pattern, CommandEntry, commands, first_match, read_command, help_entry, new_address_entry,
  list_addresses_entry, unimplemented_stub,
}

Safe : (List Text → List Text × Outcome Command) → Type 0
Safe read = (param : List Text) → (read param).1 ≢ panic

help_Safe : Safe read_help_command
unfolding Safe read_help_command
help_Safe param = elim (Option-cases (first_unknown param)) [
  | inl e ↦ rw (e, read_help_command) (λ h. ground arith)
  | inr (p, e) ↦ rw (e, read_help_command) (λ h. ground arith)
]

newaddress_Safe : Safe read_new_address_command
unfolding Safe read_new_address_command read_pattern read_elements read_element
newaddress_Safe [] = λ h. ground arith
newaddress_Safe (p ∷ []) = λ h. ground arith
newaddress_Safe (p ∷ q ∷ param) = λ h. ground arith

listaddresses_Safe : Safe read_list_addresses_command
unfolding Safe read_list_addresses_command
listaddresses_Safe [] = λ h. ground arith
listaddresses_Safe (p ∷ param) = λ h. ground arith

AllSafe : List Pattern → Type 0
AllSafe [] = Unit
AllSafe (p ∷ patterns) = Safe p.read × AllSafe patterns

first_match-no_panic :
    (patterns : List Pattern) (param : List Text)
    → AllSafe patterns
    → (first_match patterns param).1 ≢ some panic
unfolding AllSafe Safe first_match
first_match-no_panic [] param h = λ e. ground arith
first_match-no_panic (p ∷ patterns) param h =
    let IH = first_match-no_panic patterns (p.read param).0 h.1 in
    let this = h.0 param in ground arith

pick :
    (b : Bool) (a : CommandEntry) (rest : Option CommandEntry) (found : CommandEntry)
    → AllSafe a.patterns
    → (rest ≡ some found → AllSafe found.patterns)
    → (if b then some a else rest) ≡ some found
    → AllSafe found.patterns
pick true a rest found safe more e =
    subst (λ (x : CommandEntry). AllSafe x.patterns) {x = a} {y = found} (ground arith) safe
pick false a rest found safe more e = more e

commands-AllSafe :
    (name : Text) (found : CommandEntry) → commands name ≡ some found → AllSafe found.patterns
unfolding commands AllSafe help_entry new_address_entry list_addresses_entry unimplemented_stub
commands-AllSafe name found =
    let new = newaddress_Safe in
    pick (text_eq name (codes "help")) help_entry _ found (help_Safe, (help_Safe, tt))
      (pick (text_eq name (codes "newaddress")) new_address_entry _ found
        (new, (new, (new, (new, (new, (new, tt))))))
        (pick (text_eq name (codes "listaddresses")) list_addresses_entry _ found
          (listaddresses_Safe, tt)
          (pick (text_eq name (codes "getmessages")) unimplemented_stub _ found tt (
            pick (text_eq name (codes "deletemessages")) unimplemented_stub _ found tt (
              pick (text_eq name (codes "sendmessage")) unimplemented_stub _ found tt (
                pick (text_eq name (codes "subscribe")) unimplemented_stub _ found tt
                  (λ e. absurd (some-ne-none _ (sym e)))))))))

-- Reading a command returns a command or an error, whatever the name and the parameters.
pub read_command-no_panic : (name : Text) (param : List Text) → (read_command name param).1 ≢ panic
unfolding read_command
read_command-no_panic name param = elim (Option-cases (commands name)) [
  | inl e ↦ rw (e, read_command) (λ h. ground arith)
  | inr (entry, e) ↦
      let IH = first_match-no_panic entry.patterns param (commands-AllSafe name entry e) in
      rw (e, read_command) (λ h. ground arith)
]
