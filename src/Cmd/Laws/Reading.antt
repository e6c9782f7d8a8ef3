-- ===== src/Cmd/Laws/Reading.antt =====
-- cmd/command.go: what `ReadCommand` accepts.
use mathlib.Core.Option.{some-ne-none}
use bmagent.Base.{
  text_eq-false, ap, ◌∙◌, IsSortedTexts, sort_texts-IsSorted, sort_texts-perm, true, false, ◌≡◌,
  ◌≢◌, ◌⊎◌, inl, inr, refl, sym, none, some, List, [], ◌∷◌, Text, codes, text_eq, sort_texts,
  Bool-cases, Option-cases,
}
use mathlib.Core.List.{Perm}
use bmagent.Cmd.Pattern.{
  Error, unknown_command, unrecognized_pattern, invalid_boolean, Outcome, ok, fail, read_pattern,
  read_elements, read_element,
}
use bmagent.Cmd.Command.{
  Command, help_command, with_ack, command_names, contains, first_unknown, read_help_command,
  read_new_address_command,
}
use bmagent.Cmd.Table.{
  Pattern, CommandEntry, commands, first_match, read_command, recognized_patterns, help_entry,
  new_address_entry,
}

abbrev pub AllKnown : List Text → Type 0
AllKnown [] = Unit
AllKnown (p ∷ param) = (contains p command_names ≡ true) × AllKnown param

pub first_unknown-none : (param : List Text) → AllKnown param → first_unknown param ≡ none
unfolding first_unknown
first_unknown-none [] h = refl
first_unknown-none (p ∷ param) h = rw (h.0, first_unknown) (first_unknown-none param h.1)

AllKnown-of_none : (param : List Text) → first_unknown param ≡ none → AllKnown param
unfolding first_unknown
AllKnown-of_none [] h = tt
AllKnown-of_none (p ∷ param) h = elim (Bool-cases (contains p command_names)) [
  | inl k ↦ (k, AllKnown-of_none param (rw (k, first_unknown) at h))
  | inr u ↦ absurd (some-ne-none _ (rw (u, first_unknown) at h))
]

-- The help command reads every list of known names, in sorted order.
commands-help : commands (codes "help") ≡ some help_entry
unfolding commands text_eq
commands-help = refl

-- The loop over the patterns, a pattern at a time, and what `ReadCommand` makes of its result.
module _ (p : Pattern) (patterns : List Pattern) (param param' : List Text) where
  first_match_hit :
      (c : Command)
      → p.read param ≡ (param', ok c)
      → first_match (p ∷ patterns) param ≡ (param', some (ok c))
  unfolding first_match
  first_match_hit c e = rw (ap (λ r. r.1) e, first_match) (rw (ap (λ r. r.0) e))

  first_match_skip :
      (x : Error)
      → p.read param ≡ (param', fail x)
      → first_match (p ∷ patterns) param ≡ first_match patterns param'
  unfolding first_match
  first_match_skip x e = rw (ap (λ r. r.1) e, first_match) (rw (ap (λ r. r.0) e))

first_match_end : (param : List Text) → first_match [] param ≡ (param, none)
unfolding first_match
first_match_end param = refl

module _ (name : Text) (entry : CommandEntry) (param param' : List Text)
    (found : commands name ≡ some entry) where
  read_command_hit :
      (c : Outcome Command)
      → first_match entry.patterns param ≡ (param', some c)
      → read_command name param ≡ (param', c)
  unfolding read_command
  read_command_hit c e =
      rw (found, read_command) (rw (ap (λ r. r.1) e, read_command) (rw (ap (λ r. r.0) e)))

  read_command_miss :
      first_match entry.patterns param ≡ (param', none)
      → read_command name param
        ≡ (param', fail (unrecognized_pattern name (recognized_patterns entry.patterns)))
  unfolding read_command
  read_command_miss e =
      rw (found, read_command) (rw (ap (λ r. r.1) e, read_command) (rw (ap (λ r. r.0) e)))

help_known :
    (param : List Text)
    → first_unknown param ≡ none
    → read_help_command param ≡ (sort_texts param, ok (help_command (sort_texts param)))
unfolding read_help_command
help_known param e = rw (e, read_help_command)

help_unknown :
    (param : List Text) (p : Text)
    → first_unknown param ≡ some p
    → read_help_command param ≡ (param, fail (unknown_command p))
unfolding read_help_command
help_unknown param p e = rw (e, read_help_command)

help_read :
    (param : List Text)
    → first_unknown param ≡ none
    → read_command (codes "help") param ≡ (sort_texts param, ok (help_command (sort_texts param)))
unfolding help_entry
help_read param e =
    read_command_hit (codes "help") help_entry param (sort_texts param) commands-help
      (ok (help_command (sort_texts param)))
      (first_match_hit _ _ param (sort_texts param) (help_command (sort_texts param))
        (help_known param e))

help_unread :
    (param : List Text) (p : Text)
    → first_unknown param ≡ some p
    → read_command (codes "help") param ≡ (
      param,
      fail (unrecognized_pattern (codes "help") (recognized_patterns help_entry.patterns)),
    )
unfolding help_entry
help_unread param p e = read_command_miss (codes "help") help_entry param param commands-help (
    first_match_skip _ _ param param (unknown_command p) (help_unknown param p e)
    ∙ first_match_skip _ _ param param (unknown_command p) (help_unknown param p e)
    ∙ first_match_end param)

-- `help` reads exactly the lists of names in the table; the command and the caller's parameters
-- are then the same names in order.
read_command-help :
    (param : List Text)
    → let (param', c) = read_command (codes "help") param in
      (AllKnown param × (c ≡ ok (help_command param')) × IsSortedTexts param' × Perm param' param)
      ⊎ (¬ AllKnown param
          × (c
              ≡ fail
                  (unrecognized_pattern (codes "help") (recognized_patterns help_entry.patterns)))
          × (param' ≡ param))
read_command-help param = elim (Option-cases (first_unknown param)) [
  | inl e ↦
      rw (help_read param e)
        (inl (AllKnown-of_none param e, refl, sort_texts-IsSorted param, sort_texts-perm param))
  | inr (p, e) ↦
      rw (help_unread param p e)
        (inr (λ h. some-ne-none _ (sym e ∙ first_unknown-none param h), refl, refl))
]

flag_unread :
    (p : Text)
    → p ≢ codes "true"
    → p ≢ codes "false"
    → read_new_address_command (p ∷ []) ≡ (p ∷ [], fail invalid_boolean)
unfolding read_new_address_command read_pattern read_elements read_element
flag_unread p t f =
    rw (text_eq-false p (codes "true") t) (rw (text_eq-false p (codes "false") f) refl)

commands-newaddress : commands (codes "newaddress") ≡ some new_address_entry
unfolding commands text_eq
commands-newaddress = refl

newaddress_unread :
    (p : Text)
    → p ≢ codes "true"
    → p ≢ codes "false"
    → (read_command (codes "newaddress") (p ∷ [])).1
      ≡ fail (
          unrecognized_pattern
            (codes "newaddress")
            (recognized_patterns new_address_entry.patterns))
unfolding new_address_entry
newaddress_unread p t f =
    let skip =
      λ (pat : Pattern) (pats : List Pattern)
          (e : pat.read (p ∷ []) ≡ (p ∷ [], fail invalid_boolean)).
        first_match_skip pat pats (p ∷ []) (p ∷ []) invalid_boolean e in
    let no = flag_unread p t f in
    ap (λ (r : List Text × Outcome Command). r.1)
      (read_command_miss (codes "newaddress") new_address_entry (p ∷ []) (p ∷ [])
        commands-newaddress
        (skip _ _ no
          ∙ skip _ _ no
          ∙ skip _ _ no
          ∙ skip _ _ no
          ∙ skip _ _ no
          ∙ skip _ _ no
          ∙ first_match_end (p ∷ [])))

-- `newaddress` reads no parameters, `true` and `false`; it refuses every other single
-- parameter, and two or more parameters whatever they are, though the patterns of its help have
-- such lists.
read_command-newaddress :
    (param : List Text) (p q : Text)
    → p ≢ codes "true"
    → p ≢ codes "false"
    → let read = λ (ps : List Text). (read_command (codes "newaddress") ps).1 in
      let refused : Outcome Command = fail (
        unrecognized_pattern
          (codes "newaddress")
          (recognized_patterns new_address_entry.patterns)) in
      (read [] ≡ ok (with_ack true))
      × (read (codes "true" ∷ []) ≡ ok (with_ack true))
      × (read (codes "false" ∷ []) ≡ ok (with_ack false))
      × (read (p ∷ []) ≡ refused)
      × (read (p ∷ q ∷ param) ≡ refused)
unfolding read_command text_eq read_new_address_command
read_command-newaddress param p q t f = (refl, refl, refl, newaddress_unread p t f, refl)
