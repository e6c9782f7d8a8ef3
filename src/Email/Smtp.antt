-- ===== src/Email/Smtp.antt =====
-- user/email/bmail.go: an email that comes by SMTP becomes a Bitmessage.
pub mod Draft
mod Tests
use bmagent.Base.{
  ℕ, Bool, true, false, not, ◌&&◌, ◌||◌, ◌==◌, Option, none, some, List, [], ◌∷◌, ◌++◌, length, ltb,
  if◌then◌else◌, Text, codes, text_eq,
}
use bmagent.Email.Address.{
  Error, message, invalid_email, unparsable, Result, ok, fail, panic, ◌>>=◌, validate_email,
}
use bmagent.Email.Content.{Content, lookup, head, get_smtp_body}

-- `MessageState`, without its times and counters, which are zero here.
pub record MessageState : Type 0 where
  pub ack_expected : Bool
  pub ack_received : Bool
  pub received : Bool

abbrev fresh_state : Bool → MessageState
fresh_state ack = record { ack_expected = ack; ack_received = false; received = false }

-- `Bmail`, as far as the conversion fills it; an expiration that is not set is none.
pub record Bmail (Time : Type 0) : Type 0 where
  pub from : Text
  pub to : Text
  pub expiration : Option Time
  pub subject : Text
  pub body : Text
  pub state : MessageState

abbrev one_of : Error → Error → Option (List Text) → Result Text
one_of missing many none = fail missing
one_of missing many (some []) = fail many
one_of missing many (some (x ∷ [])) = ok x
one_of missing many (some (x ∷ y ∷ xs)) = fail many

-- `ok && len(x) > 0`
abbrev any_values : Option (List Text) → Bool
any_values none = false
any_values (some []) = false
any_values (some (x ∷ xs)) = true

abbrev subject_of : Option (List Text) → Result Text
subject_of none = ok []
subject_of (some values) = head values

-- A header that is taken only if it has exactly one value.
abbrev single : Option (List Text) → Text
single none = []
single (some []) = []
single (some (x ∷ [])) = x
single (some (x ∷ y ∷ xs)) = []

-- `if !ok || len(toList) != 1 { to = "" } else if len(toList) != 1 { to = toList[0] }`
abbrev draft_to : Option (List Text) → Result Text
draft_to none = ok []
draft_to (some values) =
    if not (length values == 1)
    then ok []
    else if not (length values == 1)
    then head values
    else ok []

module _ {Time : Type 0} (parse_address : Text → Option Text) (parse_time : Text → Option Time)
    (submatches : Text → List Text) (parts : Content → List Content) where
  unfoldable pub expiration_of : Option (List Text) → Result (Option Time)
  expiration_of none = ok none
  expiration_of (some values) = do
    first ← head values
    elim (parse_time first) [ none ↦ fail unparsable | some t ↦ ok (some t) ]

  -- `addr, _ := mail.ParseAddress(x)`, and `addr.Address`: a nil pointer on an error.
  unfoldable pub address_of : Text → Result Text
  address_of x = elim (parse_address x) [ none ↦ panic | some a ↦ ok a ]

  -- The expiration, the subject and the body, which both conversions read alike.
  unfoldable pub fill : Text → Text → Bool → Content → Result (Bmail Time)
  unfolding expiration_of lookup get_smtp_body
  fill from to ack smtp = do
    expiration ← expiration_of (lookup (codes "Expires") smtp.headers)
    subject ← subject_of (lookup (codes "Subject") smtp.headers)
    body ← get_smtp_body submatches parts smtp
    ok (record {
      from = from;
      to = to;
      expiration = expiration;
      subject = subject;
      body = body;
      state = fresh_state ack;
    })

  -- `NewBitmessageFromSMTP`
  unfoldable pub new_bitmessage_from_smtp : Content → Result (Bmail Time)
  unfolding lookup validate_email address_of fill
  new_bitmessage_from_smtp smtp = do
    to ←
        one_of (message (codes "Invalid headers: To field is required"))
          (message (codes "Invalid headers: only one To field is allowed."))
          (lookup (codes "To") smtp.headers)
    from ←
        one_of (message (codes "Invalid headers: From field is required"))
          (message (codes "Invalid headers: only one From field is allowed."))
          (lookup (codes "From") smtp.headers)
    if not (validate_email parse_address from || validate_email parse_address to)
        then fail invalid_email
        else do
          from_addr ← address_of from
          to_addr ← address_of to
          if any_values (lookup (codes "Cc") smtp.headers)
                || any_values (lookup (codes "Bcc") smtp.headers)
              then fail (message (codes "Invalid headers: do not use CC or BCC with Bitmessage"))
              else fill from_addr to_addr false smtp

  -- `NewBitmessageDraftFromSMTP`
  unfoldable pub new_bitmessage_draft_from_smtp : Content → Result (Bmail Time)
  unfolding lookup fill
  new_bitmessage_draft_from_smtp smtp = do
    to ← draft_to (lookup (codes "To") smtp.headers)
    fill (single (lookup (codes "From") smtp.headers)) to (not (text_eq to [])) smtp
