-- ===== src/User/Deliver.antt =====
-- user/user.go, user/command.go: emails that come in by SMTP, public keys that come in, and commands.
use bmagent.Base.{
  ℕ, suc, Bool, true, false, not, ◌&&◌, ◌||◌, Option, none, some, List, [], ◌∷◌, if◌then◌else◌,
  Text, codes, text_eq,
}
use bmagent.Email.Address.{ok, fail, panic, is_base58, some_then, match_command}
use bmagent.Email.Content as Email
use bmagent.Email.Content.{lookup}
use bmagent.Email.Smtp as Smtp
use bmagent.Email.Smtp.{new_bitmessage_from_smtp}
use bmagent.Cmd.Run as Cmd
use bmagent.Cmd.Run.{PublicId, Response, Answer, email_command}
use bmagent.Mailbox.Coding.{
  Outcome, fine, refused, stopped, encoding2, Coding, Bmail, decode_bitmessage,
}
use bmagent.Mailbox.Box.{Folders, Flags, Finish}
use bmagent.Mailbox.Box.Changes.{add_new}
use bmagent.User.{set_box, outbox_folder_name}
use bmagent.User.Objects.{Network}
use bmagent.User.Process.{Sender, process}

abbrev pub commands_folder_name : Text
commands_folder_name = codes "Commands"

-- `BitmessageRegex.Match`
unfoldable pub match_address : Text → Bool
unfolding some_then is_base58
match_address (b ∷ m ∷ d ∷ cs) = text_eq (b ∷ m ∷ d ∷ []) (codes "BM-") && some_then is_base58 [] cs
match_address _ = false

-- `strings.Contains`
unfoldable pub begins_with : Text → Text → Bool
begins_with [] s = true
begins_with (a ∷ p) [] = false
begins_with (a ∷ p) (b ∷ s) = text_eq (a ∷ []) (b ∷ []) && begins_with p s

unfoldable pub contains : Text → Text → Bool
unfolding begins_with
contains p [] = begins_with p []
contains p (c ∷ s) = begins_with p (c ∷ s) || contains p s

-- What the commands ask of the keys: `NewUnnamed` with the default stream and a behavior that has the ack
-- bit or not, `Get` of all names, the public identity of a private one, and the text of a response.
pub record CommandKeys (C : Coding) (N : Network C) : Type 0 where
  pub new_unnamed : Bool → N.Keys → N.Keys × N.PrivateId
  pub all_ids : N.Keys → List (N.PrivateId)
  -- `PrivateIDToPublicID`
  pub to_public : N.PrivateId → PublicId
  pub response_text : Response → Text
  -- `strings.Fields`
  pub fields : Text → List Text

-- The times and the MIME parts of the emails.
pub record EmailParsers (Time : Type 0) : Type 0 where
  pub parse_time : Text → Option Time
  pub submatches : Text → List Text
  pub parts : Email.Content → List (Email.Content)

unfoldable pub publics :
    {C : Coding} {N : Network C} → CommandKeys C N → List (N.PrivateId) → List PublicId
publics K [] = []
publics K (id ∷ ids) = K.to_public id ∷ publics K ids

-- The interface of the commands, as `User` implements it.
abbrev pub commander : (C : Coding) (N : Network C) → CommandKeys C N → Cmd.User
commander C N K = record {
  State = N.Keys;
  new_address = λ tag ack keys. let (keys', id) = K.new_unnamed ack keys in (keys', K.to_public id);
  list_addresses = λ keys. publics K (K.all_ids keys);
}

module _ (C : Coding) (N : Network C) (parse_address : Text → Option Text) (decodes : Text → Bool)
    (F : Folders) (X : Flags) (probe : ℕ → ℕ → ℕ → ℕ → ℕ → ℕ) where
  open C use {Time}

  abbrev pub Mailer : Type 0
  Mailer = Sender C N parse_address decodes F X probe

  abbrev pub Message : Type 0
  Message = Bmail Time

  -- `AddNew` of the mailbox of a name, with the message as it is afterwards.
  unfoldable pub add_in : Text → Time → ℕ → Message → Mailer → Mailer × Message × Finish
  unfolding set_box
  add_in name now flags m s = elim (s.user.boxes name) [
    | none ↦ (s, m, stopped)
    | some box ↦
        let (box', m', out) = add_new C F X probe now flags m box in
        (record s { user = set_box C F X probe name box' s.user }, m', out)
  ]

  -- The message of an email.
  unfoldable pub message_of : Smtp.Bmail Time → Message
  message_of b = record {
    from = b.from;
    to = b.to;
    of_channel = false;
    content = encoding2 b.subject b.body;
    ack = none;
    expiration = elim b.expiration [ none ↦ C.zero_time | some t ↦ t ];
    imap_data = none;
    state = some (record {
      pubkey_request_outstanding = false;
      send_tries = 0;
      last_send = C.zero_time;
      ack_expected = b.state.ack_expected;
      ack_received = b.state.ack_received;
      received = b.state.received;
    });
  }

  -- `executeCommand`
  unfoldable pub execute_command :
      CommandKeys C N → Time → Text → Text → Text → Mailer → Mailer × Finish
  unfolding add_in
  execute_command K now from name params s =
      let (keys', answer) =
        email_command (commander C N K) from (codes "command@bm.agent") name (K.fields params)
          s.keys in
      let s' : Mailer = record s { keys = keys' } in
      elim answer [
        | none ↦ (s', stopped)
        | some a ↦
            let m : Message = record {
              from = a.from;
              to = a.to;
              of_channel = false;
              content = encoding2 a.subject (K.response_text a.body);
              ack = none;
              expiration = C.zero_time;
              imap_data = none;
              state = none;
            } in
            let (s2, m', out) = add_in commands_folder_name now X.recent m s' in (s2, out)
      ]

  -- `smtp.Headers["Subject"][0]`; none is a panic.
  unfoldable pub subject_line : Email.Content → Option Text
  unfolding lookup
  subject_line smtp = elim (lookup (codes "Subject") smtp.headers) [
    | none ↦ none
    | some [] ↦ none
    | some (x ∷ xs) ↦ some x
  ]

  -- `DeliverFromSMTP`; an error of `AddNew` is dropped.
  unfoldable pub deliver_from_smtp :
      CommandKeys C N → EmailParsers Time → Time → ℕ → Email.Content → Mailer → Mailer × Finish
  unfolding add_in message_of subject_line match_command
  deliver_from_smtp K P now num smtp s =
      elim (new_bitmessage_from_smtp parse_address P.parse_time P.submatches P.parts smtp) [
        | fail e ↦ (s, refused)
        | panic ↦ (s, stopped)
        | ok b ↦
            if match_command b.to
            then elim (subject_line smtp) [
              | none ↦ (s, stopped)
              | some subject ↦ execute_command K now b.from subject smtp.body s
            ]
            else (let (s', m, out) = add_in outbox_folder_name now X.seen (message_of b) s in
                elim out [
                  | refused ↦ (s', fine tt)
                  | stopped ↦ (s', stopped)
                  | fine x ↦ process C N parse_address decodes F X probe now num m s'
                ])
      ]

  -- Whether a message waits for the key of the address; a nil state panics.
  unfoldable pub awaits : Text → Message → Outcome Bool
  unfolding contains
  awaits bmaddr m = elim m.state [
    | none ↦ stopped
    | some st ↦ fine (st.pubkey_request_outstanding && contains bmaddr m.to)
  ]

  -- The messages of a folder that wait for the key, up to the first error.
  unfoldable pub awaiting : Text → List (ℕ × Text) → Outcome (List Message)
  unfolding awaits
  awaiting bmaddr [] = fine []
  awaiting bmaddr ((id, msg) ∷ entries) =
      let rest = awaiting bmaddr entries in
      elim (decode_bitmessage C msg) [
        | refused ↦ refused
        | stopped ↦ stopped
        | fine (m, o) ↦ elim (awaits bmaddr m) [
          | refused ↦ refused
          | stopped ↦ stopped
          | fine true ↦ elim rest [
            | refused ↦ refused
            | stopped ↦ stopped
            | fine ms ↦ fine (m ∷ ms)
          ]
          | fine false ↦ rest
        ]
      ]

  -- The loop over these messages; each may draw a random number.
  unfoldable pub process_all : Time → (ℕ → ℕ) → List Message → Mailer → Mailer × Finish
  process_all now nums [] s = (s, fine tt)
  process_all now nums (m ∷ ms) s =
      let rest = process_all now (λ i. nums (suc i)) ms in
      let (s', out) = process C N parse_address decodes F X probe now (nums 0) m s in
      elim out [ refused ↦ (s', refused) | stopped ↦ (s', stopped) | fine x ↦ rest s' ]

  -- `DeliverPublic`
  unfoldable pub deliver_public : Time → (ℕ → ℕ) → Text → Mailer → Mailer × Finish
  unfolding match_address awaiting process_all
  deliver_public now nums bmaddr s =
      if not (match_address bmaddr) then (s, refused) else elim (s.user.boxes outbox_folder_name) [
        | none ↦ (s, stopped)
        | some box ↦
            let (entries, ended) = F.visited 0 0 2 box.mbox in
            elim (awaiting bmaddr entries) [
              | refused ↦ (s, refused)
              | stopped ↦ (s, stopped)
              | fine ms ↦ if ended then process_all now nums ms s else (s, refused)
            ]
      ]
