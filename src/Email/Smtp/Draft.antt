-- ===== src/Email/Smtp/Draft.antt =====
-- What the conversions of an SMTP email lose, and where they panic.
use bmagent.Base.{
  Bool, ◌≡◌, ◌⊎◌, refl, true, false, ◌||◌, ◌==◌, Option, none, some, List, [], ◌∷◌, length, Text,
  codes, text_eq, Bool-cases, Option-cases, inl, inr,
}
use bmagent.Email.Address.{Error, invalid_email, Result, ok, fail, panic, validate_email}
use bmagent.Email.Content.{Content, lookup, get_smtp_body}
use bmagent.Email.Smtp.{
  Bmail, any_values, subject_of, expiration_of, single, draft_to, fill, address_of,
  new_bitmessage_from_smtp, new_bitmessage_draft_from_smtp,
}

-- The recipient of a draft is empty, whatever the header says.
draft_to-empty : (values : Option (List Text)) → draft_to values ≡ ok []
draft_to-empty none = refl
draft_to-empty (some values) = elim (Bool-cases (length values == 1)) [
  | inl e ↦ rw e refl
  | inr ne ↦ rw ne refl
]

module _ {Time : Type 0} (parse_address : Text → Option Text) (parse_time : Text → Option Time)
    (submatches : Text → List Text) (parts : Content → List Content) where
  -- Every conversion of an email to a draft is its conversion with no recipient and no ack expected:
  -- the header To is never read.
  new_bitmessage_draft-to :
      (smtp : Content)
      → new_bitmessage_draft_from_smtp parse_address parse_time submatches parts smtp
        ≡ fill parse_address parse_time submatches parts
            (single (lookup (codes "From") smtp.headers))
            []
            false
            smtp
  unfolding new_bitmessage_draft_from_smtp text_eq
  new_bitmessage_draft-to smtp = rw (draft_to-empty (lookup (codes "To") smtp.headers)) refl

  address_of-none :
      (x : Text)
      → parse_address x ≡ none
      → address_of parse_address parse_time submatches parts x ≡ panic
  unfolding address_of
  address_of-none x e = rw (e, address_of) refl

  address_of-some :
      (x a : Text)
      → parse_address x ≡ some a
      → address_of parse_address parse_time submatches parts x ≡ ok a
  unfolding address_of
  address_of-some x a e = rw (e, address_of) refl

  -- An error or a panic.
  abbrev pub IsBad {ℓ} : {A : Type ℓ} → Result A → Type ℓ
  IsBad r = (r ≡ panic) ⊎ ((x : Error) × (r ≡ fail x))

  -- The three parts that are read of an email.
  abbrev expires : Content → Result (Option Time)
  expires smtp =
      expiration_of parse_address parse_time submatches parts
        (lookup (codes "Expires") smtp.headers)

  abbrev titled : Content → Result Text
  titled smtp = subject_of (lookup (codes "Subject") smtp.headers)

  abbrev read : Content → Result Text
  read smtp = get_smtp_body submatches parts smtp

  -- The message from the one to the other with the three parts, or none where a part is bad.
  abbrev pub Filled : Text → Text → Bool → Content → Result (Bmail Time) → Type 0
  Filled from to ack smtp result =
      ((b : Bmail Time) × (result ≡ ok b)
        × (b.from ≡ from)
        × (b.to ≡ to)
        × (expires smtp ≡ ok b.expiration)
        × (titled smtp ≡ ok b.subject)
        × (read smtp ≡ ok b.body)
        × (b.state.ack_expected ≡ ack)
        × (b.state.ack_received ≡ false)
        × (b.state.received ≡ false))
      ⊎ ((IsBad (expires smtp) ⊎ (IsBad (titled smtp) ⊎ IsBad (read smtp))) × IsBad result)

  Result-cases : {A : Type 0} (r : Result A) → IsBad r ⊎ ((a : A) × (r ≡ ok a))
  Result-cases panic = inl (inl refl)
  Result-cases (fail x) = inl (inr (x, refl))
  Result-cases (ok a) = inr (a, refl)

  fill-Filled :
      (from to : Text) (ack : Bool) (smtp : Content)
      → Filled from to ack smtp (fill parse_address parse_time submatches parts from to ack smtp)
  unfolding fill
  fill-Filled from to ack smtp = elim (Result-cases (expires smtp)) [
    | inl (inl e) ↦ rw (e, fill) (inr (inl (inl refl), inl refl))
    | inl (inr (x, e)) ↦ rw (e, fill) (inr (inl (inr (x, refl)), inr (x, refl)))
    | inr (t, e) ↦ elim (Result-cases (titled smtp)) [
      | inl (inl e1) ↦ rw (e, fill) (rw e1 (inr (inr (inl (inl refl)), inl refl)))
      | inl (inr (x, e1)) ↦ rw (e, fill) (rw e1 (inr (inr (inl (inr (x, refl))), inr (x, refl))))
      | inr (subject, e1) ↦ elim (Result-cases (read smtp)) [
        | inl (inl e2) ↦ rw (e, fill) (rw e1 (rw e2 (inr (inr (inr (inl refl)), inl refl))))
        | inl (inr (x, e2)) ↦
            rw (e, fill) (rw e1 (rw e2 (inr (inr (inr (inr (x, refl))), inr (x, refl)))))
        | inr (body, e2) ↦
            rw (e, fill)
              (rw e1 (rw e2 (inl (_, refl, refl, refl, refl, refl, refl, refl, refl, refl))))
      ]
    ]
  ]

  -- An email with one sender, one recipient, and no value under Cc and Bcc: it is refused if neither
  -- is valid; the server panics if one is valid and the other cannot be parsed; with both parsed and
  -- one of them valid it becomes a message from the one to the other, which expects no ack and has the
  -- expiration, the subject and the body of the email, or an error or a panic where one of these three
  -- cannot be read.
  pub new_bitmessage-cases :
      (smtp : Content) (from to : Text)
      → lookup (codes "To") smtp.headers ≡ some (to ∷ [])
      → lookup (codes "From") smtp.headers ≡ some (from ∷ [])
      → any_values (lookup (codes "Cc") smtp.headers) ≡ false
      → any_values (lookup (codes "Bcc") smtp.headers) ≡ false
      → let result = new_bitmessage_from_smtp parse_address parse_time submatches parts smtp in
        let valid = validate_email parse_address from || validate_email parse_address to in
        ((valid ≡ false) × (result ≡ fail invalid_email))
        ⊎ ((valid ≡ true)
            × ((parse_address from ≡ none) ⊎ (parse_address to ≡ none))
            × (result ≡ panic))
        ⊎ ((valid ≡ true)
            × (f : Text) × (t : Text) × (parse_address from ≡ some f)
            × (parse_address to ≡ some t)
            × Filled f t false smtp result)
  unfolding new_bitmessage_from_smtp
  new_bitmessage-cases smtp from to t f cc bcc =
      rw (t, f, cc, bcc)
        (elim (Bool-cases (validate_email parse_address from || validate_email parse_address to)) [
          | inr v ↦ rw v (inl (refl, refl))
          | inl v ↦ elim (Option-cases (parse_address from)) [
            | inl e ↦ rw (v, address_of-none from e) (inr (inl (refl, inl e, refl)))
            | inr (a, e) ↦ elim (Option-cases (parse_address to)) [
              | inl e' ↦
                  rw (v, address_of-some from a e, address_of-none to e')
                    (inr (inl (refl, inr e', refl)))
              | inr (b, e') ↦
                  rw (v, address_of-some from a e, address_of-some to b e')
                    (inr (inr (refl, a, b, e, e', fill-Filled a b false smtp)))
            ]
          ]
        ])
