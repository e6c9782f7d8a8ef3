-- ===== src/Email/Smtp/Tests.antt =====
-- The theorems about emails at concrete addresses and emails.
use bmagent.Base.{
  ℕ, ◌≡◌, ◌⊎◌, refl, Bool, true, false, ◌||◌, Option, none, some, List, [], ◌∷◌, Text, codes,
  text_eq,
}
use bmagent.Email.Address.{
  invalid_email, ok, fail, panic, is_base58, elem, bm_to_email, to_bm, validate_email,
}
use bmagent.Email.Address.Trip.{AllPass, bm_address, to_bm-bm_to_email}
use bmagent.Email.Content.{Content, lookup}
use bmagent.Email.Smtp.{new_bitmessage_from_smtp}
use bmagent.Email.Smtp.Draft.{new_bitmessage-cases, Filled}

-- The parser takes every text but the empty one as it is.
abbrev parse : Text → Option Text
parse [] = none
parse (c ∷ cs) = some (c ∷ cs)

abbrev decodes : Text → Bool
decodes s = true

abbrev time_of : Text → Option ℕ
time_of s = none

abbrev no_submatches : Text → List Text
no_submatches s = []

abbrev no_parts : Content → List Content
no_parts c = []

one_passes : AllPass is_base58 (b'1' ∷ b'a' ∷ [])
unfolding is_base58 elem
one_passes = (refl, (refl, tt))

to_bm-bm_to_email_example :
    (to_bm parse decodes (bm_to_email (bm_address b'1' (b'a' ∷ [])))
      ≡ ok (bm_address b'1' (b'a' ∷ [])))
    × (validate_email parse (bm_to_email (bm_address b'1' (b'a' ∷ []))) ≡ true)
unfolding bm_to_email
to_bm-bm_to_email_example = to_bm-bm_to_email parse decodes b'1' (b'a' ∷ []) one_passes refl refl

abbrev letter : Text → Content
letter from = record {
  headers = (codes "To", codes "BM-1@bm.addr" ∷ []) ∷ (codes "From", from ∷ []) ∷ [];
  body = codes "hello";
}

-- A valid recipient and a sender that cannot be parsed.
letter_panics : new_bitmessage_from_smtp parse time_of no_submatches no_parts (letter []) ≡ panic
unfolding new_bitmessage_from_smtp text_eq
letter_panics = refl

new_bitmessage-cases_example :
    let result = new_bitmessage_from_smtp parse time_of no_submatches no_parts (letter []) in
    let valid = validate_email parse [] || validate_email parse (codes "BM-1@bm.addr") in
    ((valid ≡ false) × (result ≡ fail invalid_email))
    ⊎ ((valid ≡ true)
        × ((parse [] ≡ none) ⊎ (parse (codes "BM-1@bm.addr") ≡ none))
        × (result ≡ panic))
    ⊎ ((valid ≡ true)
        × (f : Text) × (t : Text) × (parse [] ≡ some f)
        × (parse (codes "BM-1@bm.addr") ≡ some t)
        × Filled parse time_of no_submatches no_parts f t false (letter []) result)
unfolding lookup text_eq
new_bitmessage-cases_example =
    new_bitmessage-cases parse time_of no_submatches no_parts (letter []) [] (codes "BM-1@bm.addr")
      refl refl refl refl

-- The match of a type of text, whatever it is.
abbrev text_plain : Text → List Text
text_plain s = s ∷ codes "text" ∷ codes "plain" ∷ []

abbrev two_parts : List Content
two_parts =
    record { headers = []; body = codes "no type" }
    ∷ record {
      headers = (codes "Content-Type", codes "text/plain" ∷ []) ∷ [];
      body = codes "hello";
    }
    ∷ []
