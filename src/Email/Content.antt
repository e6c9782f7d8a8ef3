-- ===== src/Email/Content.antt =====
-- user/email/content.go: the plain text of an email.
pub mod Plain
use bmagent.Base.{
  Bool, not, ◌&&◌, Option, none, some, List, [], ◌∷◌, ◌++◌, if◌then◌else◌, Text, codes, text_eq,
}
use bmagent.Email.Address.{Error, message, Result, ok, fail, panic, ◌>>=◌}

-- `data.Content`, as far as it is read; a header that is present may have no values.
pub record Content : Type 0 where
  pub headers : List (Text × List Text)
  pub body : Text

unfoldable pub lookup : Text → List (Text × List Text) → Option (List Text)
lookup k [] = none
lookup k ((j, v) ∷ hs) = if text_eq j k then some v else lookup k hs

-- `x[0]`
abbrev pub head : List Text → Result Text
head [] = panic
head (x ∷ xs) = ok x

abbrev pub unrecognized : Error
unrecognized = message (codes "Unrecognized MIME version")

-- `contentTypeRegex.FindStringSubmatch`, and the parts that `ParseMIMEBody` finds.
module _ (submatches : Text → List Text) (parts : Content → List Content) where
  -- `GetContentType`, without the parameters, which no caller reads.
  unfoldable pub get_content_type : Text → Result (Text × Text)
  get_content_type content_type = elim (submatches content_type) [
    | [] ↦ fail (message (codes "Cannot parse"))
    | whole ∷ ms ↦ elim ms [
      | [] ↦ fail (message (codes "Cannot parse"))
      | content ∷ rest ↦ elim rest [ [] ↦ panic | subtype ∷ params ↦ ok (content, subtype) ]
    ]
  ]

  unfoldable pub is_type : Text → Text → Text × Text → Bool
  is_type content subtype (c, s) = text_eq c content && text_eq s subtype

  -- `getPlainBody`
  unfoldable pub get_plain_body : Content → Result Text
  unfolding lookup get_content_type is_type
  get_plain_body email = elim (lookup (codes "Content-Type") email.headers) [
    | none ↦ fail unrecognized
    | some content_type ↦ do
      first ← head content_type
      found ← get_content_type first
      if is_type (codes "text") (codes "plain") found then ok email.body else ok []
  ]

  -- The loop over the parts, in which an error counts as an empty body.
  unfoldable pub first_plain_body : List Content → Result Text
  unfolding get_plain_body
  first_plain_body [] = fail (message (codes "Couldn't find a text/plain MIME part"))
  first_plain_body (part ∷ ps) =
      let rest = first_plain_body ps in
      elim (get_plain_body part) [
        | ok body ↦ if text_eq body [] then rest else ok body
        | fail e ↦ rest
        | panic ↦ panic
      ]

  -- `GetSMTPBody`
  unfoldable pub get_smtp_body : Content → Result Text
  unfolding lookup get_content_type is_type first_plain_body
  get_smtp_body email = elim (lookup (codes "MIME-Version") email.headers) [
    | none ↦ ok email.body
    | some version ↦ do
      v ← head version
      if not (text_eq v (codes "1.0"))
          then fail unrecognized
          else elim (lookup (codes "Content-Type") email.headers) [
            | none ↦ fail unrecognized
            | some content_type ↦ do
              first ← head content_type
              found ← get_content_type first
              if is_type (codes "text") (codes "plain") found
                  then ok email.body
                  else if is_type (codes "multipart") (codes "alternative") found
                  then first_plain_body (parts email)
                  else fail (
                      message (
                        codes "Unsupported Content-Type: "
                        ++ first
                        ++ codes "; use text/plain instead"))
          ]
  ]
