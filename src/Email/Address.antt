-- ===== src/Email/Address.antt =====
-- user/email/bmail.go: email addresses that stand for Bitmessage addresses and for commands.
pub mod Trip
use bmagent.Base.{
  ℕ, Bool, true, false, not, ◌&&◌, ◌||◌, ◌==◌, Option, none, some, List, [], ◌∷◌, ◌++◌, ltb, leb,
  if◌then◌else◌, Text, codes, text_eq,
}

pub data Error : Type 0 where
  invalid_email unparsable : Error
  message : Text → Error

-- What a function returns: a value, an error, or a panic.
pub data Result {ℓ} (A : Type ℓ) : Type ℓ where
  ok : A → Result A
  fail : Error → Result A
  panic : Result A

infixl 5 ◌>>=◌
abbrev pub ◌>>=◌ {ℓ κ} : {A : Type ℓ} {B : Type κ} → Result A → (A → Result B) → Result B
ok a >>= f = f a
fail e >>= f = fail e
panic >>= f = panic

abbrev pub broadcast : Text
broadcast = codes "broadcast@bm.addr"

abbrev pub at_addr : Text
at_addr = codes "@bm.addr"

abbrev pub at_agent : Text
at_agent = codes "@bm.agent"

unfoldable pub elem : ℕ → Text → Bool
elem c [] = false
elem c (d ∷ ds) = c == d || elem c ds

-- The characters of `bmAddrPattern` after BM-, and of `commandPattern`.
unfoldable pub is_base58 : ℕ → Bool
unfolding elem
is_base58 c = elem c (codes "123456789abcdefghijkmnopqrstuvwxyzABCDEFGHJKLMNPQRSTUVWXYZ")

unfoldable pub is_lower : ℕ → Bool
is_lower c = leb b'a' c && leb c b'z'

-- Characters of the class, as many as there are, and then exactly the given end. The end starts with
-- a character that is not of the class, so that nothing is gained by fewer.
unfoldable pub run_then : (ℕ → Bool) → Text → Text → Bool
run_then p end [] = text_eq [] end
run_then p end (c ∷ cs) = let more = run_then p end cs in if p c then more else text_eq (c ∷ cs) end

unfoldable pub some_then : (ℕ → Bool) → Text → Text → Bool
unfolding run_then
some_then p end [] = false
some_then p end (c ∷ cs) = p c && run_then p end cs

-- `emailRegex.Match` and `CommandRegex.Match`; an address pattern that is not anchored at an end.
unfoldable pub match_email : Text → Bool
unfolding some_then is_base58
match_email (b ∷ m ∷ d ∷ cs) =
    text_eq (b ∷ m ∷ d ∷ []) (codes "BM-") && some_then is_base58 at_addr cs
match_email _ = false

unfoldable pub match_command : Text → Bool
unfolding some_then is_lower
match_command cs = some_then is_lower at_agent cs

-- `strings.Split(s, "@")[0]`
unfoldable pub before_at : Text → Text
before_at [] = []
before_at (c ∷ cs) = let rest = before_at cs in if c == b'@' then [] else c ∷ rest

-- `BmToEmail`
unfoldable pub bm_to_email : Text → Text
bm_to_email [] = broadcast
bm_to_email (c ∷ cs) = (c ∷ cs) ++ at_addr

-- `mail.ParseAddress`, with the address that it finds, and whether `bmutil.DecodeAddress` succeeds.
module _ (parse_address : Text → Option Text) (decodes : Text → Bool) where
  -- `ToBm`
  unfoldable pub to_bm : Text → Result Text
  unfolding match_email before_at
  to_bm email_addr = elim (parse_address email_addr) [
    | none ↦ fail unparsable
    | some addr ↦
        if text_eq email_addr broadcast
        then ok []
        else if not (match_email addr)
        then fail invalid_email
        else if not (decodes (before_at addr))
        then fail invalid_email
        else ok (before_at addr)
  ]

-- `ValidateEmail`
module _ (parse_address : Text → Option Text) where
  unfoldable pub validate_email : Text → Bool
  unfolding match_email match_command
  validate_email to = elim (parse_address to) [
    | none ↦ false
    | some addr ↦ match_email addr || match_command addr
  ]
