-- ===== src/Email/Address/Trip.antt =====
-- Bitmessage addresses survive the way to an email address and back.
use mathlib.Core.Bool.{true≢false}
use bmagent.Base.{
  ℕ, ◌≡◌, ◌⊎◌, refl, sym, ap, ◌∙◌, Bool, true, false, ◌==◌, Option, some, [], ◌∷◌, ◌++◌, Text,
  codes, text_eq, arith, Bool-cases, inl, inr, text_eq_iff, text_eq_refl,
}
use bmagent.Email.Address.{
  ok, broadcast, at_addr, elem, is_base58, run_then, some_then, match_email, before_at, bm_to_email,
  to_bm, validate_email,
}

-- Every character passes the test.
abbrev pub AllPass : (ℕ → Bool) → Text → Type 0
AllPass p [] = Unit
AllPass p (c ∷ cs) = (p c ≡ true) × AllPass p cs

run_then-all :
    (p : ℕ → Bool) (e : ℕ) (end cs : Text)
    → AllPass p cs
    → p e ≡ false
    → run_then p (e ∷ end) (cs ++ e ∷ end) ≡ true
unfolding run_then
run_then-all p e end [] h out = rw out (text_eq_refl (e ∷ end))
run_then-all p e end (c ∷ cs) h out = rw h.0 (run_then-all p e end cs h.1 out)

base58_not_at : (c : ℕ) → is_base58 c ≡ true → (c == b'@') ≡ false
unfolding is_base58 elem
base58_not_at c h = elim (Bool-cases (c == b'@')) [
  | inr ne ↦ ne
  | inl e ↦ let at : c ≡ b'@' = ground arith in absurd (true≢false (sym h ∙ ap is_base58 at))
]

before_at-all : (cs end : Text) → AllPass is_base58 cs → before_at (cs ++ b'@' ∷ end) ≡ cs
unfolding before_at
before_at-all [] end h = refl
before_at-all (c ∷ cs) end h = rw (base58_not_at c h.0) (ap (λ r. c ∷ r) (before_at-all cs end h.1))

-- A Bitmessage address, BM- and base 58 characters.
abbrev pub bm_address : ℕ → Text → Text
bm_address c cs = b'B' ∷ b'M' ∷ b'-' ∷ c ∷ cs

match_email-bm_address :
    (c : ℕ) (cs : Text)
    → AllPass is_base58 (c ∷ cs)
    → match_email (bm_address c cs ++ at_addr) ≡ true
unfolding match_email some_then text_eq is_base58 elem
match_email-bm_address c cs h = rw h.0 (run_then-all is_base58 b'@' (codes "bm.addr") cs h.1 refl)

before_at-bm_address :
    (c : ℕ) (cs : Text)
    → AllPass is_base58 (c ∷ cs)
    → before_at (bm_address c cs ++ at_addr) ≡ bm_address c cs
unfolding before_at
before_at-bm_address c cs h =
    ap (λ r. b'B' ∷ b'M' ∷ b'-' ∷ r) (before_at-all (c ∷ cs) (codes "bm.addr") h)

not_broadcast : (s : Text) → text_eq (b'B' ∷ s) broadcast ≡ false
unfolding text_eq
not_broadcast s = refl

-- An address of the form BM-, with base 58 characters behind, becomes an email address that is valid
-- and that gives the address back, where the parser of addresses finds an email address in itself
-- and the address decodes.
pub to_bm-bm_to_email :
    (parse_address : Text → Option Text) (decodes : Text → Bool) (c : ℕ) (cs : Text)
    → AllPass is_base58 (c ∷ cs)
    → parse_address (bm_to_email (bm_address c cs)) ≡ some (bm_to_email (bm_address c cs))
    → decodes (bm_address c cs) ≡ true
    → (to_bm parse_address decodes (bm_to_email (bm_address c cs)) ≡ ok (bm_address c cs))
      × (validate_email parse_address (bm_to_email (bm_address c cs)) ≡ true)
unfolding bm_to_email to_bm validate_email
to_bm-bm_to_email parse_address decodes c cs h p d = (
  rw (p, to_bm)
      (rw (not_broadcast _)
        (rw (match_email-bm_address c cs h) (rw (before_at-bm_address c cs h) (rw d refl)))),
  rw (p, validate_email) (rw (match_email-bm_address c cs h) refl),
)

-- What `ToBm` accepts is the broadcast address, for which it returns no address, or an address that
-- `ValidateEmail` accepts and that decodes.
to_bm-cases :
    (parse_address : Text → Option Text) (decodes : Text → Bool) (email bm : Text)
    → to_bm parse_address decodes email ≡ ok bm
    → ((email ≡ broadcast) × (bm ≡ []))
      ⊎ ((decodes bm ≡ true) × (validate_email parse_address email ≡ true))
unfolding to_bm validate_email
to_bm-cases parse_address decodes email bm h = elim (Bool-cases (text_eq email broadcast)) [
  | inl e ↦ inl ((text_eq_iff email broadcast).0 e, ground arith)
  | inr ne ↦ inr (ground arith, ground arith)
]
