-- ===== src/Email/Content/Plain.antt =====
-- The body that is found in an email of several parts.
use mathlib.Core.Bool.{true≢false}
use mathlib.Core.List.{Mem, mem-cons_of_mem, mem-cons_self}
use bmagent.Base.{
  ◌≡◌, ◌≢◌, ◌⊎◌, inl, inr, refl, sym, ◌∙◌, List, [], ◌∷◌, Text, codes, text_eq, arith, Bool-cases,
  Option-cases, text_eq_iff,
}
use bmagent.Email.Address.{Error, Result, ok, fail, panic, ◌>>=◌}
use bmagent.Email.Content.{
  Content, lookup, head, get_content_type, is_type, get_plain_body, first_plain_body,
}

>>=-ok :
    {A B : Type 0} (x : Result A) (f : A → Result B) (b : B)
    → (x >>= f) ≡ ok b
    → (a : A) × (f a ≡ ok b)
>>=-ok (ok a) f b h = (a, h)
>>=-ok (fail e) f b h = absurd (ground arith)
>>=-ok panic f b h = absurd (ground arith)

Result-cases :
    {A : Type 0} (x : Result A)
    → ((a : A) × (x ≡ ok a)) ⊎ ((e : Error) × (x ≡ fail e)) ⊎ (x ≡ panic)
Result-cases (ok a) = inl (a, refl)
Result-cases (fail e) = inr (inl (e, refl))
Result-cases panic = inr (inr refl)

later :
    (p : Content) (ps : List Content) (b : Text)
    → (part : Content) × Mem part ps × (part.body ≡ b) × (b ≢ [])
    → (part : Content) × Mem part (p ∷ ps) × (part.body ≡ b) × (b ≢ [])
later p ps b (part, m, e, ne) = (part, mem-cons_of_mem p m, e, ne)

module _ (submatches : Text → List Text) (parts : Content → List Content) where
  get_plain_body-body :
      (part : Content) (b : Text)
      → get_plain_body submatches parts part ≡ ok b
      → (b ≡ []) ⊎ (part.body ≡ b)
  unfolding get_plain_body get_content_type
  get_plain_body-body part b h = elim (Option-cases (lookup (codes "Content-Type") part.headers)) [
    | inl e ↦ absurd (ground arith)
    | inr (ct, e) ↦
        let (first, h1) = >>=-ok (head ct) _ b (rw (e, get_plain_body) at h) in
        let (found, h2) = >>=-ok (get_content_type submatches parts first) _ b h1 in
        elim (Bool-cases (is_type submatches parts (codes "text") (codes "plain") found)) [
          | inl t ↦ inr (ground arith)
          | inr n ↦ inl (ground arith)
        ]
  ]

  -- What the loop over the parts returns is the body of one of them, and it is not empty.
  first_plain_body-part :
      (ps : List Content) (b : Text)
      → first_plain_body submatches parts ps ≡ ok b
      → (part : Content) × Mem part ps × (part.body ≡ b) × (b ≢ [])
  unfolding first_plain_body
  first_plain_body-part [] b h = absurd (ground arith)
  first_plain_body-part (p ∷ ps) b h = elim (Result-cases (get_plain_body submatches parts p)) [
    | inl (c, e) ↦ elim (Bool-cases (text_eq c [])) [
      | inl empty ↦ later p ps b (first_plain_body-part ps b (ground arith))
      | inr full ↦
          let same : c ≡ b = ground arith in
          elim (get_plain_body-body p c e) [
            | inl nil ↦ absurd (true≢false (sym ((text_eq_iff c []).1 nil) ∙ full))
            | inr body ↦ (p, mem-cons_self, body ∙ same, λ nil. ground (arith, text_eq_iff c []))
          ]
    ]
    | inr (inl (x, e)) ↦ later p ps b (first_plain_body-part ps b (ground arith))
    | inr (inr e) ↦ absurd (ground arith)
  ]
