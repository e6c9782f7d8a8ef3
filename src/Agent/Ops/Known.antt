-- ===== src/Agent/Ops/Known.antt =====
-- Which identities `GetOrRequestPublicID` returns.
use mathlib.Core.Bool.{true≢false}
use bmagent.Base.{
  ◌≡◌, ◌≢◌, ◌⊎◌, inl, inr, refl, sym, ap, subst, ◌∙◌, Bool, false, Option, some, [], ◌∷◌, Text,
  text_eq, text_eq_refl, text_eq-false, arith, Bool-cases, Option-cases,
}
use bmagent.Email.Address.{Error, Result, ok, fail, panic, to_bm, broadcast, before_at, elem}
use bmagent.Store.Bucket.{Buckets}
use bmagent.Mailbox.Coding.{Outcome, fine, stopped}
use bmagent.User.Objects.{Answer, known, get_pub_key_sent, unanswered}
use bmagent.Agent.Client.{Stub}
use bmagent.Agent.Ops.{
  Public, broadcast_id, public_id, Requests, Ops, Given, given, requested, not_given, crash,
  get_or_request_public_identity, cache, look_up, get_or_request_public_id,
}

-- What stands before an @ has none.
before_at-plain : (s : Text) → elem b'@' (before_at s) ≡ false
unfolding elem before_at
before_at-plain [] = refl
before_at-plain (c ∷ cs) = ground (arith, before_at-plain cs)

not_broadcast : (s : Text) → text_eq (before_at s) broadcast ≡ false
unfolding elem
not_broadcast s =
    text_eq-false (before_at s) broadcast
      (λ e. true≢false (sym (ap (elem b'@') e) ∙ before_at-plain s))

Result-cases :
    (r : Result Text)
    → ((r ≡ panic) ⊎ ((x : Error) × (r ≡ fail x))) ⊎ ((addr : Text) × (r ≡ ok addr))
Result-cases panic = inl (inl refl)
Result-cases (fail x) = inl (inr (x, refl))
Result-cases (ok addr) = inr (addr, refl)

-- `ToBm` never returns the address that stands for a broadcast.
to_bm-plain :
    (parse_address : Text → Option Text) (decodes : Text → Bool) (email addr : Text)
    → to_bm parse_address decodes email ≡ ok addr
    → text_eq addr broadcast ≡ false
unfolding to_bm text_eq
to_bm-plain parse_address decodes email addr e = elim (Option-cases (parse_address email)) [
  | inl bad ↦ absurd (ground arith)
  | inr (found, parsed) ↦ elim (Bool-cases (text_eq email broadcast)) [
    | inl same ↦
        let empty : [] ≡ addr = ground arith in
        subst (λ (t : Text). text_eq t broadcast ≡ false) empty refl
    | inr other ↦
        let front : before_at found ≡ addr = ground arith in
        subst (λ (t : Text). text_eq t broadcast ≡ false) front (not_broadcast found)
  ]
]

module _ (S : Stub) (B : Buckets) (R : Requests S) (parse_address : Text → Option Text)
    (decodes : Text → Bool) {Time : Type 0} (unmarshal : Text → Option Time) where
  abbrev Server : Type 0
  Server = Ops S B R parse_address decodes unmarshal

  -- The broadcast identity is not in the cache.
  abbrev pub NoBroadcast : Server → Type 0
  NoBroadcast s = (addr : Text) → s.pub_ids addr ≢ some broadcast_id

  Given-cases :
      (r : Given S B R parse_address decodes unmarshal)
      → ((id : S.Identity) × (r ≡ given id)) ⊎ ((r ≡ requested) ⊎ ((r ≡ not_given) ⊎ (r ≡ crash)))
  Given-cases (given id) = inl (id, refl)
  Given-cases requested = inr (inl refl)
  Given-cases not_given = inr (inr (inl refl))
  Given-cases crash = inr (inr (inr refl))

  -- The request of an identity leaves the cache as it is.
  asked_cache :
      (addr : Text) (s : Server)
      → (get_or_request_public_identity S B R parse_address decodes unmarshal addr s).0.pub_ids
        ≡ s.pub_ids
  unfolding get_or_request_public_identity
  asked_cache addr s = ground arith

  after_answer :
      (addr : Text) (s s' : Server) (r : Given S B R parse_address decodes unmarshal)
      → s'.pub_ids ≡ s.pub_ids
      → NoBroadcast s
      → let (s2, out) : Server × Outcome (Answer (Public S.Identity)) = elim r [
        | not_given ↦ (s', fine unanswered)
        | crash ↦ (s', stopped)
        | requested ↦ (s', fine get_pub_key_sent)
        | given id ↦ (
          cache S B R parse_address decodes unmarshal addr (public_id id) s',
          fine (known (public_id id)),
        )
      ] in
        NoBroadcast s2 × (out ≢ fine (known broadcast_id))
  unfolding cache
  after_answer addr s s' not_given same h = (
    λ a e. h a (ap (λ (f : Text → Option (Public S.Identity)). f a) (sym same) ∙ e),
    λ e. ground arith,
  )
  after_answer addr s s' crash same h = (
    λ a e. h a (ap (λ (f : Text → Option (Public S.Identity)). f a) (sym same) ∙ e),
    λ e. ground arith,
  )
  after_answer addr s s' requested same h = (
    λ a e. h a (ap (λ (f : Text → Option (Public S.Identity)). f a) (sym same) ∙ e),
    λ e. ground arith,
  )
  after_answer addr s s' (given id) same h = (
    λ a e. elim (Bool-cases (text_eq addr a)) [
      | inl t ↦ ground arith
      | inr f ↦ h a (ap (λ (g : Text → Option (Public S.Identity)). g a) (sym same) ∙ ground arith)
    ],
    λ e. ground arith,
  )

  look_up-NoBroadcast :
      (private : Text → Bool) (addr : Text) (s : Server)
      → text_eq addr broadcast ≡ false
      → NoBroadcast s
      → let (s', r) = look_up S B R parse_address decodes unmarshal private addr s in
        NoBroadcast s' × (r ≢ fine (known broadcast_id))
  unfolding look_up
  look_up-NoBroadcast private addr s plain none_there = elim (Option-cases (s.pub_ids addr)) [
    | inr (id, e) ↦
        rw (plain, look_up) (rw e (none_there, λ e'. none_there addr (e ∙ ground arith)))
    | inl e ↦ elim (Bool-cases (private addr)) [
      | inl own ↦ rw (plain, look_up) (rw e (rw own (none_there, λ e'. ground arith)))
      | inr other ↦
          let (s', r) =
            get_or_request_public_identity S B R parse_address decodes unmarshal addr s in
          rw (plain, look_up)
            (rw e (rw other (after_answer addr s s' r (asked_cache addr s) none_there)))
    ]
  ]

  -- Where the broadcast identity is not in the cache, it is never the answer, not for the address of
  -- broadcasts either, and it does not come into the cache.
  pub get_or_request_public_id-NoBroadcast :
      (private : Text → Bool) (email : Text) (s : Server)
      → NoBroadcast s
      → let (s', r) =
          get_or_request_public_id S B R parse_address decodes unmarshal private email s in
        NoBroadcast s' × (r ≢ fine (known broadcast_id))
  unfolding get_or_request_public_id
  get_or_request_public_id-NoBroadcast private email s h =
      elim (Result-cases (to_bm parse_address decodes email)) [
        | inl (inl e) ↦ rw (e, get_or_request_public_id) (h, λ e'. ground arith)
        | inl (inr (x, e)) ↦ rw (e, get_or_request_public_id) (h, λ e'. ground arith)
        | inr (addr, e) ↦
            rw (e, get_or_request_public_id)
              (look_up-NoBroadcast private addr s (to_bm-plain parse_address decodes email addr e)
                h)
      ]

  abbrev Out : Type 0
  Out = Server × Outcome (Answer (Public S.Identity))

  look_up-cached :
      (private : Text → Bool) (addr : Text) (s : Server) (id : Public S.Identity)
      → text_eq addr broadcast ≡ false
      → s.pub_ids addr ≡ some id
      → look_up S B R parse_address decodes unmarshal private addr s ≡ (s, fine (known id))
  unfolding look_up
  look_up-cached private addr s id plain e = ground arith

  look_up-again :
      (private : Text → Bool) (addr : Text) (s s' : Server) (id : Public S.Identity)
      → text_eq addr broadcast ≡ false
      → look_up S B R parse_address decodes unmarshal private addr s ≡ (s', fine (known id))
      → s'.pub_ids addr ≡ some id
  unfolding look_up cache
  look_up-again private addr s s' id plain e = elim (Option-cases (s.pub_ids addr)) [
    | inr (id', c) ↦
        let same = sym (look_up-cached private addr s id' plain c) ∙ e in
        let same_s : s ≡ s' = ap (λ (t : Out). t.0) same in
        let same_id : fine (known id') ≡ fine (known id) = ap (λ (t : Out). t.1) same in
        ap (λ (t : Server). t.pub_ids addr) (sym same_s) ∙ c ∙ ground arith
    | inl c ↦ elim (Bool-cases (private addr)) [
      | inl own ↦ absurd (ground arith)
      | inr other ↦
          let (s2, r) =
            get_or_request_public_identity S B R parse_address decodes unmarshal addr s in
          elim (Given-cases r) [
            | inl (i, g) ↦ ground (arith, text_eq_refl addr)
            | inr (inl g) ↦ absurd (ground arith)
            | inr (inr (inl g)) ↦ absurd (ground arith)
            | inr (inr (inr g)) ↦ absurd (ground arith)
          ]
    ]
  ]

  -- An identity that was given is given again from the cache: bmd is not called, and nothing changes.
  pub get_or_request_public_id-again :
      (private : Text → Bool) (email : Text) (s s' : Server) (id : Public S.Identity)
      → get_or_request_public_id S B R parse_address decodes unmarshal private email s
        ≡ (s', fine (known id))
      → get_or_request_public_id S B R parse_address decodes unmarshal private email s'
        ≡ (s', fine (known id))
  unfolding get_or_request_public_id
  get_or_request_public_id-again private email s s' id e =
      elim (Result-cases (to_bm parse_address decodes email)) [
        | inl (inl bad) ↦ absurd (ground arith)
        | inl (inr (x, bad)) ↦ absurd (ground arith)
        | inr (addr, good) ↦
            let plain = to_bm-plain parse_address decodes email addr good in
            let found : look_up S B R parse_address decodes unmarshal private addr s
                ≡ (s', fine (known id)) =
              ground arith in
            rw (good, get_or_request_public_id)
              (look_up-cached private addr s' id plain
                (look_up-again private addr s s' id plain found))
      ]
