-- ===== src/Agent/Handlers/Firsts.antt =====
-- server.go: which key, which user and which mailbox the loops of `newMessage` come to.
use bmagent.Base.{
  ℕ, ◌≡◌, ◌⊎◌, inl, inr, refl, ap, Bool, true, false, none, some, List, [], ◌∷◌, ◌++◌, ◌==◌, Text,
  Bool-cases, Option-cases,
}
use bmagent.Mailbox.Coding.{fine, refused, stopped, Coding, Bmail}
use bmagent.Mailbox.Box.{Folders, Flags, Finish}
use bmagent.Mailbox.Box.Own.{Outcome-cases}
use bmagent.User.{User, deliver_from_bmnet, deliver_ack_reply}
use bmagent.Agent.Client.{Stub}
use bmagent.Agent.Handlers.{
  Decrypted, KeyEntry, Ciphering, deliver_ack, try_keys, try_users, deliver_to,
}

module _ (C : Coding) (F : Folders) (X : Flags) (probe : ℕ → ℕ → ℕ → ℕ → ℕ → ℕ) (S : Stub)
    (K : Ciphering C) where
  open C use {Time}
  open K use {Msg, Private}

  abbrev Keys : Type 0
  Keys = List (KeyEntry Private)

  abbrev Mails : Type 0
  Mails = List (ℕ × User C F X probe)

  -- None of the keys opens the message, and none of any user.
  abbrev pub AllShut : Msg → Keys → Type 0
  AllShut msg [] = Unit
  AllShut msg (k ∷ ks) = (K.try_decrypt_message msg k.private ≡ none) × AllShut msg ks

  abbrev pub NoneOpens : Msg → List (ℕ × Keys) → Type 0
  NoneOpens msg [] = Unit
  NoneOpens msg ((id, keys) ∷ users) = AllShut msg keys × NoneOpens msg users

  -- The first key of the list that opens the message, with what it gives.
  pub record FirstKey (msg : Msg) (keys : Keys) (address : Text) (of_chan : Bool)
      (m : Decrypted Time) : Type 0 where
    pub shut : Keys
    pub key : KeyEntry Private
    pub others : Keys
    pub split : keys ≡ shut ++ (key ∷ others)
    pub before : AllShut msg shut
    pub opens : K.try_decrypt_message msg key.private ≡ some m
    pub named : address ≡ K.address_string key.private
    pub chan : of_chan ≡ key.is_chan

  -- The first user with such a key.
  pub record FirstUser (msg : Msg) (users : List (ℕ × Keys)) (id : ℕ) (address : Text)
      (of_chan : Bool) (m : Decrypted Time) : Type 0 where
    pub shut : List (ℕ × Keys)
    pub keys : Keys
    pub others : List (ℕ × Keys)
    pub split : users ≡ shut ++ ((id, keys) ∷ others)
    pub before : NoneOpens msg shut
    pub first : FirstKey msg keys address of_chan m

  try_keys-cases :
      (msg : Msg) (keys : Keys)
      → ((try_keys C F X probe S K msg keys ≡ none) × AllShut msg keys)
        ⊎ ((address : Text) × (of_chan : Bool) × (m : Decrypted Time) × (try_keys C F X probe S K
                msg keys
              ≡ some (address, of_chan, m))
            × FirstKey msg keys address of_chan m)
  unfolding try_keys
  try_keys-cases msg [] = inl (refl, tt)
  try_keys-cases msg (k ∷ ks) = elim (Option-cases (K.try_decrypt_message msg k.private)) [
    | inr (m, opens) ↦ inr (
      K.address_string k.private,
      k.is_chan,
      m,
      rw (opens, try_keys) refl,
      record {
        shut = [];
        key = k;
        others = ks;
        split = refl;
        before = tt;
        opens = opens;
        named = refl;
        chan = refl;
      },
    )
    | inl e ↦ elim (try_keys-cases msg ks) [
      | inl (none_there, all) ↦ inl (rw (e, try_keys) none_there, (e, all))
      | inr (address, of_chan, m, there, f) ↦ inr (
        address,
        of_chan,
        m,
        rw (e, try_keys) there,
        record {
          shut = k ∷ f.shut;
          key = f.key;
          others = f.others;
          split = ap (λ t. k ∷ t) f.split;
          before = (e, f.before);
          opens = f.opens;
          named = f.named;
          chan = f.chan;
        },
      )
    ]
  ]

  pub try_users-cases :
      (msg : Msg) (users : List (ℕ × Keys))
      → ((try_users C F X probe S K msg users ≡ none) × NoneOpens msg users)
        ⊎ ((id : ℕ) × (address : Text) × (of_chan : Bool) × (m : Decrypted Time) × (try_users C F X
                probe S K msg users
              ≡ some (id, (address, of_chan, m)))
            × FirstUser msg users id address of_chan m)
  unfolding try_users
  try_users-cases msg [] = inl (refl, tt)
  try_users-cases msg ((id, keys) ∷ users) = elim (try_keys-cases msg keys) [
    | inr (address, of_chan, m, there, f) ↦ inr (
      id,
      address,
      of_chan,
      m,
      rw (there, try_users) refl,
      record { shut = []; keys = keys; others = users; split = refl; before = tt; first = f },
    )
    | inl (e, all) ↦ elim (try_users-cases msg users) [
      | inl (none_there, rest) ↦ inl (rw (e, try_users) none_there, (all, rest))
      | inr (j, address, of_chan, m, there, f) ↦ inr (
        j,
        address,
        of_chan,
        m,
        rw (e, try_users) there,
        record {
          shut = (id, keys) ∷ f.shut;
          keys = f.keys;
          others = f.others;
          split = ap (λ t. (id, keys) ∷ t) f.split;
          before = (all, f.before);
          first = f.first;
        },
      )
    ]
  ]

  -- No user has the number, and none knows the hash of an ack.
  abbrev pub NotThere : ℕ → Mails → Type 0
  NotThere id [] = Unit
  NotThere id ((j, u) ∷ us) = (j == id ≡ false) × NotThere id us

  abbrev pub NoneKnows : Text → Mails → Type 0
  NoneKnows hash [] = Unit
  NoneKnows hash ((j, u) ∷ us) = (u.acks hash ≡ none) × NoneKnows hash us

  -- The message is delivered to the first user of the number, and to no other.
  abbrev pub DeliveredTo : Time → ℕ → Bmail Time → Mails → Mails × Finish → Type 0
  DeliveredTo now id b us r =
      (NotThere id us × (r ≡ (us, stopped)))
      ⊎ ((shut : Mails) × (j : ℕ) × (u : User C F X probe) × (others : Mails) × NotThere id shut
          × (j == id ≡ true)
          × (us ≡ shut ++ ((j, u) ∷ others))
          × (r ≡ (
            shut ++ ((j, (deliver_from_bmnet C F X probe now b u).0) ∷ others),
            (deliver_from_bmnet C F X probe now b u).1,
          )))

  pub deliver_to-DeliveredTo :
      (now : Time) (id : ℕ) (b : Bmail Time) (us : Mails)
      → DeliveredTo now id b us (deliver_to C F X probe S K now id b us)
  unfolding deliver_to
  deliver_to-DeliveredTo now id b [] = inl (tt, refl)
  deliver_to-DeliveredTo now id b ((j, u) ∷ us) = elim (Bool-cases (j == id)) [
    | inl t ↦ inr ([], j, u, us, tt, t, refl, rw (t, deliver_to) refl)
    | inr f ↦ elim (deliver_to-DeliveredTo now id b us) [
      | inl (gone, e) ↦
          inl ((f, gone), rw (f, deliver_to) (ap (λ (r : Mails × Finish). ((j, u) ∷ r.0, r.1)) e))
      | inr (shut, k, v, others, gone, t, split, e) ↦ inr (
        (j, u) ∷ shut,
        k,
        v,
        others,
        (f, gone),
        t,
        ap (λ t. (j, u) ∷ t) split,
        rw (f, deliver_to) (ap (λ (r : Mails × Finish). ((j, u) ∷ r.0, r.1)) e),
      )
    ]
  ]

  -- Only a panic is not logged.
  abbrev pub ended : Finish → Finish
  ended stopped = stopped
  ended refused = fine tt
  ended (fine x) = fine tt

  -- The ack goes to the first user that knows its hash, and to no other.
  abbrev pub AckTo : Time → Text → Mails → Mails × Finish → Type 0
  AckTo now hash us r =
      (NoneKnows hash us × (r ≡ (us, fine tt)))
      ⊎ ((shut : Mails) × (j : ℕ) × (u : User C F X probe) × (others : Mails) × NoneKnows hash shut
          × ((uid : ℕ) × (u.acks hash ≡ some uid))
          × (us ≡ shut ++ ((j, u) ∷ others))
          × (r ≡ (
            shut ++ ((j, (deliver_ack_reply C F X probe now hash u).0) ∷ others),
            ended (deliver_ack_reply C F X probe now hash u).1,
          )))

  pub deliver_ack-AckTo :
      (now : Time) (hash : Text) (us : Mails)
      → AckTo now hash us (deliver_ack C F X probe S K now hash us)
  unfolding deliver_ack
  deliver_ack-AckTo now hash [] = inl (tt, refl)
  deliver_ack-AckTo now hash ((j, u) ∷ us) = elim (Option-cases (u.acks hash)) [
    | inr (uid, known) ↦
        let out = (deliver_ack_reply C F X probe now hash u).1 in
        inr (
          [],
          j,
          u,
          us,
          tt,
          (uid, known),
          refl,
          elim (Outcome-cases out) [
            | inl (inl e) ↦ rw (known, deliver_ack) (rw e refl)
            | inl (inr e) ↦ rw (known, deliver_ack) (rw e refl)
            | inr (x, e) ↦ rw (known, deliver_ack) (rw e refl)
          ],
        )
    | inl e ↦ elim (deliver_ack-AckTo now hash us) [
      | inl (gone, same) ↦
          inl
            ((e, gone), rw (e, deliver_ack) (ap (λ (r : Mails × Finish). ((j, u) ∷ r.0, r.1)) same))
      | inr (shut, k, v, others, gone, known, split, same) ↦ inr (
        (j, u) ∷ shut,
        k,
        v,
        others,
        (e, gone),
        known,
        ap (λ t. (j, u) ∷ t) split,
        rw (e, deliver_ack) (ap (λ (r : Mails × Finish). ((j, u) ∷ r.0, r.1)) same),
      )
    ]
  ]
