-- ===== src/Mailbox/Box/Stats.antt =====
-- What the uids and the counters of a mailbox say of the messages in its folder.
use bmagent.Base.{
  ℕ, ◌+◌, ◌<◌, ◌≡◌, ◌⊎◌, inl, inr, refl, sym, ap, ◌∙◌, Bool, true, false, not, Option, none, some,
  List, [], ◌∷◌, ◌++◌, if◌then◌else◌, u32, Text, arith, Bool-cases, Option-cases,
}
use bmagent.Mailbox.Coding.{Outcome, fine, refused, stopped, Coding, Bmail, decode_bitmessage}
use bmagent.Mailbox.Box.{
  Folders, Flags, Mailbox, Tally, sort_uids, belongs, update_mailbox_stats, tally_message,
  tally_messages, refresh,
}
use bmagent.Mailbox.Box.Own.{
  Outcome-cases, twice, with_none, zero_first, append_one, append_none, classify, AreReadable,
  one_if, count, id_if, own_ids, is_recent, is_unseen, IsRising, times, sort_uids-IsRising,
  times-sort_uids,
}

module _ (C : Coding) (F : Folders) (X : Flags) (probe : ℕ → ℕ → ℕ → ℕ → ℕ → ℕ) where
  open C use {Time}

  abbrev Sub : Type 0
  Sub = Option (Bmail Time → Bool)

  -- What the function of `refresh` does with a message, by its class.
  abbrev pub tallied : ℕ → Outcome (Option ℕ) → Tally → Outcome Tally
  tallied id refused t = refused
  tallied id stopped t = stopped
  tallied id (fine none) t = fine t
  tallied id (fine (some flags)) t = fine (record {
    recent = u32 (t.recent + one_if C F X probe (is_recent C F X probe) (fine (some flags)));
    unseen = u32 (t.unseen + one_if C F X probe (is_unseen C F X probe) (fine (some flags)));
    ids = t.ids ++ (id ∷ []);
  })

  -- The counters are words.
  abbrev pub Words : Tally → Type 0
  Words t = (t.recent < 4294967296) × (t.unseen < 4294967296)

  counted :
      (b : Bool) (n : ℕ)
      → n < 4294967296
      → (if b then u32 (n + 1) else n) ≡ u32 (n + (if b then 1 else 0))
  counted true n lt = refl
  counted false n lt = omega arith

  uncounted :
      (b : Bool) (n : ℕ)
      → n < 4294967296
      → (if b then n else u32 (n + 1)) ≡ u32 (n + (if not b then 1 else 0))
  uncounted true n lt = omega arith
  uncounted false n lt = refl

  pub tally_message-tallied :
      (sub : Sub) (id : ℕ) (msg : Text) (t : Tally)
      → Words t
      → tally_message C F X probe sub id msg t ≡ tallied id (classify C F X probe sub msg) t
  unfolding tally_message classify update_mailbox_stats
  tally_message-tallied sub id msg t w = elim (Outcome-cases (decode_bitmessage C msg)) [
    | inl (inl e) ↦ rw (e, tally_message, classify) refl
    | inl (inr e) ↦ rw (e, tally_message, classify) refl
    | inr ((b, o), e) ↦ elim (Bool-cases (belongs C F X probe sub b)) [
      | inr no_own ↦ rw (e, tally_message, classify) (rw no_own refl)
      | inl own ↦ elim (Option-cases b.imap_data) [
        | inl e' ↦ rw (e, tally_message, classify) (rw own (rw e' refl))
        | inr (i, e') ↦
            rw (e, tally_message, classify)
              (rw own (
                rw e' (
                  rw (counted (X.has_flags i.flags X.recent) t.recent w.0)
                    (rw (uncounted (X.has_flags i.flags X.seen) t.unseen w.1) refl))))
      ]
    ]
  ]

  -- What the loop gathers when it ends without an error.
  abbrev Gathers : Sub → List (ℕ × Text) → Tally → Tally → Type 0
  Gathers sub es t t' =
      (AreReadable C F X probe) sub es
      × (t'.recent ≡ u32 (t.recent + count C F X probe (is_recent C F X probe) sub es))
      × (t'.unseen ≡ u32 (t.unseen + count C F X probe (is_unseen C F X probe) sub es))
      × (t'.ids ≡ t.ids ++ own_ids C F X probe sub es)

  tally_messages-Gathers :
      (sub : Sub) (es : List (ℕ × Text)) (t : Tally)
      → Words t
      → let (t', out) = tally_messages C F X probe sub es t in
        (Gathers sub es t t' × (out ≡ fine tt)) ⊎ ((out ≡ refused) ⊎ (out ≡ stopped))
  unfolding tally_messages count own_ids
  tally_messages-Gathers sub [] t w =
      inl ((tt, omega arith, omega arith, sym (append_none t.ids)), refl)
  tally_messages-Gathers sub ((id, msg) ∷ es) t w =
      elim (Outcome-cases (classify C F X probe sub msg)) [
        | inl (inl e) ↦
            rw (tally_message-tallied sub id msg t w ∙ ap (λ o. tallied id o t) e, tally_messages)
              (inr (inl refl))
        | inl (inr e) ↦
            rw (tally_message-tallied sub id msg t w ∙ ap (λ o. tallied id o t) e, tally_messages)
              (inr (inr refl))
        | inr (none, e) ↦
            let IH = tally_messages-Gathers sub es t w in
            rw (tally_message-tallied sub id msg t w ∙ ap (λ o. tallied id o t) e, tally_messages)
              (elim IH [
                | inr bad ↦ inr bad
                | inl ((readable, r, u, i), fin) ↦ inl (
                  (
                    ((none, e), readable),
                    r
                        ∙ with_none t.recent (count C F X probe (is_recent C F X probe) sub es)
                        ∙ ap
                            (λ o. u32 (
                              t.recent
                              + (one_if C F X probe (is_recent C F X probe) o
                                  + count C F X probe (is_recent C F X probe) sub es)))
                            (sym e),
                    u
                        ∙ with_none t.unseen (count C F X probe (is_unseen C F X probe) sub es)
                        ∙ ap
                            (λ o. u32 (
                              t.unseen
                              + (one_if C F X probe (is_unseen C F X probe) o
                                  + count C F X probe (is_unseen C F X probe) sub es)))
                            (sym e),
                    i
                        ∙ ap (λ o. t.ids ++ id_if C F X probe id o (own_ids C F X probe sub es))
                            (sym e),
                  ),
                  fin,
                )
              ])
        | inr (some flags, e) ↦
            let a = (one_if C F X probe) (is_recent C F X probe) (fine (some flags)) in
            let b = (one_if C F X probe) (is_unseen C F X probe) (fine (some flags)) in
            let next : Tally = record {
              recent = u32 (t.recent + a);
              unseen = u32 (t.unseen + b);
              ids = t.ids ++ (id ∷ []);
            } in
            let IH = tally_messages-Gathers sub es next (omega arith, omega arith) in
            rw (tally_message-tallied sub id msg t w ∙ ap (λ o. tallied id o t) e, tally_messages)
              (elim IH [
                | inr bad ↦ inr bad
                | inl ((readable, r, u, i), fin) ↦ inl (
                  (
                    ((some flags, e), readable),
                    r
                        ∙ twice t.recent a (count C F X probe (is_recent C F X probe) sub es)
                        ∙ ap
                            (λ o. u32 (
                              t.recent
                              + (one_if C F X probe (is_recent C F X probe) o
                                  + count C F X probe (is_recent C F X probe) sub es)))
                            (sym e),
                    u
                        ∙ twice t.unseen b (count C F X probe (is_unseen C F X probe) sub es)
                        ∙ ap
                            (λ o. u32 (
                              t.unseen
                              + (one_if C F X probe (is_unseen C F X probe) o
                                  + count C F X probe (is_unseen C F X probe) sub es)))
                            (sym e),
                    i
                        ∙ append_one t.ids id (own_ids C F X probe sub es)
                        ∙ ap (λ o. t.ids ++ id_if C F X probe id o (own_ids C F X probe sub es))
                            (sym e),
                  ),
                  fin,
                )
              ])
      ]

  tally_messages-readable :
      (sub : Sub) (es : List (ℕ × Text)) (t : Tally)
      → Words t
      → AreReadable C F X probe sub es
      → (tally_messages C F X probe sub es t).1 ≡ fine tt
  unfolding tally_messages
  tally_messages-readable sub [] t w h = refl
  tally_messages-readable sub ((id, msg) ∷ es) t w ((none, e), h) =
      rw (tally_message-tallied sub id msg t w ∙ ap (λ o. tallied id o t) e, tally_messages)
        (tally_messages-readable sub es t w h)
  tally_messages-readable sub ((id, msg) ∷ es) t w ((some flags, e), h) =
      let next : Tally = record {
        recent = u32 (t.recent + one_if C F X probe (is_recent C F X probe) (fine (some flags)));
        unseen = u32 (t.unseen + one_if C F X probe (is_unseen C F X probe) (fine (some flags)));
        ids = t.ids ++ (id ∷ []);
      } in
      rw (tally_message-tallied sub id msg t w ∙ ap (λ o. tallied id o t) e, tally_messages)
        (tally_messages-readable sub es next (omega arith, omega arith) h)

  -- The mailbox shows the messages of its folder: all can be read, the uids are the ids of its own
  -- messages, sorted, and the counters count those that are recent and those that are unseen.
  pub record Shows (box : Mailbox C F X probe) : Type 0 where
    pub readable : (AreReadable C F X probe) box.sub (F.visited 0 0 2 box.mbox).0
    pub ended : (F.visited 0 0 2 box.mbox).1 ≡ true
    pub uids : box.uids ≡ sort_uids (own_ids C F X probe box.sub (F.visited 0 0 2 box.mbox).0)
    pub num_recent :
        box.num_recent
        ≡ u32 (count C F X probe (is_recent C F X probe) box.sub (F.visited 0 0 2 box.mbox).0)
    pub num_unseen :
        box.num_unseen
        ≡ u32 (count C F X probe (is_unseen C F X probe) box.sub (F.visited 0 0 2 box.mbox).0)
    pub next_uid : box.next_uid ≡ u32 (F.next_id box.mbox)

  abbrev zero_tally : Tally
  zero_tally = record { recent = 0; unseen = 0; ids = [] }

  -- What `refresh` makes of the tally.
  refresh-runs :
      (box : Mailbox C F X probe)
      → refresh C F X probe box ≡ (
          let (t, out) =
            tally_messages C F X probe box.sub (F.visited 0 0 2 box.mbox).0 zero_tally in
          let counted : Mailbox C F X probe = record box {
            next_uid = u32 (F.next_id box.mbox);
            num_recent = t.recent;
            num_unseen = t.unseen;
          } in
          elim out [
            | refused ↦ (counted, refused)
            | stopped ↦ (counted, stopped)
            | fine x ↦
                if (F.visited 0 0 2 box.mbox).1
                then (record counted { uids = sort_uids t.ids }, fine tt)
                else (counted, refused)
          ])
  unfolding refresh
  refresh-runs box = refl

  -- A refresh keeps the folder. If it succeeds the uids are the ids of the mailbox's own messages, each
  -- as often, and do not fall along the list, and the counters count the recent and the unseen of them;
  -- if it fails the uids are as before.
  pub refresh-Shows :
      (box : Mailbox C F X probe)
      → let (box', out) = refresh C F X probe box in
        ((out ≡ fine tt)
          × Shows box'
          × (box'.mbox ≡ box.mbox)
          × IsRising box'.uids
          × ((n : ℕ)
              → times n box'.uids
                ≡ times n (own_ids C F X probe box.sub (F.visited 0 0 2 box.mbox).0)))
        ⊎ (((out ≡ refused) ⊎ (out ≡ stopped)) × (box'.uids ≡ box.uids) × (box'.mbox ≡ box.mbox))
  refresh-Shows box =
      elim (tally_messages-Gathers box.sub (F.visited 0 0 2 box.mbox).0 zero_tally
        (omega arith, omega arith)) [
          | inr (inl bad) ↦ rw (refresh-runs box) (rw bad (inr (inl refl, refl, refl)))
          | inr (inr bad) ↦ rw (refresh-runs box) (rw bad (inr (inr refl, refl, refl)))
          | inl ((readable, recent, unseen, ids), good) ↦
              elim (Bool-cases (F.visited 0 0 2 box.mbox).1) [
                | inr cut ↦ rw (refresh-runs box) (rw good (rw cut (inr (inl refl, refl, refl))))
                | inl ended ↦ rw (refresh-runs box) (
                    rw good (
                      rw ended (
                        inl (
                          refl,
                          record {
                            readable = readable;
                            ended = ended;
                            uids = ap sort_uids ids;
                            num_recent =
                                recent
                                ∙ zero_first (
                                    count C F X probe (is_recent C F X probe) box.sub
                                      (F.visited 0 0 2 box.mbox).0);
                            num_unseen =
                                unseen
                                ∙ zero_first (
                                    count C F X probe (is_unseen C F X probe) box.sub
                                      (F.visited 0 0 2 box.mbox).0);
                            next_uid = refl;
                          },
                          refl,
                          sort_uids-IsRising _,
                          λ n. times-sort_uids n _ ∙ ap (times n) ids,
                        ))))
              ]
        ]

  -- Where every message can be read, the refresh succeeds.
  pub refresh-readable :
      (box : Mailbox C F X probe)
      → AreReadable C F X probe box.sub (F.visited 0 0 2 box.mbox).0
      → (F.visited 0 0 2 box.mbox).1 ≡ true
      → (refresh C F X probe box).1 ≡ fine tt
  refresh-readable box readable ended =
      let good =
        tally_messages-readable box.sub (F.visited 0 0 2 box.mbox).0 zero_tally
          (omega arith, omega arith) readable in
      rw (refresh-runs box) (rw good (rw ended refl))
