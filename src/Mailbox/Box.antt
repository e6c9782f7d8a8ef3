-- ===== src/Mailbox/Box.antt =====
-- user/mailbox.go: `mailbox`, its state, `refresh`, and how a message is read.
pub mod Sets
pub mod Changes
pub mod Own
pub mod Stats
pub mod Reads
pub mod Delete
pub mod Add
use bmagent.Base.{
  ℕ, zero, suc, ◌+◌, ◌-◌, Bool, true, false, not, ◌||◌, Option, none, some, List, [], ◌∷◌, ◌++◌,
  length, get_elem?, ltb, leb, ◌==◌, if◌then◌else◌, u32, Text, IdMap, put,
}
use bmagent.Mailbox.Sequence.{Found, at, out_of_range, out_of_fuel, final, get_sequence_number}
use bmagent.Mailbox.Coding.{
  Outcome, fine, refused, stopped, Coding, ImapData, Bmail, decode_bitmessage,
}

-- The folder of a mailbox. `visited low high suffix` has the ids and the messages that
-- `ForEachMessage` calls back with, and whether it ends without an error of its own; in the other
-- methods none and false are errors.
pub record Folders : Type 1 where
  pub Folder : Type 0
  pub next_id : Folder → ℕ
  pub get_message : ℕ → Folder → Option (ℕ × Text)
  pub insert_new_message : Text → ℕ → Folder → Folder × Option ℕ
  pub insert_message : ℕ → Text → ℕ → Folder → Folder × Bool
  pub delete_message : ℕ → Folder → Folder × Bool
  pub visited : ℕ → ℕ → ℕ → Folder → List (ℕ × Text) × Bool

-- The flags of the imap-server package, and `HasFlags`; `both` is the operator `&`.
pub record Flags : Type 0 where
  pub seen : ℕ
  pub recent : ℕ
  pub deleted : ℕ
  pub has_flags : ℕ → ℕ → Bool
  pub both : ℕ → ℕ → ℕ

-- `sort.Sort` of the uids.
unfoldable pub insert_uid : ℕ → List ℕ → List ℕ
insert_uid n [] = n ∷ []
insert_uid n (m ∷ ms) = let rest = insert_uid n ms in if leb n m then n ∷ m ∷ ms else m ∷ rest

unfoldable pub sort_uids : List ℕ → List ℕ
unfolding insert_uid
sort_uids [] = []
sort_uids (n ∷ ns) = insert_uid n (sort_uids ns)

-- No value, an error or a panic.
abbrev pub Finish : Type 0
Finish = Outcome {0} Unit

-- What `refresh` gathers: the two counters and the list of the uids.
pub record Tally : Type 0 where
  pub recent : ℕ
  pub unseen : ℕ
  pub ids : List ℕ

module _ (C : Coding) (F : Folders) (X : Flags) (probe : ℕ → ℕ → ℕ → ℕ → ℕ → ℕ) where
  open C use {Time, Object}

  -- `objects` is none while the map is nil.
  pub record Mailbox : Type 0 where
    pub mbox : F.Folder
    pub sub : Option (Bmail Time → Bool)
    pub objects : Option (IdMap Object)
    pub drafts : Bool
    pub uids : List ℕ
    pub num_recent : ℕ
    pub num_unseen : ℕ
    pub next_uid : ℕ

  -- `box.sub == nil || box.sub(b)`
  unfoldable pub belongs : Option (Bmail Time → Bool) → Bmail Time → Bool
  belongs none b = true
  belongs (some sub) b = sub b

  -- `updateMailboxStats`; a message without its IMAP data is a nil pointer.
  unfoldable pub update_mailbox_stats : Bmail Time → Tally → Outcome Tally
  update_mailbox_stats entry t = elim entry.imap_data [
    | none ↦ stopped
    | some i ↦ fine (record t {
      recent = if X.has_flags i.flags X.recent then u32 (t.recent + 1) else t.recent;
      unseen = if X.has_flags i.flags X.seen then t.unseen else u32 (t.unseen + 1);
    })
  ]

  -- The function that `refresh` gives to `ForEachMessage`.
  unfoldable pub tally_message : Option (Bmail Time → Bool) → ℕ → Text → Tally → Outcome Tally
  unfolding belongs update_mailbox_stats
  tally_message sub id msg t = elim (decode_bitmessage C msg) [
    | refused ↦ refused
    | stopped ↦ stopped
    | fine (b, o) ↦ if not (belongs sub b) then fine t else elim (update_mailbox_stats b t) [
      | refused ↦ refused
      | stopped ↦ stopped
      | fine t' ↦ fine (record t' { ids = t.ids ++ (id ∷ []) })
    ]
  ]

  unfoldable pub tally_messages :
      Option (Bmail Time → Bool) → List (ℕ × Text) → Tally → Tally × Finish
  unfolding tally_message
  tally_messages sub [] t = (t, fine tt)
  tally_messages sub ((id, msg) ∷ entries) t =
      let rest = tally_messages sub entries in
      elim (tally_message sub id msg t) [
        | refused ↦ (t, refused)
        | stopped ↦ (t, stopped)
        | fine t' ↦ rest t'
      ]

  -- `refresh`; an error leaves the uids as they were.
  unfoldable pub refresh : Mailbox → Mailbox × Finish
  unfolding tally_messages sort_uids
  refresh box =
      let (entries, ended) = F.visited 0 0 2 box.mbox in
      let (t, out) = tally_messages box.sub entries (record { recent = 0; unseen = 0; ids = [] }) in
      let counted : Mailbox = record box {
        next_uid = u32 (F.next_id box.mbox);
        num_recent = t.recent;
        num_unseen = t.unseen;
      } in
      elim out [
        | refused ↦ (counted, refused)
        | stopped ↦ (counted, stopped)
        | fine x ↦
            if ended
            then (record counted { uids = sort_uids t.ids }, fine tt)
            else (counted, refused)
      ]

  unfoldable pub messages : Mailbox → ℕ
  messages box = u32 (length box.uids)

  -- `LastUID`; without messages the index is out of range.
  unfoldable pub last_uid : Mailbox → Outcome ℕ
  last_uid box = elim box.uids [ [] ↦ stopped | x ∷ xs ↦ fine (u32 (final x xs)) ]

  -- `box.objects[uid] = o`; a nil map panics.
  unfoldable pub keep_object : ℕ → Option Object → Mailbox → Outcome Mailbox
  keep_object uid none box = fine box
  keep_object uid (some o) box = elim box.objects [
    | none ↦ stopped
    | some objects ↦ fine (record box { objects = some (put uid o objects) })
  ]

  -- `decodeBitmessageForImap`; `fine none` is the nil message.
  unfoldable pub decode_bitmessage_for_imap :
      ℕ → ℕ → Text → Mailbox → Mailbox × Outcome (Option (Bmail Time))
  unfolding keep_object
  decode_bitmessage_for_imap uid seqno msg box = elim (decode_bitmessage C msg) [
    | refused ↦ (box, fine none)
    | stopped ↦ (box, stopped)
    | fine (l, o) ↦ elim (keep_object uid o box) [
      | refused ↦ (box, refused)
      | stopped ↦ (box, stopped)
      | fine box' ↦ elim l.imap_data [
        | none ↦ (box', stopped)
        | some i ↦
            let numbered : ImapData Time = record i { uid = uid; sequence_number = seqno } in
            (box', fine (some (record l { imap_data = some numbered })))
      ]
    ]
  ]

  -- What `bmsgByUID` does with the uid at its place.
  unfoldable pub read_uid : ℕ → ℕ → Mailbox → Mailbox × Outcome (Option (Bmail Time))
  unfolding decode_bitmessage_for_imap
  read_uid uid seqno box = elim (F.get_message uid box.mbox) [
    | none ↦ (box, fine none)
    | some (suffix, msg) ↦
        if suffix == 2 then decode_bitmessage_for_imap uid seqno msg box else (box, fine none)
  ]

  -- `bmsgByUID`
  unfoldable pub bmsg_by_uid : ℕ → Mailbox → Mailbox × Outcome (Option (Bmail Time))
  unfolding read_uid
  bmsg_by_uid uid box = elim (get_sequence_number probe box.uids uid) [
    | out_of_range ↦ (box, stopped)
    | out_of_fuel ↦ (box, stopped)
    | at seqno ↦
        if ltb (u32 (length box.uids)) seqno
        then (box, fine none)
        else elim (get_elem? box.uids (seqno - 1)) [
          | none ↦ (box, stopped)
          | some x ↦ if x == uid then read_uid uid seqno box else (box, fine none)
        ]
  ]

  -- `bitmessageBySequenceNumber`
  unfoldable pub bitmessage_by_sequence_number :
      ℕ → Mailbox → Mailbox × Outcome (Option (Bmail Time))
  unfolding bmsg_by_uid messages
  bitmessage_by_sequence_number seqno box =
      if ltb seqno 1 || ltb (messages box) seqno
      then (box, fine none)
      else elim (get_elem? box.uids (seqno - 1)) [
        | none ↦ (box, stopped)
        | some uid ↦ bmsg_by_uid uid box
      ]

  -- `lastBitmessage`
  unfoldable pub last_bitmessage : Mailbox → Mailbox × Outcome (Option (Bmail Time))
  unfolding bmsg_by_uid messages
  last_bitmessage box =
      if messages box == 0
      then (box, fine none)
      else elim box.uids [ [] ↦ (box, stopped) | x ∷ xs ↦ bmsg_by_uid (final x xs) box ]

  abbrev pub blank_box : Bool → F.Folder → Mailbox
  blank_box drafts mbox = record {
    mbox = mbox;
    sub = none;
    objects = none;
    drafts = drafts;
    uids = [];
    num_recent = 0;
    num_unseen = 0;
    next_uid = 0;
  }

  -- `newMailbox` and `newDrafts` of a folder that is not nil.
  unfoldable pub new_box : Bool → F.Folder → Outcome Mailbox
  new_box drafts mbox =
      let (box, out) = refresh (blank_box drafts mbox) in
      elim out [ refused ↦ refused | stopped ↦ stopped | fine x ↦ fine box ]
