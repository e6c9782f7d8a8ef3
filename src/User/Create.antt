-- ===== src/User/Create.antt =====
-- user/user.go: `NewUser` makes the mailboxes of the folders of the store.
use bmagent.Base.{
  ℕ, ◌≡◌, inl, inr, refl, subst, Bool, Option, none, some, List, [], ◌∷◌, Text, codes, text_eq,
  arith, Option-cases,
}
use bmagent.Mailbox.Coding.{Outcome, fine, refused, stopped, Coding}
use bmagent.Mailbox.Box.{Folders, Flags, Mailbox, refresh, blank_box, new_box}
use bmagent.Mailbox.Box.Own.{Outcome-cases}
use bmagent.Mailbox.Box.Stats.{Shows, refresh-Shows}
use bmagent.User.{User, set_box}
use bmagent.User.Keeps.{AllShow, set_box-AllShow}
use bmagent.User.Objects.{Network, Expiration}
use bmagent.User.Process.{Sender, Job}

abbrev pub drafts_folder_name : Text
drafts_folder_name = codes "Drafts"

-- The interface `data.Folders` over its state; `get` of a name is none for an error.
pub record FolderSet (F : Folders) : Type 1 where
  pub State : Type 0
  pub names : State → List Text
  pub get : Text → State → State × Option (F.Folder)

module _ (C : Coding) (N : Network C) (parse_address : Text → Option Text) (decodes : Text → Bool)
    (F : Folders) (X : Flags) (probe : ℕ → ℕ → ℕ → ℕ → ℕ → ℕ) (D : FolderSet F) where
  abbrev pub Boxes : Type 0
  Boxes = User C F X probe

  abbrev pub Mailer : Type 0
  Mailer = Sender C N parse_address decodes F X probe

  abbrev no_boxes : Boxes
  no_boxes = record { boxes = λ name. none; acks = λ hash. none }

  -- The loop of `NewUser` over the names of the folders.
  unfoldable pub add_boxes : List Text → D.State → Boxes → D.State × Outcome Boxes
  unfolding set_box
  add_boxes [] folders u = (folders, fine u)
  add_boxes (name ∷ names) folders u =
      let rest = add_boxes names in
      let (folders', got) = D.get name folders in
      elim got [
        | none ↦ (folders', refused)
        | some folder ↦ elim (new_box C F X probe (text_eq name drafts_folder_name) folder) [
          | refused ↦ (folders', refused)
          | stopped ↦ (folders', stopped)
          | fine box ↦ rest folders' (set_box C F X probe name box u)
        ]
      ]

  -- `NewUser`, which leaves out the expiration and the proof-of-work manager that it is given.
  unfoldable pub new_user :
      N.Keys
      → (expiration : Expiration C N parse_address decodes)
      → (pm : Option (List (Job C N parse_address decodes F X probe))) → N.Server
      → D.State
      → D.State × Outcome Mailer
  unfolding add_boxes
  new_user keys expiration pm server folders =
      let (folders', out) = add_boxes (D.names folders) folders no_boxes in
      elim out [
        | refused ↦ (folders', refused)
        | stopped ↦ (folders', stopped)
        | fine u ↦
            let s : Mailer = record {
              user = u;
              keys = keys;
              server = server;
              expiration = none;
              pm = none;
            } in
            (folders', fine s)
      ]

  new_box-Shows :
      (drafts : Bool) (folder : F.Folder) (box : Mailbox C F X probe)
      → new_box C F X probe drafts folder ≡ fine box
      → Shows C F X probe box
  unfolding new_box
  new_box-Shows drafts folder box e =
      elim (refresh-Shows C F X probe (blank_box C F X probe drafts folder)) [
        | inl (good, shows, _, _, _) ↦
            let runs : new_box C F X probe drafts folder
                ≡ fine (refresh C F X probe (blank_box C F X probe drafts folder)).0 =
              rw (good, new_box) refl in
            let same : (refresh C F X probe (blank_box C F X probe drafts folder)).0 ≡ box =
              ground arith in
            subst (Shows C F X probe) same shows
        | inr (inl bad, _, _) ↦
            let runs : new_box C F X probe drafts folder ≡ refused = rw (bad, new_box) refl in
            absurd (ground arith)
        | inr (inr bad, _, _) ↦
            let runs : new_box C F X probe drafts folder ≡ stopped = rw (bad, new_box) refl in
            absurd (ground arith)
      ]

  add_boxes-AllShow :
      (names : List Text) (folders : D.State) (u u' : Boxes)
      → AllShow C F X probe u
      → (add_boxes names folders u).1 ≡ fine u'
      → AllShow C F X probe u'
  unfolding add_boxes
  add_boxes-AllShow [] folders u u' all e =
      let same : u ≡ u' = ground arith in subst (AllShow C F X probe) same all
  add_boxes-AllShow (name ∷ names) folders u u' all e =
      let (folders', got) = D.get name folders in
      elim (Option-cases got) [
        | inl none_got ↦ absurd (ground arith)
        | inr (folder, found) ↦
            elim (Outcome-cases (new_box C F X probe (text_eq name drafts_folder_name) folder)) [
              | inl (inl bad) ↦ absurd (ground arith)
              | inl (inr bad) ↦ absurd (ground arith)
              | inr (box, good) ↦
                  add_boxes-AllShow names folders' (set_box C F X probe name box u) u'
                    (set_box-AllShow C F X probe name box u all
                      (new_box-Shows (text_eq name drafts_folder_name) folder box good))
                    (ground arith)
            ]
      ]

  -- Every mailbox of a new user has the uids and the counters of the messages in its folder.
  pub new_user-AllShow :
      (keys : N.Keys) (expiration : Expiration C N parse_address decodes)
      (pm : Option (List (Job C N parse_address decodes F X probe))) (server : N.Server)
      (folders : D.State) (s : Mailer)
      → (new_user keys expiration pm server folders).1 ≡ fine s
      → AllShow C F X probe s.user
  unfolding new_user
  new_user-AllShow keys expiration pm server folders s e =
      elim (Outcome-cases (add_boxes (D.names folders) folders no_boxes).1) [
        | inl (inl bad) ↦ absurd (ground arith)
        | inl (inr bad) ↦ absurd (ground arith)
        | inr (u, good) ↦
            let same : u ≡ s.user = ground arith in
            subst (AllShow C F X probe) same (
              add_boxes-AllShow (D.names folders) folders no_boxes u
                (λ name box e'. absurd (ground arith)) good)
      ]
