-- ===== src/Base/Sorting.antt =====
-- `sort.Strings` sorts.
use mathlib.Core.Path.{◌≡◌}
use mathlib.Core.Logic.{inl, inr}
use mathlib.Core.Bool.{true}
use mathlib.Core.List.{List, [], ◌∷◌, Perm}
use mathlib.Core.List.Perm
use bmagent.Base.Checks.{Bool-cases}
use bmagent.Base.Texts.{Text, text_le, text_le_total, insert_text, sort_texts}

-- Every text is no greater than the next.
abbrev pub IsSortedTexts : List Text → Type 0
IsSortedTexts [] = Unit
IsSortedTexts (s ∷ []) = Unit
IsSortedTexts (s ∷ t ∷ ts) = (text_le s t ≡ true) × IsSortedTexts (t ∷ ts)

insert_text-IsSorted :
    (s : Text) (ts : List Text) → IsSortedTexts ts → IsSortedTexts (insert_text s ts)
unfolding insert_text
insert_text-IsSorted s [] h = tt
insert_text-IsSorted s (t ∷ []) h = elim (Bool-cases (text_le s t)) [
  | inl le ↦ rw (le, insert_text) (le, tt)
  | inr gt ↦ rw (gt, insert_text) (text_le_total s t gt, tt)
]
insert_text-IsSorted s (t ∷ u ∷ ts) h = elim (Bool-cases (text_le s t)) [
  | inl le ↦ rw (le, insert_text) (le, h)
  | inr gt ↦
      rw (gt, insert_text)
        (elim (Bool-cases (text_le s u)) [
          | inl le ↦ rw (le, insert_text) (text_le_total s t gt, (le, h.1))
          | inr gt' ↦
              rw (gt', insert_text)
                (h.0, rw (gt', insert_text) at (insert_text-IsSorted s (u ∷ ts) h.1))
        ])
]

pub sort_texts-IsSorted : (ts : List Text) → IsSortedTexts (sort_texts ts)
unfolding sort_texts
sort_texts-IsSorted [] = tt
sort_texts-IsSorted (t ∷ ts) = insert_text-IsSorted t (sort_texts ts) (sort_texts-IsSorted ts)

insert_text-perm : (s : Text) (ts : List Text) → Perm (insert_text s ts) (s ∷ ts)
unfolding insert_text
insert_text-perm s [] = Perm.refl (s ∷ [])
insert_text-perm s (t ∷ ts) = elim (Bool-cases (text_le s t)) [
  | inl le ↦ rw (le, insert_text) (Perm.refl (s ∷ t ∷ ts))
  | inr gt ↦
      rw (gt, insert_text) (Perm.trans (Perm.cons t (insert_text-perm s ts)) (Perm.swap s t ts))
]

pub sort_texts-perm : (ts : List Text) → Perm (sort_texts ts) ts
unfolding sort_texts
sort_texts-perm [] = Perm.refl []
sort_texts-perm (t ∷ ts) =
    Perm.trans (insert_text-perm t (sort_texts ts)) (Perm.cons t (sort_texts-perm ts))
