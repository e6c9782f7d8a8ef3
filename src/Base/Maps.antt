-- ===== src/Base/Maps.antt =====
-- Go maps, as functions from keys to optional values.
use Prim.Native.Nat.{ℕ}
use Prim.Native.String.{String}
use text.Mathlib.Text.{◌==◌ as str_eq}
use text.Mathlib.TextEquality.{eq_iff}
use mathlib.Core.Path.{◌≡◌, refl}
use mathlib.Core.Logic.{inl, inr}
use mathlib.Core.List.{List, [], ◌∷◌}
use mathlib.Core.Option.{Option, none, some}
use native.Mathlib.Omega.{arith}
use bmagent.Base.Checks.{◌==◌, if◌then◌else◌, Bool-cases}

-- map[uint64]V
abbrev pub IdMap {ℓ} : Type ℓ → Type ℓ
IdMap V = ℕ → Option V

-- map[string]V
abbrev pub NameMap {ℓ} : Type ℓ → Type ℓ
NameMap V = String → Option V

module _ {ℓ} {V : Type ℓ} where
  -- make(map[K]V)
  abbrev pub empty_map {κ} : {K : Type κ} → K → Option V
  empty_map _ = none

  -- m[k] = v
  abbrev pub put : ℕ → V → IdMap V → IdMap V
  put k v m j = if k == j then some v else m j

  -- delete(m, k)
  abbrev pub remove : ℕ → IdMap V → IdMap V
  remove k m j = if k == j then none else m j

  abbrev pub put_name : String → V → NameMap V → NameMap V
  put_name k v m j = if str_eq k j then some v else m j

  abbrev pub remove_name : String → NameMap V → NameMap V
  remove_name k m j = if str_eq k j then none else m j

-- m[k] on a map of numbers: a missing key reads as 0
abbrev pub or_zero : Option ℕ → ℕ
or_zero none = 0
or_zero (some n) = n

-- A map[string]V that is ranged over: its entries, each key once.
module _ {ℓ} {V : Type ℓ} where
  unfoldable pub find : String → List (String × V) → Option V
  find k [] = none
  find k ((j, v) ∷ m) = if str_eq j k then some v else find k m

  unfoldable pub set_name : String → V → List (String × V) → List (String × V)
  set_name k v [] = (k, v) ∷ []
  set_name k v ((j, w) ∷ m) = if str_eq j k then (j, v) ∷ m else (j, w) ∷ set_name k v m

  pub drop_name : String → List (String × V) → List (String × V)
  drop_name k [] = []
  drop_name k ((j, w) ∷ m) = if str_eq j k then drop_name k m else (j, w) ∷ drop_name k m

  pub find-set_name :
      (k i : String) (v : V) (m : List (String × V))
      → find i (set_name k v m) ≡ (if str_eq k i then some v else find i m)
  unfolding find set_name
  find-set_name k i v [] = refl
  find-set_name k i v ((j, w) ∷ m) =
      ground (arith, eq_iff j k, eq_iff j i, eq_iff k i, find-set_name k i v m)

  pub find-drop_name :
      (k i : String) (m : List (String × V))
      → find i (drop_name k m) ≡ (if str_eq k i then none else find i m)
  unfolding find drop_name
  find-drop_name k i [] = ground arith
  find-drop_name k i ((j, w) ∷ m) =
      ground (arith, eq_iff j k, eq_iff j i, eq_iff k i, find-drop_name k i m)

  -- The keys of the entries, each once.
  abbrev pub keys : List (String × V) → List String
  keys [] = []
  keys ((k, v) ∷ m) = k ∷ keys m

  -- No two entries share a key.
  abbrev pub AreDistinct : List (String × V) → Type ℓ
  AreDistinct [] = Unit
  AreDistinct ((k, v) ∷ m) = (find k m ≡ none) × AreDistinct m

  pub set_name-AreDistinct :
      (k : String) (v : V) (m : List (String × V)) → AreDistinct m → AreDistinct (set_name k v m)
  unfolding find set_name
  set_name-AreDistinct k v [] h = (refl, tt)
  set_name-AreDistinct k v ((j, w) ∷ m) h = elim (Bool-cases (str_eq j k)) [
    | inl e ↦ rw (e, set_name) h
    | inr ne ↦
        rw (ne, set_name)
          (
            ground (arith, find-set_name k j v m, eq_iff j k, eq_iff k j),
            set_name-AreDistinct k v m h.1,
          )
  ]

  pub drop_name-AreDistinct :
      (k : String) (m : List (String × V)) → AreDistinct m → AreDistinct (drop_name k m)
  unfolding find drop_name
  drop_name-AreDistinct k [] h = tt
  drop_name-AreDistinct k ((j, w) ∷ m) h = elim (Bool-cases (str_eq j k)) [
    | inl e ↦ rw (e, drop_name) (drop_name-AreDistinct k m h.1)
    | inr ne ↦
        rw (ne, drop_name) (ground (arith, find-drop_name k j m), drop_name-AreDistinct k m h.1)
  ]
