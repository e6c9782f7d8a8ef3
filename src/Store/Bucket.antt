-- ===== src/Store/Bucket.antt =====
-- The buckets of the database, of another package: keys in the order of their bytes, each with a
-- value or a bucket of its own.
pub mod Seek
use bmagent.Base.{
  ℕ, zero, suc, ◌≡◌, ◌≢◌, inl, inr, arith, Bool-cases, Bool, true, false, Option, none, some, List,
  [], ◌∷◌, Text, text_eq, text_le, if◌then◌else◌,
}

-- What a cursor visits: a key with its value, which is none (nil) for a bucket.
abbrev pub Entries : Type 0
Entries = List (Text × Option Text)

-- A new bucket, `Put`, `Delete`, and `CreateBucket` of a bucket inside (none is an error), `Get`, and
-- what a cursor visits from `Seek` on to the end.
pub record Buckets : Type 1 where
  pub Bucket : Type 0
  pub create : Option Bucket
  pub nest : Text → Bucket → Option Bucket
  pub put : Text → Text → Bucket → Option Bucket
  pub delete : Text → Bucket → Option Bucket
  pub get : Text → Bucket → Option Text
  pub seek : Text → Bucket → Entries
  -- What a cursor visits from `First` on.
  pub entries : Bucket → Entries

unfoldable pub entry : Text → Entries → Option (Option Text)
entry k [] = none
entry k ((j, v) ∷ es) = if text_eq j k then some v else entry k es

unfoldable pub drop_below : Text → Entries → Entries
drop_below k [] = []
drop_below k ((j, v) ∷ es) = let rest = drop_below k es in if text_le k j then (j, v) ∷ es else rest

-- Every key comes after `k`.
abbrev pub AllAfter : Text → Entries → Type 0
AllAfter k [] = Unit
AllAfter k ((j, v) ∷ es) = (text_le j k ≡ false) × AllAfter k es

abbrev pub AreSorted : Entries → Type 0
AreSorted [] = Unit
AreSorted ((k, v) ∷ es) = AllAfter k es × AreSorted es

-- What the database promises of its buckets.
pub record IsBolt (B : Buckets) : Type 0 where
  pub sorted : (b : B.Bucket) → AreSorted (B.entries b)
  pub seeks : (k : Text) (b : B.Bucket) → B.seek k b ≡ drop_below k (B.entries b)
  pub gets :
      (k : Text) (b : B.Bucket)
      → B.get k b ≡ elim (entry k (B.entries b)) [ none ↦ none | some v ↦ v ]
  pub creates : (b : B.Bucket) → B.create ≡ some b → B.entries b ≡ []
  pub nests :
      (k j : Text) (b b' : B.Bucket)
      → B.nest k b ≡ some b'
      → entry j (B.entries b') ≡ (if text_eq k j then some none else entry j (B.entries b))
  pub puts :
      (k v j : Text) (b b' : B.Bucket)
      → B.put k v b ≡ some b'
      → entry j (B.entries b') ≡ (if text_eq k j then some (some v) else entry j (B.entries b))
  pub deletes :
      (k j : Text) (b b' : B.Bucket)
      → B.delete k b ≡ some b'
      → entry j (B.entries b') ≡ (if text_eq k j then none else entry j (B.entries b))

-- What is read after a value was put under a key.
pub get-put :
    (B : Buckets) (law : IsBolt B) (k j v : Text) (b b' : B.Bucket)
    → B.put k v b ≡ some b'
    → B.get j b' ≡ (if text_eq k j then some v else B.get j b)
get-put B law k j v b b' e = elim (Bool-cases (text_eq k j)) [
  | inl t ↦ ground (arith, law.gets j b', law.gets j b, law.puts k v j b b' e)
  | inr t ↦ ground (arith, law.gets j b', law.gets j b, law.puts k v j b b' e)
]
