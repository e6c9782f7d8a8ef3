-- ===== src/Mailbox/Sequence/Count.antt =====
-- Sorted uids, and how many of them are lower than a given one.
use bmagent.Base.{
  ℕ, zero, suc, ◌+◌, ◌≤◌, ◌<◌, ◌≡◌, refl, some, List, [], ◌∷◌, arith, length, get_elem?, ltb,
  if◌then◌else◌,
}

abbrev pub AllGreater : ℕ → List ℕ → Type 0
AllGreater x [] = Unit
AllGreater x (y ∷ ys) = (x < y) × AllGreater x ys

-- The uids grow along the list.
abbrev pub IsSorted : List ℕ → Type 0
IsSorted [] = Unit
IsSorted (x ∷ xs) = AllGreater x xs × IsSorted xs

-- The uids are words of 32 bits.
abbrev pub AreSmall : List ℕ → Type 0
AreSmall [] = Unit
AreSmall (x ∷ xs) = (x < 4294967296) × AreSmall xs

pub AreSmall-get : (xs : List ℕ) (i x : ℕ) → AreSmall xs → get_elem? xs i ≡ some x → x < 4294967296
AreSmall-get [] i x h e = cc
AreSmall-get (y ∷ ys) zero x h e = ground arith
AreSmall-get (y ∷ ys) (suc i) x h e = AreSmall-get ys i x h.1 e

-- How many uids are lower than the given one.
unfoldable pub count_below : ℕ → List ℕ → ℕ
count_below uid [] = 0
count_below uid (x ∷ xs) = let c = count_below uid xs in if ltb x uid then c + 1 else c

pub AllGreater-get :
    (x : ℕ) (xs : List ℕ) (i y : ℕ) → AllGreater x xs → get_elem? xs i ≡ some y → x < y
AllGreater-get x [] i y h e = cc
AllGreater-get x (z ∷ zs) zero y h e = ground arith
AllGreater-get x (z ∷ zs) (suc i) y h e = AllGreater-get x zs i y h.1 e

pub count_below-zero :
    (uid x : ℕ) (xs : List ℕ) → AllGreater x xs → uid ≤ x → count_below uid xs ≡ 0
unfolding count_below
count_below-zero uid x [] h le = refl
count_below-zero uid x (y ∷ ys) h le = ground (arith, count_below-zero uid x ys h.1)

-- The uid at an index that is not below the given one bounds the count, and so on.
pub count_below-le :
    (uid : ℕ) (xs : List ℕ) (i x : ℕ)
    → IsSorted xs
    → get_elem? xs i ≡ some x
    → uid ≤ x
    → count_below uid xs ≤ i
unfolding count_below
count_below-le uid [] i x s e le = cc
count_below-le uid (y ∷ ys) zero x s e le = ground (arith, count_below-zero uid y ys s.0)
count_below-le uid (y ∷ ys) (suc i) x s e le = ground (arith, count_below-le uid ys i x s.1)

pub lt-count_below :
    (uid : ℕ) (xs : List ℕ) (i x : ℕ)
    → IsSorted xs
    → get_elem? xs i ≡ some x
    → x < uid
    → i < count_below uid xs
unfolding count_below
lt-count_below uid [] i x s e lt = cc
lt-count_below uid (y ∷ ys) zero x s e lt = ground arith
lt-count_below uid (y ∷ ys) (suc i) x s e lt =
    ground (arith, lt-count_below uid ys i x s.1, AllGreater-get y ys i x s.0)

pub count_below-at :
    (uid : ℕ) (xs : List ℕ) (i : ℕ)
    → IsSorted xs
    → get_elem? xs i ≡ some uid
    → count_below uid xs ≡ i
unfolding count_below
count_below-at uid [] i s e = cc
count_below-at uid (y ∷ ys) zero s e = ground (arith, count_below-zero uid y ys s.0)
count_below-at uid (y ∷ ys) (suc i) s e =
    ground (arith, count_below-at uid ys i s.1, AllGreater-get y ys i uid s.0)

pub count_below-length : (uid : ℕ) (xs : List ℕ) → count_below uid xs ≤ length xs
unfolding count_below
count_below-length uid [] = omega arith
count_below-length uid (x ∷ xs) = ground (arith, count_below-length uid xs)

pub get_elem?-some : (xs : List ℕ) (i : ℕ) → i < length xs → (x : ℕ) × (get_elem? xs i ≡ some x)
get_elem?-some [] i h = elim h [ ]
get_elem?-some (x ∷ xs) zero h = (x, refl)
get_elem?-some (x ∷ xs) (suc i) h = get_elem?-some xs i (omega arith)

pub get_elem?-lt :
    (xs : List ℕ) (i j x y : ℕ)
    → IsSorted xs
    → get_elem? xs i ≡ some x
    → get_elem? xs j ≡ some y
    → x < y
    → i < j
get_elem?-lt [] i j x y s e e' lt = cc
get_elem?-lt (z ∷ zs) zero zero x y s e e' lt = absurd (ground arith)
get_elem?-lt (z ∷ zs) (suc i) zero x y s e e' lt =
    absurd (ground (arith, AllGreater-get z zs i x s.0))
get_elem?-lt (z ∷ zs) zero (suc j) x y s e e' lt = omega arith
get_elem?-lt (z ∷ zs) (suc i) (suc j) x y s e e' lt =
    omega (arith, get_elem?-lt zs i j x y s.1 e e' lt)
