-- ===== src/Pow/Links.antt =====
-- The nodes of the queue of powmgr/pow.go, as a list of links with their addresses.
use bmagent.Base.{
  ◌∙◌, ℕ, ◌+◌, ◌<◌, ◌≡◌, refl, ap, Option, none, some, List, [], ◌∷◌, ◌++◌, arith, IdMap, put,
}
use bmagent.Pow.{Order, Node, Pow, new, write_tail}

abbrev pub Link : Type 0
Link = ℕ × Order

abbrev pub orders : List Link → List Order
orders [] = []
orders ((a, o) ∷ links) = o ∷ orders links

abbrev pub first : List Link → Option ℕ
first [] = none
first ((a, o) ∷ links) = some a

-- The address of the last node, if there is one behind `a`.
abbrev pub last_from : ℕ → List Link → ℕ
last_from a [] = a
last_from a ((b, o) ∷ links) = last_from b links

abbrev pub AllAbove : ℕ → List Link → Type 0
AllAbove a [] = Unit
AllAbove a ((b, o) ∷ links) = (a < b) × AllAbove a links

abbrev pub AllBelow : ℕ → List Link → Type 0
AllBelow n [] = Unit
AllBelow n ((b, o) ∷ links) = (b < n) × AllBelow n links

-- The nodes of the list, in order, each with the address of the next, at growing addresses.
abbrev pub IsChain : IdMap Node → List Link → Type 0
IsChain nodes [] = Unit
IsChain nodes ((a, o) ∷ links) =
    (nodes a ≡ some (record { order = o; next = first links }))
    × AllAbove a links
    × IsChain nodes links

-- `tail` matters where the list is not empty.
abbrev pub IsLast : List Link → Option ℕ → Type 0
IsLast [] tail = Unit
IsLast ((a, o) ∷ links) tail = tail ≡ some (last_from a links)

-- The heap represents the queue of orders `xs`.
pub record Represents (q : Pow) (xs : List Order) : Type 0 where
  pub links : List Link
  pub content : orders links ≡ xs
  pub chain : IsChain q.nodes links
  pub below : AllBelow q.fresh links
  pub head_first : q.head ≡ first links
  pub tail_last : IsLast links q.tail

pub new-Represents : Represents new []
unfolding new
new-Represents = record {
  links = [];
  content = refl;
  chain = tt;
  below = tt;
  head_first = refl;
  tail_last = tt;
}

pub AllBelow-mono : (n : ℕ) (links : List Link) → AllBelow n links → AllBelow (n + 1) links
AllBelow-mono n [] h = tt
AllBelow-mono n ((b, o) ∷ links) h = (omega arith, AllBelow-mono n links h.1)

-- A chain without the addresses that are written stays a chain.
pub IsChain-put :
    (nodes : IdMap Node) (n : ℕ) (node : Node) (links : List Link)
    → AllBelow n links
    → IsChain nodes links
    → IsChain (put n node nodes) links
IsChain-put nodes n node [] b h = tt
IsChain-put nodes n node ((a, o) ∷ links) b h =
    (ground arith, h.1, IsChain-put nodes n node links b.1 h.2)

pub last_from-gt :
    (a b : ℕ) (o : Order) (links : List Link) → AllAbove a ((b, o) ∷ links) → a < last_from b links
last_from-gt a b o [] h = h.0
last_from-gt a b o ((c, o') ∷ links) h = last_from-gt a c o' links h.1

pub write_tail_ne :
    (t a n : ℕ) (nodes : IdMap Node) → a < t → write_tail (some t) n nodes a ≡ nodes a
unfolding write_tail
write_tail_ne t a n nodes lt = ground arith

pub AllAbove-snoc :
    (a n : ℕ) (p : Order) (links : List Link)
    → a < n
    → AllAbove a links
    → AllAbove a (links ++ (n, p) ∷ [])
AllAbove-snoc a n p [] lt h = (lt, tt)
AllAbove-snoc a n p ((b, o) ∷ links) lt h = (h.0, AllAbove-snoc a n p links lt h.1)

-- To write the last node's `next` appends the new node.
pub IsChain-snoc :
    (nodes : IdMap Node) (n : ℕ) (p : Order) (a : ℕ) (o : Order) (links : List Link)
    → nodes n ≡ some (record { order = p; next = none })
    → AllBelow n ((a, o) ∷ links)
    → IsChain nodes ((a, o) ∷ links)
    → IsChain (write_tail (some (last_from a links)) n nodes) ((a, o) ∷ links ++ (n, p) ∷ [])
unfolding write_tail
IsChain-snoc nodes n p a o [] e b h = (ground arith, (b.0, tt), (ground arith, tt, tt))
IsChain-snoc nodes n p a o ((c, o') ∷ links) e b h = (
  write_tail_ne (last_from c links) a n nodes (last_from-gt a c o' links h.1) ∙ h.0,
  AllAbove-snoc a n p ((c, o') ∷ links) b.0 h.1,
  IsChain-snoc nodes n p c o' links e b.1 h.2,
)

pub orders-snoc :
    (links : List Link) (n : ℕ) (p : Order) → orders (links ++ (n, p) ∷ []) ≡ orders links ++ p ∷ []
orders-snoc [] n p = refl
orders-snoc ((a, o) ∷ links) n p = ap (◌∷◌ o) (orders-snoc links n p)

pub AllBelow-snoc :
    (n : ℕ) (p : Order) (links : List Link)
    → AllBelow n links
    → AllBelow (n + 1) (links ++ (n, p) ∷ [])
AllBelow-snoc n p [] h = (omega arith, tt)
AllBelow-snoc n p ((b, o) ∷ links) h = (omega arith, AllBelow-snoc n p links h.1)

pub last_from-snoc :
    (a n : ℕ) (p : Order) (links : List Link) → last_from a (links ++ (n, p) ∷ []) ≡ n
last_from-snoc a n p [] = refl
last_from-snoc a n p ((b, o) ∷ links) = last_from-snoc b n p links
