-- ===== src/Data/MemFolder/Visits.antt =====
-- `ForEachMessage` of `memFolder`, against the loop over the messages that lie in the range.
use mathlib.Core.Path.{fun_ext}
use bmagent.Base.{
  ap, ℕ, ◌≡◌, refl, Bool, true, false, not, ◌||◌, ◌&&◌, Option, none, List, [], ◌∷◌, arith, ltb,
  leb, ◌==◌, if◌then◌else◌, Bool-cases, inl, inr,
}
use bmagent.Data.MemFolder.{Bytes, Error, and_then, Message, for_each_message}

-- Between the bounds, both inclusive; a bound of 0 is no bound.
abbrev pub in_range : ℕ → ℕ → ℕ → Bool
in_range low high id = leb low id && (high == 0 || leb id high)

pub select : ℕ → ℕ → List (ℕ × Message) → List (ℕ × Message)
select low high [] = []
select low high ((id, m) ∷ order) =
    let rest = select low high order in if in_range low high id then (id, m) ∷ rest else rest

-- The callback on each entry in turn, up to its first error.
pub each_until {ℓ} :
    {S : Type ℓ}
    → (ℕ → ℕ → Bytes → S → S × Option Error)
    → List (ℕ × Message)
    → S
    → S × Option Error
each_until fn [] s = (s, none)
each_until fn ((id, m) ∷ order) s =
    let rest = each_until fn order in and_then (fn id m.suffix m.payload s) rest

-- `ForEachMessage` calls back on the entries within the bounds, in the order of the iteration, and
-- stops at the first error; the `suffix` argument plays no part.
for_each_message-each_until {ℓ} :
    {S : Type ℓ} (order : List (ℕ × Message)) (low high suffix : ℕ)
    (fn : ℕ → ℕ → Bytes → S → S × Option Error) (s : S)
    → for_each_message order low high suffix fn s ≡ each_until fn (select low high order) s
unfolding for_each_message each_until select
for_each_message-each_until [] low high suffix fn s = refl
for_each_message-each_until ((id, m) ∷ order) low high suffix fn s =
    elim (Bool-cases (in_range low high id)) [
      | inl t ↦
          let out : ((ltb high id && not (high == 0)) || ltb id low) ≡ false = ground arith in
          rw (out, t)
            (ap (and_then (fn id m.suffix m.payload s))
              (fun_ext (for_each_message-each_until order low high suffix fn)))
      | inr t ↦
          let out : ((ltb high id && not (high == 0)) || ltb id low) ≡ true = ground arith in
          rw (out, t) (for_each_message-each_until order low high suffix fn s)
    ]
