-- ===== src/Pow/Work.antt =====
-- The worker of powmgr/pow.go, on a queue that nothing else touches.
use bmagent.Base.{ℕ, zero, suc, ◌<◌, ◌≡◌, none, some, List, [], ◌∷◌, map, arith, length}
use bmagent.Pow.{Order, Pow, dequeue, work}
use bmagent.Pow.Links.{Represents}
use bmagent.Pow.Queue.{dequeue-Represents}

-- The first, the third, the fifth order, and so on.
pub every_other : List Order → List Order
every_other [] = []
every_other (x ∷ []) = x ∷ []
every_other (x ∷ y ∷ xs) = x ∷ every_other xs

module _ {H : Type 0} (sha512 : List ℕ → H) (pow_func : ℕ → H → ℕ) where
  -- The callback of an order, with the nonce for its object at its target.
  abbrev pub report : Order → ℕ × ℕ
  report o = (o.done, pow_func o.target (sha512 o.object))

  work-none :
      (fuel : ℕ) (q : Pow)
      → (dequeue q).1 ≡ none
      → work sha512 pow_func (suc fuel) q ≡ some ((dequeue q).0, [])
  unfolding work
  work-none fuel q e = rw (e, work)

  work-some :
      (fuel : ℕ) (q q' : Pow) (o : Order) (done : List (ℕ × ℕ))
      → (dequeue q).1 ≡ some o
      → work sha512 pow_func fuel (dequeue (dequeue q).0).0 ≡ some (q', done)
      → work sha512 pow_func (suc fuel) q ≡ some (q', report o ∷ done)
  unfolding work
  work-some fuel q q' o done e ih = rw (e, work) (rw (ih, work))

  -- With fuel for the queue's orders `work` ends, with the queue empty, after it has made the
  -- callbacks of every other order only, each with the nonce for its own object: the second
  -- `dequeue` of a round takes the next order off and drops it.
  pub work-every_other :
      (fuel : ℕ) (q : Pow) (xs : List Order)
      → Represents q xs
      → length xs < fuel
      → (q' : Pow) × (work sha512 pow_func fuel q ≡ some (q', map report (every_other xs)))
        × Represents q' []
  unfolding every_other
  work-every_other zero q xs r lt = elim lt [ ]
  work-every_other (suc fuel) q [] r lt =
      let (e, r') = dequeue-Represents q [] r in ((dequeue q).0, work-none fuel q e, r')
  work-every_other (suc fuel) q (x ∷ []) r lt =
      let (e, r') = dequeue-Represents q (x ∷ []) r in
      let (e', r'') = dequeue-Represents (dequeue q).0 [] r' in
      let (q', done, end) = work-every_other fuel (dequeue (dequeue q).0).0 [] r'' (omega arith) in
      (q', work-some fuel q q' x [] e done, end)
  work-every_other (suc fuel) q (x ∷ y ∷ xs) r lt =
      let (e, r') = dequeue-Represents q (x ∷ y ∷ xs) r in
      let (e', r'') = dequeue-Represents (dequeue q).0 (y ∷ xs) r' in
      let (q', done, end) = work-every_other fuel (dequeue (dequeue q).0).0 xs r'' (omega arith) in
      (q', work-some fuel q q' x (map report (every_other xs)) e done, end)
