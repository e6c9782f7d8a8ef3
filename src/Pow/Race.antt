-- ===== src/Pow/Race.antt =====
-- Orders that come in while the workers of powmgr/pow.go run, in every interleaving. `enqueue` and
-- `dequeue` hold the mutex, so a step is one of them.
pub mod Served
use mathlib.Core.Bool.{true≢false}
use bmagent.Base.{
  ℕ, zero, suc, ◌+◌, ◌-◌, ◌≤◌, ◌<◌, ◌≡◌, ◌⊎◌, inl, inr, refl, sym, ap, ◌∙◌, subst, Bool, true,
  false, Option, none, some, List, [], ◌∷◌, ◌++◌, arith, length, length-append, if◌then◌else◌,
  Bool-cases, Option-cases,
}
use bmagent.Pow.{Order, Pow, new, enqueue, dequeue}
use bmagent.Pow.Links.{Represents, new-Represents}
use bmagent.Pow.Queue.{enqueue-Represents, dequeue-Represents, peek, rest}

-- The queue, the workers before their first `dequeue`, the orders of those before their second, the
-- orders whose callback runs, the orders that came in and those that a second `dequeue` dropped. The
-- last four are beside the program's state: they record what became of the orders.
pub record System : Type 0 where
  pub queue : Pow
  pub ready : ℕ
  pub holding : List Order
  pub called : List Order
  pub submitted : List Order
  pub dropped : List Order

abbrev pub start : System
start = record { queue = new; ready = 0; holding = []; called = []; submitted = []; dropped = [] }

-- An order comes in; a worker takes the first order or ends; the worker of the i-th order that is
-- held dequeues again and calls back.
pub data Event : Type 0 where
  submit : Order → Event
  take : Event
  finish : ℕ → Event

unfoldable pub pick : ℕ → List Order → Option (Order × List Order)
pick i [] = none
pick zero (o ∷ os) = some (o, os)
pick (suc i) (o ∷ os) = elim (pick i os) [ none ↦ none | some (p, ps) ↦ some (p, o ∷ ps) ]

unfoldable pub submitting : Order → System → System
submitting p s =
    let (q, starts) = enqueue p s.queue in
    record s {
      queue = q;
      ready = if starts then s.ready + 1 else s.ready;
      submitted = p ∷ s.submitted;
    }

unfoldable pub taking : System → System
taking s =
    let (q, order) = dequeue s.queue in
    elim s.ready [
      | zero ↦ s
      | suc n ↦ elim order [
        | none ↦ record s { queue = q; ready = n }
        | some o ↦ record s { queue = q; ready = n; holding = o ∷ s.holding }
      ]
    ]

unfoldable pub finishing : ℕ → System → System
unfolding pick
finishing i s =
    let (q, lost) = dequeue s.queue in
    elim (pick i s.holding) [
      | none ↦ s
      | some (o, os) ↦ record s {
        queue = q;
        ready = s.ready + 1;
        holding = os;
        called = o ∷ s.called;
        dropped = elim lost [ none ↦ s.dropped | some l ↦ l ∷ s.dropped ];
      }
    ]

unfoldable pub step : Event → System → System
unfolding submitting taking finishing
step (submit p) s = submitting p s
step take s = taking s
step (finish i) s = finishing i s

unfoldable pub run : List Event → System → System
unfolding step
run [] s = s
run (e ∷ events) s = run events (step e s)
