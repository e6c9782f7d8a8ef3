-- ===== src/Pow/Tests.antt =====
-- The theorems about the queue of orders at concrete queues.
use bmagent.Base.{ℕ, ◌+◌, ◌≡◌, ◌↔◌, refl, true, some, List, [], ◌∷◌, map, ◌++◌, arith}
use bmagent.Pow.{Order, Pow, new, enqueue, dequeue, work, write_tail}
use bmagent.Pow.Links.{Represents, new-Represents}
use bmagent.Pow.Queue.{enqueue-Represents, dequeue-Represents, peek, rest}
use bmagent.Pow.Race.{
  start, Event, submit, take, finish, run, step, submitting, taking, finishing, pick,
}
use bmagent.Pow.Race.Served.{Keeps, run-start-Keeps}
use bmagent.Pow.Work.{every_other, report, work-every_other}

abbrev order : ℕ → Order
order n = record { target = n; object = n ∷ []; done = n }

abbrev three : Pow
three = (enqueue (order 3) (enqueue (order 2) (enqueue (order 1) new).0).0).0

abbrev three_orders : List Order
three_orders = order 1 ∷ order 2 ∷ order 3 ∷ []

three-Represents : Represents three three_orders
three-Represents =
    (enqueue-Represents (order 3) (enqueue (order 2) (enqueue (order 1) new).0).0
      (order 1 ∷ order 2 ∷ [])
      (enqueue-Represents (order 2) (enqueue (order 1) new).0 (order 1 ∷ [])
        (enqueue-Represents (order 1) new [] new-Represents).0).0).0

-- Digest and nonce, for the runs.
abbrev total : List ℕ → ℕ
total [] = 0
total (b ∷ bs) = b + total bs

-- The second order is never worked on.
three_worked : (q' : Pow) × (work total ◌+◌ 4 three ≡ some (q', (1, 2) ∷ (3, 6) ∷ []))
unfolding new enqueue write_tail dequeue work
three_worked = (_, refl)

enqueue-Represents_example :
    Represents (enqueue (order 4) three).0 (three_orders ++ order 4 ∷ [])
    × (((enqueue (order 4) three).1 ≡ true) ↔ (three_orders ≡ []))
enqueue-Represents_example = enqueue-Represents (order 4) three three_orders three-Represents

dequeue-Represents_example :
    ((dequeue three).1 ≡ peek three_orders) × Represents (dequeue three).0 (rest three_orders)
dequeue-Represents_example = dequeue-Represents three three_orders three-Represents

work-every_other_example :
    (q' : Pow) × (work total ◌+◌ 4 three
      ≡ some (q', map (report total ◌+◌) (every_other three_orders)))
    × Represents q' []
work-every_other_example =
    work-every_other total ◌+◌ 4 three three_orders three-Represents (omega arith)

-- The worker takes the first order; the second is then the head, and a third comes in before the
-- worker dequeues again and drops the second.
abbrev schedule : List Event
schedule = submit (order 1) ∷ take ∷ submit (order 2) ∷ submit (order 3) ∷ finish 0 ∷ []

-- Since the queue was empty when the second came in, two workers run.
two_workers : (run schedule start).ready ≡ 2
unfolding new enqueue write_tail dequeue run step submitting taking finishing pick
two_workers = refl

second_dropped : (run schedule start).dropped ≡ order 2 ∷ []
unfolding new enqueue write_tail dequeue run step submitting taking finishing pick
second_dropped = refl

run-start-Keeps_example : (xs : List Order) × Keeps (run schedule start) xs
run-start-Keeps_example = run-start-Keeps schedule
