-- ===== src/Pow/Race/Served.antt =====
-- No order waits without a worker, and every order is accounted for, in every interleaving.
use mathlib.Core.Bool.{true≢false}
use bmagent.Base.{
  ℕ, zero, suc, ◌+◌, ◌≤◌, ◌<◌, ◌≡◌, ◌⊎◌, inl, inr, refl, sym, ◌∙◌, none, some, List, [], ◌∷◌, ◌++◌,
  arith, length, if◌then◌else◌, Bool, Bool-cases, Option-cases,
}
use bmagent.Pow.{Order, enqueue, dequeue}
use bmagent.Pow.Links.{Represents, new-Represents}
use bmagent.Pow.Queue.{enqueue-Represents, dequeue-Represents, rest}
use bmagent.Pow.Race.{
  System, start, Event, submit, take, finish, pick, submitting, taking, finishing, step, run,
}

-- How many of the orders pass a test.
unfoldable pub times : (Order → Bool) → List Order → ℕ
times p [] = 0
times p (o ∷ os) = (if p o then 1 else 0) + times p os

times-append :
    (p : Order → Bool) (xs : List Order) (o : Order)
    → times p (xs ++ o ∷ []) ≡ times p xs + (if p o then 1 else 0)
unfolding times
times-append p [] o = omega arith
times-append p (x ∷ xs) o = omega (arith, times-append p xs o)

-- What every step keeps, where the queue holds the orders `xs`. The orders are accounted for as they came
-- in, by every test that an order passes or not.
pub record Keeps (s : System) (xs : List Order) : Type 0 where
  pub represented : Represents s.queue xs
  pub accounted :
      (p : Order → Bool)
      → times p s.submitted
        ≡ times p xs + (times p s.holding + (times p s.called + times p s.dropped))
  pub bounded : length s.dropped ≤ length s.called
  pub served : (xs ≡ []) ⊎ (0 < s.ready + length s.holding)

length-pick :
    (i : ℕ) (xs os : List Order) (o : Order)
    → pick i xs ≡ some (o, os)
    → length xs ≡ suc (length os)
unfolding pick
length-pick i [] os o e = ground arith
length-pick zero (x ∷ xs) os o e = ground arith
length-pick (suc i) (x ∷ xs) os o e = elim (Option-cases (pick i xs)) [
  | inl h ↦ ground arith
  | inr ((p, ps), h) ↦ ground (arith, length-pick i xs ps p h)
]

times-pick :
    (p : Order → Bool) (i : ℕ) (xs os : List Order) (o : Order)
    → pick i xs ≡ some (o, os)
    → times p xs ≡ (if p o then 1 else 0) + times p os
unfolding pick times
times-pick p i [] os o e = absurd (ground arith)
times-pick p zero (x ∷ xs) os o e = ground arith
times-pick p (suc i) (x ∷ xs) os o e = elim (Option-cases (pick i xs)) [
  | inl h ↦ absurd (ground arith)
  | inr ((q, ps), h) ↦ ground (arith, times-pick p i xs ps q h)
]

submitting-Keeps :
    (p : Order) (s : System) (xs : List Order) → Keeps s xs → Keeps (submitting p s) (xs ++ p ∷ [])
unfolding submitting times
submitting-Keeps p s xs k =
    let (r, starts) = enqueue-Represents p s.queue xs k.represented in
    record {
      represented = r;
      accounted = λ t. omega (arith, k.accounted t, times-append t xs p);
      bounded = k.bounded;
      served = elim (Bool-cases (enqueue p s.queue).1) [
        | inl e ↦ inr (ground arith)
        | inr e ↦ elim k.served [
          | inl empty ↦ absurd (true≢false (sym (starts.1 empty) ∙ e))
          | inr lt ↦ inr (ground arith)
        ]
      ];
    }

taking_idle : (s : System) → s.ready ≡ 0 → taking s ≡ s
unfolding taking
taking_idle s e = ground arith

taking_end :
    (s : System) (n : ℕ)
    → s.ready ≡ suc n
    → (dequeue s.queue).1 ≡ none
    → taking s ≡ record s { queue = (dequeue s.queue).0; ready = n }
unfolding taking
taking_end s n e d = rw (e, taking) (rw d refl)

taking_found :
    (s : System) (n : ℕ) (o : Order)
    → s.ready ≡ suc n
    → (dequeue s.queue).1 ≡ some o
    → taking s ≡ record s { queue = (dequeue s.queue).0; ready = n; holding = o ∷ s.holding }
unfolding taking
taking_found s n o e d = rw (e, taking) (rw d refl)

taking_at :
    (s : System) (n : ℕ) (xs : List Order)
    → s.ready ≡ suc n
    → Keeps s xs
    → Keeps (taking s) (rest xs)
unfolding times
taking_at s n [] e k =
    let (d, r) = dequeue-Represents s.queue [] k.represented in
    rw (taking_end s n e d) (record {
      represented = r;
      accounted = λ t. k.accounted t;
      bounded = k.bounded;
      served = inl refl;
    })
taking_at s n (x ∷ xs) e k =
    let (d, r) = dequeue-Represents s.queue (x ∷ xs) k.represented in
    rw (taking_found s n x e d) (record {
      represented = r;
      accounted = λ t. omega (arith, k.accounted t);
      bounded = k.bounded;
      served = inr (omega arith);
    })

taking-Keeps : (s : System) (xs : List Order) → Keeps s xs → (ys : List Order) × Keeps (taking s) ys
taking-Keeps s xs k = elim (zero_or_suc s.ready) [
  | inl e ↦ (xs, rw (taking_idle s e) k)
  | inr (n, e) ↦ (rest xs, taking_at s n xs e k)
]
  where
    zero_or_suc : (n : ℕ) → (n ≡ 0) ⊎ ((m : ℕ) × (n ≡ suc m))
    zero_or_suc zero = inl refl
    zero_or_suc (suc n) = inr (n, refl)

finishing-none : (i : ℕ) (s : System) → pick i s.holding ≡ none → finishing i s ≡ s
unfolding finishing
finishing-none i s e = rw (e, finishing) refl

finishing-some :
    (i : ℕ) (s : System) (o : Order) (os : List Order)
    → pick i s.holding ≡ some (o, os)
    → finishing i s ≡ record s {
      queue = (dequeue s.queue).0;
      ready = s.ready + 1;
      holding = os;
      called = o ∷ s.called;
      dropped = elim (dequeue s.queue).1 [ none ↦ s.dropped | some l ↦ l ∷ s.dropped ];
    }
unfolding finishing
finishing-some i s o os e = rw (e, finishing) refl

finishing_at :
    (i : ℕ) (s : System) (o : Order) (os xs : List Order)
    → pick i s.holding ≡ some (o, os)
    → Keeps s xs
    → Keeps (finishing i s) (rest xs)
unfolding times
finishing_at i s o os [] e k =
    let (d, r) = dequeue-Represents s.queue [] k.represented in
    rw (finishing-some i s o os e) (
      rw d (record {
        represented = r;
        accounted = λ t. omega (arith, k.accounted t, times-pick t i s.holding os o e);
        bounded = omega (arith, k.bounded);
        served = inl refl;
      }))
finishing_at i s o os (x ∷ xs) e k =
    let (d, r) = dequeue-Represents s.queue (x ∷ xs) k.represented in
    rw (finishing-some i s o os e) (
      rw d (record {
        represented = r;
        accounted = λ t. omega (arith, k.accounted t, times-pick t i s.holding os o e);
        bounded = omega (arith, k.bounded);
        served = inr (omega arith);
      }))

step-Keeps :
    (e : Event) (s : System) (xs : List Order)
    → Keeps s xs
    → (ys : List Order) × Keeps (step e s) ys
unfolding step
step-Keeps (submit p) s xs k = (xs ++ p ∷ [], submitting-Keeps p s xs k)
step-Keeps take s xs k = taking-Keeps s xs k
step-Keeps (finish i) s xs k = elim (Option-cases (pick i s.holding)) [
  | inl e ↦ (xs, rw (finishing-none i s e) k)
  | inr ((o, os), e) ↦ (rest xs, finishing_at i s o os xs e k)
]

run-Keeps :
    (events : List Event) (s : System) (xs : List Order)
    → Keeps s xs
    → (ys : List Order) × Keeps (run events s) ys
unfolding run
run-Keeps [] s xs k = (xs, k)
run-Keeps (e ∷ events) s xs k =
    let (ys, k') = step-Keeps e s xs k in run-Keeps events (step e s) ys k'

start-Keeps : Keeps start []
unfolding times
start-Keeps = record {
  represented = new-Represents;
  accounted = λ t. refl;
  bounded = omega arith;
  served = inl refl;
}

-- In every interleaving the heap represents a queue of orders, and a queue that is not empty has a
-- worker. The orders that came in are those in the queue, those that workers hold, those called back and
-- those dropped, each as often and as it came in: every test counts the same in both. No more orders
-- are dropped than are called back.
pub run-start-Keeps : (events : List Event) → (xs : List Order) × Keeps (run events start) xs
run-start-Keeps events = run-Keeps events start [] start-Keeps
