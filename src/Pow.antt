-- ===== src/Pow.antt =====
-- powmgr/pow.go: the queue of proof-of-work orders and the worker that empties it. The nodes of
-- the linked list stand in a heap; `head` is the address of the first node, and `tail`, a pointer to
-- the `next` field that the next order is written to, is the address of the node with that field.
pub mod Links
pub mod Queue
pub mod Work
pub mod Race
mod Tests
use bmagent.Base.{
  ℕ, zero, suc, ◌+◌, Bool, true, false, Option, none, some, List, [], ◌∷◌, ◌==◌, if◌then◌else◌,
  IdMap, empty_map, put,
}

-- `powOrder`: the target, the bytes to work on, and the name of the callback.
pub record Order : Type 0 where
  pub target : ℕ
  pub object : List ℕ
  pub done : ℕ

pub record Node : Type 0 where
  pub order : Order
  pub next : Option ℕ

pub record Pow : Type 0 where
  pub nodes : IdMap Node
  pub fresh : ℕ
  pub head : Option ℕ
  pub tail : Option ℕ

pub new : Pow
new = record { nodes = empty_map; fresh = 0; head = none; tail = none }

-- `*q.tail = node`: the field that `tail` points to; a nil pointer is a fault, left out here, since
-- `tail` is set whenever `head` is.
pub write_tail : Option ℕ → ℕ → IdMap Node → IdMap Node
write_tail none a nodes = nodes
write_tail (some t) a nodes = elim (nodes t) [
  | none ↦ nodes
  | some n ↦ put t (record n { next = some a }) nodes
]

-- `enqueue`: the queue, and whether a worker is started.
pub enqueue : Order → Pow → Pow × Bool
unfolding write_tail
enqueue p q =
    let a = q.fresh in
    let nodes = put a (record { order = p; next = none }) q.nodes in
    elim q.head [
      | none ↦ (record { nodes = nodes; fresh = a + 1; head = some a; tail = some a }, true)
      | some h ↦ (
        record { nodes = write_tail q.tail a nodes; fresh = a + 1; head = q.head; tail = some a },
        false,
      )
    ]

pub dequeue : Pow → Pow × Option Order
dequeue q = elim q.head [
  | none ↦ (q, none)
  | some h ↦ elim (q.nodes h) [
    | none ↦ (q, none)
    | some n ↦ (record q { head = n.next }, some n.order)
  ]
]

module _ {H : Type 0} (sha512 : List ℕ → H) (pow_func : ℕ → H → ℕ) where
  -- `work`, alone on the queue: the callbacks that it makes, each with its nonce, and the queue
  -- that it leaves; `none` if the fuel runs out. The second `dequeue` stands in the source.
  pub work : ℕ → Pow → Option (Pow × List (ℕ × ℕ))
  work zero q = none
  work (suc fuel) q =
      let (q1, order) = dequeue q in
      elim order [
        | none ↦ some (q1, [])
        | some o ↦
            let n = pow_func o.target (sha512 o.object) in
            let q2 = (dequeue q1).0 in
            elim (work fuel q2) [ none ↦ none | some (q3, done) ↦ some (q3, (o.done, n) ∷ done) ]
      ]
