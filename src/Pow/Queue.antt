-- ===== src/Pow/Queue.antt =====
-- The linked list of powmgr/pow.go is a first-in first-out queue.
use bmagent.Base.{
  ◌↔◌, ℕ, ◌+◌, ◌≡◌, refl, sym, ap, subst, true, false, Option, none, some, List, [], ◌∷◌, ◌++◌,
  arith, put,
}
use bmagent.Pow.{Order, Node, Pow, write_tail, enqueue, dequeue}
use bmagent.Pow.Links.{
  Link, orders, first, AllBelow, IsChain, IsLast, Represents, IsChain-put, IsChain-snoc,
  orders-snoc, AllBelow-snoc, last_from-snoc,
}

enqueue_busy :
    (p : Order) (q : Pow) (h : ℕ)
    → q.head ≡ some h
    → enqueue p q ≡ (
      record {
        nodes = write_tail q.tail q.fresh (put q.fresh (record { order = p; next = none }) q.nodes);
        fresh = q.fresh + 1;
        head = q.head;
        tail = some q.fresh;
      },
      false,
    )
unfolding enqueue
enqueue_busy p q h e = ground arith

-- `enqueue` on the links, empty or not.
enqueue_at :
    (p : Order) (q : Pow) (links : List Link)
    → IsChain q.nodes links
    → AllBelow q.fresh links
    → q.head ≡ first links
    → IsLast links q.tail
    → Represents (enqueue p q).0 (orders links ++ p ∷ [])
unfolding enqueue
enqueue_at p q [] chain below h t =
    rw (h, enqueue)
      (record {
        links = (q.fresh, p) ∷ [];
        content = refl;
        chain = (ground arith, tt, tt);
        below = (omega arith, tt);
        head_first = refl;
        tail_last = refl;
      })
enqueue_at p q ((a, o) ∷ links) chain below h t =
    subst (λ r. Represents r.0 (o ∷ orders links ++ p ∷ [])) (sym (enqueue_busy p q a h))
      (record {
        links = (a, o) ∷ links ++ (q.fresh, p) ∷ [];
        content = orders-snoc ((a, o) ∷ links) q.fresh p;
        chain =
            subst
              (λ w.
                IsChain
                  (write_tail w q.fresh (put q.fresh (record { order = p; next = none }) q.nodes))
                  ((a, o) ∷ links ++ (q.fresh, p) ∷ []))
              (sym t)
              (IsChain-snoc (put q.fresh (record { order = p; next = none }) q.nodes) q.fresh p a o
                links (ground arith) below
                (IsChain-put q.nodes q.fresh (record { order = p; next = none }) ((a, o) ∷ links)
                  below chain));
        below = AllBelow-snoc q.fresh p ((a, o) ∷ links) below;
        head_first = h;
        tail_last = ap some (sym (last_from-snoc a q.fresh p links));
      })

-- A worker is started exactly if the queue was empty.
starts_iff :
    (p : Order) (q : Pow) (links : List Link)
    → q.head ≡ first links
    → ((enqueue p q).1 ≡ true) ↔ (orders links ≡ [])
unfolding enqueue
starts_iff p q [] h = (λ e. refl, λ e. rw (h, enqueue))
starts_iff p q ((a, o) ∷ links) h = (λ e. ground arith, λ e. cc)

-- On a heap that represents a queue `enqueue` adds the order at the end, and starts a worker exactly if the queue was empty.
pub enqueue-Represents :
    (p : Order) (q : Pow) (xs : List Order)
    → Represents q xs
    → Represents (enqueue p q).0 (xs ++ p ∷ []) × (((enqueue p q).1 ≡ true) ↔ (xs ≡ []))
enqueue-Represents p q xs r = (
  subst (λ ys. Represents (enqueue p q).0 (ys ++ p ∷ [])) r.content
      (enqueue_at p q r.links r.chain r.below r.head_first r.tail_last),
  subst (λ ys. ((enqueue p q).1 ≡ true) ↔ (ys ≡ [])) r.content
      (starts_iff p q r.links r.head_first),
)

abbrev pub peek : List Order → Option Order
peek [] = none
peek (x ∷ xs) = some x

abbrev pub rest : List Order → List Order
rest [] = []
rest (x ∷ xs) = xs

dequeue_node :
    (q : Pow) (a : ℕ) (n : Node)
    → q.head ≡ some a
    → q.nodes a ≡ some n
    → dequeue q ≡ (record q { head = n.next }, some n.order)
unfolding dequeue
dequeue_node q a n h e = rw (h, dequeue) (rw (e, dequeue))

IsLast-rest :
    (a : ℕ) (o : Order) (links : List Link) (tail : Option ℕ)
    → IsLast ((a, o) ∷ links) tail
    → IsLast links tail
IsLast-rest a o [] tail h = tt
IsLast-rest a o ((b, o') ∷ links) tail h = h

dequeue_at :
    (q : Pow) (links : List Link)
    → IsChain q.nodes links
    → AllBelow q.fresh links
    → q.head ≡ first links
    → IsLast links q.tail
    → ((dequeue q).1 ≡ peek (orders links)) × Represents (dequeue q).0 (rest (orders links))
unfolding dequeue
dequeue_at q [] chain below h t = (
  rw (h, dequeue),
  rw (h, dequeue)
      (record {
        links = [];
        content = refl;
        chain = tt;
        below = tt;
        head_first = h;
        tail_last = tt;
      }),
)
dequeue_at q ((a, o) ∷ links) chain below h t =
    subst (λ r. (r.1 ≡ some o) × Represents r.0 (orders links))
      (sym (dequeue_node q a (record { order = o; next = first links }) h chain.0))
      (
        refl,
        record {
          links = links;
          content = refl;
          chain = chain.2;
          below = below.1;
          head_first = refl;
          tail_last = IsLast-rest a o links q.tail t;
        },
      )

-- On a heap that represents a queue `dequeue` takes the first order off the front; on an empty queue it returns nil and changes
-- nothing that the queue holds.
pub dequeue-Represents :
    (q : Pow) (xs : List Order)
    → Represents q xs
    → ((dequeue q).1 ≡ peek xs) × Represents (dequeue q).0 (rest xs)
dequeue-Represents q xs r =
    subst (λ ys. ((dequeue q).1 ≡ peek ys) × Represents (dequeue q).0 (rest ys)) r.content
      (dequeue_at q r.links r.chain r.below r.head_first r.tail_last)
