-- ===== src/Queues/Fifo.antt =====
-- enqueue(), dequeue(), getitem() and newqueue() as operations on the sequence of processes.
use mathlib.Core.List.{append-nil}
use operating_systems_paging.Prelude.{
  ℕ, ◌+◌, ◌-◌, ◌≤◌, ◌<◌, ◌≡◌, refl, ◌∙◌, ap, head_or, Bool, false, some, none, List, [], ◌∷◌, ◌++◌,
  arith, contains, contains-append, NoRepeat-middle, lt→leb, leb→ltb,
}
use operating_systems_paging.Queues.{
  Queuetab, nproc, nqent, queuetail, empty, enqueue, dequeue, getfirst, getitem, newqueue,
  set_qnext, set_qprev,
}
use operating_systems_paging.Queues.Chain.{Chain-same, getitem-Chain, links_of, absent_ne, head_in}
use operating_systems_paging.Queues.Order.{IsQueue, outside, link-IsQueue, getitem_qkey}

-- On a well-formed queue, enqueue() of a live process that is not in it returns the process and appends it.
pub enqueue-IsQueue :
    (free : ℕ → Bool) (t : Queuetab) (q : ℕ) (xs : List ℕ) (pid : ℕ)
    → IsQueue t q xs
    → pid < nproc
    → free pid ≡ false
    → contains pid xs ≡ false
    → ((enqueue free pid q t).0 ≡ some pid) × IsQueue (enqueue free pid q t).1 q (xs ++ pid ∷ [])
unfolding enqueue
enqueue-IsQueue free t q xs pid i lt live new =
    rw (lt→leb (nqent - 1) q i.known, lt→leb nproc pid lt, live)
      (refl, link-IsQueue t q xs [] pid (rw (append-nil xs) i) lt (rw (append-nil xs) new))

-- getitem() of a process anywhere in a well-formed queue takes it out and keeps the others in order.
pub getitem-IsQueue :
    (t : Queuetab) (q : ℕ) (xs : List ℕ) (x : ℕ) (ys : List ℕ)
    → IsQueue t q (xs ++ x ∷ ys)
    → IsQueue (getitem x t) q (xs ++ ys)
getitem-IsQueue t q xs x ys i = record {
  chain =
      getitem-Chain t q xs x ys (queuetail q)
        (ground (arith, outside t q (xs ++ x ∷ ys) i (queuetail q) (omega (arith, i.above))))
        (outside t q (xs ++ x ∷ ys) i q i.above, i.no_repeat) i.chain;
  procs = λ y e. i.procs y (ground (arith, contains-append y xs ys, contains-append y xs (x ∷ ys)));
  no_repeat = (NoRepeat-middle xs x ys i.no_repeat).2;
  above = i.above;
  known = i.known;
  tail_key = getitem_qkey x t (queuetail q) ∙ i.tail_key;
}

pub getfirst_lem :
    (t : Queuetab) (q x : ℕ) (xs : List ℕ)
    → IsQueue t q (x ∷ xs)
    → getfirst q t ≡ (some x, getitem x t)
unfolding getfirst
getfirst_lem t q x xs i = rw (i.chain.0, lt→leb nproc x (i.procs x (ground arith))) refl

-- dequeue() of a well-formed queue that is not empty returns its first process and leaves the rest in
-- order.
pub dequeue-IsQueue :
    (t : Queuetab) (q x : ℕ) (xs : List ℕ)
    → IsQueue t q (x ∷ xs)
    → ((dequeue q t).0 ≡ some x) × IsQueue (dequeue q t).1 q xs
unfolding dequeue getfirst getitem
dequeue-IsQueue t q x xs i =
    rw
      (
        lt→leb (nqent - 1) q i.known,
        getfirst_lem t q x xs i,
        i.chain.0,
        lt→leb nproc x (i.procs x (ground arith)),
      )
      (refl, detached (getitem x t) (getitem-IsQueue t q [] x xs i))
  where
    detached :
        (u : Queuetab) → IsQueue u q xs → IsQueue (set_qnext x empty (set_qprev x empty u)) q xs
    detached u j = record {
      chain =
          Chain-same u (set_qnext x empty (set_qprev x empty u)) q xs (queuetail q)
            (λ y e. ground (arith, i.no_repeat, i.procs x, i.above))
            (λ y e. ground (arith, i.no_repeat, i.procs x, i.above)) j.chain;
      procs = j.procs;
      no_repeat = j.no_repeat;
      above = j.above;
      known = j.known;
      tail_key = ground (arith, j.tail_key);
    }

pub getfirst_empty : (t : Queuetab) (q : ℕ) → IsQueue t q [] → getfirst q t ≡ (none, t)
unfolding getfirst
getfirst_empty t q i = ground (arith, i.chain.0, i.above, i.known)

-- dequeue() of a well-formed empty queue returns EMPTY and changes nothing.
pub dequeue_empty : (t : Queuetab) (q : ℕ) → IsQueue t q [] → dequeue q t ≡ (none, t)
unfolding dequeue getfirst getitem
dequeue_empty t q i = ground (arith, i.chain.0, i.above, i.known)

-- When nextqid is at least NPROC and less than NQENT - 1, newqueue() returns it as an empty well-formed
-- queue and moves nextqid on by two.
pub newqueue-IsQueue :
    (t : Queuetab) (next : ℕ)
    → nproc ≤ next
    → next < nqent - 1
    → ((newqueue next t).0 ≡ some next)
      × ((newqueue next t).1 ≡ next + 2)
      × IsQueue (newqueue next t).2 next []
unfolding newqueue
newqueue-IsQueue t next lo hi = rw (leb→ltb next nqent (omega arith)) (
  refl,
  omega arith,
  record {
    chain = (ground arith, ground arith);
    procs = λ x e. absurd (ground arith);
    no_repeat = tt;
    above = lo;
    known = hi;
    tail_key = ground arith;
  },
)

-- dequeue() changes no key, and no entry but those of the queue.
dequeued :
    (t : Queuetab) (q x : ℕ) (xs : List ℕ)
    → IsQueue t q (x ∷ xs)
    → (dequeue q t).1 ≡ set_qnext x empty (set_qprev x empty (getitem x t))
unfolding dequeue getfirst getitem
dequeued t q x xs i =
    rw
      (
        lt→leb (nqent - 1) q i.known,
        getfirst_lem t q x xs i,
        i.chain.0,
        lt→leb nproc x (i.procs x (ground arith)),
      )
      refl

pub dequeue_keys :
    (t : Queuetab) (q x : ℕ) (xs : List ℕ) (y : ℕ)
    → IsQueue t q (x ∷ xs)
    → ((dequeue q t).1 y).qkey ≡ (t y).qkey
dequeue_keys t q x xs y i =
    ap (λ u. (u y).qkey) (dequeued t q x xs i)
    ∙ ground (arith, getitem_qkey x t y, getitem_qkey x t x)

first_links :
    (t : Queuetab) (q x : ℕ) (xs : List ℕ)
    → IsQueue t q (x ∷ xs)
    → ((t x).qprev ≡ q) × ((t x).qnext ≡ head_or xs (queuetail q))
first_links t q x xs i = links_of t q [] x xs (queuetail q) i.chain

pub dequeue-same :
    (t : Queuetab) (q x : ℕ) (xs : List ℕ) (y : ℕ)
    → IsQueue t q (x ∷ xs)
    → contains y (x ∷ q ∷ queuetail q ∷ x ∷ xs) ≡ false
    → (dequeue q t).1 y ≡ t y
unfolding getitem
dequeue-same t q x xs y i h =
    ap (λ u. u y) (dequeued t q x xs i)
    ∙ ground (
      arith,
      first_links t q x xs i,
      absent_ne y (head_or xs (queuetail q)) (queuetail q ∷ xs) (ground arith)
          (head_in xs (queuetail q)),
    )
