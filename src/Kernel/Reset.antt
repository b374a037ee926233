-- ===== src/Kernel/Reset.antt =====
-- semreset() releases every process that waits and keeps the kernel in order.
use mathlib.Core.Path.{subst}
use operating_systems_paging.Prelude.{
  ℕ, zero, suc, ◌+◌, ◌<◌, ◌≡◌, ◌≢◌, refl, sym, ap, ◌∙◌, inl, inr, Bool, true, false, not,
  true≢false, ◌||◌, Option, some, none, List, [], ◌∷◌, arith, ◌==◌, ==_refl, Bool-cases, length,
}
use operating_systems_paging.Partial.{◌>>=◌, Ends, Ends-mono, Ends-bind}
use operating_systems_paging.Queues.{Queuetab, nproc, getfirst, getitem}
use operating_systems_paging.Queues.Order.{IsQueue}
use operating_systems_paging.Queues.Fifo.{getfirst_lem, getfirst_empty}
use operating_systems_paging.Queues.Table.{IsList}
use operating_systems_paging.Semaphores.{nsem}
use operating_systems_paging.Kernel.{Kernel, with_queues, ready, defer_start, defer_stop}
use operating_systems_paging.Kernel.Inv.{Apart, IsSched, squeue_of}
use operating_systems_paging.Kernel.System.{
  IsCount, Counted, InOrder, CountedBut, Counted-set, set_count-IsSched,
}
use operating_systems_paging.Kernel.Deferred.{
  Holding, Deferring, defer_start-Deferring, defer_stop-InOrder, Woken, wakes_held,
}
use operating_systems_paging.Kernel.Semaphore.{few_waiting, usable, update_self}
use operating_systems_paging.Kernel.Wake.{getitem-Popped}
use operating_systems_paging.Kernel.Waits.{NoneWaits, none_waits}
use operating_systems_paging.Kernel.Wait.{
  sentry, set_count, is_unusable, negative, ready_all, semreset,
}

-- Queue `q` has lost all its processes to the ready list.
pub record Emptied (k : Kernel) (view : ℕ → List ℕ) (q : ℕ) (k' : Kernel) : Type 0 where
  pub view' : ℕ → List ℕ
  pub holding : Holding k' view'
  pub semtab : k'.semtab ≡ k.semtab
  pub here : view' q ≡ []
  pub others : (r : ℕ) → q ≢ r → k.readylist ≢ r → view' r ≡ view r

-- A round of the loop of semreset(), after getfirst().
abbrev round : ℕ → ℕ → Kernel → Option ℕ × Queuetab → Option Kernel
round n q k (r, t) = elim r [
  | none ↦ some (with_queues t k)
  | some pid ↦ do (ok, k') ← ready pid (with_queues t k); ready_all n q k'
]

round_lem : (n q : ℕ) (k : Kernel) → ready_all (suc n) q k ≡ round n q k (getfirst q k.queuetab)
unfolding ready_all
round_lem n q k = refl

-- One process more has been released.
Woken-Emptied :
    (k : Kernel) (view : ℕ → List ℕ) (q : ℕ) (xs : List ℕ) (k' k'' : Kernel)
    (w : Woken k view q xs k')
    → Emptied k' w.view' q k''
    → Emptied k view q k''
Woken-Emptied k view q xs k' k'' w d = record {
  view' = d.view';
  holding = d.holding;
  semtab = d.semtab ∙ w.semtab;
  here = d.here;
  others = λ r nq nr. d.others r nq (λ z. nr (sym w.readylist ∙ z)) ∙ w.others r nq nr;
}

-- More rounds than processes that wait are enough for the loop of semreset().
ready_all-Emptied :
    (n : ℕ) (k : Kernel) (view : ℕ → List ℕ) (q : ℕ) (xs : List ℕ)
    → Holding k view
    → IsList q
    → q ≢ k.readylist
    → view q ≡ xs
    → length xs < n
    → Ends (ready_all n q k) (Emptied k view q)
unfolding ready_all
ready_all-Emptied zero k view q xs h l a e lt = absurd (omega (arith, lt))
ready_all-Emptied (suc n) k view q [] h l a e lt =
    subst (λ g. Ends (round n q k g) (Emptied k view q))
      (sym (getfirst_empty k.queuetab q (rw e at (h.sched.lists.table.queue q l))))
      (record { view' = view; holding = h; semtab = refl; here = e; others = λ r nq nr. refl })
ready_all-Emptied (suc n) k view q (x ∷ xs) h l a e lt =
    subst (λ g. Ends (round n q k g) (Emptied k view q))
      (sym (getfirst_lem k.queuetab q x xs at_front))
      (Ends-bind (Emptied k view q) (ready x (with_queues (getitem x k.queuetab) k))
        (λ out. ready_all n q out.1)
        (wakes_held k view (getitem x k.queuetab) q x xs h l a e
          (getitem-Popped k.queuetab q x xs at_front))
        (λ out d.
          Ends-mono (ready_all n q out.1) (λ k' m. Woken-Emptied k view q xs out.1 k' d.1 m)
            (ready_all-Emptied n out.1 d.1.view' q xs d.1.holding l (λ z. a (z ∙ d.1.readylist))
              d.1.here (omega (arith, lt)))))
  where
    at_front : IsQueue k.queuetab q (x ∷ xs)
    at_front = rw e at (h.sched.lists.table.queue q l)

-- The counts but for that of the semaphore whose queue has been emptied.
Emptied-CountedBut :
    (k k' : Kernel) (view : ℕ → List ℕ) (sem : ℕ) (d : Emptied k view (squeue_of sem k) k')
    → sem < nsem
    → IsSched k view
    → Counted k view
    → CountedBut sem k' d.view'
Emptied-CountedBut k k' view sem d lt i c =
    subst
      (λ t.
        (s : ℕ)
        → s < nsem
        → (sem == s) ≡ false
        → IsCount ((t.semtab s).scount) (length (d.view' ((t.semtab s).squeue))))
      (sym d.semtab)
      (λ s l n.
        subst (λ xs. IsCount ((sentry s k).scount) (length xs))
          (sym (d.others (squeue_of s k) (other s l n) (λ z. i.queues.sem_ready s l (sym z))))
          (c s l))
  where
    other : (s : ℕ) → s < nsem → (sem == s) ≡ false → squeue_of sem k ≢ squeue_of s k
    other s l n z =
        true≢false
          (sym (subst (λ r. (sem == r) ≡ true) (i.queues.sem_sem sem s lt l z) (==_refl sem)) ∙ n)

-- semreset() may then set any count that is not negative.
reset-Deferring :
    (k k' : Kernel) (view : ℕ → List ℕ) (sem count : ℕ) (d : Emptied k view (squeue_of sem k) k')
    → sem < nsem
    → IsSched k view
    → Counted k view
    → negative count ≡ false
    → Deferring (set_count sem count k')
reset-Deferring k k' view sem count d lt i c e = record {
  view = d.view';
  holding = record {
    sched = set_count-IsSched sem count k' d.view' d.holding.sched;
    runs = record {
      small = d.holding.runs.small;
      only = d.holding.runs.only;
      loaded = d.holding.runs.loaded;
    };
    ndefers = d.holding.ndefers;
    quiet = d.holding.quiet;
  };
  counted = subst (Counted (set_count sem count k')) (update_self d.view' (squeue_of sem k')) (
      Counted-set sem count k' d.view' (d.view' (squeue_of sem k')) lt d.holding.sched
        (Emptied-CountedBut k k' view sem d lt i c)
        (subst (λ t. IsCount count (length (d.view' ((t.semtab sem).squeue)))) (sym d.semtab)
          (subst (λ xs. IsCount count (length xs)) (sym d.here)
            (record {
              bits = ground (arith, e);
              idle = λ h. refl;
              waiting = λ h. ground (arith, e, h);
            }))));
}

-- what semreset() is to have done: the semaphore has the count and no process waits on it, and nothing has changed
-- when the result is SYSERR
abbrev pub Resets : ℕ → ℕ → Kernel → Kernel → Bool → Type 0
Resets sem count k k' true = ((sentry sem k').scount ≡ count) × NoneWaits sem k'
Resets sem count k k' false = k' ≡ k

resets :
    (k : Kernel) (sem count : ℕ)
    → InOrder k
    → negative count ≡ false
    → sem < nsem
    → Ends {A = Bool × Kernel}
        (ready_all (nproc + 1) ((sentry sem k).squeue) (defer_start k)
          >>= (λ k'. defer_stop (set_count sem count k') >>= (λ out. some (true, out.1))))
        (λ out. (out.0 ≡ true) × InOrder out.1 × Resets sem count k out.1 true)
unfolding defer_start
resets k sem count o e lt =
    Ends-bind (λ out. (out.0 ≡ true) × InOrder out.1 × Resets sem count k out.1 true)
      (ready_all (nproc + 1) (squeue_of sem (defer_start k)) (defer_start k))
      (λ k'. defer_stop (set_count sem count k') >>= (λ out. some (true, out.1)))
      (ready_all-Emptied (nproc + 1) (defer_start k) start.view (squeue_of sem k)
        (start.view (squeue_of sem k)) start.holding (queues.sem_list sem lt)
        (queues.sem_ready sem lt) refl few)
      (λ k' d.
        Ends-bind (λ out. (out.0 ≡ true) × InOrder out.1 × Resets sem count k out.1 true)
          (defer_stop (set_count sem count k')) (λ out. some (true, out.1))
          (defer_stop-InOrder (set_count sem count k') (
            reset-Deferring (defer_start k) k' start.view sem count d lt start.holding.sched
              start.counted e))
          (λ out (b, o', same). (
            refl,
            o',
            (
              count_set k' out.1 same,
              none_waits out.1 o' sem lt (ap negative (count_set k' out.1 same) ∙ e),
            ),
          )))
  where
    start : Deferring (defer_start k)
    start = defer_start-Deferring k o

    few : length (start.view (squeue_of sem k)) < nproc + 1
    few = omega (arith, few_waiting (defer_start k) start.view sem start.holding.sched lt)

    queues : Apart k.readylist k.sleepq (λ s. squeue_of s k)
    queues = o.sched.queues

    count_set :
        (k' out : Kernel)
        → out.semtab ≡ (set_count sem count k').semtab
        → (sentry sem out).scount ≡ count
    count_set k' out same = ap (λ t. (t.semtab sem).scount) same ∙ rw (==_refl sem) refl

-- semreset() ends with the kernel in order. For a semaphore in use and a count that is not negative it returns OK, the
-- semaphore has that count and no process waits on it; else the result is SYSERR and nothing changes.
pub semreset-InOrder :
    (k : Kernel) (sem count : ℕ)
    → InOrder k
    → Ends (semreset sem count k) (λ out.
      (out.0 ≡ not (negative count || is_unusable sem k))
      × InOrder out.1
      × Resets sem count k out.1 (not (negative count || is_unusable sem k)))
unfolding semreset
semreset-InOrder k sem count o = elim (Bool-cases (negative count || is_unusable sem k)) [
  | inl u ↦ rw u (refl, o, refl)
  | inr u ↦ rw u (resets k sem count o (ground arith) (usable sem k (ground arith)))
]
