-- ===== src/Kernel/Signal.antt =====
-- signal() keeps the kernel in order.
use mathlib.Core.Path.{subst}
use operating_systems_paging.Prelude.{
  ℕ, ◌-◌, ◌^◌, ◌<◌, ◌≡◌, ◌≢◌, refl, inl, inr, true, not, some, List, [], ◌∷◌, arith, Bool-cases,
  update, length,
}
use operating_systems_paging.Partial.{Ends, Ends-bind}
use operating_systems_paging.Queues.{dequeue}
use operating_systems_paging.Queues.Fifo.{dequeue-IsQueue}
use operating_systems_paging.Queues.Table.{IsList}
use operating_systems_paging.Semaphores.{nsem}
use operating_systems_paging.Kernel.{Kernel, Proc, pr_susp, set_state, with_queues, ready}
use operating_systems_paging.Kernel.Inv.{IsSched, Runs, squeue_of}
use operating_systems_paging.Kernel.Wake.{full, small, waiting, woken, not_current, dequeue-Popped}
use operating_systems_paging.Kernel.Leave.{Parks, parked-IsSched}
use operating_systems_paging.Kernel.Ready.{ready-Rescheduled}
use operating_systems_paging.Kernel.Semaphore.{counted_only, inc-idle, inc-IsCount, usable}
use operating_systems_paging.Kernel.System.{
  IsCount, Counted, InOrder, settled, set_count-IsSched, Counted-set,
}
use operating_systems_paging.Kernel.Wait.{
  sentry, set_count, is_unusable, negative, inc, ready_first, release, signal,
}

-- What ready() of the first process of queue `q` leaves, where `c` counts those that wait on it afterwards.
wakes :
    (k : Kernel) (view : ℕ → List ℕ) (q x : ℕ) (xs : List ℕ)
    → IsSched k view
    → Runs k
    → k.ndefers ≡ 0
    → IsList q
    → q ≢ k.readylist
    → view q ≡ x ∷ xs
    → Counted k (update view q xs)
    → Ends (ready_first q k) InOrder
unfolding ready_first
wakes k view q x xs i r z l a e c =
    rw ((dequeue-IsQueue k.queuetab q x xs (full k view q x xs i l a e)).0) (
      Ends-bind InOrder (ready x k2) (λ out. some out.1)
        (ready-Rescheduled k2 (update view q xs) x
          (parked-IsSched k view (dequeue q k.queuetab).1 q x xs p i park)
          (record { small = r.small; only = r.only; loaded = r.loaded }) z
          (small k view q x xs i l a e) (not_current k view q x xs i l a e r)
          ((waiting k view q x xs i l a e).0))
        (λ out d. settled (set_state x pr_susp k2) out.1 (update view q xs) i.queues c z d.1))
  where
    k2 : Kernel
    k2 = with_queues (dequeue q k.queuetab).1 k

    p : Proc
    p = record (k.proctab x) { prstate = pr_susp }

    park : Parks k view (dequeue q k.queuetab).1 q x xs p
    park =
        woken k view q x xs i l a e (dequeue q k.queuetab).1
          (dequeue-Popped k.queuetab q x xs (full k view q x xs i l a e))

releases :
    (k : Kernel) (sem : ℕ) (o : InOrder k)
    → sem < nsem
    → negative ((sentry sem k).scount) ≡ true
    → Ends (ready_first (squeue_of sem k) (set_count sem (inc ((sentry sem k).scount)) k)) InOrder
releases k sem o lt e = from (o.view (squeue_of sem k)) refl
  where
    from :
        (xs : List ℕ)
        → o.view (squeue_of sem k) ≡ xs
        → Ends
            (ready_first (squeue_of sem k) (set_count sem (inc ((sentry sem k).scount)) k))
            InOrder
    from [] h = absurd (ground (arith, count.bits, count.waiting, e))
      where
        count : IsCount ((sentry sem k).scount) 0
        count = subst (λ l. IsCount ((sentry sem k).scount) (length l)) h (o.counted sem lt)
    from (x ∷ xs) h =
        wakes (set_count sem (inc ((sentry sem k).scount)) k) o.view (squeue_of sem k) x xs
          (set_count-IsSched sem (inc ((sentry sem k).scount)) k o.view o.sched)
          (record { small = o.runs.small; only = o.runs.only; loaded = o.runs.loaded }) o.ndefers
          (o.sched.queues.sem_list sem lt) (o.sched.queues.sem_ready sem lt) h
          (Counted-set sem (inc ((sentry sem k).scount)) k o.view xs lt o.sched
            (λ s l n. o.counted s l)
            (inc-IsCount ((sentry sem k).scount) (length xs) e
              (subst (λ l. IsCount ((sentry sem k).scount) (length l)) h (o.counted sem lt))))

-- signal() on a semaphore whose count is not the largest int32 ends with the kernel in order, and returns
-- OK exactly for a semaphore in use.
pub signal-InOrder :
    (k : Kernel) (sem : ℕ)
    → InOrder k
    → (sentry sem k).scount ≢ 2 ^ 31 - 1
    → Ends (signal sem k) (λ out. (out.0 ≡ not (is_unusable sem k)) × InOrder out.1)
unfolding signal release
signal-InOrder k sem o ne = elim (Bool-cases (is_unusable sem k)) [
  | inl u ↦ rw u (refl, o)
  | inr u ↦ elim (Bool-cases (negative ((sentry sem k).scount))) [
    | inl e ↦
        rw (u, e)
          (Ends-bind (λ out. (out.0 ≡ true) × InOrder out.1)
            (ready_first (squeue_of sem k) (set_count sem (inc ((sentry sem k).scount)) k))
            (λ k'. some (true, k')) (releases k sem o (usable sem k u) e) (λ k' d. (refl, d)))
    | inr e ↦
        rw (u, e)
          (
            refl,
            counted_only k sem (inc ((sentry sem k).scount)) o (usable sem k u) (
                inc-idle ((sentry sem k).scount) (length (o.view (squeue_of sem k)))
                  (ground (arith, ne, e)) (o.counted sem (usable sem k u))),
          )
  ]
]
