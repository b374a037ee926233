-- ===== src/Kernel/Semaphore.antt =====
-- wait() keeps the kernel in order.
use mathlib.Core.Path.{subst, fun_ext}
use operating_systems_paging.Prelude.{
  ℕ, suc, ◌+◌, ◌-◌, ◌^◌, ◌≤◌, ◌<◌, ◌≡◌, ◌≢◌, refl, sym, ap, ◌∙◌, inl, inr, true, false, not, some,
  List, [], ◌∷◌, ◌++◌, arith, ◌==◌, ==→≡, ==_refl, ==_ne, Bool-cases, update, contains,
  contains-append, length, length-append,
}
use operating_systems_paging.Partial.{Ends, Ends-bind}
use operating_systems_paging.Queues.{Queuetab, nproc, enqueue}
use operating_systems_paging.Queues.Fifo.{enqueue-IsQueue}
use operating_systems_paging.Queues.Local.{enqueue_keys, enqueue-same}
use operating_systems_paging.Queues.Sorted.{length-bound}
use operating_systems_paging.Semaphores.{nsem}
use operating_systems_paging.Kernel.{Kernel, Proc, pr_wait, set_proc, free_in, resched}
use operating_systems_paging.Kernel.Placed.{at_queue}
use operating_systems_paging.Kernel.Inv.{IsSched, Runs, home, squeue_of, Runs-home}
use operating_systems_paging.Kernel.Leave.{Parks, parked, parked-IsSched, parked-Blocked}
use operating_systems_paging.Kernel.System.{
  IsCount, Counted, InOrder, resched-InOrder, squeue-set_count, set_count-IsSched, Counted-set,
}
use operating_systems_paging.Kernel.Wait.{
  sentry, set_count, is_unusable, negative, inc, dec, block, wait,
}

-- What the process that waits becomes.
abbrev waiter : ℕ → Kernel → Proc
waiter sem k = record (k.proctab k.currpid) { prstate = pr_wait; prsem = sem }

live_curr : (k : Kernel) (sem : ℕ) → free_in (set_proc k.currpid (waiter sem k) k) k.currpid ≡ false
live_curr k sem = ground (arith, ==_refl k.currpid)

module _ (k : Kernel) (view : ℕ → List ℕ) (sem : ℕ) (i : IsSched k view) (r : Runs k)
    (lt : sem < nsem) (ne : k.currpid ≢ 0) where
  abbrev sq : ℕ
  sq = squeue_of sem k

  abbrev enqueued : Queuetab
  enqueued = (enqueue (free_in (set_proc k.currpid (waiter sem k) k)) k.currpid sq k.queuetab).1

  absent_curr : contains k.currpid (view sq) ≡ false
  absent_curr =
      i.lists.placed k.currpid sq r.small (i.queues.sem_list sem lt)
      ∙ ap (λ o. at_queue o sq) (Runs-home k r)

  home-waiter : home (set_proc k.currpid (waiter sem k) k) k.currpid ≡ some sq
  home-waiter = ground (arith, ==_refl k.currpid)

  wait-Parks : Parks k view enqueued sq k.currpid (view sq ++ k.currpid ∷ []) (waiter sem k)
  wait-Parks = record {
    list = i.queues.sem_list sem lt;
    queue =
        (enqueue-IsQueue (free_in (set_proc k.currpid (waiter sem k) k)) k.queuetab sq (view sq)
          k.currpid (i.lists.table.queue sq (i.queues.sem_list sem lt)) r.small (live_curr k sem)
          absent_curr).1;
    same = λ y h.
        enqueue-same (free_in (set_proc k.currpid (waiter sem k) k)) k.queuetab sq (view sq)
          k.currpid y (i.lists.table.queue sq (i.queues.sem_list sem lt)) r.small (live_curr k sem)
          h;
    small = r.small;
    not_null = ne;
    was = inl (Runs-home k r);
    becomes = inr home-waiter;
    here = ground (
      arith,
      contains-append k.currpid (view sq) (k.currpid ∷ []),
      ap (λ o. at_queue o sq) home-waiter,
      ==_refl k.currpid,
      ==_refl sq,
    );
    there = λ x n. ground (arith, contains-append x (view sq) (k.currpid ∷ []));
    off =
        ap (λ o. at_queue o k.readylist) home-waiter
        ∙ ==_ne sq k.readylist (i.queues.sem_ready sem lt);
    prio = refl;
    same_keys = λ y m.
        enqueue_keys (free_in (set_proc k.currpid (waiter sem k) k)) k.currpid sq k.queuetab y;
    sorted = rw (==_ne sq k.readylist (i.queues.sem_ready sem lt)) i.descending;
  }

-- A semaphore that can be used is in the table.
pub usable : (sem : ℕ) (k : Kernel) → is_unusable sem k ≡ false → sem < nsem
usable sem k h = ground arith

-- The count after wait(), when no more than NPROC processes wait.
dec-IsCount :
    (c n : ℕ) → n ≤ nproc → IsCount c n → negative (dec c) ≡ true → IsCount (dec c) (n + 1)
dec-IsCount c n l h e = record {
  bits = ground (arith, h.bits, h.idle, h.waiting, e);
  idle = λ b. ground (arith, h.bits, h.idle, h.waiting, e);
  waiting = λ b. ground (arith, h.bits, h.idle, h.waiting, e);
}

dec-idle : (c n : ℕ) → n ≤ nproc → IsCount c n → negative (dec c) ≡ false → IsCount (dec c) n
dec-idle c n l h e = record {
  bits = ground (arith, h.bits, h.idle, h.waiting, e);
  idle = λ b. ground (arith, h.bits, h.idle, h.waiting, e);
  waiting = λ b. ground (arith, h.bits, h.idle, h.waiting, e);
}

pub inc-idle : (c n : ℕ) → c < 2 ^ 31 - 1 → IsCount c n → IsCount (inc c) n
inc-idle c n b h = record {
  bits = ground (arith, b, h.bits, h.idle, h.waiting);
  idle = λ d. ground (arith, b, h.bits, h.idle, h.waiting);
  waiting = λ d. ground (arith, b, h.bits, h.idle, h.waiting);
}

pub inc-IsCount : (c n : ℕ) → negative c ≡ true → IsCount c (suc n) → IsCount (inc c) n
inc-IsCount c n e h = record {
  bits = ground (arith, h.bits, h.idle, h.waiting, e);
  idle = λ b. ground (arith, h.bits, h.idle, h.waiting, e);
  waiting = λ b. ground (arith, h.bits, h.idle, h.waiting, e);
}

pub update_self : (f : ℕ → List ℕ) (a : ℕ) → update f a (f a) ≡ f
update_self f a = fun_ext (λ x. at x)
  where
    at : (x : ℕ) → update f a (f a) x ≡ f x
    at x = elim (Bool-cases (a == x)) [ inl e ↦ rw e (ap f (==→≡ a x e)) | inr e ↦ rw e refl ]

-- The calls that only change a count.
pub counted_only :
    (k : Kernel) (sem c : ℕ) (o : InOrder k)
    → sem < nsem
    → IsCount c (length (o.view (squeue_of sem k)))
    → InOrder (set_count sem c k)
counted_only k sem c o lt h = record {
  view = o.view;
  sched = set_count-IsSched sem c k o.view o.sched;
  runs = record { small = o.runs.small; only = o.runs.only; loaded = o.runs.loaded };
  highest = o.highest;
  counted =
      subst (λ v. Counted (set_count sem c k) v) (update_self o.view (squeue_of sem k))
        (Counted-set sem c k o.view (o.view (squeue_of sem k)) lt o.sched (λ s l n. o.counted s l)
          h);
  ndefers = o.ndefers;
}

pub few_waiting :
    (k : Kernel) (view : ℕ → List ℕ) (sem : ℕ)
    → IsSched k view
    → sem < nsem
    → length (view (squeue_of sem k)) ≤ nproc
few_waiting k view sem i lt =
    let q = i.lists.table.queue (squeue_of sem k) (i.queues.sem_list sem lt) in
    length-bound nproc (view (squeue_of sem k)) q.no_repeat q.procs

blocks :
    (k : Kernel) (sem : ℕ) (o : InOrder k)
    → sem < nsem
    → k.currpid ≢ 0
    → negative (dec ((sentry sem k).scount)) ≡ true
    → Ends (resched (block sem (set_count sem (dec ((sentry sem k).scount)) k))) InOrder
unfolding block
blocks k sem o lt ne e =
    resched-InOrder
      (parked k1 o.view (enqueued k1 o.view sem i r lt ne) (squeue_of sem k1) k.currpid ys
        (waiter sem k1) i park)
      (update o.view (squeue_of sem k1) ys)
      (parked-IsSched k1 o.view (enqueued k1 o.view sem i r lt ne) (squeue_of sem k1) k.currpid ys
        (waiter sem k1) i park)
      (inr (
        parked-Blocked k1 o.view (enqueued k1 o.view sem i r lt ne) (squeue_of sem k1) k.currpid ys
          (waiter sem k1) i park r refl refl))
      counts o.ndefers
  where
    k1 : Kernel
    k1 = set_count sem (dec ((sentry sem k).scount)) k

    i : IsSched k1 o.view
    i = set_count-IsSched sem (dec ((sentry sem k).scount)) k o.view o.sched

    r : Runs k1
    r = record { small = o.runs.small; only = o.runs.only; loaded = o.runs.loaded }

    ys : List ℕ
    ys = o.view (squeue_of sem k1) ++ k.currpid ∷ []

    park :
        Parks k1 o.view
          (enqueued k1 o.view sem i r lt ne)
          (squeue_of sem k1)
          k.currpid
          ys
          (waiter sem k1)
    park = wait-Parks k1 o.view sem i r lt ne

    counts : Counted k1 (update o.view (squeue_of sem k1) ys)
    counts =
        subst (λ q. Counted k1 (update o.view q (o.view q ++ k.currpid ∷ [])))
          (sym (squeue-set_count sem (dec ((sentry sem k).scount)) sem k))
          (Counted-set sem (dec ((sentry sem k).scount)) k o.view
            (o.view (squeue_of sem k) ++ k.currpid ∷ []) lt o.sched (λ s l n. o.counted s l)
            (subst (IsCount (dec ((sentry sem k).scount)))
              (sym (length-append (o.view (squeue_of sem k)) (k.currpid ∷ [])))
              (dec-IsCount ((sentry sem k).scount) (length (o.view (squeue_of sem k)))
                (few_waiting k o.view sem o.sched lt) (o.counted sem lt) e)))

-- wait() called by a process other than the null process ends with the kernel in order, and returns OK
-- exactly for a semaphore in use.
pub wait-InOrder :
    (k : Kernel) (sem : ℕ)
    → InOrder k
    → k.currpid ≢ 0
    → Ends (wait sem k) (λ out. (out.0 ≡ not (is_unusable sem k)) × InOrder out.1)
unfolding wait
wait-InOrder k sem o ne = elim (Bool-cases (is_unusable sem k)) [
  | inl u ↦ rw u (refl, o)
  | inr u ↦ elim (Bool-cases (negative (dec ((sentry sem k).scount)))) [
    | inl e ↦
        rw (u, e)
          (Ends-bind (λ out. (out.0 ≡ true) × InOrder out.1)
            (resched (block sem (set_count sem (dec ((sentry sem k).scount)) k)))
            (λ k'. some (true, k')) (blocks k sem o (usable sem k u) ne e) (λ k' d. (refl, d)))
    | inr e ↦
        rw (u, e)
          (
            refl,
            counted_only k sem (dec ((sentry sem k).scount)) o (usable sem k u) (
                dec-idle ((sentry sem k).scount) (length (o.view (squeue_of sem k)))
                  (few_waiting k o.view sem o.sched (usable sem k u))
                  (o.counted sem (usable sem k u)) e),
          )
  ]
]
