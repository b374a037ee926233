-- ===== src/Kernel/Kill.antt =====
-- The switch of system/kill.c, by which a process leaves the scheduler.
use mathlib.Core.Path.{subst}
use operating_systems_paging.Prelude.{
  ℕ, ◌<◌, ◌≡◌, ◌≢◌, refl, sym, ap, ◌∙◌, inl, inr, Bool, true, false, true≢false, Option, some, List,
  [], ◌∷◌, ◌++◌, arith, ==_refl, Bool-cases, contains, contains-split, contains-append, head_or,
  last_or,
}
use operating_systems_paging.Partial.{Ends, Ends-mono}
use operating_systems_paging.Queues.{nproc, getitem, queuetail, is_bad_pid}
use operating_systems_paging.Queues.Chain.{Chain, links_of}
use operating_systems_paging.Queues.Table.{IsList}
use operating_systems_paging.Semaphores.{nsem}
use operating_systems_paging.Kernel.{
  Kernel, Prstate, pr_free, pr_curr, pr_ready, pr_recv, pr_sleep, pr_susp, pr_wait, pr_rectim,
  is_free, is_curr, state_of, set_state, free_in, with_queues, resched,
}
use operating_systems_paging.Kernel.Placed.{at_queue}
use operating_systems_paging.Kernel.Inv.{queue_for, home, squeue_of}
use operating_systems_paging.Kernel.Wait.{sentry, set_count, inc}
use operating_systems_paging.Kernel.Sleep.{unsleep, is_next, is_asleep}
use operating_systems_paging.Kernel.Clock.{rekeyed-InOrder}
use operating_systems_paging.Kernel.System.{InOrder}
use operating_systems_paging.Kernel.Remove.{
  IsOut, removed-resched, off_ready-InOrder, off_sleep-InOrder, off_semaphore-InOrder,
}
use operating_systems_paging.Kernel.Enter.{entered-InOrder}

-- `switch (prptr->prstate)` of kill()
unfoldable pub end_process : ℕ → Kernel → Option Kernel
end_process pid k = elim (state_of pid k) [
  | pr_curr ↦ resched (set_state pid pr_free k)
  | pr_sleep ↦ some (set_state pid pr_free (unsleep pid k).1)
  | pr_rectim ↦ some (set_state pid pr_free (unsleep pid k).1)
  | pr_wait ↦
      let sem = (k.proctab pid).prsem in
      let k' = set_count sem (inc (sentry sem k).scount) k in
      some (set_state pid pr_free (with_queues (getitem pid k.queuetab) k'))
  | pr_ready ↦ some (set_state pid pr_free (with_queues (getitem pid k.queuetab) k))
  | _ ↦ some (set_state pid pr_free k)
]

abbrev pub is_waiting : Prstate → Bool
is_waiting st = elim st [ pr_wait ↦ true | _ ↦ false ]

-- What is to be left of a process: nothing, and the scheduler is in order.
abbrev pub Ended : ℕ → Kernel → Kernel → Type 0
Ended pid k k' = InOrder k' × (state_of pid k' ≡ pr_free)

free-IsOut : IsOut pr_free
free-IsOut = (refl, λ r s w. refl)

module _ (k : Kernel) (o : InOrder k) (pid : ℕ) (lt : pid < nproc) (nz : pid ≢ 0) where
  freed : (k' : Kernel) → state_of pid (set_state pid pr_free k') ≡ pr_free
  freed k' = rw (state_of, ==_refl pid) refl

  in_queue :
      (q : ℕ)
      → IsList q
      → home k pid ≡ some q
      → (us : List ℕ) × (vs : List ℕ) × (o.view q ≡ us ++ pid ∷ vs)
  in_queue q l h =
      contains-split pid (o.view q)
        (o.sched.lists.placed pid q lt l ∙ ap (λ r. at_queue r q) h ∙ ==_refl q)

  home_at :
      (st : Prstate)
      → state_of pid k ≡ st
      → home k pid ≡ queue_for st k.readylist k.sleepq (squeue_of ((k.proctab pid).prsem) k)
  home_at st e = ap (λ s. queue_for s k.readylist k.sleepq (squeue_of ((k.proctab pid).prsem) k)) e

  takes_out :
      home k pid ≡ some k.sleepq
      → InOrder (set_state pid pr_free (with_queues (getitem pid k.queuetab) k))
  takes_out e =
      let (us, vs, h) = in_queue k.sleepq o.sched.queues.sleep_list e in
      off_sleep-InOrder k o pid pr_free lt nz free-IsOut e us vs h

-- The process that follows another in the sleep queue.
next_in :
    (k : Kernel) (o : InOrder k) (us vs : List ℕ) (pid : ℕ)
    → o.view k.sleepq ≡ us ++ pid ∷ vs
    → is_next (k.queuetab pid).qnext ≡ true
    → contains (k.queuetab pid).qnext (o.view k.sleepq) ≡ true
next_in k o us vs pid h n = ap (contains (k.queuetab pid).qnext) h ∙ (follows vs (linked.1 ∙ refl))
  where
    linked :
        ((k.queuetab pid).qprev ≡ last_or k.sleepq us)
        × ((k.queuetab pid).qnext ≡ head_or vs (queuetail k.sleepq))
    linked = links_of k.queuetab k.sleepq us pid vs (queuetail k.sleepq) (
        subst (λ xs. Chain k.queuetab k.sleepq xs (queuetail k.sleepq)) h
          (o.sched.lists.table.queue k.sleepq o.sched.queues.sleep_list).chain)

    no_tail : is_next (queuetail k.sleepq) ≡ false
    no_tail = ground (arith, o.sched.queues.sleep_list.above, o.sched.queues.sleep_list.known)

    follows :
        (zs : List ℕ)
        → (k.queuetab pid).qnext ≡ head_or zs (queuetail k.sleepq)
        → contains (k.queuetab pid).qnext (us ++ pid ∷ zs) ≡ true
    follows [] e = absurd (true≢false (sym n ∙ ap is_next e ∙ no_tail))
    follows (z ∷ zs) e =
        ground (arith, contains-append (k.queuetab pid).qnext us (pid ∷ z ∷ zs), e, ==_refl z)

-- A process that sleeps is taken out of the sleep queue.
asleep-InOrder :
    (k : Kernel) (o : InOrder k) (pid : ℕ)
    → pid < nproc
    → pid ≢ 0
    → is_free (state_of pid k) ≡ false
    → is_asleep (state_of pid k) ≡ true
    → home k pid ≡ some k.sleepq
    → InOrder (set_state pid pr_free (unsleep pid k).1)
unfolding unsleep
asleep-InOrder k o pid lt nz f a h =
    rw (bad, a)
      (elim (Bool-cases (is_next (k.queuetab pid).qnext)) [
        | inl n ↦ rw n (
            takes_out _
              (rekeyed-InOrder k (k.queuetab pid).qnext _ o
                (next_in k o split.0 split.1 pid split.2 n))
              pid lt nz h)
        | inr n ↦ rw n (takes_out k o pid lt nz h)
      ])
  where
    bad : is_bad_pid (free_in k) pid ≡ false
    bad = ground (arith, f)

    split : (us : List ℕ) × (vs : List ℕ) × (o.view k.sleepq ≡ us ++ pid ∷ vs)
    split = in_queue k o pid lt nz k.sleepq o.sched.queues.sleep_list h

module _ (k : Kernel) (o : InOrder k) (pid : ℕ) (lt : pid < nproc) (nz : pid ≢ 0) where
  ended :
      (st : Prstate)
      → state_of pid k ≡ st
      → is_free st ≡ false
      → (is_waiting st ≡ true → (k.proctab pid).prsem < nsem)
      → Ends (end_process pid k) (Ended pid k)
  unfolding end_process
  ended pr_free e f w = absurd (true≢false f)
  ended pr_curr e f w =
      rw (end_process, e)
        (Ends-mono (resched (set_state pid pr_free k)) (λ k' d. d)
          (removed-resched k o pid pr_free lt nz free-IsOut current))
    where
      current : pid ≡ k.currpid
      current = ground (arith, o.runs.only pid lt, ap is_curr e)
  ended pr_ready e f w =
      rw (end_process, e)
        (let (us, vs, h) =
            in_queue k o pid lt nz k.readylist o.sched.queues.ready_list
              (home_at k o pid lt nz pr_ready e) in
          (
            off_ready-InOrder k o pid pr_free lt nz free-IsOut (home_at k o pid lt nz pr_ready e) us
                vs h,
            (freed k o pid lt nz k),
          ))
  ended pr_wait e f w =
      rw (end_process, e)
        (let sem = (k.proctab pid).prsem in
          let (us, vs, h) =
            in_queue k o pid lt nz (squeue_of sem k) (o.sched.queues.sem_list sem (w refl))
              (home_at k o pid lt nz pr_wait e) in
          (
            off_semaphore-InOrder k o pid pr_free lt nz free-IsOut sem (w refl)
                (home_at k o pid lt nz pr_wait e) us vs h,
            (freed k o pid lt nz k),
          ))
  ended pr_sleep e f w =
      rw (end_process, e)
        (
          asleep-InOrder k o pid lt nz (ap is_free e) (ap is_asleep e)
              (home_at k o pid lt nz pr_sleep e),
          (freed k o pid lt nz (unsleep pid k).1),
        )
  ended pr_rectim e f w =
      rw (end_process, e)
        (
          asleep-InOrder k o pid lt nz (ap is_free e) (ap is_asleep e)
              (home_at k o pid lt nz pr_rectim e),
          (freed k o pid lt nz (unsleep pid k).1),
        )
  ended pr_recv e f w =
      rw (end_process, e)
        (
          entered-InOrder k o pid (record (k.proctab pid) { prstate = pr_free }) lt nz
              (home_at k o pid lt nz pr_recv e) (ap is_curr e) free-IsOut
              (o.sched.prio_lower pid lt) (o.sched.prio_upper pid lt),
          (freed k o pid lt nz k),
        )
  ended pr_susp e f w =
      rw (end_process, e)
        (
          entered-InOrder k o pid (record (k.proctab pid) { prstate = pr_free }) lt nz
              (home_at k o pid lt nz pr_susp e) (ap is_curr e) free-IsOut
              (o.sched.prio_lower pid lt) (o.sched.prio_upper pid lt),
          (freed k o pid lt nz k),
        )

-- The switch of kill() ends for a process that is not free, is not the null process, and waits, if it waits, on a
-- semaphore of the table: the scheduler is in order, and the process is free.
pub end_process-Ended :
    (k : Kernel) (pid : ℕ)
    → InOrder k
    → pid < nproc
    → pid ≢ 0
    → is_free (state_of pid k) ≡ false
    → (is_waiting (state_of pid k) ≡ true → (k.proctab pid).prsem < nsem)
    → Ends (end_process pid k) (Ended pid k)
end_process-Ended k pid o lt nz f w = ended k o pid lt nz (state_of pid k) refl f w
