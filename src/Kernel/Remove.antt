-- ===== src/Kernel/Remove.antt =====
-- A process that is not the null process is taken out of its queue, or off the processor, and is then in no
-- queue.
use mathlib.Core.Path.{subst}
use operating_systems_paging.Prelude.{
  ℕ, ◌<◌, ◌≡◌, ◌≢◌, refl, sym, ap, ◌∙◌, inl, inr, true, false, some, none, List, ◌∷◌, ◌++◌, arith,
  ◌==◌, ==→≡, ==_refl, ==_ne, Bool-cases, update, contains, contains-append, length, length-append,
  ◌+◌, NoRepeat-middle,
}
use operating_systems_paging.Partial.{Ends, Ends-mono, Ends-both}
use operating_systems_paging.Queues.{nproc, max_key, getitem}
use operating_systems_paging.Queues.Order.{IsQueue, getitem_qkey}
use operating_systems_paging.Queues.Fifo.{getitem-IsQueue}
use operating_systems_paging.Queues.Local.{getitem-same, Descending-without}
use operating_systems_paging.Queues.Sorted.{keys, Descending}
use operating_systems_paging.Queues.Table.{IsList}
use operating_systems_paging.Semaphores.{nsem}
use operating_systems_paging.Kernel.{
  Kernel, Prstate, Proc, is_curr, state_of, set_proc, set_state, with_queues, resched,
}
use operating_systems_paging.Kernel.Placed.{at_queue}
use operating_systems_paging.Kernel.Inv.{
  IsSched, Runs, Blocked, Highest, queue_for, home, squeue_of, Runs-home,
}
use operating_systems_paging.Kernel.Wait.{sentry, set_count, inc, negative}
use operating_systems_paging.Kernel.Semaphore.{inc-IsCount}
use operating_systems_paging.Kernel.States.{resched-StaysOrRuns, stays_out}
use operating_systems_paging.Kernel.Leave.{Parks, parked-IsSched, parked-Blocked, parked-Runs}
use operating_systems_paging.Kernel.System.{
  IsCount, Counted-set, set_count-IsSched, InOrder, resched-InOrder,
}

-- A state in which a process is neither current nor in a queue.
abbrev pub IsOut : Prstate → Type 0
IsOut st = (is_curr st ≡ false) × ((r s w : ℕ) → queue_for st r s w ≡ none)

one_less : (c n m : ℕ) → IsCount c n → n ≡ m + 1 → IsCount (inc c) m
one_less c n m a e = elim (Bool-cases (negative c)) [
  | inl q ↦ inc-IsCount c m q (subst (IsCount c) (omega (arith, e)) a)
  | inr q ↦ (let z : n ≡ 0 = a.idle (ground (arith, q)) in absurd (omega (arith, e, z)))
]

module _ (k : Kernel) (o : InOrder k) (pid : ℕ) (st : Prstate) (lt : pid < nproc) (nz : pid ≢ 0)
    (out : IsOut st) where
  abbrev gone : Proc
  gone = record (k.proctab pid) { prstate = st }

  home_gone : home (set_proc pid gone k) pid ≡ none
  home_gone = rw (state_of, ==_refl pid) (out.1 _ _ _)

  -- out of the queue `q`
  module _ (q : ℕ) (lq : IsList q) (hq : home k pid ≡ some q) (us vs : List ℕ)
      (h : o.view q ≡ us ++ pid ∷ vs) where
    listed : IsQueue k.queuetab q (us ++ pid ∷ vs)
    listed = rw h at (o.sched.lists.table.queue q lq)

    within : (x : ℕ) → contains x (us ++ vs) ≡ true → contains x (o.view q) ≡ true
    within x c =
        ap (contains x) h
        ∙ ground (arith, c, contains-append x us vs, contains-append x us (pid ∷ vs))

    still_sorted : Descending (keys k.queuetab) max_key (update o.view q (us ++ vs) k.readylist)
    still_sorted = elim (Bool-cases (q == k.readylist)) [
      | inl e ↦ rw e (
          Descending-without (keys k.queuetab) max_key us pid vs (
            subst (Descending (keys k.queuetab) max_key)
              (ap o.view (sym (==→≡ q k.readylist e)) ∙ h) o.sched.descending))
      | inr e ↦ rw e o.sched.descending
    ]

    pub off_queue : Parks k o.view (getitem pid k.queuetab) q pid (us ++ vs) gone
    off_queue = record {
      list = lq;
      queue = getitem-IsQueue k.queuetab q us pid vs listed;
      same =
          λ y n. getitem-same k.queuetab q us pid vs y listed (ground (arith, ap (contains y) h));
      small = lt;
      not_null = nz;
      was = inr hq;
      becomes = inl home_gone;
      here =
          ground (arith, contains-append pid us vs, NoRepeat-middle us pid vs listed.no_repeat)
          ∙ ap (λ o'. at_queue o' q) (sym home_gone);
      there = λ x n.
          ground
            (arith, ap (contains x) h, contains-append x us vs, contains-append x us (pid ∷ vs));
      off = ap (λ o'. at_queue o' k.readylist) home_gone;
      prio = refl;
      same_keys = λ y m. getitem_qkey pid k.queuetab y;
      sorted = still_sorted;
    }

    pub not_current : pid ≢ k.currpid
    not_current z = cc (sym hq ∙ ap (home k) z ∙ Runs-home k o.runs)

    -- the state afterwards
    abbrev pub removed : Kernel
    removed = with_queues (getitem pid k.queuetab) (set_proc pid gone k)

    pub removed-IsSched : IsSched removed (update o.view q (us ++ vs))
    removed-IsSched =
        parked-IsSched k o.view (getitem pid k.queuetab) q pid (us ++ vs) gone o.sched off_queue

    pub removed-Runs : Runs removed
    removed-Runs =
        parked-Runs k o.view (getitem pid k.queuetab) q pid (us ++ vs) gone o.sched off_queue o.runs
          not_current out.0

    pub removed-Highest : Highest removed (update o.view q (us ++ vs))
    removed-Highest x c = ground (arith, o.highest x (before x c))
      where
        before :
            (y : ℕ)
            → contains y (update o.view q (us ++ vs) k.readylist) ≡ true
            → contains y (o.view k.readylist) ≡ true
        before y = elim (Bool-cases (q == k.readylist)) [
          | inl e ↦
              rw e (λ a. ap (λ r. contains y (o.view r)) (sym (==→≡ q k.readylist e)) ∙ within y a)
          | inr e ↦ rw e (λ a. a)
        ]

  -- out of a queue that is no semaphore's
  off_no_semaphore :
      (q : ℕ) (lq : IsList q) (hq : home k pid ≡ some q) (us vs : List ℕ)
      (h : o.view q ≡ us ++ pid ∷ vs)
      → ((s : ℕ) → s < nsem → q ≢ squeue_of s k)
      → InOrder (with_queues (getitem pid k.queuetab) (set_state pid st k))
  off_no_semaphore q lq hq us vs h other = record {
    view = update o.view q (us ++ vs);
    sched = removed-IsSched q lq hq us vs h;
    runs = removed-Runs q lq hq us vs h;
    highest = removed-Highest q lq hq us vs h;
    counted = λ s l.
        subst (λ xs. IsCount ((k.semtab.semtab s).scount) (length xs))
          (rw (==_ne q (squeue_of s k) (other s l)) refl) (o.counted s l);
    ndefers = o.ndefers;
  }

  -- out of the queue of a semaphore, whose count goes up by one
  pub off_semaphore-InOrder :
      (sem : ℕ)
      → sem < nsem
      → home k pid ≡ some (squeue_of sem k)
      → (us vs : List ℕ) → o.view (squeue_of sem k) ≡ us ++ pid ∷ vs
      → InOrder (
          set_count sem
            (inc (sentry sem k).scount)
            (with_queues (getitem pid k.queuetab) (set_state pid st k)))
  off_semaphore-InOrder sem l hq us vs h = record {
    view = update o.view (squeue_of sem k) (us ++ vs);
    sched =
        set_count-IsSched sem (inc (sentry sem k).scount) (removed (squeue_of sem k) lq hq us vs h)
          (update o.view (squeue_of sem k) (us ++ vs))
          (removed-IsSched (squeue_of sem k) lq hq us vs h);
    runs = record { small = runs.small; only = runs.only; loaded = runs.loaded };
    highest = removed-Highest (squeue_of sem k) lq hq us vs h;
    counted =
        Counted-set sem (inc (sentry sem k).scount) k o.view (us ++ vs) l o.sched
          (λ s m e. o.counted s m) less;
    ndefers = o.ndefers;
  }
    where
      lq : IsList (squeue_of sem k)
      lq = o.sched.queues.sem_list sem l

      runs : Runs (removed (squeue_of sem k) lq hq us vs h)
      runs = removed-Runs (squeue_of sem k) lq hq us vs h

      less : IsCount (inc (sentry sem k).scount) (length (us ++ vs))
      less =
          one_less (sentry sem k).scount (length (o.view (squeue_of sem k))) (length (us ++ vs))
            (o.counted sem l)
            (ap (length {A = ℕ}) h
              ∙ length-append us (pid ∷ vs)
              ∙ ground (arith, length-append us vs))

  -- off the processor
  off_cpu : pid ≡ k.currpid → Parks k o.view k.queuetab k.readylist pid (o.view k.readylist) gone
  off_cpu e = record {
    list = o.sched.queues.ready_list;
    queue = o.sched.lists.table.queue k.readylist o.sched.queues.ready_list;
    same = λ y n. refl;
    small = lt;
    not_null = nz;
    was = inl idle;
    becomes = inl home_gone;
    here =
        o.sched.lists.placed pid k.readylist lt o.sched.queues.ready_list
        ∙ ap (λ h. at_queue h k.readylist) idle
        ∙ ap (λ h. at_queue h k.readylist) (sym home_gone);
    there = λ x n. refl;
    off = ap (λ h. at_queue h k.readylist) home_gone;
    prio = refl;
    same_keys = λ y m. refl;
    sorted = rw (==_refl k.readylist) o.sched.descending;
  }
    where
      idle : home k pid ≡ none
      idle = ap (home k) e ∙ Runs-home k o.runs

  left-IsSched :
      (e : pid ≡ k.currpid)
      → IsSched (set_state pid st k) (update o.view k.readylist (o.view k.readylist))
  left-IsSched e =
      parked-IsSched k o.view k.queuetab k.readylist pid (o.view k.readylist) gone o.sched
        (off_cpu e)

  left-Blocked : (e : pid ≡ k.currpid) → Blocked (set_state pid st k)
  left-Blocked e =
      parked-Blocked k o.view k.queuetab k.readylist pid (o.view k.readylist) gone o.sched
        (off_cpu e) o.runs e out.0

  -- another process runs, and the state that was set stays
  pub removed-resched :
      pid ≡ k.currpid
      → Ends (resched (set_state pid st k)) (λ k'. InOrder k' × (state_of pid k' ≡ st))
  removed-resched e =
      Ends-both InOrder (λ k'. state_of pid k' ≡ st) (resched (set_state pid st k))
        (resched-InOrder (set_state pid st k) (update o.view k.readylist (o.view k.readylist))
          (left-IsSched e) (inr (left-Blocked e))
          (λ s l.
            subst (λ xs. IsCount ((k.semtab.semtab s).scount) (length xs)) (sym (apart_ready s l))
              (o.counted s l))
          o.ndefers)
        (Ends-mono (resched (set_state pid st k))
          (λ k' d.
            stays_out (set_state pid st k) k' pid home_gone was_out (d pid)
            ∙ rw (state_of, ==_refl pid) refl)
          (resched-StaysOrRuns (set_state pid st k) (update o.view k.readylist (o.view k.readylist))
            (left-IsSched e) (inr (left-Blocked e)) o.ndefers))
    where
      was_out : is_curr (state_of pid (set_state pid st k)) ≡ false
      was_out = rw (state_of, ==_refl pid) out.0

      apart_ready :
          (s : ℕ)
          → s < nsem
          → update o.view k.readylist (o.view k.readylist) (squeue_of s k) ≡ o.view (squeue_of s k)
      apart_ready s l =
          rw (==_ne k.readylist (squeue_of s k) (λ z. o.sched.queues.sem_ready s l (sym z))) refl

  -- off the ready list
  pub off_ready-InOrder :
      home k pid ≡ some k.readylist
      → (us vs : List ℕ) → o.view k.readylist ≡ us ++ pid ∷ vs
      → InOrder (with_queues (getitem pid k.queuetab) (set_state pid st k))
  off_ready-InOrder hq us vs h =
      off_no_semaphore k.readylist o.sched.queues.ready_list hq us vs h
        (λ s l z. o.sched.queues.sem_ready s l (sym z))

  -- off the sleep queue
  pub off_sleep-InOrder :
      home k pid ≡ some k.sleepq
      → (us vs : List ℕ) → o.view k.sleepq ≡ us ++ pid ∷ vs
      → InOrder (with_queues (getitem pid k.queuetab) (set_state pid st k))
  off_sleep-InOrder hq us vs h =
      off_no_semaphore k.sleepq o.sched.queues.sleep_list hq us vs h
        (λ s l z. o.sched.queues.sem_sleep s l (sym z))
