-- ===== src/Kernel/Clock.antt =====
-- wakeup() and the clock interrupt keep the kernel in order.
use mathlib.Core.Path.{subst}
use operating_systems_paging.Prelude.{
  ℕ, zero, suc, ◌+◌, ◌-◌, ◌^◌, ◌%◌, ◌<◌, ◌≡◌, refl, sym, ap, ◌∙◌, inl, inr, true, false, some, List,
  [], ◌∷◌, arith, ◌==◌, ==→≡, ==_refl, ==_ne, Bool-cases, update, contains, length,
}
use operating_systems_paging.Partial.{◌>>=◌, Ends, Ends-mono, Ends-both, Ends-bind}
use operating_systems_paging.Queues.{Queuetab, nproc, max_key, set_qkey, dequeue, is_empty}
use operating_systems_paging.Queues.Order.{IsQueue}
use operating_systems_paging.Queues.Fifo.{dequeue-IsQueue}
use operating_systems_paging.Queues.Sorted.{keys, keyed-IsQueue, length-bound}
use operating_systems_paging.Queues.Table.{refute}
use operating_systems_paging.Kernel.{
  Kernel, with_queues, firstkey, resched, ready, defer_start, defer_stop, quantum,
}
use operating_systems_paging.Kernel.Sleep.{
  is_due, tick, wake_due, wakeup, count_time, count_sleep, count_slice, clkhandler,
}
use operating_systems_paging.Kernel.Rested.{Rested}
use operating_systems_paging.Kernel.Inv.{squeue_of}
use operating_systems_paging.Kernel.Dispatch.{Descending-same}
use operating_systems_paging.Kernel.System.{IsCount, Counted, InOrder, resched-InOrder}
use operating_systems_paging.Kernel.Wait.{sentry}
use operating_systems_paging.Kernel.Wake.{dequeue-Popped}
use operating_systems_paging.Kernel.Deferred.{
  Deferring, defer_start-Deferring, defer_stop-InOrder, defer_stop-Rested, wakes_held,
}
use operating_systems_paging.Kernel.Release.{Woken-Counted}

-- The counts do not depend on the sleep queue.
awake-Counted : (k : Kernel) (d : Deferring k) (xs : List ℕ) → Counted k (update d.view k.sleepq xs)
awake-Counted k d xs s l =
    subst (λ ys. IsCount ((sentry s k).scount) (length ys)) (sym apart) (d.counted s l)
  where
    apart : update d.view k.sleepq xs (squeue_of s k) ≡ d.view (squeue_of s k)
    apart =
        rw (==_ne k.sleepq (squeue_of s k) (λ z. d.holding.sched.queues.sem_sleep s l (sym z))) refl

abbrev Awoken : Kernel → Type 0
Awoken k = Deferring k × Rested k.sleepq k.queuetab

abbrev pub Woke : Kernel → Type 0
Woke k = InOrder k × Rested k.sleepq k.queuetab

-- More rounds than processes that sleep are enough for the loop of wakeup(), which leaves none that is due.
wake_due-Awoken :
    (n : ℕ) (k : Kernel) (d : Deferring k) (xs : List ℕ)
    → d.view k.sleepq ≡ xs
    → length xs < n
    → Ends (wake_due n k) Awoken
unfolding wake_due
wake_due-Awoken zero k d xs e h = absurd (omega (arith, h))
wake_due-Awoken (suc n) k d [] e h = rw at_end (d, inl at_end)
  where
    empty : IsQueue k.queuetab k.sleepq []
    empty = rw e at (d.holding.sched.lists.table.queue k.sleepq d.holding.sched.queues.sleep_list)

    at_end : is_empty k.sleepq k.queuetab ≡ true
    at_end = ground (arith, empty.chain.0, empty.above, empty.known)
wake_due-Awoken (suc n) k d (x ∷ xs) e h =
    elim (Bool-cases (is_due (firstkey k.sleepq k.queuetab))) [
      | inr f ↦ rw (more, f) (d, inr f)
      | inl f ↦
          rw (more, f, (dequeue-IsQueue k.queuetab k.sleepq x xs at_front).0)
            (Ends-bind Awoken (ready x (with_queues (dequeue k.sleepq k.queuetab).1 k))
              (λ out. wake_due n out.1)
              (wakes_held k d.view (dequeue k.sleepq k.queuetab).1 k.sleepq x xs d.holding
                d.holding.sched.queues.sleep_list (λ z. d.holding.sched.queues.ready_sleep (sym z))
                e (dequeue-Popped k.queuetab k.sleepq x xs at_front))
              (λ out w.
                wake_due-Awoken n out.1
                  (record {
                    view = w.1.view';
                    holding = w.1.holding;
                    counted =
                        Woken-Counted k d.view k.sleepq xs out.1 w.1 d.holding.sched
                          (awake-Counted k d xs);
                  })
                  xs (ap w.1.view' w.1.sleepq ∙ w.1.here) (omega (arith, h))))
    ]
  where
    at_front : IsQueue k.queuetab k.sleepq (x ∷ xs)
    at_front =
        rw e at (d.holding.sched.lists.table.queue k.sleepq d.holding.sched.queues.sleep_list)

    more : is_empty k.sleepq k.queuetab ≡ false
    more = ground (arith, at_front.chain.0, at_front.procs x (ground (arith, ==_refl x)))

-- wakeup() ends with the kernel in order and no process asleep that is due.
wakeup-Woke : (k : Kernel) → InOrder k → Ends (wakeup k) Woke
unfolding wakeup
wakeup-Woke k o =
    Ends-bind Woke (wake_due (nproc + 1) (defer_start k))
      (λ k'. defer_stop k' >>= (λ out. some out.1))
      (wake_due-Awoken (nproc + 1) (defer_start k) d (d.view (defer_start k).sleepq) refl few)
      (λ k' (e, r).
        Ends-bind Woke (defer_stop k') (λ out. some out.1)
          (Ends-both (λ out. InOrder out.1) (λ out. Rested out.1.sleepq out.1.queuetab)
            (defer_stop k') (Ends-mono (defer_stop k') (λ out b. b.1) (defer_stop-InOrder k' e))
            (defer_stop-Rested k' e r))
          (λ out b. b))
  where
    d : Deferring (defer_start k)
    d = defer_start-Deferring k o

    queue : IsQueue (defer_start k).queuetab (defer_start k).sleepq (d.view (defer_start k).sleepq)
    queue =
        d.holding.sched.lists.table.queue (defer_start k).sleepq d.holding.sched.queues.sleep_list

    few : length (d.view (defer_start k).sleepq) < nproc + 1
    few =
        omega
          (arith, length-bound nproc (d.view (defer_start k).sleepq) queue.no_repeat queue.procs)

-- The key of a sleeping process may change.
pub rekeyed-InOrder :
    (k : Kernel) (x key : ℕ) (o : InOrder k)
    → contains x (o.view k.sleepq) ≡ true
    → InOrder (with_queues (set_qkey x key k.queuetab) k)
rekeyed-InOrder k x key o h = record {
  view = o.view;
  sched = record {
    lists = record {
      table = record {
        queue = λ q l.
            keyed-IsQueue k.queuetab q (o.view q) x key (o.sched.lists.table.queue q l) small;
        apart = o.sched.lists.table.apart;
      };
      placed = o.sched.lists.placed;
    };
    queues = o.sched.queues;
    descending =
        Descending-same (keys k.queuetab) (keys (set_qkey x key k.queuetab)) max_key
          (o.view k.readylist) same_key o.sched.descending;
    keyed = λ y m. same_key y m ∙ o.sched.keyed y m;
    prio_lower = o.sched.prio_lower;
    prio_upper = o.sched.prio_upper;
    null = o.sched.null;
  };
  runs = record { small = o.runs.small; only = o.runs.only; loaded = o.runs.loaded };
  highest = o.highest;
  counted = o.counted;
  ndefers = o.ndefers;
}
  where
    small : x < nproc
    small = (o.sched.lists.table.queue k.sleepq o.sched.queues.sleep_list).procs x h

    same_key :
        (y : ℕ)
        → contains y (o.view k.readylist) ≡ true
        → keys (set_qkey x key k.queuetab) y ≡ keys k.queuetab y
    same_key y m =
        rw
          (
            keys,
            refute (x == y) (λ e. o.sched.queues.ready_sleep (
                o.sched.lists.table.apart k.readylist k.sleepq x o.sched.queues.ready_list
                  o.sched.queues.sleep_list
                  (ap (λ z. contains z (o.view k.readylist)) (==→≡ x y e) ∙ m) h)),
          )
          refl

-- The clock's counters are none of the scheduler's fields.
clocked-InOrder :
    (k : Kernel) (a b c p : ℕ)
    → InOrder k
    → InOrder (record k { myglobalclock = a; clktime = b; count1000 = c; preempt = p })
clocked-InOrder k a b c p o = record {
  view = o.view;
  sched = record {
    lists = o.sched.lists;
    queues = o.sched.queues;
    descending = o.sched.descending;
    keyed = o.sched.keyed;
    prio_lower = o.sched.prio_lower;
    prio_upper = o.sched.prio_upper;
    null = o.sched.null;
  };
  runs = record { small = o.runs.small; only = o.runs.only; loaded = o.runs.loaded };
  highest = o.highest;
  counted = o.counted;
  ndefers = o.ndefers;
}

count_time-InOrder : (k : Kernel) → InOrder k → InOrder (count_time k)
count_time-InOrder k o = elim (Bool-cases ((k.count1000 + 2 ^ 32 - 1) % 2 ^ 32 == 0)) [
  | inl e ↦ rw e (clocked-InOrder k _ _ _ _ o)
  | inr e ↦ rw e (clocked-InOrder k _ _ _ _ o)
]

-- A new key leaves the links, and is there.
next_kept : (t : Queuetab) (x key y : ℕ) → (set_qkey x key t y).qnext ≡ (t y).qnext
next_kept t x key y = elim (Bool-cases (x == y)) [
  | inl e ↦ rw e (ap (λ z. (t z).qnext) (==→≡ x y e))
  | inr e ↦ rw e refl
]

first_due : (key : ℕ) (t : Queuetab) (x : ℕ) → is_due ((set_qkey x key t x).qkey) ≡ is_due key
first_due key t x = rw (==_refl x) refl

count_sleep-Woke : (k : Kernel) → InOrder k → Ends (count_sleep k) Woke
unfolding count_sleep
count_sleep-Woke k o = elim (Bool-cases (is_empty k.sleepq k.queuetab)) [
  | inl e ↦ rw e (o, inl e)
  | inr e ↦ elim (Bool-cases (is_due (tick ((k.queuetab first).qkey)))) [
    | inl f ↦ rw (e, f) (wakeup-Woke k' (later e))
    | inr f ↦ rw (e, f) (later e, inr (late f))
  ]
]
  where
    first : ℕ
    first = (k.queuetab k.sleepq).qnext

    k' : Kernel
    k' = with_queues (set_qkey first (tick ((k.queuetab first).qkey)) k.queuetab) k

    late :
        is_due (tick ((k.queuetab first).qkey)) ≡ false
        → is_due (firstkey k'.sleepq k'.queuetab) ≡ false
    late f =
        ap (λ n. is_due ((k'.queuetab n).qkey))
          (next_kept k.queuetab first (tick ((k.queuetab first).qkey)) k.sleepq)
        ∙ first_due (tick ((k.queuetab first).qkey)) k.queuetab first
        ∙ f

    member :
        (xs : List ℕ)
        → o.view k.sleepq ≡ xs
        → is_empty k.sleepq k.queuetab ≡ false
        → contains first (o.view k.sleepq) ≡ true
    member [] h e = absurd (ground (arith, e, queue.chain.0, queue.above, queue.known))
      where
        queue : IsQueue k.queuetab k.sleepq []
        queue = rw h at (o.sched.lists.table.queue k.sleepq o.sched.queues.sleep_list)
    member (x ∷ xs) h e = ap (contains first) h ∙ ground (arith, queue.chain.0, ==_refl x)
      where
        queue : IsQueue k.queuetab k.sleepq (x ∷ xs)
        queue = rw h at (o.sched.lists.table.queue k.sleepq o.sched.queues.sleep_list)

    later : is_empty k.sleepq k.queuetab ≡ false → InOrder k'
    later e =
        rekeyed-InOrder k first (tick ((k.queuetab first).qkey)) o (member (o.view k.sleepq) refl e)

reschedules : {k : Kernel} → InOrder k → Ends (resched k) InOrder
reschedules {k} o = resched-InOrder k o.view o.sched (inl o.runs) o.counted o.ndefers

pub count_slice-InOrder : (k : Kernel) → InOrder k → Ends (count_slice k) InOrder
unfolding count_slice
count_slice-InOrder k o = elim (Bool-cases ((k.preempt + 2 ^ 32 - 1) % 2 ^ 32 == 0)) [
  | inl e ↦ rw e (reschedules (clocked-InOrder k k.myglobalclock k.clktime k.count1000 quantum o))
  | inr e ↦ rw e (clocked-InOrder k _ _ _ _ o)
]

pub clkhandler-InOrder :
    (k : Kernel)
    → InOrder k
    → Ends
        (clkhandler k)
        (λ k'. InOrder k' × Rested k'.sleepq k'.queuetab × Ends (count_slice k') InOrder)
unfolding clkhandler
clkhandler-InOrder k o =
    Ends-mono (count_sleep (count_time k)) (λ k' (d, r). (d, r, count_slice-InOrder k' d))
      (count_sleep-Woke (count_time k) (count_time-InOrder k o))
