-- ===== src/Examples/Kernel.antt =====
-- The theorems on the scheduler at a kernel with the null process and process 3, which starts suspended.
use mathlib.Core.Path.{subst}
use operating_systems_paging.Prelude.{
  ℕ, Bool, true, false, ◌≡◌, ◌≢◌, ◌+◌, ◌-◌, ◌*◌, ◌^◌, ◌%◌, ◌<◌, ◌≤◌, refl, sym, inl, inr, Option,
  some, none, List, [], arith, if◌then◌else◌, ◌==◌, ltb, not, ◌&&◌, ◌||◌, Bool-cases,
}
use operating_systems_paging.Partial.{Ends, Ends-mono}
use operating_systems_paging.Queues.{
  Queuetab, nproc, empty, min_key, max_key, insert, find_place, dequeue, getfirst, getitem, enqueue,
}
use operating_systems_paging.Queues.Order.{IsQueue}
use operating_systems_paging.Queues.Table.{IsList}
use operating_systems_paging.Semaphores.{Semtab}
use operating_systems_paging.Kernel.{
  Kernel, Proc, pr_free, pr_curr, pr_susp, pr_ready, is_curr, state_of, resume, suspend, ready,
  resched, dispatch, line_up,
}
use operating_systems_paging.Kernel.Wait.{
  sentry, is_unusable, negative, block, wait, signal, signaln, semreset, semdelete,
}
use operating_systems_paging.Kernel.Rested.{Rested}
use operating_systems_paging.Kernel.Inv.{IsSched, Runs, home}
use operating_systems_paging.Kernel.Resched.{Rescheduled, resched-Rescheduled}
use operating_systems_paging.Kernel.System.{InOrder}
use operating_systems_paging.Kernel.Semaphore.{wait-InOrder}
use operating_systems_paging.Kernel.Signal.{signal-InOrder}
use operating_systems_paging.Kernel.Signaln.{signaln-InOrder}
use operating_systems_paging.Kernel.Reset.{Resets, semreset-InOrder}
use operating_systems_paging.Kernel.Delete.{Deletes, semdelete-InOrder}
use operating_systems_paging.Kernel.Sleep.{sleepms}
use operating_systems_paging.Kernel.Resume.{is_susp, RunsAgain, resume-InOrder}
use operating_systems_paging.Kernel.Suspend.{has_result, is_active, Takes, suspend-InOrder}
use operating_systems_paging.Kernel.Reach.{Reach, start, later, resumes, Reach-priority}

abbrev lists : Queuetab
lists x =
    if ltb x nproc
    then record { qkey = min_key; qnext = empty; qprev = empty }
    else if x % 2 == 0
    then record { qkey = max_key; qnext = x + 1; qprev = empty }
    else record { qkey = min_key; qnext = empty; qprev = x - 1 }

abbrev processes : ℕ → Proc
processes x = record {
  prstate = if x == 0 then pr_curr else if x == 3 then pr_susp else pr_free;
  prprio = if x == 3 then 2 ^ 31 + 20 else 2 ^ 31;
  prsem = 0;
  prmsg = 0;
  prhasmsg = false;
  pd = x;
}

abbrev semaphores : Semtab
semaphores = record {
  semtab = λ s. record { used = true; scount = 0; squeue = 104 + 2 * s };
  nextsem = 0;
}

abbrev pub booted : Kernel
booted = record {
  queuetab = lists;
  proctab = processes;
  semtab = semaphores;
  currpid = 0;
  readylist = 100;
  sleepq = 102;
  ndefers = 0;
  attempt = false;
  preempt = 2;
  count1000 = 1000;
  clktime = 0;
  myglobalclock = 0;
  cr3 = 0;
}

abbrev nobody : ℕ → List ℕ
nobody q = []

lists-IsQueue : (q : ℕ) → IsList q → IsQueue lists q []
lists-IsQueue q l = record {
  chain = (ground (arith, l.above, l.even), ground (arith, l.above, l.even));
  procs = λ x e. absurd (ground arith);
  no_repeat = tt;
  above = l.above;
  known = l.known;
  tail_key = ground (arith, l.above, l.even);
}

in_no_queue : (x : ℕ) → home booted x ≡ none
in_no_queue x = elim (Bool-cases (x == 0)) [
  | inl e ↦ rw e refl
  | inr e ↦ elim (Bool-cases (x == 3)) [ inl f ↦ rw (e, f) refl | inr f ↦ rw (e, f) refl ]
]

booted-IsSched : IsSched booted nobody
booted-IsSched = record {
  lists = record {
    table = record { queue = lists-IsQueue; apart = λ q r x l m e f. absurd (ground arith) };
    placed = λ x q l m. rw (in_no_queue x) refl;
  };
  queues = record {
    ready_list = record { above = omega arith; even = refl; known = omega arith };
    sleep_list = record { above = omega arith; even = refl; known = omega arith };
    sem_list = λ s l. record { above = omega arith; even = omega arith; known = omega (arith, l) };
    ready_sleep = omega arith;
    sem_ready = λ s l. omega arith;
    sem_sleep = λ s l. omega arith;
    sem_sem = λ s r l m e. omega (arith, e);
  };
  descending = tt;
  keyed = λ x h. absurd (ground arith);
  prio_lower = λ x l. ground arith;
  prio_upper = λ x l. ground arith;
  null = inl refl;
}

booted-Runs : Runs booted
booted-Runs = record { small = omega arith; only = λ x l. only x; loaded = refl }
  where
    only : (x : ℕ) → is_curr (state_of x booted) ≡ (0 == x)
    only x = elim (Bool-cases (x == 0)) [
      | inl e ↦ rw e (ground (arith, e))
      | inr e ↦ elim (Bool-cases (x == 3)) [
        | inl f ↦ rw (e, f) (ground (arith, e))
        | inr f ↦ rw (e, f) (ground (arith, e))
      ]
    ]

pub booted-InOrder : InOrder booted
booted-InOrder = record {
  view = nobody;
  sched = booted-IsSched;
  runs = booted-Runs;
  highest = λ x h. absurd (ground arith);
  counted = λ s l. record { bits = omega arith; idle = λ h. refl; waiting = λ h. omega (arith, h) };
  ndefers = refl;
}

resched-Rescheduled_example : Ends (resched booted) (Rescheduled booted nobody)
resched-Rescheduled_example =
    resched-Rescheduled booted nobody booted-IsSched (inl booted-Runs) refl

resume-InOrder_example : Ends (resume 3 booted) (λ out.
    (out.0 ≡ (
      if ltb 3 nproc && is_susp (state_of 3 booted) then some (booted.proctab 3).prprio else none))
    × InOrder out.1
    × RunsAgain 3 booted out.1 (ltb 3 nproc && is_susp (state_of 3 booted)))
resume-InOrder_example = resume-InOrder booted 3 booted-InOrder

-- process 3 runs
abbrev the : Option (Option ℕ × Kernel) → Kernel
the none = booted
the (some (r, k)) = k

abbrev resumed : Kernel
resumed = the (resume 3 booted)

the-InOrder : (o : Option (Option ℕ × Kernel)) → Ends o (λ out. InOrder out.1) → InOrder (the o)
the-InOrder none h = booted-InOrder
the-InOrder (some (r, k)) h = h

resumed-currpid : resumed.currpid ≡ 3
unfolding resume ready resched dispatch line_up insert find_place dequeue getfirst getitem
resumed-currpid = refl

resumed-InOrder : InOrder resumed
resumed-InOrder =
    the-InOrder (resume 3 booted)
      (Ends-mono (resume 3 booted) (λ out h. h.1) (resume-InOrder booted 3 booted-InOrder))

suspend-InOrder_example : Ends (suspend 3 resumed) (λ out.
    (has_result out.0 ≡ (ltb 3 nproc && is_active (state_of 3 resumed) && not (3 == 0)))
    × InOrder out.1
    × Takes 3 resumed out.1 (ltb 3 nproc && is_active (state_of 3 resumed) && not (3 == 0)))
suspend-InOrder_example = suspend-InOrder resumed 3 resumed-InOrder

not_null : resumed.currpid ≢ 0
not_null e = omega (arith, resumed-currpid, e)

wait-InOrder_example :
    Ends (wait 0 resumed) (λ out. (out.0 ≡ not (is_unusable 0 resumed)) × InOrder out.1)
wait-InOrder_example = wait-InOrder resumed 0 resumed-InOrder not_null

-- process 3 waits on semaphore 0
abbrev after_wait : Option (Bool × Kernel) → Kernel
after_wait none = booted
after_wait (some (r, k)) = k

abbrev waited : Kernel
waited = after_wait (wait 0 resumed)

after_wait-InOrder :
    (o : Option (Bool × Kernel)) → Ends o (λ out. InOrder out.1) → InOrder (after_wait o)
after_wait-InOrder none h = booted-InOrder
after_wait-InOrder (some (r, k)) h = h

waited-InOrder : InOrder waited
waited-InOrder =
    after_wait-InOrder (wait 0 resumed)
      (Ends-mono (wait 0 resumed) (λ out h. h.1) (wait-InOrder resumed 0 resumed-InOrder not_null))

waited_count : (sentry 0 waited).scount ≡ 2 ^ 32 - 1
unfolding resume ready resched dispatch line_up insert find_place dequeue getfirst getitem wait
    block enqueue
waited_count = refl

signal-InOrder_example :
    Ends (signal 0 waited) (λ out. (out.0 ≡ not (is_unusable 0 waited)) × InOrder out.1)
signal-InOrder_example =
    signal-InOrder waited 0 waited-InOrder
      (subst (λ c. c ≢ 2 ^ 31 - 1) (sym waited_count) (omega arith))

signaln-InOrder_example :
    Ends
      (signaln 0 2 waited)
      (λ out. (out.0 ≡ not (negative 2 || is_unusable 0 waited)) × InOrder out.1)
signaln-InOrder_example =
    signaln-InOrder waited 0 2 waited-InOrder
      (subst (λ c. (c + 2 ^ 31) % 2 ^ 32 + 2 < 2 ^ 32) (sym waited_count) (omega arith))

semreset-InOrder_example : Ends (semreset 0 5 waited) (λ out.
    (out.0 ≡ not (negative 5 || is_unusable 0 waited))
    × InOrder out.1
    × Resets 0 5 waited out.1 (not (negative 5 || is_unusable 0 waited)))
semreset-InOrder_example = semreset-InOrder waited 0 5 waited-InOrder

semdelete-InOrder_example : Ends (semdelete 0 waited) (λ out.
    (out.0 ≡ not (is_unusable 0 waited))
    × InOrder out.1
    × Deletes 0 waited out.1 (not (is_unusable 0 waited)))
semdelete-InOrder_example =
    semdelete-InOrder waited 0 waited-InOrder
      (subst (λ c. c ≢ 2 ^ 31 - 1) (sym waited_count) (omega arith))

resumed-Reach : Reach booted resumed
unfolding resume ready resched dispatch line_up insert find_place dequeue getfirst getitem
resumed-Reach = later start (resumes 3 (some (2 ^ 31 + 20)) refl)

null_waits : state_of 0 resumed ≡ pr_ready
unfolding resume ready resched dispatch line_up insert find_place dequeue getfirst getitem
null_waits = refl

Reach-priority_example : (resumed.proctab 0).prprio ≤ (resumed.proctab resumed.currpid).prprio
Reach-priority_example = Reach-priority booted-InOrder resumed-Reach 0 (omega arith) null_waits

-- process 3 sleeps for 1 ms
abbrev slept : Kernel
slept = after_wait (sleepms 1 resumed)
