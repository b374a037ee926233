-- ===== src/Kernel/System.antt =====
-- The invariant of the kernel between calls: the scheduler's, and that of the semaphores' counts.
use mathlib.Core.Path.{subst}
use operating_systems_paging.Prelude.{
  ℕ, ◌+◌, ◌^◌, ◌≤◌, ◌<◌, ◌≡◌, ◌≢◌, refl, sym, ap, ◌∙◌, ◌⊎◌, inl, inr, true, false, true≢false, List,
  arith, ◌==◌, ==→≡, ==_refl, ==_ne, Bool-cases, update, length,
}
use operating_systems_paging.Partial.{Ends, Ends-mono}
use operating_systems_paging.Semaphores.{Sentry, nsem}
use operating_systems_paging.Kernel.{Kernel, resched, yield}
use operating_systems_paging.Kernel.Placed.{at_queue}
use operating_systems_paging.Kernel.Inv.{
  IsSched, Runs, Blocked, Highest, Apart, queue_for, squeue_of,
}
use operating_systems_paging.Kernel.Resched.{Rescheduled, resched-Rescheduled}
use operating_systems_paging.Kernel.Wait.{sentry, set_sentry, set_count}

-- A negative count says how many processes wait, and with any other none does.
pub record IsCount (c n : ℕ) : Type 0 where
  pub bits : c < 2 ^ 32
  pub idle : c < 2 ^ 31 → n ≡ 0
  pub waiting : 2 ^ 31 ≤ c → c + n ≡ 2 ^ 32

abbrev pub Counted : Kernel → (ℕ → List ℕ) → Type 0
Counted k view = (s : ℕ) → s < nsem → IsCount ((sentry s k).scount) (length (view (squeue_of s k)))

-- The process that runs is one of the highest priority, each process is in the queue of its state, and the counts
-- are those of the processes that wait; no rescheduling is deferred.
pub record InOrder (k : Kernel) : Type 0 where
  pub view : ℕ → List ℕ
  pub sched : IsSched k view
  pub runs : Runs k
  pub highest : Highest k view
  pub counted : Counted k view
  pub ndefers : k.ndefers ≡ 0

-- Scheduling touches no semaphore.
pub settled :
    (k k' : Kernel) (view : ℕ → List ℕ)
    → Apart k.readylist k.sleepq (λ s. squeue_of s k)
    → Counted k view
    → k.ndefers ≡ 0
    → Rescheduled k view k'
    → InOrder k'
settled k k' view a c z d = record {
  view = d.view';
  sched = d.sched;
  runs = d.runs;
  highest = d.highest;
  counted =
      subst
        (λ t.
          (s : ℕ)
          → s < nsem
          → IsCount ((t.semtab s).scount) (length (d.view' ((t.semtab s).squeue))))
        (sym d.semtab)
        (λ s l.
          subst (λ xs. IsCount ((sentry s k).scount) (length xs))
            (sym (d.others (squeue_of s k) (apart s l))) (c s l));
  ndefers = d.ndefers ∙ z;
}
  where
    apart : (s : ℕ) → s < nsem → (k.readylist == squeue_of s k) ≡ false
    apart s l = ==_ne k.readylist (squeue_of s k) (λ e. a.sem_ready s l (sym e))

pub resched-InOrder :
    (k : Kernel) (view : ℕ → List ℕ)
    → IsSched k view
    → Runs k ⊎ Blocked k
    → Counted k view
    → k.ndefers ≡ 0
    → Ends (resched k) InOrder
resched-InOrder k view i r c z =
    Ends-mono (resched k) (λ k' d. settled k k' view i.queues c z d)
      (resched-Rescheduled k view i r z)

-- yield() ends, with the kernel in order.
pub yield-InOrder : (k : Kernel) → InOrder k → Ends (yield k) InOrder
unfolding yield
yield-InOrder k o = resched-InOrder k o.view o.sched (inl o.runs) o.counted o.ndefers

-- An assignment to a semaphore's entry that keeps its queue leaves the queues alone.
pub squeue-set_sentry :
    (sem : ℕ) (e : Sentry) (s : ℕ) (k : Kernel)
    → e.squeue ≡ squeue_of sem k
    → squeue_of s (set_sentry sem e k) ≡ squeue_of s k
squeue-set_sentry sem e s k h = elim (Bool-cases (sem == s)) [
  | inl q ↦ rw (squeue_of, q) (h ∙ ap (λ r. squeue_of r k) (==→≡ sem s q))
  | inr q ↦ rw (squeue_of, q) refl
]

pub squeue-set_count : (sem c s : ℕ) (k : Kernel) → squeue_of s (set_count sem c k) ≡ squeue_of s k
squeue-set_count sem c s k = squeue-set_sentry sem (record (sentry sem k) { scount = c }) s k refl

pub set_sentry-IsSched :
    (sem : ℕ) (e : Sentry) (k : Kernel) (view : ℕ → List ℕ)
    → e.squeue ≡ squeue_of sem k
    → IsSched k view
    → IsSched (set_sentry sem e k) view
set_sentry-IsSched sem e k view h i = record {
  lists = record {
    table = i.lists.table;
    placed = λ x q l m.
        i.lists.placed x q l m
        ∙ ap (λ w. at_queue (queue_for ((k.proctab x).prstate) k.readylist k.sleepq w) q)
            (sym (same ((k.proctab x).prsem)));
  };
  queues = record {
    ready_list = i.queues.ready_list;
    sleep_list = i.queues.sleep_list;
    sem_list = λ s l. rw (same s) (i.queues.sem_list s l);
    ready_sleep = i.queues.ready_sleep;
    sem_ready = λ s l. rw (same s) (i.queues.sem_ready s l);
    sem_sleep = λ s l. rw (same s) (i.queues.sem_sleep s l);
    sem_sem = λ s r l m q. i.queues.sem_sem s r l m (sym (same s) ∙ q ∙ same r);
  };
  descending = i.descending;
  keyed = i.keyed;
  prio_lower = i.prio_lower;
  prio_upper = i.prio_upper;
  null = i.null;
}
  where
    same : (s : ℕ) → squeue_of s (set_sentry sem e k) ≡ squeue_of s k
    same s = squeue-set_sentry sem e s k h

pub set_count-IsSched :
    (sem c : ℕ) (k : Kernel) (view : ℕ → List ℕ) → IsSched k view → IsSched (set_count sem c k) view
set_count-IsSched sem c k view i =
    set_sentry-IsSched sem (record (sentry sem k) { scount = c }) k view refl i

-- The counts but for one semaphore's.
abbrev pub CountedBut : ℕ → Kernel → (ℕ → List ℕ) → Type 0
CountedBut sem k view =
    (s : ℕ)
    → s < nsem
    → (sem == s) ≡ false
    → IsCount ((sentry s k).scount) (length (view (squeue_of s k)))

-- The counts when the count and the contents of one semaphore's queue change.
pub Counted-set :
    (sem c : ℕ) (k : Kernel) (view : ℕ → List ℕ) (ys : List ℕ)
    → sem < nsem
    → IsSched k view
    → CountedBut sem k view
    → IsCount c (length ys)
    → Counted (set_count sem c k) (update view (squeue_of sem k) ys)
Counted-set sem c k view ys lt i n h s l = elim (Bool-cases (sem == s)) [
  | inl e ↦
      subst At (==→≡ sem s e)
        (at sem c ys (ground (arith, ==_refl sem)) (rw (==_refl (squeue_of sem k)) refl) h)
  | inr e ↦
      at s ((sentry s k).scount) (view (squeue_of s k)) (ground (arith, e))
        (rw (==_ne (squeue_of sem k) (squeue_of s k) (different e)) refl) (n s l e)
]
  where
    At : ℕ → Type 0
    At r =
        IsCount ((sentry r (set_count sem c k)).scount)
          (length (update view (squeue_of sem k) ys (squeue_of r (set_count sem c k))))

    different : (sem == s) ≡ false → squeue_of sem k ≢ squeue_of s k
    different e q =
        true≢false
          (sym (subst (λ r. (sem == r) ≡ true) (i.queues.sem_sem sem s lt l q) (==_refl sem)) ∙ e)

    at :
        (r d : ℕ) (zs : List ℕ)
        → (sentry r (set_count sem c k)).scount ≡ d
        → update view (squeue_of sem k) ys (squeue_of r k) ≡ zs
        → IsCount d (length zs)
        → At r
    at r d zs e f g =
        subst
          (λ x.
            IsCount x (length (update view (squeue_of sem k) ys (squeue_of r (set_count sem c k)))))
          (sym e)
          (subst (λ q. IsCount d (length (update view (squeue_of sem k) ys q)))
            (sym (squeue-set_count sem c r k)) (subst (λ l. IsCount d (length l)) (sym f) g))
