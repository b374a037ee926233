-- ===== src/Kernel/Deferred.antt =====
-- While rescheduling is deferred, processes become ready and the current one runs on.
use operating_systems_paging.Prelude.{
  ℕ, ◌+◌, ◌<◌, ◌≡◌, ◌≢◌, refl, sym, ◌∙◌, inl, inr, Bool, true, false, true≢false, some, none, List,
  ◌∷◌, arith, ◌==◌, ==_refl, ==_ne, Bool-cases, update, if◌then◌else◌, lt→leb, lt→ltb,
}
use operating_systems_paging.Partial.{Ends, Ends-mono, Ends-both, Ends-bind}
use operating_systems_paging.Queues.{Queuetab, nproc}
use operating_systems_paging.Queues.Table.{IsList}
use operating_systems_paging.Kernel.{
  Kernel, pr_susp, set_state, with_queues, resched, ready, defer_start, defer_stop,
}
use operating_systems_paging.Kernel.Inv.{IsSched, Runs, Highest, home}
use operating_systems_paging.Kernel.Dispatch.{line_up_lem, lined_up, lined_up-IsSched, joined}
use operating_systems_paging.Kernel.Leave.{parked-IsSched}
use operating_systems_paging.Kernel.Ready.{line_up_susp, lined_up-Runs}
use operating_systems_paging.Kernel.Resched.{resched-Rescheduled}
use operating_systems_paging.Kernel.Rested.{Rested, resched-Rested}
use operating_systems_paging.Kernel.System.{Counted, InOrder, resched-InOrder}
use operating_systems_paging.Kernel.Wake.{Popped, small, waiting, woken, not_current}

-- One rescheduling is deferred: the current process runs, and if none was asked for it has the highest
-- priority.
pub record Holding (k : Kernel) (view : ℕ → List ℕ) : Type 0 where
  pub sched : IsSched k view
  pub runs : Runs k
  pub ndefers : k.ndefers ≡ 1
  pub quiet : k.attempt ≡ false → Highest k view

pub record Deferring (k : Kernel) : Type 0 where
  pub view : ℕ → List ℕ
  pub holding : Holding k view
  pub counted : Counted k view

-- The fields of the deferral are none of the scheduler's.
IsSched-defer :
    (n : ℕ) (b : Bool) (k : Kernel) (view : ℕ → List ℕ)
    → IsSched k view
    → IsSched (record k { ndefers = n; attempt = b }) view
IsSched-defer n b k view i = record {
  lists = i.lists;
  queues = i.queues;
  descending = i.descending;
  keyed = i.keyed;
  prio_lower = i.prio_lower;
  prio_upper = i.prio_upper;
  null = i.null;
}

pub defer_start-Deferring : (k : Kernel) → InOrder k → Deferring (defer_start k)
unfolding defer_start
defer_start-Deferring k o = record {
  view = o.view;
  holding = record {
    sched =
        IsSched-defer (k.ndefers + 1) (if k.ndefers == 0 then false else k.attempt) k o.view
          o.sched;
    runs = record { small = o.runs.small; only = o.runs.only; loaded = o.runs.loaded };
    ndefers = omega (arith, o.ndefers);
    quiet = λ h. o.highest;
  };
  counted = o.counted;
}

-- The last DEFER_STOP makes up for the rescheduling that was deferred.
pub defer_stop-InOrder :
    (k : Kernel)
    → Deferring k
    → Ends (defer_stop k) (λ out. (out.0 ≡ true) × InOrder out.1 × (out.1.semtab ≡ k.semtab))
unfolding defer_stop
defer_stop-InOrder k d = elim (Bool-cases k.attempt) [
  | inl a ↦
      rw (d.holding.ndefers, a)
        (Ends-bind (λ out. (out.0 ≡ true) × InOrder out.1 × (out.1.semtab ≡ k.semtab))
          (resched (free true)) (λ k'. some (true, k'))
          (Ends-both InOrder (λ k'. k'.semtab ≡ k.semtab) (resched (free true))
            (resched-InOrder (free true) d.view (sched true) (inl (runs true)) d.counted refl)
            (Ends-mono (resched (free true)) (λ k' e. e.semtab)
              (resched-Rescheduled (free true) d.view (sched true) (inl (runs true)) refl)))
          (λ k' e. (refl, e.0, e.1)))
  | inr a ↦
      rw (d.holding.ndefers, a)
        (
          refl,
          record {
            view = d.view;
            sched = sched false;
            runs = runs false;
            highest = d.holding.quiet a;
            counted = d.counted;
            ndefers = refl;
          },
          refl,
        )
]
  where
    free : Bool → Kernel
    free b = record k { ndefers = 0; attempt = b }

    sched : (b : Bool) → IsSched (free b) d.view
    sched b = IsSched-defer 0 b k d.view d.holding.sched

    runs : (b : Bool) → Runs (free b)
    runs b = record {
      small = d.holding.runs.small;
      only = d.holding.runs.only;
      loaded = d.holding.runs.loaded;
    }

-- It wakes no sleeper early.
pub defer_stop-Rested :
    (k : Kernel)
    → Deferring k
    → Rested k.sleepq k.queuetab
    → Ends (defer_stop k) (λ out. Rested out.1.sleepq out.1.queuetab)
unfolding defer_stop
defer_stop-Rested k d h = elim (Bool-cases k.attempt) [
  | inr a ↦ rw (d.holding.ndefers, a) h
  | inl a ↦
      rw (d.holding.ndefers, a)
        (Ends-bind (λ out. Rested out.1.sleepq out.1.queuetab) (resched free)
          (λ k'. some (true, k')) (resched-Rested free d.view sched (inl runs) refl h) (λ k' e. e))
]
  where
    free : Kernel
    free = record k { ndefers = 0; attempt = true }

    sched : IsSched free d.view
    sched = IsSched-defer 0 true k d.view d.holding.sched

    runs : Runs free
    runs = record {
      small = d.holding.runs.small;
      only = d.holding.runs.only;
      loaded = d.holding.runs.loaded;
    }

-- Queue `q` has lost its first process to the ready list.
pub record Woken (k : Kernel) (view : ℕ → List ℕ) (q : ℕ) (xs : List ℕ) (k' : Kernel) : Type 0 where
  pub view' : ℕ → List ℕ
  pub holding : Holding k' view'
  pub semtab : k'.semtab ≡ k.semtab
  pub readylist : k'.readylist ≡ k.readylist
  pub sleepq : k'.sleepq ≡ k.sleepq
  pub here : view' q ≡ xs
  pub others : (r : ℕ) → q ≢ r → k.readylist ≢ r → view' r ≡ view r

pub wakes_held :
    (k : Kernel) (view : ℕ → List ℕ) (u : Queuetab) (q x : ℕ) (xs : List ℕ)
    → Holding k view
    → IsList q
    → q ≢ k.readylist
    → view q ≡ x ∷ xs
    → Popped k.queuetab u q x xs
    → Ends (ready x (with_queues u k)) (λ out. (out.0 ≡ true) × Woken k view q xs out.1)
unfolding ready resched
wakes_held k view u q x xs h l a e p =
    rw
      (
        lt→leb nproc x lt,
        (waiting k view q x xs h.sched l a e).0,
        sym (line_up_susp x k2),
        line_up_lem k3 (update view q xs) x i lt away,
        lt→ltb 0 k.ndefers (omega (arith, h.ndefers)),
      )
      (refl, done)
  where
    k2 : Kernel
    k2 = with_queues u k

    k3 : Kernel
    k3 = set_state x pr_susp k2

    lt : x < nproc
    lt = small k view q x xs h.sched l a e

    i : IsSched k3 (update view q xs)
    i =
        parked-IsSched k view u q x xs (record (k.proctab x) { prstate = pr_susp }) h.sched
          (woken k view q x xs h.sched l a e u p)

    away : home k3 x ≡ none
    away = ground (arith, ==_refl x)

    l3 : Kernel
    l3 = lined_up k3 (update view q xs) x i lt away

    still : Runs k3
    still = record {
      small = h.runs.small;
      only = λ y m. ground (arith, h.runs.only y m, ==_ne x k.currpid ne);
      loaded = h.runs.loaded ∙ ground (arith, ==_ne x k.currpid ne);
    }
      where
        ne : x ≢ k.currpid
        ne = not_current k view q x xs h.sched l a e h.runs

    on : Runs l3
    on =
        lined_up-Runs k3 (update view q xs) x i lt away still
          (not_current k view q x xs h.sched l a e h.runs)

    done : Woken k view q xs (record l3 { attempt = true })
    done = record {
      view' = update (update view q xs) k.readylist (joined k3 (update view q xs) x i lt away);
      holding = record {
        sched =
            IsSched-defer k.ndefers true l3
              (update (update view q xs) k.readylist (joined k3 (update view q xs) x i lt away))
              (lined_up-IsSched k3 (update view q xs) x i lt away);
        runs = record { small = on.small; only = on.only; loaded = on.loaded };
        ndefers = h.ndefers;
        quiet = λ f. absurd (true≢false f);
      };
      semtab = refl;
      readylist = refl;
      sleepq = refl;
      here = rw (==_ne k.readylist q (λ z. a (sym z)), ==_refl q) refl;
      others = λ r nq nr. rw (==_ne k.readylist r nr, ==_ne q r nq) refl;
    }
