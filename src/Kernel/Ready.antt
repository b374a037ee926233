-- ===== src/Kernel/Ready.antt =====
-- ready() of a process that is in no queue.
use mathlib.Core.Path.{subst, fun_ext}
use operating_systems_paging.Prelude.{
  ℕ, ◌<◌, ◌≡◌, ◌≢◌, refl, sym, ap, ◌∙◌, inl, inr, true, false, Option, some, none, List, arith,
  ◌==◌, ==→≡, ==_refl, ==_ne, Bool-cases, update, lt→leb,
}
use operating_systems_paging.Partial.{◌>>=◌, Ends, Ends-bind}
use operating_systems_paging.Queues.{nproc, insert}
use operating_systems_paging.Kernel.{
  Kernel, Prstate, pr_ready, pr_susp, state_of, set_state, with_queues, free_in, line_up, resched,
  ready,
}
use operating_systems_paging.Kernel.Inv.{IsSched, Runs, home}
use operating_systems_paging.Kernel.Dispatch.{line_up_lem, lined_up, lined_up-IsSched, joined}
use operating_systems_paging.Kernel.Resched.{Rescheduled, resched-Rescheduled}

-- The last assignment to prstate counts.
pub set_state-set_state :
    (pid : ℕ) (a b : Prstate) (k : Kernel) → set_state pid a (set_state pid b k) ≡ set_state pid a k
set_state-set_state pid a b k = ap (λ f. record k { proctab = f }) (fun_ext (λ x. same x))
  where
    same : (x : ℕ) → (set_state pid a (set_state pid b k)).proctab x ≡ (set_state pid a k).proctab x
    same x = ground (arith, ==_refl pid)

-- Writing the state that a process has changes nothing.
pub set_state_self :
    (pid : ℕ) (st : Prstate) (k : Kernel) → state_of pid k ≡ st → set_state pid st k ≡ k
set_state_self pid st k e = ap (λ f. record k { proctab = f }) (fun_ext (λ x. same x))
  where
    same : (x : ℕ) → (set_state pid st k).proctab x ≡ k.proctab x
    same x = elim (Bool-cases (pid == x)) [
      | inl h ↦ rw h (
          subst (λ y. record (k.proctab pid) { prstate = st } ≡ k.proctab y) (==→≡ pid x h)
            (ap (λ s. record (k.proctab pid) { prstate = s }) (sym e)))
      | inr h ↦ rw h refl
    ]

-- What line_up() does once the state is set.
abbrev join : ℕ → ℕ → Kernel → Option Kernel
join pid prio k = do
  (ok, t) ← insert (free_in k) pid k.readylist prio k.queuetab
  some (with_queues t k)

pub line_up_susp : (pid : ℕ) (k : Kernel) → line_up pid (set_state pid pr_susp k) ≡ line_up pid k
unfolding line_up
line_up_susp pid k =
    ap (λ n. join pid n (set_state pid pr_ready (set_state pid pr_susp k)))
      (ground (arith, ==_refl pid))
    ∙ ap (join pid ((k.proctab pid).prprio)) (set_state-set_state pid pr_ready pr_susp k)

module _ (k : Kernel) (view : ℕ → List ℕ) (pid : ℕ) (i : IsSched k view) (lt : pid < nproc)
    (h : home k pid ≡ none) where
  pub lined_up-Runs : Runs k → pid ≢ k.currpid → Runs (lined_up k view pid i lt h)
  lined_up-Runs r ne = record {
    small = r.small;
    only = λ x m. ground (arith, r.only x m, ==_ne pid k.currpid ne);
    loaded = r.loaded ∙ ground (arith, ==_ne pid k.currpid ne);
  }

  -- what holds of a scheduling after the process has joined the ready list
  pub from_lined_up :
      (k' : Kernel)
      → Rescheduled
          (lined_up k view pid i lt h)
          (update view k.readylist (joined k view pid i lt h))
          k'
      → Rescheduled k view k'
  from_lined_up k' d = record {
    view' = d.view';
    sched = d.sched;
    runs = d.runs;
    highest = d.highest;
    ndefers = d.ndefers;
    semtab = d.semtab;
    readylist = d.readylist;
    others = λ q ne. d.others q ne ∙ rw ne refl;
  }

-- Where process `pid` is in no queue and neither free nor current, ready() puts it on the ready list and leaves a
-- process of the highest priority running, with the other queues and the semaphores unchanged. Its
-- state before counts as PR_SUSP, since it may have just been taken out of another queue.
pub ready-Rescheduled :
    (k : Kernel) (view : ℕ → List ℕ) (pid : ℕ)
    → IsSched (set_state pid pr_susp k) view
    → Runs k
    → k.ndefers ≡ 0
    → pid < nproc
    → pid ≢ k.currpid
    → free_in k pid ≡ false
    → Ends (ready pid k) (λ out. (out.0 ≡ true) × Rescheduled (set_state pid pr_susp k) view out.1)
unfolding ready
ready-Rescheduled k view pid i r z lt ne live =
    rw
      (
        lt→leb nproc pid lt,
        live,
        sym (line_up_susp pid k),
        line_up_lem (set_state pid pr_susp k) view pid i lt away,
      )
      (Ends-bind (λ out. (out.0 ≡ true) × Rescheduled (set_state pid pr_susp k) view out.1)
        (resched l) (λ k'. some (true, k'))
        (resched-Rescheduled l
          (update view k.readylist (joined (set_state pid pr_susp k) view pid i lt away))
          (lined_up-IsSched (set_state pid pr_susp k) view pid i lt away)
          (inl (lined_up-Runs (set_state pid pr_susp k) view pid i lt away still ne)) z)
        (λ k' d. (refl, from_lined_up (set_state pid pr_susp k) view pid i lt away k' d)))
  where
    away : home (set_state pid pr_susp k) pid ≡ none
    away = ground (arith, ==_refl pid)

    still : Runs (set_state pid pr_susp k)
    still = record {
      small = r.small;
      only = λ x m. ground (arith, r.only x m, ==_ne pid k.currpid ne);
      loaded = r.loaded ∙ ground (arith, ==_ne pid k.currpid ne);
    }

    l : Kernel
    l = lined_up (set_state pid pr_susp k) view pid i lt away
