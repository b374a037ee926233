-- ===== src/Kernel/Resume.antt =====
-- resume() keeps the kernel in order.
use mathlib.Core.Path.{subst}
use operating_systems_paging.Prelude.{
  ℕ, ◌<◌, ◌≡◌, ◌≢◌, refl, sym, ap, ◌∙◌, inl, inr, Bool, true, false, true≢false, ◌&&◌, Option, some,
  none, arith, Bool-cases, if◌then◌else◌, ltb, lt→ltb,
}
use operating_systems_paging.Partial.{Ends, Ends-mono, Ends-both, Ends-bind}
use operating_systems_paging.Kernel.States.{is_runnable, ready_runnable}
use operating_systems_paging.Queues.{nproc, is_bad_pid}
use operating_systems_paging.Kernel.{
  Kernel, Prstate, pr_free, pr_curr, pr_ready, pr_recv, pr_sleep, pr_wait, pr_rectim, is_free,
  pr_susp, is_curr, state_of, set_state, free_in, ready, resume,
}
use operating_systems_paging.Kernel.Inv.{IsSched, Runs-curr}
use operating_systems_paging.Kernel.Ready.{ready-Rescheduled, set_state_self}
use operating_systems_paging.Kernel.Resched.{Rescheduled}
use operating_systems_paging.Kernel.System.{InOrder, settled}

abbrev pub is_susp : Prstate → Bool
is_susp st = elim st [ pr_susp ↦ true | _ ↦ false ]

-- two processes in different states
pub apart :
    (f : Prstate → Bool) (k : Kernel) (x y : ℕ)
    → f (state_of x k) ≡ true
    → f (state_of y k) ≡ false
    → x ≢ y
apart f k x y a b e = true≢false (sym a ∙ ap (λ z. f (state_of z k)) e ∙ b)

resumes :
    (k : Kernel) (pid : ℕ)
    → InOrder k
    → pid < nproc
    → state_of pid k ≡ pr_susp
    → Ends (ready pid k) (λ out. InOrder out.1 × (is_runnable (state_of pid out.1) ≡ true))
resumes k pid o lt e =
    Ends-both (λ out. InOrder out.1) (λ out. is_runnable (state_of pid out.1) ≡ true) (ready pid k)
      (Ends-mono (ready pid k)
        (λ out d.
          settled k out.1 o.view o.sched.queues o.counted o.ndefers
            (subst (λ j. Rescheduled j o.view out.1) self d.1))
        (ready-Rescheduled k o.view pid quiet o.runs o.ndefers lt other (ap is_free e)))
      (ready_runnable k o.view pid quiet o.runs o.ndefers lt other (ap is_free e))
  where
    self : set_state pid pr_susp k ≡ k
    self = set_state_self pid pr_susp k e

    quiet : IsSched (set_state pid pr_susp k) o.view
    quiet = subst (λ j. IsSched j o.view) (sym self) o.sched

    other : pid ≢ k.currpid
    other h = apart is_curr k k.currpid pid (Runs-curr k o.runs) (ap is_curr e) (sym h)

-- what resume() is to have done: the process is ready or runs when it was suspended, and nothing has changed otherwise
abbrev pub RunsAgain : ℕ → Kernel → Kernel → Bool → Type 0
RunsAgain pid k k' true = is_runnable (state_of pid k') ≡ true
RunsAgain pid k k' false = k' ≡ k

module _ (k : Kernel) (pid : ℕ) (o : InOrder k) where
  -- what resume() is to leave, when the process is suspended or is not
  abbrev Resumed : Option (Option ℕ × Kernel) → Bool → Type 0
  Resumed r s = Ends r (λ out.
      (out.0 ≡ (if s then some (k.proctab pid).prprio else none))
      × InOrder out.1
      × RunsAgain pid k out.1 s)

  resume_off : (b : Bool) → Resumed (some (none, k)) (b && false)
  resume_off true = (refl, o, refl)
  resume_off false = (refl, o, refl)

  resume_by :
      (st : Prstate)
      → state_of pid k ≡ st
      → is_bad_pid (free_in k) pid ≡ false
      → Resumed (resume pid k) (ltb pid nproc && is_susp st)
  unfolding resume
  resume_by pr_susp e b =
      rw (b, e, lt→ltb pid nproc (ground arith))
        (Ends-bind
          (λ out.
            (out.0 ≡ some (k.proctab pid).prprio)
            × InOrder out.1
            × (is_runnable (state_of pid out.1) ≡ true))
          (ready pid k) (λ out. some (some (k.proctab pid).prprio, out.1))
          (resumes k pid o (ground arith) e) (λ out d. (refl, d.0, d.1)))
  resume_by pr_free e b = rw (b, e) (resume_off (ltb pid nproc))
  resume_by pr_curr e b = rw (b, e) (resume_off (ltb pid nproc))
  resume_by pr_ready e b = rw (b, e) (resume_off (ltb pid nproc))
  resume_by pr_recv e b = rw (b, e) (resume_off (ltb pid nproc))
  resume_by pr_sleep e b = rw (b, e) (resume_off (ltb pid nproc))
  resume_by pr_wait e b = rw (b, e) (resume_off (ltb pid nproc))
  resume_by pr_rectim e b = rw (b, e) (resume_off (ltb pid nproc))

-- what is free is not in any other state
pub bad_state :
    (f : Prstate → Bool) (pid : ℕ) (k : Kernel)
    → f pr_free ≡ false
    → is_bad_pid (free_in k) pid ≡ true
    → (ltb pid nproc && f (state_of pid k)) ≡ false
bad_state f pid k h b = by (state_of pid k) refl
  where
    by : (st : Prstate) → state_of pid k ≡ st → (ltb pid nproc && f st) ≡ false
    by pr_free e = ground (arith, h)
    by pr_curr e = ground (arith, ap is_free e, b)
    by pr_ready e = ground (arith, ap is_free e, b)
    by pr_recv e = ground (arith, ap is_free e, b)
    by pr_sleep e = ground (arith, ap is_free e, b)
    by pr_susp e = ground (arith, ap is_free e, b)
    by pr_wait e = ground (arith, ap is_free e, b)
    by pr_rectim e = ground (arith, ap is_free e, b)

-- resume() ends with the kernel in order. A suspended process is then ready or current, and its priority is
-- returned; for any other the result is SYSERR and nothing changes.
pub resume-InOrder :
    (k : Kernel) (pid : ℕ)
    → InOrder k
    → Ends (resume pid k) (λ out.
      (out.0
        ≡ (if ltb pid nproc && is_susp (state_of pid k) then some (k.proctab pid).prprio else none))
      × InOrder out.1
      × RunsAgain pid k out.1 (ltb pid nproc && is_susp (state_of pid k)))
unfolding resume
resume-InOrder k pid o = elim (Bool-cases (is_bad_pid (free_in k) pid)) [
  | inl b ↦ rw (b, bad_state is_susp pid k refl b) (refl, o, refl)
  | inr b ↦ resume_by k pid o (state_of pid k) refl b
]
