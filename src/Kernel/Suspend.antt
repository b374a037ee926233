-- ===== src/Kernel/Suspend.antt =====
-- suspend() keeps the kernel in order.
use mathlib.Core.Path.{subst}
use operating_systems_paging.Prelude.{
  ℕ, ◌<◌, ◌≡◌, ◌≢◌, refl, sym, ap, ◌∙◌, inl, inr, Bool, true, false, not, true≢false, ◌&&◌, Option,
  some, none, List, ◌∷◌, ◌++◌, arith, ◌==◌, ==_refl, ==_ne, Bool-cases, contains, contains-split,
  ltb, lt→ltb,
}
use operating_systems_paging.Partial.{Ends, Ends-bind}
use operating_systems_paging.Queues.{nproc, getitem, is_bad_pid}
use operating_systems_paging.Kernel.{
  Kernel, Prstate, pr_free, pr_curr, pr_ready, pr_recv, pr_sleep, pr_wait, pr_rectim, pr_susp,
  is_curr, state_of, set_state, with_queues, free_in, resched, suspend,
}
use operating_systems_paging.Kernel.Placed.{at_queue}
use operating_systems_paging.Kernel.Inv.{queue_for, home, squeue_of}
use operating_systems_paging.Kernel.System.{InOrder}
use operating_systems_paging.Kernel.Remove.{off_ready-InOrder, removed-resched}
use operating_systems_paging.Kernel.Resume.{bad_state}

-- the processes that suspend() takes
abbrev pub is_active : Prstate → Bool
is_active st = elim st [ pr_curr ↦ true | pr_ready ↦ true | _ ↦ false ]

abbrev pub has_result : Option ℕ → Bool
has_result none = false
has_result (some p) = true

-- A ready process, not the null process, is taken off the ready list.
module _ (k : Kernel) (o : InOrder k) (pid : ℕ) (lt : pid < nproc) (nz : pid ≢ 0)
    (e : state_of pid k ≡ pr_ready) where
  ready_home : home k pid ≡ some k.readylist
  ready_home = ap (λ st. queue_for st k.readylist k.sleepq (squeue_of ((k.proctab pid).prsem) k)) e

  off_list-InOrder :
      (us vs : List ℕ)
      → o.view k.readylist ≡ us ++ pid ∷ vs
      → InOrder (with_queues (getitem pid k.queuetab) (set_state pid pr_susp k))
  off_list-InOrder us vs h =
      off_ready-InOrder k o pid pr_susp lt nz (refl, λ r s w. refl) ready_home us vs h

-- what suspend() is to have done: the process is in state PR_SUSP when it is taken, and nothing has changed otherwise
abbrev pub Takes : ℕ → Kernel → Kernel → Bool → Type 0
Takes pid k k' true = state_of pid k' ≡ pr_susp
Takes pid k k' false = k' ≡ k

abbrev Suspended : ℕ → Kernel → Option (Option ℕ × Kernel) → Bool → Type 0
Suspended pid k r s = Ends r (λ out. (has_result out.0 ≡ s) × InOrder out.1 × Takes pid k out.1 s)

suspend_ready :
    (k : Kernel) (pid : ℕ) (o : InOrder k)
    → is_bad_pid (free_in k) pid ≡ false
    → pid ≢ 0
    → state_of pid k ≡ pr_ready
    → Suspended pid k (suspend pid k) true
unfolding suspend
suspend_ready k pid o b nz e =
    rw (b, ==_ne pid 0 nz, e)
      (
        refl,
        off_list-InOrder k o pid (ground arith) nz e (split.0) (split.1) (split.2),
        rw (state_of, ==_refl pid) refl,
      )
  where
    listed : contains pid (o.view k.readylist) ≡ true
    listed =
        o.sched.lists.placed pid k.readylist (ground arith) o.sched.queues.ready_list
        ∙ ap (λ h. at_queue h k.readylist) (ready_home k o pid (ground arith) nz e)
        ∙ ==_refl k.readylist

    split : (us : List ℕ) × (vs : List ℕ) × (o.view k.readylist ≡ us ++ pid ∷ vs)
    split = contains-split pid (o.view k.readylist) listed

suspend_current :
    (k : Kernel) (pid : ℕ) (o : InOrder k)
    → is_bad_pid (free_in k) pid ≡ false
    → pid ≢ 0
    → state_of pid k ≡ pr_curr
    → Suspended pid k (suspend pid k) true
unfolding suspend
suspend_current k pid o b nz e =
    rw (b, ==_ne pid 0 nz, e)
      (Ends-bind (λ out. (has_result out.0 ≡ true) × InOrder out.1 × (state_of pid out.1 ≡ pr_susp))
        (resched (set_state pid pr_susp k)) (λ k'. some (some ((k'.proctab pid).prprio), k'))
        (removed-resched k o pid pr_susp (ground arith) nz (refl, λ r s w. refl) same)
        (λ k' d. (refl, d.0, d.1)))
  where
    same : pid ≡ k.currpid
    same = ground (arith, o.runs.only pid, ap is_curr e)

module _ (k : Kernel) (pid : ℕ) (o : InOrder k) where
  suspend_by :
      (st : Prstate)
      → state_of pid k ≡ st
      → is_bad_pid (free_in k) pid ≡ false
      → pid ≢ 0
      → Suspended pid k (suspend pid k) (is_active st)
  unfolding suspend
  suspend_by pr_ready e b nz = suspend_ready k pid o b nz e
  suspend_by pr_curr e b nz = suspend_current k pid o b nz e
  suspend_by pr_susp e b nz = rw (b, ==_ne pid 0 nz, e) (refl, o, refl)
  suspend_by pr_free e b nz = rw (b, ==_ne pid 0 nz, e) (refl, o, refl)
  suspend_by pr_recv e b nz = rw (b, ==_ne pid 0 nz, e) (refl, o, refl)
  suspend_by pr_sleep e b nz = rw (b, ==_ne pid 0 nz, e) (refl, o, refl)
  suspend_by pr_wait e b nz = rw (b, ==_ne pid 0 nz, e) (refl, o, refl)
  suspend_by pr_rectim e b nz = rw (b, ==_ne pid 0 nz, e) (refl, o, refl)

-- when suspend() takes its process
abbrev takes : ℕ → Kernel → Bool
takes pid k = ltb pid nproc && is_active (state_of pid k) && not (pid == 0)

untouched :
    (k : Kernel) (pid : ℕ) (s : Bool) → InOrder k → s ≡ false → Suspended pid k (some (none, k)) s
untouched k pid s o e = rw e (refl, o, refl)

-- suspend() ends with the kernel in order. A process that is current or ready and is not the null process is then in
-- state PR_SUSP, and a priority is returned; for any other the result is SYSERR and nothing changes.
pub suspend-InOrder :
    (k : Kernel) (pid : ℕ)
    → InOrder k
    → Ends (suspend pid k) (λ out.
      (has_result out.0 ≡ (ltb pid nproc && is_active (state_of pid k) && not (pid == 0)))
      × InOrder out.1
      × Takes pid k out.1 (ltb pid nproc && is_active (state_of pid k) && not (pid == 0)))
unfolding suspend
suspend-InOrder k pid o = elim (Bool-cases (is_bad_pid (free_in k) pid)) [
  | inl b ↦
      rw b (untouched k pid (takes pid k) o (ground (arith, bad_state is_active pid k refl b)))
  | inr b ↦ elim (Bool-cases (pid == 0)) [
    | inl z ↦
        rw (b, z)
          (untouched k pid (ltb pid nproc && is_active (state_of pid k) && false) o (ground arith))
    | inr n ↦
        subst (λ s. Suspended pid k (suspend pid k) s)
          (ground (arith, n, lt→ltb pid nproc (ground arith)))
          (suspend_by k pid o (state_of pid k) refl b
            (λ z. true≢false (sym (ap (λ y. y == 0) z) ∙ n)))
  ]
]
