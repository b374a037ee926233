-- ===== src/Kernel/Inv.antt =====
-- The invariant of the scheduler: what the queues hold for the states and priorities of the processes.
use operating_systems_paging.Prelude.{
  ℕ, ◌≤◌, ◌<◌, ◌≡◌, ◌≢◌, ◌⊎◌, true, false, Option, some, none, List, ◌==◌, contains, Bool-cases,
  refl, sym, ◌∙◌, true≢false, ==_refl, inl, inr, arith, if◌then◌else◌,
}
use operating_systems_paging.Queues.{nproc, max_key}
use operating_systems_paging.Queues.Sorted.{Descending, keys}
use operating_systems_paging.Queues.Table.{IsList}
use operating_systems_paging.Semaphores.{nsem}
use operating_systems_paging.Kernel.{
  Kernel, Prstate, pr_free, pr_curr, pr_ready, pr_recv, pr_sleep, pr_susp, pr_wait, pr_rectim,
  is_curr, state_of, set_state,
}
use operating_systems_paging.Kernel.Placed.{Placed}

-- the queue of a process in a given state, by the ready list, the sleep queue and the semaphore's queue
abbrev pub queue_for : Prstate → ℕ → ℕ → ℕ → Option ℕ
queue_for pr_ready r s w = some r
queue_for pr_sleep r s w = some s
queue_for pr_rectim r s w = some s
queue_for pr_wait r s w = some w
queue_for pr_free r s w = none
queue_for pr_curr r s w = none
queue_for pr_recv r s w = none
queue_for pr_susp r s w = none

abbrev pub squeue_of : ℕ → Kernel → ℕ
squeue_of sem k = (k.semtab.semtab sem).squeue

abbrev pub home : Kernel → ℕ → Option ℕ
home k x = queue_for (state_of x k) k.readylist k.sleepq (squeue_of ((k.proctab x).prsem) k)

-- The ready list, the sleep queue and the queues of the semaphores are different queues.
pub record Apart (readylist sleepq : ℕ) (squeue : ℕ → ℕ) : Type 0 where
  pub ready_list : IsList readylist
  pub sleep_list : IsList sleepq
  pub sem_list : (s : ℕ) → s < nsem → IsList (squeue s)
  pub ready_sleep : readylist ≢ sleepq
  pub sem_ready : (s : ℕ) → s < nsem → squeue s ≢ readylist
  pub sem_sleep : (s : ℕ) → s < nsem → squeue s ≢ sleepq
  pub sem_sem : (s r : ℕ) → s < nsem → r < nsem → squeue s ≡ squeue r → s ≡ r

-- Each process is in the queue of its state; the ready list is in descending order of the priorities; the
-- null process is current or ready.
pub record IsSched (k : Kernel) (view : ℕ → List ℕ) : Type 0 where
  pub lists : Placed k.queuetab view (home k)
  pub queues : Apart k.readylist k.sleepq (λ s. squeue_of s k)
  pub descending : Descending (keys k.queuetab) max_key (view k.readylist)
  pub keyed :
      (x : ℕ) → contains x (view k.readylist) ≡ true → keys k.queuetab x ≡ (k.proctab x).prprio
  pub prio_lower : (x : ℕ) → x < nproc → 0 < (k.proctab x).prprio
  pub prio_upper : (x : ℕ) → x < nproc → (k.proctab x).prprio ≤ max_key
  pub null : (state_of 0 k ≡ pr_curr) ⊎ (state_of 0 k ≡ pr_ready)

-- The current process, and no other, is in state PR_CURR, and its page directory is in use.
pub record Runs (k : Kernel) : Type 0 where
  pub small : k.currpid < nproc
  pub only : (x : ℕ) → x < nproc → is_curr (state_of x k) ≡ (k.currpid == x)
  pub loaded : k.cr3 ≡ (k.proctab k.currpid).pd

-- The current process has left state PR_CURR.
pub record Blocked (k : Kernel) : Type 0 where
  pub small : k.currpid < nproc
  pub gone : (x : ℕ) → x < nproc → is_curr (state_of x k) ≡ false

-- No ready process has a higher priority than the current one.
abbrev pub Highest : Kernel → (ℕ → List ℕ) → Type 0
Highest k view =
    (x : ℕ)
    → contains x (view k.readylist) ≡ true
    → (k.proctab x).prprio ≤ (k.proctab k.currpid).prprio

-- the state of a process after an assignment to prstate
pub state_of-set_state :
    (pid x : ℕ) (st : Prstate) (k : Kernel)
    → state_of x (set_state pid st k) ≡ (if pid == x then st else state_of x k)
state_of-set_state pid x st k = ground arith

-- The null process stays current or ready when a process becomes so.
pub null_set :
    (pid : ℕ) (st : Prstate) (k : Kernel)
    → (st ≡ pr_curr) ⊎ (st ≡ pr_ready)
    → (state_of 0 k ≡ pr_curr) ⊎ (state_of 0 k ≡ pr_ready)
    → (state_of 0 (set_state pid st k) ≡ pr_curr) ⊎ (state_of 0 (set_state pid st k) ≡ pr_ready)
null_set pid st k h n = elim (Bool-cases (pid == 0)) [
  | inl e ↦ rw (state_of-set_state pid 0 st k, e) h
  | inr e ↦ rw (state_of-set_state pid 0 st k, e) n
]

-- The current process is in no queue.
pub curr_home : (st : Prstate) (r s w : ℕ) → is_curr st ≡ true → queue_for st r s w ≡ none
curr_home pr_curr r s w h = refl
curr_home pr_free r s w h = absurd (true≢false (sym h))
curr_home pr_ready r s w h = absurd (true≢false (sym h))
curr_home pr_recv r s w h = absurd (true≢false (sym h))
curr_home pr_sleep r s w h = absurd (true≢false (sym h))
curr_home pr_susp r s w h = absurd (true≢false (sym h))
curr_home pr_wait r s w h = absurd (true≢false (sym h))
curr_home pr_rectim r s w h = absurd (true≢false (sym h))

pub Runs-curr : (k : Kernel) → Runs k → is_curr (state_of k.currpid k) ≡ true
Runs-curr k r = r.only k.currpid r.small ∙ ==_refl k.currpid

pub Runs-home : (k : Kernel) → Runs k → home k k.currpid ≡ none
Runs-home k r =
    curr_home (state_of k.currpid k) k.readylist k.sleepq
      (squeue_of ((k.proctab k.currpid).prsem) k) (Runs-curr k r)
