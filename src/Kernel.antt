-- ===== src/Kernel.antt =====
-- The scheduler: system/resched.c, ready.c, suspend.c, resume.c, chprio.c, getprio.c and yield.c, over the
-- process table of include/process.h and the queue table. ctxsw() resumes another process, so the
-- state after resched() is that in which the process chosen runs on; the caller's next statement
-- runs when it is chosen again. A priority, a pri16, stands as the key that it is inserted with.
pub mod Placed
pub mod Inv
pub mod Dispatch
pub mod Resched
pub mod Leave
pub mod System
pub mod Semaphore
pub mod Resume
pub mod Deliver
pub mod States
pub mod Rested
pub mod Waits
pub mod Remove
pub mod Enter
pub mod Kill
pub mod Suspend
pub mod Wake
pub mod Deferred
pub mod Reset
pub mod Release
pub mod Signaln
pub mod Delete
pub mod Nap
pub mod Clock
pub mod Reach
pub mod Signal
pub mod Ready
pub mod Wait
pub mod Sleep
pub mod Message
use operating_systems_paging.Prelude.{
  ℕ, zero, suc, ◌+◌, ◌-◌, ◌^◌, ◌%◌, Bool, true, false, not, ◌&&◌, ◌||◌, Option, none, some, ltb,
  leb, ◌==◌, if◌then◌else◌, update,
}
use operating_systems_paging.Partial.{◌>>=◌}
use operating_systems_paging.Queues.{Queuetab, nproc, insert, dequeue, getitem, is_bad_pid}
use operating_systems_paging.Semaphores.{Semtab}

-- PR_FREE and the like
pub data Prstate : Type 0 where
  pr_free pr_curr pr_ready pr_recv pr_sleep pr_susp pr_wait pr_rectim : Prstate

-- The fields of struct procent that the scheduler uses; `pd` is the page of the directory.
pub record Proc : Type 0 where
  pub prstate : Prstate
  pub prprio : ℕ
  pub prsem : ℕ
  pub prmsg : ℕ
  pub prhasmsg : Bool
  pub pd : ℕ

-- queuetab, proctab, semtab, currpid, readylist, sleepq, Defer, preempt, the clock's counters, and the
-- register CR3, which loadPD() sets
pub record Kernel : Type 0 where
  pub queuetab : Queuetab
  pub proctab : ℕ → Proc
  pub semtab : Semtab
  pub currpid : ℕ
  pub readylist : ℕ
  pub sleepq : ℕ
  pub ndefers : ℕ
  pub attempt : Bool
  pub preempt : ℕ
  pub count1000 : ℕ
  pub clktime : ℕ
  pub myglobalclock : ℕ
  pub cr3 : ℕ

-- QUANTUM
abbrev pub quantum : ℕ
quantum = 2

-- a call's result as a pid32: EMPTY is -1
abbrev pub to_pid : Option ℕ → ℕ
to_pid none = 2 ^ 32 - 1
to_pid (some pid) = pid

abbrev pub is_free : Prstate → Bool
is_free pr_free = true
is_free pr_curr = false
is_free pr_ready = false
is_free pr_recv = false
is_free pr_sleep = false
is_free pr_susp = false
is_free pr_wait = false
is_free pr_rectim = false

abbrev pub is_curr : Prstate → Bool
is_curr pr_curr = true
is_curr pr_free = false
is_curr pr_ready = false
is_curr pr_recv = false
is_curr pr_sleep = false
is_curr pr_susp = false
is_curr pr_wait = false
is_curr pr_rectim = false

abbrev pub state_of : ℕ → Kernel → Prstate
state_of pid k = (k.proctab pid).prstate

-- the part of isbadpid() that reads proctab
abbrev pub free_in : Kernel → ℕ → Bool
free_in k pid = is_free (state_of pid k)

abbrev pub set_proc : ℕ → Proc → Kernel → Kernel
set_proc pid p k = record k { proctab = update k.proctab pid p }

abbrev pub set_state : ℕ → Prstate → Kernel → Kernel
set_state pid st k = set_proc pid (record (k.proctab pid) { prstate = st }) k

abbrev pub with_queues : Queuetab → Kernel → Kernel
with_queues t k = record k { queuetab = t }

-- prstate = PR_READY; insert(pid, readylist, prprio);
unfoldable pub line_up : ℕ → Kernel → Option Kernel
line_up pid k =
    let k' = set_state pid pr_ready k in
    do
      (ok, t) ← insert (free_in k') pid k.readylist ((k.proctab pid).prprio) k.queuetab
      some (with_queues t k')

-- The end of resched(), from `currpid = dequeue(readylist)` on.
unfoldable pub dispatch : Kernel → Kernel
dispatch k =
    let (r, t) = dequeue k.readylist k.queuetab in
    let pid = to_pid r in
    record (set_state pid pr_curr k) {
      queuetab = t;
      currpid = pid;
      preempt = quantum;
      cr3 = (k.proctab pid).pd;
    }

-- firstkey(q)
abbrev pub firstkey : ℕ → Queuetab → ℕ
firstkey q t = (t ((t q).qnext)).qkey

unfoldable pub resched : Kernel → Option Kernel
resched k =
    if ltb 0 k.ndefers
    then some (record k { attempt = true })
    else if is_curr (state_of k.currpid k)
    then (if ltb (firstkey k.readylist k.queuetab) ((k.proctab k.currpid).prprio)
        then some k
        else do k' ← line_up k.currpid k; some (dispatch k'))
    else some (dispatch k)

-- resched_cntl(DEFER_START)
unfoldable pub defer_start : Kernel → Kernel
defer_start k = record k {
  ndefers = k.ndefers + 1;
  attempt = if k.ndefers == 0 then false else k.attempt;
}

-- resched_cntl(DEFER_STOP); false is SYSERR.
unfoldable pub defer_stop : Kernel → Option (Bool × Kernel)
defer_stop k =
    if k.ndefers == 0
    then some (false, k)
    else (let k' = record k { ndefers = k.ndefers - 1 } in
        if k'.ndefers == 0 && k'.attempt
        then (do k'' ← resched k'; some (true, k''))
        else some (true, k'))

unfoldable pub ready : ℕ → Kernel → Option (Bool × Kernel)
ready pid k =
    if is_bad_pid (free_in k) pid
    then some (false, k)
    else do k' ← line_up pid k; k'' ← resched k'; some (true, k'')

-- The results of the calls below are SYSERR as `none`.
unfoldable pub resume : ℕ → Kernel → Option (Option ℕ × Kernel)
resume pid k = if is_bad_pid (free_in k) pid then some (none, k) else elim (state_of pid k) [
  | pr_susp ↦ do (ok, k') ← ready pid k; some (some (k.proctab pid).prprio, k')
  | _ ↦ some (none, k)
]

unfoldable pub suspend : ℕ → Kernel → Option (Option ℕ × Kernel)
suspend pid k =
    if is_bad_pid (free_in k) pid || pid == 0
    then some (none, k)
    else (let k' = set_state pid pr_susp k in
        let prio = (k.proctab pid).prprio in
        elim (state_of pid k) [
          | pr_ready ↦ some (some prio, with_queues (getitem pid k.queuetab) k')
          | pr_curr ↦ do k'' ← resched k'; some (some ((k''.proctab pid).prprio), k'')
          | _ ↦ some (none, k)
        ])

unfoldable pub chprio : ℕ → ℕ → Kernel → Option ℕ × Kernel
chprio pid newprio k =
    if is_bad_pid (free_in k) pid
    then (none, k)
    else (some (k.proctab pid).prprio, set_proc pid (record (k.proctab pid) { prprio = newprio }) k)

unfoldable pub getprio : ℕ → Kernel → Option ℕ
getprio pid k = if is_bad_pid (free_in k) pid then none else some (k.proctab pid).prprio

unfoldable pub yield : Kernel → Option Kernel
yield k = resched k
