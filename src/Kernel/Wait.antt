-- ===== src/Kernel/Wait.antt =====
-- wait() and signal() and the calls that release waiting processes: system/wait.c, signal.c, signaln.c,
-- semreset.c and semdelete.c. A count is the bit pattern of its int32; false is SYSERR.
use operating_systems_paging.Prelude.{
  ℕ, zero, suc, ◌+◌, ◌-◌, ◌^◌, ◌%◌, Bool, true, false, not, ◌||◌, Option, none, some, leb,
  if◌then◌else◌, update,
}
use operating_systems_paging.Partial.{◌>>=◌}
use operating_systems_paging.Queues.{nproc, enqueue, dequeue, getfirst}
use operating_systems_paging.Semaphores.{Sentry, is_bad_sem}
use operating_systems_paging.Kernel.{
  Kernel, pr_wait, to_pid, free_in, set_proc, with_queues, resched, ready, defer_start, defer_stop,
}

abbrev pub sentry : ℕ → Kernel → Sentry
sentry sem k = k.semtab.semtab sem

abbrev pub set_sentry : ℕ → Sentry → Kernel → Kernel
set_sentry sem s k = record k { semtab = record k.semtab { semtab = update k.semtab.semtab sem s } }

abbrev pub set_count : ℕ → ℕ → Kernel → Kernel
set_count sem c k = set_sentry sem (record (sentry sem k) { scount = c }) k

-- isbadsem(sem) || semtab[sem].sstate == S_FREE
abbrev pub is_unusable : ℕ → Kernel → Bool
is_unusable sem k = is_bad_sem sem || not (sentry sem k).used

-- count < 0, count - 1 and count + 1
abbrev pub negative : ℕ → Bool
negative c = leb (2 ^ 31) c

abbrev pub dec : ℕ → ℕ
dec c = (c + 2 ^ 32 - 1) % 2 ^ 32

abbrev pub inc : ℕ → ℕ
inc c = (c + 1) % 2 ^ 32

-- What wait() does to a process that must block, before resched().
unfoldable pub block : ℕ → Kernel → Kernel
block sem k =
    let pid = k.currpid in
    let k' = set_proc pid (record (k.proctab pid) { prstate = pr_wait; prsem = sem }) k in
    with_queues (enqueue (free_in k') pid ((sentry sem k).squeue) k.queuetab).1 k'

unfoldable pub wait : ℕ → Kernel → Option (Bool × Kernel)
wait sem k =
    if is_unusable sem k
    then some (false, k)
    else (let c = dec (sentry sem k).scount in
        let k' = set_count sem c k in
        if negative c then (do k'' ← resched (block sem k'); some (true, k'')) else some (true, k'))

-- ready(dequeue(q))
unfoldable pub ready_first : ℕ → Kernel → Option Kernel
ready_first q k =
    let (r, t) = dequeue q k.queuetab in do (ok, k') ← ready (to_pid r) (with_queues t k); some k'

-- `if ((semptr->scount++) < 0) ready(dequeue(semptr->squeue));`
unfoldable pub release : ℕ → Kernel → Option Kernel
release sem k =
    let c = (sentry sem k).scount in
    let k' = set_count sem (inc c) k in
    if negative c then ready_first ((sentry sem k).squeue) k' else some k'

unfoldable pub signal : ℕ → Kernel → Option (Bool × Kernel)
signal sem k = if is_unusable sem k then some (false, k) else do k' ← release sem k; some (true, k')

-- `for (; count > 0; count--)`
unfoldable pub release_times : ℕ → ℕ → Kernel → Option Kernel
release_times zero sem k = some k
release_times (suc count) sem k = do k' ← release sem k; release_times count sem k'

unfoldable pub signaln : ℕ → ℕ → Kernel → Option (Bool × Kernel)
signaln sem count k =
    if is_bad_sem sem || negative count
    then some (false, k)
    else if not (sentry sem k).used
    then some (false, k)
    else do
      k' ← release_times count sem (defer_start k)
      (ok, k'') ← defer_stop k'
      some (true, k'')

-- `while ((pid=getfirst(semqueue)) != EMPTY) ready(pid);`, with `n` rounds left
unfoldable pub ready_all : ℕ → ℕ → Kernel → Option Kernel
ready_all zero q k = none
ready_all (suc n) q k =
    let (r, t) = getfirst q k.queuetab in
    elim r [
      | none ↦ some (with_queues t k)
      | some pid ↦ do (ok, k') ← ready pid (with_queues t k); ready_all n q k'
    ]

-- A queue has at most NPROC processes, so that NPROC + 1 rounds empty it.
unfoldable pub semreset : ℕ → ℕ → Kernel → Option (Bool × Kernel)
semreset sem count k = if negative count || is_unusable sem k then some (false, k) else do
  k' ← ready_all (nproc + 1) ((sentry sem k).squeue) (defer_start k)
  (ok, k'') ← defer_stop (set_count sem count k')
  some (true, k'')

-- `while (semptr->scount++ < 0) ready(getfirst(semptr->squeue));`, with `n` rounds left
unfoldable pub release_all : ℕ → ℕ → Kernel → Option Kernel
release_all zero sem k = none
release_all (suc n) sem k =
    let c = (sentry sem k).scount in
    let k' = set_count sem (inc c) k in
    if negative c
    then (let (r, t) = getfirst ((sentry sem k).squeue) k.queuetab in
        do (ok, k'') ← ready (to_pid r) (with_queues t k'); release_all n sem k'')
    else some k'

-- The count is negative for 2^32 less the count rounds at most, and one more round ends the loop.
unfoldable pub semdelete : ℕ → Kernel → Option (Bool × Kernel)
semdelete sem k = if is_unusable sem k then some (false, k) else do
  k' ←
      release_all (2 ^ 32 - (sentry sem k).scount + 1) sem
        (defer_start (set_sentry sem (record (sentry sem k) { used = false }) k))
  (ok, k'') ← defer_stop k'
  some (true, k'')
