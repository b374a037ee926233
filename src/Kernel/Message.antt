-- ===== src/Kernel/Message.antt =====
-- Messages: system/send.c, receive.c, recvclr.c and recvtime.c. A call that may block is two functions: what
-- it does up to resched(), and what it does when the process runs on.
use operating_systems_paging.Prelude.{
  ℕ, ◌^◌, Bool, true, false, not, ◌||◌, Option, none, some, leb, if◌then◌else◌,
}
use operating_systems_paging.Partial.{◌>>=◌}
use operating_systems_paging.Queues.{is_bad_pid, insertd}
use operating_systems_paging.Kernel.{
  Kernel, Proc, pr_recv, pr_rectim, free_in, is_free, state_of, set_proc, set_state, with_queues,
  resched, ready,
}
use operating_systems_paging.Kernel.Sleep.{unsleep, delay_key}

abbrev pub deliver : ℕ → ℕ → Kernel → Kernel
deliver pid msg k = set_proc pid (record (k.proctab pid) { prmsg = msg; prhasmsg = true }) k

-- false is SYSERR.
unfoldable pub send : ℕ → ℕ → Kernel → Option (Bool × Kernel)
send pid msg k =
    if is_bad_pid (free_in k) pid
    then some (false, k)
    else if is_free (state_of pid k) || (k.proctab pid).prhasmsg
    then some (false, k)
    else (let k' = deliver pid msg k in
        elim (state_of pid k) [
          | pr_recv ↦ do (ok, k'') ← ready pid k'; some (true, k'')
          | pr_rectim ↦ do (ok, k'') ← ready pid ((unsleep pid k').1); some (true, k'')
          | _ ↦ some (true, k')
        ])

abbrev pub current : Kernel → Proc
current k = k.proctab k.currpid

abbrev pub take_message : Kernel → ℕ × Kernel
take_message k = ((current k).prmsg, set_proc k.currpid (record (current k) { prhasmsg = false }) k)

unfoldable pub receive_start : Kernel → Option Kernel
receive_start k = if (current k).prhasmsg then some k else resched (set_state k.currpid pr_recv k)

unfoldable pub receive_end : Kernel → ℕ × Kernel
receive_end k = take_message k

-- OK is 1.
unfoldable pub recvclr : Kernel → ℕ × Kernel
recvclr k = if (current k).prhasmsg then take_message k else (1, k)

-- Does the call go on? false is SYSERR.
unfoldable pub recvtime_start : ℕ → Kernel → Option (Bool × Kernel)
recvtime_start maxwait k =
    if leb (2 ^ 31) maxwait
    then some (false, k)
    else if (current k).prhasmsg
    then some (true, k)
    else do
      (ok, t) ← insertd (free_in k) k.currpid k.sleepq (delay_key maxwait) k.queuetab
      let k' = with_queues t k
      if not ok
          then some (false, k')
          else do k'' ← resched (set_state k.currpid pr_rectim k'); some (true, k'')

-- TIMEOUT, -3, is `none`.
unfoldable pub recvtime_end : Kernel → Option ℕ × Kernel
recvtime_end k =
    if (current k).prhasmsg then (let (msg, k') = take_message k in (some msg, k')) else (none, k)
