-- ===== src/Kernel/Sleep.antt =====
-- Sleeping processes and the clock: system/sleep.c, unsleep.c, wakeup.c and clkhandler.c. A delay is the
-- bit pattern of its uint32, and the key that it is inserted with is its value as an int32 plus 2^31.
use operating_systems_paging.Prelude.{
  ℕ, zero, suc, ◌+◌, ◌-◌, ◌*◌, ◌^◌, ◌%◌, Bool, true, false, not, ◌&&◌, ◌||◌, Option, none, some,
  leb, ltb, ◌==◌, if◌then◌else◌,
}
use operating_systems_paging.Partial.{◌>>=◌}
use operating_systems_paging.Queues.{
  nproc, insertd, dequeue, getitem, is_empty, is_bad_pid, set_qkey, add_key,
}
use operating_systems_paging.Kernel.{
  Kernel, Prstate, pr_sleep, pr_rectim, to_pid, free_in, state_of, set_state, with_queues, firstkey,
  resched, ready, yield, defer_start, defer_stop, quantum,
}

-- (int32)delay, as a key
abbrev pub delay_key : ℕ → ℕ
delay_key delay = (delay + 2 ^ 31) % 2 ^ 32

-- false is SYSERR.
unfoldable pub sleepms : ℕ → Kernel → Option (Bool × Kernel)
sleepms delay k = if delay == 0 then (do k' ← yield k; some (true, k')) else do
  (ok, t) ← insertd (free_in k) k.currpid k.sleepq (delay_key delay) k.queuetab
  let k' = with_queues t k
  if not ok
      then some (false, k')
      else do k'' ← resched (set_state k.currpid pr_sleep k'); some (true, k'')

-- MAXSECONDS
abbrev pub max_seconds : ℕ
max_seconds = 4294967

unfoldable pub sleep : ℕ → Kernel → Option (Bool × Kernel)
sleep delay k =
    if ltb max_seconds delay
    then some (false, k)
    else do (ok, k') ← sleepms (1000 * delay % 2 ^ 32) k; some (true, k')

abbrev pub is_asleep : Prstate → Bool
is_asleep st = elim st [ pr_sleep ↦ true | pr_rectim ↦ true | _ ↦ false ]

-- pidnext < NPROC, for a pidnext that may be negative
abbrev pub is_next : ℕ → Bool
is_next i = ltb i nproc || leb (2 ^ 15) i

unfoldable pub unsleep : ℕ → Kernel → Bool × Kernel
unsleep pid k =
    if is_bad_pid (free_in k) pid
    then (false, k)
    else if not (is_asleep (state_of pid k))
    then (false, k)
    else (let t = k.queuetab in
        let next = (t pid).qnext in
        let u =
          if is_next next then set_qkey next (add_key ((t next).qkey) ((t pid).qkey)) t else t in
        (true, with_queues (getitem pid u) k))

-- key <= 0, and key - 1
abbrev pub is_due : ℕ → Bool
is_due key = leb key (2 ^ 31)

abbrev pub tick : ℕ → ℕ
tick key = (key + 2 ^ 32 - 1) % 2 ^ 32

-- `while (nonempty(sleepq) && (firstkey(sleepq) <= 0)) ready(dequeue(sleepq));`, with `n` rounds left
unfoldable pub wake_due : ℕ → Kernel → Option Kernel
wake_due zero k = none
wake_due (suc n) k =
    if not (is_empty k.sleepq k.queuetab) && is_due (firstkey k.sleepq k.queuetab)
    then (let (r, t) = dequeue k.sleepq k.queuetab in
        do (ok, k') ← ready (to_pid r) (with_queues t k); wake_due n k')
    else some k

unfoldable pub wakeup : Kernel → Option Kernel
wakeup k = do k' ← wake_due (nproc + 1) (defer_start k); (ok, k'') ← defer_stop k'; some k''

-- the counts of milliseconds and seconds
abbrev pub count_time : Kernel → Kernel
count_time k =
    let k' = record k { myglobalclock = (k.myglobalclock + 1) % 2 ^ 32 } in
    let c = (k.count1000 + 2 ^ 32 - 1) % 2 ^ 32 in
    if c == 0
    then record k' { clktime = (k.clktime + 1) % 2 ^ 32; count1000 = 1000 }
    else record k' { count1000 = c }

-- the sleeping processes
unfoldable pub count_sleep : Kernel → Option Kernel
count_sleep k =
    if is_empty k.sleepq k.queuetab
    then some k
    else (let first = (k.queuetab k.sleepq).qnext in
        let key = tick ((k.queuetab first).qkey) in
        let k' = with_queues (set_qkey first key k.queuetab) k in
        if is_due key then wakeup k' else some k')

-- the time slice
unfoldable pub count_slice : Kernel → Option Kernel
count_slice k =
    let p = (k.preempt + 2 ^ 32 - 1) % 2 ^ 32 in
    if p == 0 then resched (record k { preempt = quantum }) else some (record k { preempt = p })

-- clkhandler() up to the preemption counter; the rest, count_slice(), runs when the process that was
-- interrupted is chosen again, at once if wakeup() switches to no other.
unfoldable pub clkhandler : Kernel → Option Kernel
clkhandler k = count_sleep (count_time k)
