-- ===== src/Kernel/Nap.antt =====
-- sleepms() and recvtime() keep the kernel in order.
use mathlib.Core.Path.{subst}
use operating_systems_paging.Prelude.{
  ℕ, ◌^◌, ◌<◌, ◌≡◌, ◌≢◌, refl, sym, ap, ◌∙◌, inl, inr, Bool, true, false, not, true≢false, Option,
  some, List, ◌∷◌, ◌++◌, arith, ◌==◌, ==→≡, ==_refl, ==_ne, Bool-cases, update, if◌then◌else◌,
  contains, contains-append, length, leb,
}
use operating_systems_paging.Partial.{◌>>=◌, Ends, Ends-bind}
use operating_systems_paging.Queues.{insertd}
use operating_systems_paging.Queues.Table.{refute}
use operating_systems_paging.Queues.Walk.{Slotted, insertd-Slotted}
use operating_systems_paging.Semaphores.{nsem}
use operating_systems_paging.Kernel.{
  Kernel, Prstate, Proc, pr_free, pr_curr, pr_ready, pr_recv, pr_sleep, pr_susp, pr_wait, pr_rectim,
  is_free, is_curr, state_of, set_state, set_proc, with_queues, free_in, resched, yield,
}
use operating_systems_paging.Kernel.Sleep.{delay_key, sleepms}
use operating_systems_paging.Kernel.Message.{current, recvtime_start}
use operating_systems_paging.Kernel.Placed.{at_queue}
use operating_systems_paging.Kernel.Inv.{queue_for, home, squeue_of, Runs-home, Runs-curr}
use operating_systems_paging.Kernel.Leave.{Parks, parked-IsSched, parked-Blocked}
use operating_systems_paging.Kernel.System.{IsCount, InOrder, resched-InOrder, yield-InOrder}

-- The current process is not free.
curr_live : (st : Prstate) → is_curr st ≡ true → is_free st ≡ false
curr_live pr_curr h = refl
curr_live pr_free h = absurd (true≢false (sym h))
curr_live pr_ready h = refl
curr_live pr_recv h = refl
curr_live pr_sleep h = refl
curr_live pr_susp h = refl
curr_live pr_wait h = refl
curr_live pr_rectim h = refl

-- The current process goes onto the sleep queue in state `st`.
module _ (k : Kernel) (key : ℕ) (st : Prstate) (o : InOrder k) (nz : k.currpid ≢ 0)
    (sleeps : (w : ℕ) → queue_for st k.readylist k.sleepq w ≡ some k.sleepq)
    (stops : is_curr st ≡ false) where
  absent : (q : ℕ) → contains k.currpid (o.view k.sleepq) ≡ false
  absent q =
      o.sched.lists.placed k.currpid k.sleepq o.runs.small o.sched.queues.sleep_list
      ∙ ap (λ h. at_queue h k.sleepq) (Runs-home k o.runs)

  pub slot :
      Slotted k.queuetab k.sleepq k.currpid
        (o.view k.sleepq)
        (insertd (free_in k) k.currpid k.sleepq key k.queuetab)
  slot =
      insertd-Slotted (free_in k) k.queuetab k.sleepq k.currpid key (o.view k.sleepq)
        (o.sched.lists.table.queue k.sleepq o.sched.queues.sleep_list) o.runs.small
        (curr_live (state_of k.currpid k) (Runs-curr k o.runs)) (absent 0)

  abbrev sleeper : Proc
  sleeper = record (k.proctab k.currpid) { prstate = st }

  abbrev ys : List ℕ
  ys = slot.us ++ k.currpid ∷ slot.vs

  apart_lists : (k.sleepq == k.readylist) ≡ false
  apart_lists = ==_ne k.sleepq k.readylist (λ z. o.sched.queues.ready_sleep (sym z))

  there : (x : ℕ) → (k.currpid == x) ≡ false → contains x ys ≡ contains x (o.view k.sleepq)
  there x n = ground (
    arith,
    contains-append x slot.us slot.vs,
    contains-append x slot.us (k.currpid ∷ slot.vs),
    ap (contains x) slot.split,
  )

  -- A ready process is not on the sleep queue.
  ready_same : (y : ℕ) → contains y (o.view k.readylist) ≡ true → slot.table y ≡ k.queuetab y
  ready_same y h = slot.same y (
      ground (
        arith,
        (o.sched.lists.table.queue k.readylist o.sched.queues.ready_list).procs y h,
        o.sched.queues.sleep_list.above,
        refute (y == k.currpid) (λ e. true≢false (
            sym h
            ∙ ap (λ x. contains x (o.view k.readylist)) (==→≡ y k.currpid e)
            ∙ o.sched.lists.placed k.currpid k.readylist o.runs.small o.sched.queues.ready_list
            ∙ ap (λ x. at_queue x k.readylist) (Runs-home k o.runs))),
        refute (contains y (o.view k.sleepq)) (λ e. o.sched.queues.ready_sleep (
            o.sched.lists.table.apart k.readylist k.sleepq y o.sched.queues.ready_list
              o.sched.queues.sleep_list h e)),
      ))

  home-sleeper : home (set_proc k.currpid sleeper k) k.currpid ≡ some k.sleepq
  home-sleeper =
      ground (arith, ==_refl k.currpid, sleeps (squeue_of ((k.proctab k.currpid).prsem) k))

  nap-Parks : Parks k o.view slot.table k.sleepq k.currpid ys sleeper
  nap-Parks = record {
    list = o.sched.queues.sleep_list;
    queue = slot.queue;
    same = slot.same;
    small = o.runs.small;
    not_null = nz;
    was = inl (Runs-home k o.runs);
    becomes = inr home-sleeper;
    here = ground (
      arith,
      contains-append k.currpid slot.us (k.currpid ∷ slot.vs),
      ap (λ h. at_queue h k.sleepq) home-sleeper,
      ==_refl k.currpid,
      ==_refl k.sleepq,
    );
    there = there;
    off = ap (λ h. at_queue h k.readylist) home-sleeper ∙ apart_lists;
    prio = refl;
    same_keys = λ y m. ap (λ e. e.qkey) (ready_same y (rw apart_lists at m));
    sorted = rw apart_lists o.sched.descending;
  }

  pub naps : Ends (resched (set_state k.currpid st (with_queues slot.table k))) InOrder
  naps =
      resched-InOrder (set_state k.currpid st (with_queues slot.table k))
        (update o.view k.sleepq ys)
        (parked-IsSched k o.view slot.table k.sleepq k.currpid ys sleeper o.sched nap-Parks)
        (inr (
          parked-Blocked k o.view slot.table k.sleepq k.currpid ys sleeper o.sched nap-Parks o.runs
            refl stops))
        (λ s l.
          subst (λ xs. IsCount ((k.semtab.semtab s).scount) (length xs)) (sym (apart_sem s l))
            (o.counted s l))
        o.ndefers
    where
      apart_sem :
          (s : ℕ) → s < nsem → update o.view k.sleepq ys (squeue_of s k) ≡ o.view (squeue_of s k)
      apart_sem s l =
          rw (==_ne k.sleepq (squeue_of s k) (λ z. o.sched.queues.sem_sleep s l (sym z))) refl

-- sleepms() called by a process other than the null process ends with the kernel in order, and returns OK.
pub sleepms-InOrder :
    (k : Kernel) (delay : ℕ)
    → InOrder k
    → k.currpid ≢ 0
    → Ends (sleepms delay k) (λ out. (out.0 ≡ true) × InOrder out.1)
unfolding sleepms
sleepms-InOrder k delay o nz = elim (Bool-cases (delay == 0)) [
  | inl e ↦ rw e (
      Ends-bind (λ out. (out.0 ≡ true) × InOrder out.1) (yield k) (λ k'. some (true, k'))
        (yield-InOrder k o) (λ k' d. (refl, d)))
  | inr e ↦
      rw (e, (slot k (delay_key delay) pr_sleep o nz (λ w. refl) refl).returns)
        (Ends-bind (λ out. (out.0 ≡ true) × InOrder out.1)
          (resched (
            set_state k.currpid pr_sleep
              (with_queues (slot k (delay_key delay) pr_sleep o nz (λ w. refl) refl).table k)))
          (λ k'. some (true, k')) (naps k (delay_key delay) pr_sleep o nz (λ w. refl) refl)
          (λ k' d. (refl, d)))
]

-- The part of recvtime() that blocks.
abbrev timed : ℕ → Kernel → Option (Bool × Kernel)
timed maxwait k = do
  (ok, t) ← insertd (free_in k) k.currpid k.sleepq (delay_key maxwait) k.queuetab
  let k' = with_queues t k
  if not ok
      then some (false, k')
      else do k'' ← resched (set_state k.currpid pr_rectim k'); some (true, k'')

timed-InOrder :
    (k : Kernel) (maxwait : ℕ)
    → InOrder k
    → k.currpid ≢ 0
    → Ends (timed maxwait k) (λ out. (out.0 ≡ true) × InOrder out.1)
timed-InOrder k maxwait o nz =
    rw ((slot k (delay_key maxwait) pr_rectim o nz (λ w. refl) refl).returns) (
      Ends-bind (λ out. (out.0 ≡ true) × InOrder out.1)
        (resched (
          set_state k.currpid pr_rectim
            (with_queues (slot k (delay_key maxwait) pr_rectim o nz (λ w. refl) refl).table k)))
        (λ k'. some (true, k')) (naps k (delay_key maxwait) pr_rectim o nz (λ w. refl) refl)
        (λ k' d. (refl, d)))

-- recvtime() called by a process other than the null process ends its first half with the kernel in order,
-- and fails exactly for a negative time.
pub recvtime_start-InOrder :
    (k : Kernel) (maxwait : ℕ)
    → InOrder k
    → k.currpid ≢ 0
    → Ends (recvtime_start maxwait k) (λ out. (out.0 ≡ not (leb (2 ^ 31) maxwait)) × InOrder out.1)
unfolding recvtime_start
recvtime_start-InOrder k maxwait o nz = elim (Bool-cases (leb (2 ^ 31) maxwait)) [
  | inl e ↦ rw e (refl, o)
  | inr e ↦ rw e (by (current k).prhasmsg)
]
  where
    by :
        (b : Bool)
        → Ends {A = Bool × Kernel}
            (if b then some (true, k) else timed maxwait k)
            (λ out. (out.0 ≡ true) × InOrder out.1)
    by true = (refl, o)
    by false = timed-InOrder k maxwait o nz
