-- ===== src/Kernel/Reach.antt =====
-- Calls as steps of the kernel, and what holds of every state that they lead to.
use mathlib.Core.Path.{subst}
use operating_systems_paging.Prelude.{
  ℕ, ◌+◌, ◌-◌, ◌^◌, ◌%◌, ◌<◌, ◌≡◌, ◌≢◌, ap, ◌∙◌, Bool, true, false, Option, some, contains, ◌≤◌,
  ==_refl,
}
use operating_systems_paging.Partial.{Ends}
use operating_systems_paging.Queues.{nproc}
use operating_systems_paging.Semaphores.{nsem}
use operating_systems_paging.Kernel.{Kernel, pr_ready, is_free, state_of, resume, suspend, yield}
use operating_systems_paging.Kernel.Wait.{sentry, wait, signal, signaln, semreset, semdelete}
use operating_systems_paging.Kernel.Placed.{at_queue}
use operating_systems_paging.Kernel.Inv.{queue_for, squeue_of}
use operating_systems_paging.Kernel.System.{InOrder, yield-InOrder}
use operating_systems_paging.Kernel.Semaphore.{wait-InOrder}
use operating_systems_paging.Kernel.Signal.{signal-InOrder}
use operating_systems_paging.Kernel.Signaln.{signaln-InOrder}
use operating_systems_paging.Kernel.Reset.{semreset-InOrder}
use operating_systems_paging.Kernel.Delete.{semdelete-InOrder}
use operating_systems_paging.Kernel.Sleep.{sleepms, count_slice, clkhandler}
use operating_systems_paging.Kernel.Message.{recvtime_start}
use operating_systems_paging.Kernel.Nap.{sleepms-InOrder, recvtime_start-InOrder}
use operating_systems_paging.Kernel.Clock.{count_slice-InOrder, clkhandler-InOrder}
use operating_systems_paging.Kernel.Kill.{end_process, is_waiting, end_process-Ended}
use operating_systems_paging.Kernel.Resume.{resume-InOrder}
use operating_systems_paging.Kernel.Suspend.{suspend-InOrder}

-- A call that the current process makes, the switch of kill(), or a half of a clock interrupt: the null process does
-- not wait, sleep or end, a process that is ended is not free, and no count overflows. chprio() is left out, since it
-- writes a priority without moving the process in the ready list, and so are send(), receive() and create().
pub data Step : Kernel → Kernel → Type 0 where
  yields : {k k' : Kernel} → yield k ≡ some k' → Step k k'
  resumes : {k k' : Kernel} (pid : ℕ) (r : Option ℕ) → resume pid k ≡ some (r, k') → Step k k'
  suspends : {k k' : Kernel} (pid : ℕ) (r : Option ℕ) → suspend pid k ≡ some (r, k') → Step k k'
  waits :
      {k k' : Kernel} (sem : ℕ) (r : Bool) → k.currpid ≢ 0 → wait sem k ≡ some (r, k') → Step k k'
  signals :
      {k k' : Kernel} (sem : ℕ) (r : Bool)
      → (sentry sem k).scount ≢ 2 ^ 31 - 1
      → signal sem k ≡ some (r, k')
      → Step k k'
  signalns :
      {k k' : Kernel} (sem n : ℕ) (r : Bool)
      → ((sentry sem k).scount + 2 ^ 31) % 2 ^ 32 + n < 2 ^ 32
      → signaln sem n k ≡ some (r, k')
      → Step k k'
  resets :
      {k k' : Kernel} (sem count : ℕ) (r : Bool) → semreset sem count k ≡ some (r, k') → Step k k'
  deletes :
      {k k' : Kernel} (sem : ℕ) (r : Bool)
      → (sentry sem k).scount ≢ 2 ^ 31 - 1
      → semdelete sem k ≡ some (r, k')
      → Step k k'
  sleeps :
      {k k' : Kernel} (delay : ℕ) (r : Bool)
      → k.currpid ≢ 0
      → sleepms delay k ≡ some (r, k')
      → Step k k'
  receives :
      {k k' : Kernel} (maxwait : ℕ) (r : Bool)
      → k.currpid ≢ 0
      → recvtime_start maxwait k ≡ some (r, k')
      → Step k k'
  ticks : {k k' : Kernel} → clkhandler k ≡ some k' → Step k k'
  slices : {k k' : Kernel} → count_slice k ≡ some k' → Step k k'
  ends :
      {k k' : Kernel} (pid : ℕ)
      → pid < nproc
      → pid ≢ 0
      → is_free (state_of pid k) ≡ false
      → (is_waiting (state_of pid k) ≡ true → (k.proctab pid).prsem < nsem)
      → end_process pid k ≡ some k'
      → Step k k'

pub data Reach (k : Kernel) : Kernel → Type 0 where
  start : Reach k k
  later : {k' k'' : Kernel} → Reach k k' → Step k' k'' → Reach k k''

-- what holds of the result of a call that has one
result : {A : Type 0} (P : A → Type 0) (o : Option A) (a : A) → Ends o P → o ≡ some a → P a
result P o a h e = subst (λ r. Ends r P) e h

step-InOrder : {k k' : Kernel} → Step k k' → InOrder k → InOrder k'
step-InOrder {k} {k'} (yields e) o = result InOrder (yield k) k' (yield-InOrder k o) e
step-InOrder {k} {k'} (resumes pid r e) o =
    (result _ (resume pid k) (r, k') (resume-InOrder k pid o) e).1
step-InOrder {k} {k'} (suspends pid r e) o =
    (result _ (suspend pid k) (r, k') (suspend-InOrder k pid o) e).1
step-InOrder {k} {k'} (waits sem r h e) o =
    (result _ (wait sem k) (r, k') (wait-InOrder k sem o h) e).1
step-InOrder {k} {k'} (signals sem r h e) o =
    (result _ (signal sem k) (r, k') (signal-InOrder k sem o h) e).1
step-InOrder {k} {k'} (signalns sem n r h e) o =
    (result _ (signaln sem n k) (r, k') (signaln-InOrder k sem n o h) e).1
step-InOrder {k} {k'} (resets sem c r e) o =
    (result _ (semreset sem c k) (r, k') (semreset-InOrder k sem c o) e).1
step-InOrder {k} {k'} (deletes sem r h e) o =
    (result _ (semdelete sem k) (r, k') (semdelete-InOrder k sem o h) e).1
step-InOrder {k} {k'} (sleeps d r h e) o =
    (result _ (sleepms d k) (r, k') (sleepms-InOrder k d o h) e).1
step-InOrder {k} {k'} (receives w r h e) o =
    (result _ (recvtime_start w k) (r, k') (recvtime_start-InOrder k w o h) e).1
step-InOrder {k} {k'} (ticks e) o = (result _ (clkhandler k) k' (clkhandler-InOrder k o) e).0
step-InOrder {k} {k'} (slices e) o = result InOrder (count_slice k) k' (count_slice-InOrder k o) e
step-InOrder {k} {k'} (ends pid l nz f w e) o =
    (result _ (end_process pid k) k' (end_process-Ended k pid o l nz f w) e).0

-- Every sequence of these steps leaves the kernel in order.
pub reach-InOrder : {k k' : Kernel} → Reach k k' → InOrder k → InOrder k'
reach-InOrder start o = o
reach-InOrder (later r s) o = step-InOrder s (reach-InOrder r o)

-- In every state that the steps of Step lead to from one in order (yield, resume, suspend, wait, signal, signaln,
-- semreset, semdelete, sleepms, recvtime up to its wait, the switch of kill and the two halves of a clock interrupt, under
-- the conditions that Step puts on them, but not chprio, send, receive and create), the process that runs has a priority at least as high as that of
-- each process in state PR_READY.
pub Reach-priority :
    {k k' : Kernel}
    → InOrder k
    → Reach k k'
    → (pid : ℕ) → pid < nproc
    → state_of pid k' ≡ pr_ready
    → (k'.proctab pid).prprio ≤ (k'.proctab k'.currpid).prprio
Reach-priority {k} {k'} o r pid lt e = last.highest pid on_list
  where
    last : InOrder k'
    last = reach-InOrder r o

    on_list : contains pid (last.view k'.readylist) ≡ true
    on_list =
        last.sched.lists.placed pid k'.readylist lt last.sched.queues.ready_list
        ∙ ap
            (λ st.
              at_queue (queue_for st k'.readylist k'.sleepq (squeue_of ((k'.proctab pid).prsem) k'))
                k'.readylist)
            e
        ∙ ==_refl k'.readylist
