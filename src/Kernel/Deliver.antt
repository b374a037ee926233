-- ===== src/Kernel/Deliver.antt =====
-- A message that is left for a process changes nothing for the scheduler.
use mathlib.Core.Path.{subst}
use operating_systems_paging.Prelude.{
  ℕ, ◌<◌, ◌≤◌, ◌≡◌, refl, sym, ap, ◌∙◌, inl, inr, true, false, true≢false, arith, ◌==◌, ==→≡,
  Bool-cases,
}
use operating_systems_paging.Partial.{Ends}
use operating_systems_paging.Queues.{max_key, is_bad_pid}
use operating_systems_paging.Kernel.{
  Kernel, Proc, Prstate, pr_free, pr_curr, pr_ready, pr_recv, pr_sleep, pr_wait, pr_rectim, pr_susp,
  is_curr, is_free, state_of, free_in,
}
use operating_systems_paging.Kernel.Placed.{at_queue}
use operating_systems_paging.Kernel.Inv.{home, queue_for, squeue_of, Runs-curr}
use operating_systems_paging.Kernel.System.{InOrder}
use operating_systems_paging.Kernel.Message.{deliver, send}

-- What does not read the message of a process stays.
unread :
    {A : Type 0} (f : Proc → A) (pid msg : ℕ) (k : Kernel)
    → f (record (k.proctab pid) { prmsg = msg; prhasmsg = true }) ≡ f (k.proctab pid)
    → (x : ℕ) → f ((deliver pid msg k).proctab x) ≡ f (k.proctab x)
unread f pid msg k h x = elim (Bool-cases (pid == x)) [
  | inl e ↦ rw e (h ∙ ap (λ y. f (k.proctab y)) (==→≡ pid x e))
  | inr e ↦ rw e refl
]

module _ (k : Kernel) (pid msg : ℕ) where
  pub state_of-deliver : (x : ℕ) → state_of x (deliver pid msg k) ≡ state_of x k
  state_of-deliver = unread (λ p. p.prstate) pid msg k refl

  same_prio : (x : ℕ) → ((deliver pid msg k).proctab x).prprio ≡ (k.proctab x).prprio
  same_prio = unread (λ p. p.prprio) pid msg k refl

  home-deliver : (x : ℕ) → home (deliver pid msg k) x ≡ home k x
  home-deliver =
      unread (λ p. queue_for p.prstate k.readylist k.sleepq (squeue_of p.prsem k)) pid msg k refl

  pub deliver-InOrder : InOrder k → InOrder (deliver pid msg k)
  deliver-InOrder o = record {
    view = o.view;
    sched = record {
      lists = record {
        table = o.sched.lists.table;
        placed =
            λ x q l m. o.sched.lists.placed x q l m ∙ ap (λ h. at_queue h q) (sym (home-deliver x));
      };
      queues = o.sched.queues;
      descending = o.sched.descending;
      keyed = λ x c. o.sched.keyed x c ∙ sym (same_prio x);
      prio_lower = λ x l. subst (λ n. 0 < n) (sym (same_prio x)) (o.sched.prio_lower x l);
      prio_upper = λ x l. subst (λ n. n ≤ max_key) (sym (same_prio x)) (o.sched.prio_upper x l);
      null = rw (state_of-deliver 0) o.sched.null;
    };
    runs = record {
      small = o.runs.small;
      only = λ x l. ap is_curr (state_of-deliver x) ∙ o.runs.only x l;
      loaded = o.runs.loaded ∙ sym (unread (λ p. p.pd) pid msg k refl k.currpid);
    };
    highest = λ x c. rw (same_prio x, same_prio k.currpid) (o.highest x c);
    counted = o.counted;
    ndefers = o.ndefers;
  }

-- what send() is to leave when its process is not one that waits for a message
abbrev pub Delivered : Kernel → Kernel → Type 0
Delivered k k' = InOrder k' × ((x : ℕ) → state_of x k' ≡ state_of x k)

-- A message to the current process is left there, unless it has one.
pub send-Delivered :
    (k : Kernel) (msg : ℕ) → InOrder k → Ends (send k.currpid msg k) (λ out. Delivered k out.1)
unfolding send
send-Delivered k msg o = by (state_of k.currpid k) refl
  where
    by :
        (st : Prstate)
        → state_of k.currpid k ≡ st
        → Ends (send k.currpid msg k) (λ out. Delivered k out.1)
    by pr_curr e = elim (Bool-cases ((k.proctab k.currpid).prhasmsg)) [
      | inl m ↦ rw (known e, e, m) (o, λ x. refl)
      | inr m ↦
          rw (known e, e, m) (deliver-InOrder k k.currpid msg o, state_of-deliver k k.currpid msg)
    ]
      where
        known : state_of k.currpid k ≡ pr_curr → is_bad_pid (free_in k) k.currpid ≡ false
        known e = ground (arith, o.runs.small, ap is_free e)
    by pr_free e = absurd (true≢false (sym (Runs-curr k o.runs) ∙ ap is_curr e))
    by pr_ready e = absurd (true≢false (sym (Runs-curr k o.runs) ∙ ap is_curr e))
    by pr_recv e = absurd (true≢false (sym (Runs-curr k o.runs) ∙ ap is_curr e))
    by pr_sleep e = absurd (true≢false (sym (Runs-curr k o.runs) ∙ ap is_curr e))
    by pr_wait e = absurd (true≢false (sym (Runs-curr k o.runs) ∙ ap is_curr e))
    by pr_rectim e = absurd (true≢false (sym (Runs-curr k o.runs) ∙ ap is_curr e))
    by pr_susp e = absurd (true≢false (sym (Runs-curr k o.runs) ∙ ap is_curr e))
