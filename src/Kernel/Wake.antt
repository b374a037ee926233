-- ===== src/Kernel/Wake.antt =====
-- The first process that waits on a semaphore is taken out of its queue.
use operating_systems_paging.Prelude.{
  ℕ, ◌<◌, ◌≡◌, ◌≢◌, refl, sym, ap, ◌∙◌, inl, inr, Bool, true, false, true≢false, List, [], ◌∷◌,
  arith, ◌==◌, ==_refl, ==_ne, contains,
}
use operating_systems_paging.Queues.{Queuetab, getitem, nproc, dequeue, queuetail}
use operating_systems_paging.Queues.Order.{IsQueue, getitem_qkey}
use operating_systems_paging.Queues.Fifo.{
  getitem-IsQueue, dequeue-IsQueue, dequeue_keys, dequeue-same,
}
use operating_systems_paging.Queues.Table.{IsList, Same}
use operating_systems_paging.Queues.Local.{getitem-same}
use operating_systems_paging.Queues.Sorted.{keys}
use operating_systems_paging.Kernel.{
  Kernel, Prstate, pr_free, pr_curr, pr_ready, pr_recv, pr_sleep, pr_rectim, pr_susp, pr_wait,
  is_curr, is_free, state_of,
}
use operating_systems_paging.Kernel.Placed.{at_queue}
use operating_systems_paging.Kernel.Inv.{queue_for, IsSched, Runs, home, squeue_of, Runs-curr}
use operating_systems_paging.Kernel.Dispatch.{at_home}
use operating_systems_paging.Kernel.Leave.{Parks}

-- Is a process in this state on the ready list?
abbrev on_list : Prstate → Bool
on_list st = at_queue (queue_for st 0 1 1) 0

-- neither free, current nor ready
abbrev pub IsIdle : Prstate → Type 0
IsIdle st = (is_free st ≡ false) × (is_curr st ≡ false) × (on_list st ≡ false)

-- The state of a process that is in a queue other than the ready list.
waits_in :
    (st : Prstate) (r s w q : ℕ)
    → (r == q) ≡ false
    → at_queue (queue_for st r s w) q ≡ true
    → IsIdle st
waits_in pr_wait r s w q a h = (refl, refl, refl)
waits_in pr_sleep r s w q a h = (refl, refl, refl)
waits_in pr_rectim r s w q a h = (refl, refl, refl)
waits_in pr_ready r s w q a h = absurd (true≢false (sym h ∙ a))
waits_in pr_free r s w q a h = absurd (true≢false (sym h))
waits_in pr_curr r s w q a h = absurd (true≢false (sym h))
waits_in pr_recv r s w q a h = absurd (true≢false (sym h))
waits_in pr_susp r s w q a h = absurd (true≢false (sym h))

-- `u` is `t` with the first process `x` of queue `q` taken out.
pub record Popped (t u : Queuetab) (q x : ℕ) (xs : List ℕ) : Type 0 where
  pub queue : IsQueue u q xs
  pub same : Same t u (x ∷ q ∷ queuetail q ∷ x ∷ xs)
  pub same_keys : (y : ℕ) → keys u y ≡ keys t y

pub dequeue-Popped :
    (t : Queuetab) (q x : ℕ) (xs : List ℕ) → IsQueue t q (x ∷ xs) → Popped t (dequeue q t).1 q x xs
dequeue-Popped t q x xs i = record {
  queue = (dequeue-IsQueue t q x xs i).1;
  same = λ y h. dequeue-same t q x xs y i h;
  same_keys = λ y. dequeue_keys t q x xs y i;
}

pub getitem-Popped :
    (t : Queuetab) (q x : ℕ) (xs : List ℕ) → IsQueue t q (x ∷ xs) → Popped t (getitem x t) q x xs
getitem-Popped t q x xs i = record {
  queue = getitem-IsQueue t q [] x xs i;
  same = λ y h. getitem-same t q [] x xs y i (ground arith);
  same_keys = λ y. getitem_qkey x t y;
}

-- The first process of a semaphore's queue `q`.
module _ (k : Kernel) (view : ℕ → List ℕ) (q x : ℕ) (xs : List ℕ) (i : IsSched k view)
    (l : IsList q) (a : q ≢ k.readylist) (e : view q ≡ x ∷ xs) where
  pub full : IsQueue k.queuetab q (x ∷ xs)
  full = rw e at (i.lists.table.queue q l)

  pub small : x < nproc
  small = full.procs x (ground arith)

  held : at_queue (home k x) q ≡ true
  held = sym (i.lists.placed x q small l) ∙ ap (contains x) e ∙ ground arith

  pub waiting : IsIdle (state_of x k)
  waiting =
      waits_in (state_of x k) k.readylist k.sleepq (squeue_of ((k.proctab x).prsem) k) q
        (==_ne k.readylist q (λ z. a (sym z))) held

  not_null : x ≢ 0
  not_null z = elim i.null [
    | inl c ↦
        absurd
          (true≢false (sym (ap is_curr c) ∙ ap (λ y. is_curr (state_of y k)) (sym z) ∙ waiting.1))
    | inr c ↦
        absurd
          (true≢false (sym (ap on_list c) ∙ ap (λ y. on_list (state_of y k)) (sym z) ∙ waiting.2))
  ]

  pub woken :
      (u : Queuetab)
      → Popped k.queuetab u q x xs
      → Parks k view u q x xs (record (k.proctab x) { prstate = pr_susp })
  woken u d = record {
    list = l;
    queue = d.queue;
    same = λ y h. d.same y (ground (arith, ap (contains y) e));
    small = small;
    not_null = not_null;
    was = inr (at_home (home k x) q held);
    becomes = inl (ground (arith, ==_refl x));
    here = ground (arith, ==_refl x, full.no_repeat);
    there = λ y n. ground (arith, ap (contains y) e);
    off = ground (arith, ==_refl x);
    prio = refl;
    same_keys = λ y m. d.same_keys y;
    sorted = rw (==_ne q k.readylist a) i.descending;
  }

  pub not_current : Runs k → x ≢ k.currpid
  not_current r z =
      true≢false (sym (Runs-curr k r) ∙ ap (λ y. is_curr (state_of y k)) (sym z) ∙ waiting.1)
