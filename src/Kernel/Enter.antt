-- ===== src/Kernel/Enter.antt =====
-- The entry of a process that is neither current nor in a queue is written, and it still is neither.
use operating_systems_paging.Prelude.{
  ℕ, ◌<◌, ◌≤◌, ◌≡◌, ◌≢◌, refl, sym, ap, ◌∙◌, inl, inr, true, false, true≢false, none, arith, ◌==◌,
  ==→≡, ==_ne, Bool-cases, contains,
}
use operating_systems_paging.Queues.{nproc, max_key}
use operating_systems_paging.Kernel.{Kernel, Proc, is_curr, state_of, set_proc}
use operating_systems_paging.Kernel.Placed.{at_queue}
use operating_systems_paging.Kernel.Inv.{IsSched, home, Runs-curr}
use operating_systems_paging.Kernel.Remove.{IsOut}
use operating_systems_paging.Kernel.System.{InOrder}

module _ (k : Kernel) (o : InOrder k) (pid : ℕ) (p : Proc) (lt : pid < nproc) (nz : pid ≢ 0)
    (idle : home k pid ≡ none) (not_curr : is_curr (state_of pid k) ≡ false) (out : IsOut p.prstate)
    (pos : 0 < p.prprio) (top : p.prprio ≤ max_key) where
  same_home : (x : ℕ) → home (set_proc pid p k) x ≡ home k x
  same_home x = elim (Bool-cases (pid == x)) [
    | inl e ↦ rw (state_of, e) (out.1 _ _ _ ∙ sym idle ∙ ap (home k) (==→≡ pid x e))
    | inr e ↦ rw (state_of, e) refl
  ]

  elsewhere : (x : ℕ) → contains x (o.view k.readylist) ≡ true → (pid == x) ≡ false
  elsewhere x c = elim (Bool-cases (pid == x)) [
    | inl e ↦ absurd (
        true≢false (
          sym c
          ∙ ap (λ y. contains y (o.view k.readylist)) (sym (==→≡ pid x e))
          ∙ o.sched.lists.placed pid k.readylist lt o.sched.queues.ready_list
          ∙ ap (λ h. at_queue h k.readylist) idle))
    | inr e ↦ e
  ]

  other : (pid == k.currpid) ≡ false
  other = elim (Bool-cases (pid == k.currpid)) [
    | inl e ↦ absurd (
        true≢false (
          sym (Runs-curr k o.runs)
          ∙ ap (λ y. is_curr (state_of y k)) (sym (==→≡ pid k.currpid e))
          ∙ not_curr))
    | inr e ↦ e
  ]

  pub entered-IsSched : IsSched (set_proc pid p k) o.view
  entered-IsSched = record {
    lists = record {
      table = o.sched.lists.table;
      placed = λ x q l m. o.sched.lists.placed x q l m ∙ ap (λ h. at_queue h q) (sym (same_home x));
    };
    queues = o.sched.queues;
    descending = o.sched.descending;
    keyed = λ x c. o.sched.keyed x c ∙ rw (elsewhere x c) refl;
    prio_lower = λ x l. ground (arith, o.sched.prio_lower x l);
    prio_upper = λ x l. ground (arith, o.sched.prio_upper x l);
    null = rw (state_of, ==_ne pid 0 nz) o.sched.null;
  }

  pub entered-InOrder : InOrder (set_proc pid p k)
  entered-InOrder = record {
    view = o.view;
    sched = entered-IsSched;
    runs = record {
      small = o.runs.small;
      only = λ x l. ground (arith, o.runs.only x l, out.0, other);
      loaded = o.runs.loaded ∙ rw other refl;
    };
    highest = λ x c. rw (elsewhere x c, other) (o.highest x c);
    counted = o.counted;
    ndefers = o.ndefers;
  }
