-- ===== src/Kernel/Resched.antt =====
-- resched() chooses a process of the highest priority.
use mathlib.Core.Path.{subst}
use operating_systems_paging.Prelude.{
  ℕ, ◌≤◌, ◌≡◌, refl, sym, ap, ◌∙◌, ◌⊎◌, inl, inr, true, false, true≢false, none, List, [], ◌∷◌,
  arith, ◌==◌, ==_refl, Bool-cases, update, contains, ltb, ltb→lt, leb→ltb,
}
use operating_systems_paging.Partial.{Ends}
use operating_systems_paging.Queues.{max_key}
use operating_systems_paging.Queues.Order.{IsQueue}
use operating_systems_paging.Queues.Sorted.{Descending, keys}
use operating_systems_paging.Kernel.{Kernel, is_curr, resched, dispatch, firstkey}
use operating_systems_paging.Kernel.Placed.{at_queue}
use operating_systems_paging.Kernel.Inv.{
  IsSched, Runs, Blocked, Highest, home, queue_for, squeue_of, Runs-home, Runs-curr,
}
use operating_systems_paging.Kernel.Dispatch.{
  line_up_lem, lined_up, lined_up-IsSched, joined, contains-placed, dispatch_lem,
  dispatched-IsSched, dispatched-Runs, dispatched-Highest, Descending-below,
}

-- From `k`, a process of the highest priority has come to run: only the ready list has changed.
pub record Rescheduled (k : Kernel) (view : ℕ → List ℕ) (k' : Kernel) : Type 0 where
  pub view' : ℕ → List ℕ
  pub sched : IsSched k' view'
  pub runs : Runs k'
  pub highest : Highest k' view'
  pub ndefers : k'.ndefers ≡ k.ndefers
  pub semtab : k'.semtab ≡ k.semtab
  pub readylist : k'.readylist ≡ k.readylist
  pub others : (q : ℕ) → (k.readylist == q) ≡ false → view' q ≡ view q

-- The ready list is not empty when the current process has left it.
pub null-ready :
    (k : Kernel) (view : ℕ → List ℕ)
    → IsSched k view
    → Blocked k
    → contains 0 (view k.readylist) ≡ true
null-ready k view i b = elim i.null [
  | inl c ↦ absurd (true≢false (sym (ap is_curr c) ∙ b.gone 0 (omega arith)))
  | inr r ↦
      i.lists.placed 0 k.readylist (omega arith) i.queues.ready_list
      ∙ ap
          (λ s.
            at_queue (queue_for s k.readylist k.sleepq (squeue_of ((k.proctab 0).prsem) k))
              k.readylist)
          r
      ∙ ==_refl k.readylist
]

dispatch-Rescheduled :
    (k : Kernel) (view : ℕ → List ℕ) (y : ℕ)
    → IsSched k view
    → Blocked k
    → contains y (view k.readylist) ≡ true
    → Rescheduled k view (dispatch k)
dispatch-Rescheduled k view y i b h = from (view k.readylist) refl
  where
    from : (xs : List ℕ) → view k.readylist ≡ xs → Rescheduled k view (dispatch k)
    from [] e = absurd (true≢false (sym h ∙ ap (contains y) e))
    from (x ∷ xs) e = subst (Rescheduled k view) (sym (dispatch_lem k view x xs i e)) (record {
      view' = update view k.readylist xs;
      sched = dispatched-IsSched k view x xs i e;
      runs = dispatched-Runs k view x xs i e b;
      highest = dispatched-Highest k view x xs i e;
      ndefers = refl;
      semtab = refl;
      readylist = refl;
      others = λ q ne. rw ne refl;
    })

-- The current process keeps the processor when its priority is above that of the first ready process.
keeps :
    (k : Kernel) (view : ℕ → List ℕ)
    → IsSched k view
    → ltb (firstkey k.readylist k.queuetab) ((k.proctab k.currpid).prprio) ≡ true
    → Highest k view
keeps k view i h x c = from (view k.readylist) refl
  where
    from :
        (xs : List ℕ) → view k.readylist ≡ xs → (k.proctab x).prprio ≤ (k.proctab k.currpid).prprio
    from [] e = absurd (true≢false (sym c ∙ ap (contains x) e))
    from (y ∷ ys) e = omega (
      arith,
      i.keyed x c,
      ltb→lt (firstkey k.readylist k.queuetab) ((k.proctab k.currpid).prprio) h,
      ap (λ j. (k.queuetab j).qkey) first,
      below,
    )
      where
        queue : IsQueue k.queuetab k.readylist (y ∷ ys)
        queue = rw e at (i.lists.table.queue k.readylist i.queues.ready_list)

        first : (k.queuetab k.readylist).qnext ≡ y
        first = queue.chain.0

        sorted : Descending (keys k.queuetab) max_key (y ∷ ys)
        sorted = rw e at i.descending

        below : (k.queuetab x).qkey ≤ (k.queuetab y).qkey
        below =
            Descending-below (keys k.queuetab) (keys k.queuetab y) (y ∷ ys) x
              (omega arith, sorted.1) (sym (ap (contains x) e) ∙ c)

unchanged :
    (k : Kernel) (view : ℕ → List ℕ)
    → IsSched k view
    → Runs k
    → Highest k view
    → Rescheduled k view k
unchanged k view i r h = record {
  view' = view;
  sched = i;
  runs = r;
  highest = h;
  ndefers = refl;
  semtab = refl;
  readylist = refl;
  others = λ q ne. refl;
}

module _ (k : Kernel) (view : ℕ → List ℕ) (i : IsSched k view) (r : Runs k) where
  abbrev away : home k k.currpid ≡ none
  away = Runs-home k r

  lined_up-Blocked : Blocked (lined_up k view k.currpid i r.small away)
  lined_up-Blocked = record { small = r.small; gone = λ x l. ground (arith, r.only x l) }

  gives_way : Rescheduled k view (dispatch (lined_up k view k.currpid i r.small away))
  gives_way =
      let d =
        dispatch-Rescheduled (lined_up k view k.currpid i r.small away)
          (update view k.readylist (joined k view k.currpid i r.small away)) k.currpid
          (lined_up-IsSched k view k.currpid i r.small away) lined_up-Blocked
          (rw (==_refl k.readylist) (
            contains-placed (keys k.queuetab) ((k.proctab k.currpid).prprio) k.currpid k.currpid
              (view k.readylist)
            ∙ ground (arith, ==_refl k.currpid))) in
      record {
        view' = d.view';
        sched = d.sched;
        runs = d.runs;
        highest = d.highest;
        ndefers = d.ndefers;
        semtab = d.semtab;
        readylist = d.readylist;
        others = λ q ne. d.others q ne ∙ rw ne refl;
      }

-- When rescheduling is not deferred, resched() ends with a process of the highest priority running, whether
-- the current process runs on, gives way to one at least as urgent, or has left state PR_CURR: the
-- queues again hold what the states say, and only the ready list has changed.
pub resched-Rescheduled :
    (k : Kernel) (view : ℕ → List ℕ)
    → IsSched k view
    → Runs k ⊎ Blocked k
    → k.ndefers ≡ 0
    → Ends (resched k) (Rescheduled k view)
unfolding resched
resched-Rescheduled k view i (inr b) z =
    rw (leb→ltb k.ndefers 0 (omega arith), b.gone k.currpid b.small)
      (dispatch-Rescheduled k view 0 i b (null-ready k view i b))
resched-Rescheduled k view i (inl r) z =
    elim (Bool-cases (ltb (firstkey k.readylist k.queuetab) ((k.proctab k.currpid).prprio))) [
      | inl e ↦
          rw (leb→ltb k.ndefers 0 (omega arith), Runs-curr k r, e)
            (unchanged k view i r (keeps k view i e))
      | inr e ↦
          rw
            (
              leb→ltb k.ndefers 0 (omega arith),
              Runs-curr k r,
              e,
              line_up_lem k view k.currpid i r.small (Runs-home k r),
            )
            (gives_way k view i r)
    ]
