-- ===== src/Kernel/Dispatch.antt =====
-- The two moves of resched(): a process goes onto the ready list, and the first on it is dispatched.
use mathlib.Core.Path.{subst}
use operating_systems_paging.Prelude.{
  ℕ, ◌≤◌, ◌<◌, ◌≡◌, refl, sym, ap, ◌∙◌, inl, inr, true, false, true≢false, ◌||◌, Option, some, none,
  List, [], ◌∷◌, arith, ◌==◌, ==→≡, ==_refl, Bool-cases, update, contains, contains-append,
}
use operating_systems_paging.Queues.{Queuetab, nproc, max_key, insert, dequeue}
use operating_systems_paging.Queues.Order.{IsQueue}
use operating_systems_paging.Queues.Fifo.{dequeue-IsQueue, dequeue_keys, dequeue-same}
use operating_systems_paging.Queues.Sorted.{
  Descending, keys, placed, before-after, before, after, Inserted, insert-Inserted,
}
use operating_systems_paging.Kernel.{
  Kernel, pr_curr, pr_ready, set_state, with_queues, free_in, line_up, dispatch, quantum,
}
use operating_systems_paging.Kernel.Placed.{at_queue, move-Placed}
use operating_systems_paging.Kernel.Inv.{IsSched, Runs, Blocked, Highest, home, null_set}

pub contains-placed :
    (f : ℕ → ℕ) (key pid x : ℕ) (xs : List ℕ)
    → contains x (placed f key pid xs) ≡ (x == pid || contains x xs)
contains-placed f key pid x xs = ground (
  arith,
  contains-append x (before f key xs) (pid ∷ after f key xs),
  contains-append x (before f key xs) (after f key xs),
  ap (contains x) (before-after f key xs),
)

absent :
    (k : Kernel) (view : ℕ → List ℕ) (pid : ℕ)
    → IsSched k view
    → pid < nproc
    → home k pid ≡ none
    → contains pid (view k.readylist) ≡ false
absent k view pid i lt h =
    i.lists.placed pid k.readylist lt i.queues.ready_list ∙ ap (λ o. at_queue o k.readylist) h

module _ (k : Kernel) (view : ℕ → List ℕ) (pid : ℕ) (i : IsSched k view) (lt : pid < nproc)
    (h : home k pid ≡ none) where
  abbrev prio : ℕ
  prio = (k.proctab pid).prprio

  pub inserted :
      Inserted k.queuetab k.readylist max_key pid prio
        (view k.readylist)
        (insert (free_in (set_state pid pr_ready k)) pid k.readylist prio k.queuetab)
  inserted =
      insert-Inserted (free_in (set_state pid pr_ready k)) k.queuetab k.readylist max_key pid prio
        (view k.readylist) (i.lists.table.queue k.readylist i.queues.ready_list) lt
        (ground (arith, ==_refl pid)) (absent k view pid i lt h) (i.prio_lower pid lt)
        (i.prio_upper pid lt) i.descending

  -- the list and the state after the process has joined the ready list
  abbrev pub joined : List ℕ
  joined = placed (keys k.queuetab) prio pid (view k.readylist)

  abbrev pub lined_up : Kernel
  lined_up = with_queues inserted.table (set_state pid pr_ready k)

  pub line_up_lem : line_up pid k ≡ some lined_up
  unfolding line_up
  line_up_lem = rw (inserted.returns) refl

  pub lined_up-IsSched : IsSched lined_up (update view k.readylist joined)
  lined_up-IsSched = record {
    lists =
        move-Placed k.queuetab inserted.table view (home k) (home lined_up) k.readylist pid joined
          i.lists
          (record {
            list = i.queues.ready_list;
            queue = inserted.queue;
            same = inserted.same;
            small = lt;
            was = inl h;
            becomes = ground (arith, ==_refl pid);
            others = λ x l e. ground arith;
            here = ground (
              arith,
              ==_refl pid,
              ==_refl k.readylist,
              contains-placed (keys k.queuetab) prio pid pid (view k.readylist),
            );
            there = λ x e.
                contains-placed (keys k.queuetab) prio pid x (view k.readylist) ∙ ground arith;
          });
    queues = i.queues;
    descending = rw (==_refl k.readylist) inserted.descending;
    keyed = λ x e. key_of x (rw (==_refl k.readylist) at e);
    prio_lower = λ x l. ground (arith, i.prio_lower x, i.prio_lower pid);
    prio_upper = λ x l. ground (arith, i.prio_upper x, i.prio_upper pid);
    null = null_set pid pr_ready k (inr refl) i.null;
  }
    where
      in_list :
          (x : ℕ)
          → contains x joined ≡ true
          → (pid == x) ≡ false
          → contains x (view k.readylist) ≡ true
      in_list x e ne =
          ground (arith, contains-placed (keys k.queuetab) prio pid x (view k.readylist))

      key_of :
          (x : ℕ) → contains x joined ≡ true → keys inserted.table x ≡ (lined_up.proctab x).prprio
      key_of x e = elim (Bool-cases (pid == x)) [
        | inl same ↦
            subst (λ y. keys inserted.table y ≡ (lined_up.proctab y).prprio) (==→≡ pid x same)
              (rw (==_refl pid) inserted.key_set)
        | inr ne ↦ rw ne (inserted.others x ne ∙ i.keyed x (in_list x e ne))
      ]

-- The queue that a process is in is its own.
pub at_home : (o : Option ℕ) (q : ℕ) → at_queue o q ≡ true → o ≡ some q
at_home none q h = absurd (true≢false (sym h))
at_home (some r) q h = ap some (==→≡ r q h)

Descending-rest :
    (f : ℕ → ℕ) (hi lo : ℕ) (xs : List ℕ) → lo ≤ hi → Descending f lo xs → Descending f hi xs
Descending-rest f hi lo [] h d = tt
Descending-rest f hi lo (x ∷ xs) h (a, d) = (omega arith, d)

pub Descending-below :
    (f : ℕ → ℕ) (hi : ℕ) (xs : List ℕ) (y : ℕ)
    → Descending f hi xs
    → contains y xs ≡ true
    → f y ≤ hi
Descending-below f hi [] y d h = absurd (true≢false (sym h))
Descending-below f hi (x ∷ xs) y (a, d) h = elim (Bool-cases (y == x)) [
  | inl e ↦ rw (==→≡ y x e) a
  | inr e ↦ omega (arith, Descending-below f (f x) xs y d (ground arith))
]

pub Descending-same :
    (f g : ℕ → ℕ) (hi : ℕ) (xs : List ℕ)
    → ((x : ℕ) → contains x xs ≡ true → g x ≡ f x)
    → Descending f hi xs
    → Descending g hi xs
Descending-same f g hi [] e d = tt
Descending-same f g hi (x ∷ xs) e (a, d) =
    let here : g x ≡ f x = e x (ground (arith, ==_refl x)) in
    (
      omega (arith, here),
      Descending-same f g (g x) xs (λ y m. e y (ground arith)) (rw (sym here) at d),
    )

module _ (k : Kernel) (view : ℕ → List ℕ) (x : ℕ) (xs : List ℕ) (i : IsSched k view)
    (e : view k.readylist ≡ x ∷ xs) where
  first_queue : IsQueue k.queuetab k.readylist (x ∷ xs)
  first_queue = rw e at (i.lists.table.queue k.readylist i.queues.ready_list)

  x_small : x < nproc
  x_small = first_queue.procs x (ground arith)

  pub x_home : home k x ≡ some k.readylist
  x_home = at_home (home k x) k.readylist (
      sym (i.lists.placed x k.readylist x_small i.queues.ready_list)
      ∙ ap (contains x) e
      ∙ ground arith)

  abbrev rest : Queuetab
  rest = (dequeue k.readylist k.queuetab).1

  -- the state once the first ready process is current
  abbrev pub dispatched : Kernel
  dispatched = record (set_state x pr_curr k) {
    queuetab = (dequeue k.readylist k.queuetab).1;
    currpid = x;
    preempt = quantum;
    cr3 = (k.proctab x).pd;
  }

  pub dispatch_lem : dispatch k ≡ dispatched
  unfolding dispatch
  dispatch_lem = rw ((dequeue-IsQueue k.queuetab k.readylist x xs first_queue).0) refl

  fewer : (y : ℕ) → (x == y) ≡ false → contains y xs ≡ contains y (view k.readylist)
  fewer y ne = ground (arith, ap (contains y) e)

  pub dispatched-IsSched : IsSched dispatched (update view k.readylist xs)
  dispatched-IsSched = record {
    lists =
        move-Placed k.queuetab rest view (home k) (home dispatched) k.readylist x xs i.lists
          (record {
            list = i.queues.ready_list;
            queue = (dequeue-IsQueue k.queuetab k.readylist x xs first_queue).1;
            same = λ y h.
                dequeue-same k.queuetab k.readylist x xs y first_queue
                  (ground (arith, ap (contains y) e));
            small = x_small;
            was = inr x_home;
            becomes = inl (ground (arith, ==_refl x));
            others = λ y l ne. ground arith;
            here = ground (arith, ==_refl x, first_queue.no_repeat);
            there = fewer;
          });
    queues = i.queues;
    descending = rw (==_refl k.readylist) (
        Descending-same (keys k.queuetab) (keys rest) max_key xs
          (λ y m. dequeue_keys k.queuetab k.readylist x xs y first_queue)
          (Descending-rest (keys k.queuetab) max_key (keys k.queuetab x) xs (front.0) (front.1)));
    keyed = λ y h.
        dequeue_keys k.queuetab k.readylist x xs y first_queue
        ∙ i.keyed y (ground (arith, ap (contains y) e))
        ∙ ground arith;
    prio_lower = λ y l. ground (arith, i.prio_lower y);
    prio_upper = λ y l. ground (arith, i.prio_upper y);
    null = null_set x pr_curr k (inl refl) i.null;
  }
    where
      front : Descending (keys k.queuetab) max_key (x ∷ xs)
      front = rw e at i.descending

  pub dispatched-Runs : Blocked k → Runs dispatched
  dispatched-Runs b = record {
    small = x_small;
    only = λ y l. ground (arith, b.gone y);
    loaded = ground (arith, ==_refl x);
  }

  pub dispatched-Highest : Highest dispatched (update view k.readylist xs)
  dispatched-Highest = top
    where
      bound : (y : ℕ) → contains y xs ≡ true → (k.proctab y).prprio ≤ (k.proctab x).prprio
      bound y h = omega (
        arith,
        i.keyed y (ground (arith, ap (contains y) e)),
        i.keyed x (ground (arith, ap (contains x) e)),
        Descending-below (keys k.queuetab) (keys k.queuetab x) xs y ((rw e at i.descending).1) h,
      )

      top :
          (y : ℕ)
          → contains y (update view k.readylist xs k.readylist) ≡ true
          → (dispatched.proctab y).prprio ≤ (dispatched.proctab x).prprio
      top y h = ground (arith, bound y (rw (==_refl k.readylist) at h), ==_refl x)
