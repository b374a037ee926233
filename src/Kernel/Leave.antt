-- ===== src/Kernel/Leave.antt =====
-- A process goes to a state in which it is not ready: out of a queue, into one, or from none to none.
use operating_systems_paging.Prelude.{
  ℕ, ◌<◌, ◌≡◌, ◌≢◌, sym, ap, ◌∙◌, ◌⊎◌, inl, inr, true, false, true≢false, some, none, List, ◌∷◌,
  arith, ◌==◌, ==→≡, ==_ne, Bool-cases, update, contains,
}
use operating_systems_paging.Queues.{Queuetab, nproc, max_key, queuetail}
use operating_systems_paging.Queues.Order.{IsQueue}
use operating_systems_paging.Queues.Sorted.{Descending, keys}
use operating_systems_paging.Queues.Table.{IsList, Same, refute}
use operating_systems_paging.Kernel.{Kernel, Proc, set_proc, is_curr, state_of, with_queues}
use operating_systems_paging.Kernel.Placed.{Placed, at_queue, move-Placed}
use operating_systems_paging.Kernel.Inv.{IsSched, Runs, Blocked, home}
use operating_systems_paging.Kernel.Dispatch.{Descending-same}

-- Process `pid`, not the null process, becomes `p`, which is not ready and has the same priority; queue `q`
-- then holds `ys`.
pub record Parks (k : Kernel) (view : ℕ → List ℕ) (u : Queuetab) (q pid : ℕ) (ys : List ℕ)
    (p : Proc) : Type 0 where
  pub list : IsList q
  pub queue : IsQueue u q ys
  pub same : Same k.queuetab u (pid ∷ q ∷ queuetail q ∷ view q)
  pub small : pid < nproc
  pub not_null : pid ≢ 0
  pub was : (home k pid ≡ none) ⊎ (home k pid ≡ some q)
  pub becomes : (home (set_proc pid p k) pid ≡ none) ⊎ (home (set_proc pid p k) pid ≡ some q)
  pub here : contains pid ys ≡ at_queue (home (set_proc pid p k) pid) q
  pub there : (x : ℕ) → (pid == x) ≡ false → contains x ys ≡ contains x (view q)
  pub off : at_queue (home (set_proc pid p k) pid) k.readylist ≡ false
  pub prio : p.prprio ≡ (k.proctab pid).prprio
  pub same_keys :
      (y : ℕ) → contains y (update view q ys k.readylist) ≡ true → keys u y ≡ keys k.queuetab y
  pub sorted : Descending (keys k.queuetab) max_key (update view q ys k.readylist)

module _ (k : Kernel) (view : ℕ → List ℕ) (u : Queuetab) (q pid : ℕ) (ys : List ℕ) (p : Proc)
    (i : IsSched k view) (l : Parks k view u q pid ys p) where
  -- the state with the process parked
  abbrev pub parked : Kernel
  parked = with_queues u (set_proc pid p k)

  parked-Placed : Placed u (update view q ys) (home parked)
  parked-Placed = move-Placed k.queuetab u view (home k) (home parked) q pid ys i.lists (record {
    list = l.list;
    queue = l.queue;
    same = l.same;
    small = l.small;
    was = l.was;
    becomes = l.becomes;
    others = λ x m ne. ground arith;
    here = l.here;
    there = l.there;
  })

  -- a process that is on the ready list afterwards is another, and was there before
  other : (x : ℕ) → contains x (update view q ys k.readylist) ≡ true → (pid == x) ≡ false
  other x h = refute (pid == x) (λ e. true≢false (
      sym h
      ∙ ap (λ y. contains y (update view q ys k.readylist)) (sym (==→≡ pid x e))
      ∙ parked-Placed.placed pid k.readylist l.small i.queues.ready_list
      ∙ l.off))

  still :
      (x : ℕ)
      → contains x (update view q ys k.readylist) ≡ true
      → contains x (view k.readylist) ≡ true
  still x h = elim (Bool-cases (q == k.readylist)) [
    | inl e ↦
        ap (λ r. contains x (view r)) (sym (==→≡ q k.readylist e))
        ∙ sym (l.there x (other x h))
        ∙ (rw e at h)
    | inr e ↦ rw e at h
  ]

  pub parked-IsSched : IsSched parked (update view q ys)
  parked-IsSched = record {
    lists = parked-Placed;
    queues = i.queues;
    descending =
        Descending-same (keys k.queuetab) (keys u) max_key (update view q ys k.readylist)
          l.same_keys l.sorted;
    keyed = λ x h. l.same_keys x h ∙ i.keyed x (still x h) ∙ ground (arith, other x h);
    prio_lower = λ x m. ground (arith, i.prio_lower x, i.prio_lower pid, l.prio);
    prio_upper = λ x m. ground (arith, i.prio_upper x, i.prio_upper pid, l.prio);
    null = rw (state_of, ==_ne pid 0 l.not_null) i.null;
  }

  -- The current process has left state PR_CURR.
  pub parked-Blocked : Runs k → pid ≡ k.currpid → is_curr p.prstate ≡ false → Blocked parked
  parked-Blocked r e h = record { small = r.small; gone = λ x m. ground (arith, r.only x m) }

  -- The current process still runs when another is parked.
  pub parked-Runs : Runs k → pid ≢ k.currpid → is_curr p.prstate ≡ false → Runs parked
  parked-Runs r e h = record {
    small = r.small;
    only = λ x m. ground (arith, r.only x m, ==_ne pid k.currpid e);
    loaded = r.loaded ∙ ground (arith, ==_ne pid k.currpid e);
  }
