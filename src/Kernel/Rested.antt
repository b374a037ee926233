-- ===== src/Kernel/Rested.antt =====
-- resched() leaves the sleep queue alone: when no sleeping process is due, none is afterwards.
use mathlib.Core.Path.{subst}
use operating_systems_paging.Prelude.{
  ℕ, ◌≡◌, ◌⊎◌, refl, sym, ap, ◌∙◌, inl, inr, true, false, true≢false, List, [], ◌∷◌, arith, ◌==◌,
  ==→≡, ==_refl, ==_ne, Bool-cases, update, contains, ltb, leb→ltb,
}
use operating_systems_paging.Partial.{Ends, Ends-mono, Ends-both}
use operating_systems_paging.Queues.{Queuetab, is_empty}
use operating_systems_paging.Queues.Order.{IsQueue}
use operating_systems_paging.Queues.Sorted.{keys}
use operating_systems_paging.Queues.Fifo.{dequeue_keys}
use operating_systems_paging.Kernel.{Kernel, dispatch, resched, firstkey}
use operating_systems_paging.Kernel.Placed.{at_queue}
use operating_systems_paging.Kernel.Inv.{IsSched, Runs, Blocked, Runs-curr, Runs-home}
use operating_systems_paging.Kernel.Dispatch.{
  dispatch_lem, line_up_lem, lined_up, lined_up-IsSched, joined, contains-placed, inserted,
}
use operating_systems_paging.Kernel.Resched.{Rescheduled, resched-Rescheduled, null-ready}
use operating_systems_paging.Kernel.Sleep.{is_due}

-- No process sleeps, or the delay of the first has not passed.
abbrev pub Rested : ℕ → Queuetab → Type 0
Rested q t = (is_empty q t ≡ true) ⊎ (is_due (firstkey q t) ≡ false)

first_late :
    (t : Queuetab) (q x : ℕ) (xs : List ℕ)
    → IsQueue t q (x ∷ xs)
    → Rested q t
    → is_due (keys t x) ≡ false
first_late t q x xs i (inl e) =
    absurd (true≢false (sym e ∙ ground (arith, i.chain.0, i.procs x (ground (arith, ==_refl x)))))
first_late t q x xs i (inr e) = ap (λ y. is_due (keys t y)) (sym i.chain.0) ∙ e

pub rested :
    (t u : Queuetab) (q : ℕ) (xs : List ℕ)
    → IsQueue t q xs
    → IsQueue u q xs
    → ((x : ℕ) → contains x xs ≡ true → keys u x ≡ keys t x)
    → Rested q t
    → Rested q u
rested t u q [] i j same r = inl (ground (arith, j.chain.0, j.above, j.known))
rested t u q (x ∷ xs) i j same r = inr (
    ap (λ y. is_due (keys u y)) j.chain.0
    ∙ ap is_due (same x (ground (arith, ==_refl x)))
    ∙ first_late t q x xs i r)

-- The sleep queue is the same, with the same delays.
abbrev SameSleep : Kernel → (ℕ → List ℕ) → Kernel → Type 0
SameSleep k view k' =
    (k'.sleepq ≡ k.sleepq)
    × ((x : ℕ) → contains x (view k.sleepq) ≡ true → keys k'.queuetab x ≡ keys k.queuetab x)

dispatch-keys :
    (k : Kernel) (view : ℕ → List ℕ) (y : ℕ)
    → IsSched k view
    → contains y (view k.readylist) ≡ true
    → ((dispatch k).sleepq ≡ k.sleepq)
      × ((x : ℕ) → keys (dispatch k).queuetab x ≡ keys k.queuetab x)
dispatch-keys k view y i h = from (view k.readylist) refl
  where
    from :
        (xs : List ℕ)
        → view k.readylist ≡ xs
        → ((dispatch k).sleepq ≡ k.sleepq)
          × ((x : ℕ) → keys (dispatch k).queuetab x ≡ keys k.queuetab x)
    from [] e = absurd (true≢false (sym h ∙ ap (contains y) e))
    from (z ∷ zs) e =
        subst (λ k'. (k'.sleepq ≡ k.sleepq) × ((x : ℕ) → keys k'.queuetab x ≡ keys k.queuetab x))
          (sym (dispatch_lem k view z zs i e))
          (
            refl,
            λ x.
                dequeue_keys k.queuetab k.readylist z zs x
                  (rw e at (i.lists.table.queue k.readylist i.queues.ready_list)),
          )

-- The current process does not sleep.
awake :
    (k : Kernel) (view : ℕ → List ℕ) (x : ℕ)
    → IsSched k view
    → Runs k
    → contains x (view k.sleepq) ≡ true
    → (k.currpid == x) ≡ false
awake k view x i r h = elim (Bool-cases (k.currpid == x)) [
  | inr e ↦ e
  | inl e ↦ absurd (
      true≢false (
        sym h
        ∙ ap (λ y. contains y (view k.sleepq)) (sym (==→≡ k.currpid x e))
        ∙ i.lists.placed k.currpid k.sleepq r.small i.queues.sleep_list
        ∙ ap (λ o. at_queue o k.sleepq) (Runs-home k r)))
]

resched-SameSleep :
    (k : Kernel) (view : ℕ → List ℕ)
    → IsSched k view
    → Runs k ⊎ Blocked k
    → k.ndefers ≡ 0
    → Ends (resched k) (SameSleep k view)
unfolding resched
resched-SameSleep k view i (inr b) z =
    let (s, same) = dispatch-keys k view 0 i (null-ready k view i b) in
    rw (leb→ltb k.ndefers 0 (omega arith), b.gone k.currpid b.small) (s, λ x h. same x)
resched-SameSleep k view i (inl r) z =
    elim (Bool-cases (ltb (firstkey k.readylist k.queuetab) ((k.proctab k.currpid).prprio))) [
      | inl e ↦ rw (leb→ltb k.ndefers 0 (omega arith), Runs-curr k r, e) (refl, λ x h. refl)
      | inr e ↦
          let (s, same) =
            dispatch-keys queued (update view k.readylist list) k.currpid
              (lined_up-IsSched k view k.currpid i r.small (Runs-home k r))
              (rw (==_refl k.readylist) (
                contains-placed (keys k.queuetab) ((k.proctab k.currpid).prprio) k.currpid k.currpid
                  (view k.readylist)
                ∙ ground (arith, ==_refl k.currpid))) in
          rw
            (
              leb→ltb k.ndefers 0 (omega arith),
              Runs-curr k r,
              e,
              line_up_lem k view k.currpid i r.small (Runs-home k r),
            )
            (
              s,
              λ x h.
                  same x
                  ∙ (inserted k view k.currpid i r.small (Runs-home k r)).others x
                      (awake k view x i r h),
            )
    ]
  where
    queued : Kernel
    queued = lined_up k view k.currpid i r.small (Runs-home k r)

    list : List ℕ
    list = joined k view k.currpid i r.small (Runs-home k r)

pub resched-Rested :
    (k : Kernel) (view : ℕ → List ℕ)
    → IsSched k view
    → Runs k ⊎ Blocked k
    → k.ndefers ≡ 0
    → Rested k.sleepq k.queuetab
    → Ends (resched k) (λ k'. Rested k'.sleepq k'.queuetab)
resched-Rested k view i r z h =
    Ends-mono (resched k)
      (λ k' (d, (s, same)).
        subst (λ q. Rested q k'.queuetab) (sym s)
          (rested k.queuetab k'.queuetab k.sleepq (view k.sleepq)
            (i.lists.table.queue k.sleepq i.queues.sleep_list)
            (subst (IsQueue k'.queuetab k.sleepq)
              (d.others k.sleepq (==_ne k.readylist k.sleepq i.queues.ready_sleep))
              (d.sched.lists.table.queue k.sleepq i.queues.sleep_list))
            same h))
      (Ends-both (Rescheduled k view) (SameSleep k view) (resched k)
        (resched-Rescheduled k view i r z) (resched-SameSleep k view i r z))
