-- ===== src/Kernel/States.antt =====
-- What resched() and ready() do to the states of the processes.
use mathlib.Core.Path.{subst}
use operating_systems_paging.Prelude.{
  ℕ, ◌<◌, ◌≡◌, ◌≢◌, ◌⊎◌, refl, sym, ap, ◌∙◌, inl, inr, Bool, true, false, true≢false, some, none,
  List, [], ◌∷◌, arith, ◌==◌, ==→≡, ==_refl, ==_ne, Bool-cases, update, contains, ltb, leb→ltb,
  lt→leb,
}
use operating_systems_paging.Partial.{Ends, Ends-bind}
use operating_systems_paging.Queues.{nproc}
use operating_systems_paging.Queues.Sorted.{keys}
use operating_systems_paging.Kernel.{
  Kernel, Prstate, pr_curr, pr_ready, pr_susp, is_curr, state_of, set_state, free_in, dispatch,
  resched, ready, firstkey,
}
use operating_systems_paging.Kernel.Inv.{IsSched, Runs, Blocked, home, Runs-curr, Runs-home}
use operating_systems_paging.Kernel.Dispatch.{
  dispatch_lem, x_home, line_up_lem, lined_up, lined_up-IsSched, joined, contains-placed,
}
use operating_systems_paging.Kernel.Ready.{line_up_susp, lined_up-Runs}
use operating_systems_paging.Kernel.Resched.{null-ready}

-- current or ready
abbrev pub is_runnable : Prstate → Bool
is_runnable st = elim st [ pr_curr ↦ true | pr_ready ↦ true | _ ↦ false ]

-- The state of a process stays, or the process was current or on the ready list and is so again.
abbrev pub StaysOrRuns : Kernel → Kernel → ℕ → Type 0
StaysOrRuns k k' x =
    (state_of x k' ≡ state_of x k)
    ⊎ (((home k x ≡ some k.readylist) ⊎ (is_curr (state_of x k) ≡ true))
        × (is_runnable (state_of x k') ≡ true))

dispatch-StaysOrRuns :
    (k : Kernel) (view : ℕ → List ℕ) (y : ℕ)
    → IsSched k view
    → contains y (view k.readylist) ≡ true
    → (x : ℕ) → StaysOrRuns k (dispatch k) x
dispatch-StaysOrRuns k view y i h x = from (view k.readylist) refl
  where
    from : (xs : List ℕ) → view k.readylist ≡ xs → StaysOrRuns k (dispatch k) x
    from [] e = absurd (true≢false (sym h ∙ ap (contains y) e))
    from (z ∷ zs) e =
        subst (λ k'. StaysOrRuns k k' x) (sym (dispatch_lem k view z zs i e))
          (elim (Bool-cases (z == x)) [
            | inl q ↦ inr (
              inl (ap (home k) (sym (==→≡ z x q)) ∙ x_home k view z zs i e),
              rw (state_of, q) refl,
            )
            | inr q ↦ inl (rw (state_of, q) refl)
          ])

module _ (k : Kernel) (view : ℕ → List ℕ) (i : IsSched k view) (r : Runs k) where
  abbrev queued : Kernel
  queued = lined_up k view k.currpid i r.small (Runs-home k r)

  gives_way-StaysOrRuns : (x : ℕ) → StaysOrRuns k (dispatch queued) x
  gives_way-StaysOrRuns x = elim (Bool-cases (k.currpid == x)) [
    | inl q ↦ inr (
      inr (ap (λ y. is_curr (state_of y k)) (sym (==→≡ k.currpid x q)) ∙ Runs-curr k r),
      elim moved [ inl s ↦ ap is_runnable s ∙ rw (state_of, q) refl | inr (a, s) ↦ s ],
    )
    | inr q ↦ elim moved [
      | inl s ↦ inl (s ∙ rw (state_of, q) refl)
      | inr (inl a, s) ↦ inr (inl (sym (rw (state_of, q) refl) ∙ a), s)
      | inr (inr a, s) ↦ inr (inr (sym (rw (state_of, q) refl) ∙ a), s)
    ]
  ]
    where
      moved : StaysOrRuns queued (dispatch queued) x
      moved =
          dispatch-StaysOrRuns queued
            (update view k.readylist (joined k view k.currpid i r.small (Runs-home k r))) k.currpid
            (lined_up-IsSched k view k.currpid i r.small (Runs-home k r))
            (rw (==_refl k.readylist) (
              contains-placed (keys k.queuetab) ((k.proctab k.currpid).prprio) k.currpid k.currpid
                (view k.readylist)
              ∙ ground (arith, ==_refl k.currpid)))
            x

-- resched() changes the states of no processes but the current and the ready ones, which stay current or ready.
pub resched-StaysOrRuns :
    (k : Kernel) (view : ℕ → List ℕ)
    → IsSched k view
    → Runs k ⊎ Blocked k
    → k.ndefers ≡ 0
    → Ends (resched k) (λ k'. (x : ℕ) → StaysOrRuns k k' x)
unfolding resched
resched-StaysOrRuns k view i (inr b) z =
    rw (leb→ltb k.ndefers 0 (omega arith), b.gone k.currpid b.small)
      (dispatch-StaysOrRuns k view 0 i (null-ready k view i b))
resched-StaysOrRuns k view i (inl r) z =
    elim (Bool-cases (ltb (firstkey k.readylist k.queuetab) ((k.proctab k.currpid).prprio))) [
      | inl e ↦ rw (leb→ltb k.ndefers 0 (omega arith), Runs-curr k r, e) (λ x. inl refl)
      | inr e ↦
          rw
            (
              leb→ltb k.ndefers 0 (omega arith),
              Runs-curr k r,
              e,
              line_up_lem k view k.currpid i r.small (Runs-home k r),
            )
            (gives_way-StaysOrRuns k view i r)
    ]

-- A process that is neither current nor in a queue keeps its state.
pub stays_out :
    (k k' : Kernel) (x : ℕ)
    → home k x ≡ none
    → is_curr (state_of x k) ≡ false
    → StaysOrRuns k k' x
    → state_of x k' ≡ state_of x k
stays_out k k' x h c (inl s) = s
stays_out k k' x h c (inr (inl a, s)) = absurd (cc (sym h ∙ a))
stays_out k k' x h c (inr (inr a, s)) = absurd (true≢false (sym a ∙ c))

-- A process that is ready or current stays so.
pub stays_runnable :
    (k k' : Kernel) (x : ℕ)
    → is_runnable (state_of x k) ≡ true
    → StaysOrRuns k k' x
    → is_runnable (state_of x k') ≡ true
stays_runnable k k' x h (inl s) = ap is_runnable s ∙ h
stays_runnable k k' x h (inr (a, s)) = s

-- ready() makes its process ready or, if it is the most urgent, current.
pub ready_runnable :
    (k : Kernel) (view : ℕ → List ℕ) (pid : ℕ)
    → IsSched (set_state pid pr_susp k) view
    → Runs k
    → k.ndefers ≡ 0
    → pid < nproc
    → pid ≢ k.currpid
    → free_in k pid ≡ false
    → Ends (ready pid k) (λ out. is_runnable (state_of pid out.1) ≡ true)
unfolding ready
ready_runnable k view pid i r z lt ne live =
    rw
      (
        lt→leb nproc pid lt,
        live,
        sym (line_up_susp pid k),
        line_up_lem (set_state pid pr_susp k) view pid i lt away,
      )
      (Ends-bind (λ out. is_runnable (state_of pid out.1) ≡ true) (resched l)
        (λ k'. some (true, k'))
        (resched-StaysOrRuns l
          (update view k.readylist (joined (set_state pid pr_susp k) view pid i lt away))
          (lined_up-IsSched (set_state pid pr_susp k) view pid i lt away)
          (inl (lined_up-Runs (set_state pid pr_susp k) view pid i lt away still ne)) z)
        (λ k' d. stays_runnable l k' pid (rw (state_of, ==_refl pid) refl) (d pid)))
  where
    away : home (set_state pid pr_susp k) pid ≡ none
    away = ground (arith, ==_refl pid)

    still : Runs (set_state pid pr_susp k)
    still = record {
      small = r.small;
      only = λ x m. ground (arith, r.only x m, ==_ne pid k.currpid ne);
      loaded = r.loaded ∙ ground (arith, ==_ne pid k.currpid ne);
    }

    l : Kernel
    l = lined_up (set_state pid pr_susp k) view pid i lt away
