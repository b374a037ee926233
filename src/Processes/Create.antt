-- ===== src/Processes/Create.antt =====
-- What create() does.
use operating_systems_paging.Prelude.{
  ℕ, ◌+◌, ◌%◌, ◌^◌, ◌<◌, ◌≤◌, ◌≡◌, ◌≢◌, ◌⊎◌, refl, sym, ap, ◌∙◌, inl, inr, true, false, true≢false,
  Option, none, some, List, arith, ==_refl, Bool-cases, if◌then◌else◌, ltb,
}
use operating_systems_paging.Heap.{FreeList, getstk}
use operating_systems_paging.Queues.{nproc, max_key}
use operating_systems_paging.Kernel.{
  Kernel, Proc, Prstate, pr_free, pr_curr, pr_ready, pr_recv, pr_sleep, pr_susp, pr_wait, pr_rectim,
  is_free, is_curr, state_of, set_proc,
}
use operating_systems_paging.Kernel.Inv.{queue_for, squeue_of}
use operating_systems_paging.Kernel.System.{InOrder}
use operating_systems_paging.Kernel.Enter.{entered-InOrder}
use operating_systems_paging.Processes.{System, Image, newpid, create, start_process, stack_size}
use operating_systems_paging.Processes.Newpid.{Chosen, newpid-Chosen}

free_state : (st : Prstate) → is_free st ≡ true → st ≡ pr_free
free_state pr_free h = refl
free_state pr_curr h = absurd (true≢false (sym h))
free_state pr_ready h = absurd (true≢false (sym h))
free_state pr_recv h = absurd (true≢false (sym h))
free_state pr_sleep h = absurd (true≢false (sym h))
free_state pr_susp h = absurd (true≢false (sym h))
free_state pr_wait h = absurd (true≢false (sym h))
free_state pr_rectim h = absurd (true≢false (sym h))

-- What create() is to return: a process that was free and is suspended, with the priority asked for and a stack,
-- or a failure, which changes no process.
abbrev pub Created : {S : Type 0} → ℕ → ℕ → System S → Option ℕ × System S → Type 0
Created ssize priority w (none, w') =
    (((getstk (stack_size ssize) w.heap).0 ≡ none)
      ⊎ (((x : ℕ) → x < nproc → is_free (state_of x w.kernel) ≡ false) ⊎ (priority < 2 ^ 31 + 1)))
    × (w'.kernel ≡ w.kernel)
    × (w'.prcount ≡ w.prcount)
Created ssize priority w (some pid, w') =
    (pid < nproc)
    × (is_free (state_of pid w.kernel) ≡ true)
    × (state_of pid w'.kernel ≡ pr_susp)
    × ((w'.kernel.proctab pid).prprio ≡ priority)
    × (getstk (stack_size ssize) w.heap ≡ (some (w'.life pid).prstkbase, w'.heap))
    × ((w'.life pid).prstklen ≡ stack_size ssize)
    × ((w'.life pid).prparent ≡ w.kernel.currpid)
    × ((w'.life pid).vh ≡ false)
    × (w'.frames ≡ w.frames)
    × (w'.stores ≡ w.stores)
    × (w'.prcount ≡ (w.prcount + 1) % 2 ^ 32)
    × (w'.kernel.currpid ≡ w.kernel.currpid)
    × InOrder w'.kernel

pub not_null : (k : Kernel) → InOrder k → (pid : ℕ) → is_free (state_of pid k) ≡ true → pid ≢ 0
not_null k o pid h z = elim o.sched.null [
  | inl c ↦ absurd (true≢false (sym h ∙ ap (λ x. is_free (state_of x k)) z ∙ ap is_free c))
  | inr c ↦ absurd (true≢false (sym h ∙ ap (λ x. is_free (state_of x k)) z ∙ ap is_free c))
]

module _ {S : Type 0} (im : Image) (funcaddr ssize priority : ℕ) (args : List ℕ) (w : System S)
    (o : InOrder w.kernel) (top : priority ≤ max_key) where
  was_free : (pid : ℕ) → is_free (state_of pid w.kernel) ≡ true → state_of pid w.kernel ≡ pr_free
  was_free pid h = free_state (state_of pid w.kernel) h

  started :
      (pid : ℕ) (p : Proc)
      → pid < nproc
      → is_free (state_of pid w.kernel) ≡ true
      → p.prstate ≡ pr_susp
      → p.prprio ≡ priority
      → 2 ^ 31 + 1 ≤ priority
      → InOrder (set_proc pid p w.kernel)
  started pid p lt f st pr low =
      entered-InOrder w.kernel o pid p lt (not_null w.kernel o pid f)
        (ap
          (λ s.
            queue_for s w.kernel.readylist w.kernel.sleepq
              (squeue_of ((w.kernel.proctab pid).prsem) w.kernel))
          (was_free pid f))
        (ap is_curr (was_free pid f)) (ap is_curr st, λ r s q. ap (λ x. queue_for x r s q) st)
        (omega (arith, pr, low)) (omega (arith, pr, top))

  outcome :
      (out : Option ℕ × FreeList)
      → getstk (stack_size ssize) w.heap ≡ out
      → (found : Option ℕ × ℕ) → Chosen w.kernel.proctab found.0
      → Created ssize priority w (elim out.0 [
        | none ↦ (none, record w { heap = out.1 })
        | some saddr ↦ elim found.0 [
          | none ↦ (none, record w { heap = out.1; nextpid = found.1 })
          | some pid ↦
              if ltb priority (2 ^ 31 + 1)
              then (none, record w { heap = out.1; nextpid = found.1 })
              else (
                some pid,
                start_process im pid saddr
                    (stack_size ssize)
                    funcaddr
                    priority
                    args
                    (record w { heap = out.1; nextpid = found.1 }),
              )
        ]
      ])
  unfolding start_process
  outcome (none, h) g found c = (inl (ap (λ r. r.0) g), refl, refl)
  outcome (some saddr, h) g (none, n) c = (inr (inl c), refl, refl)
  outcome (some saddr, h) g (some pid, n) (lt, f) = elim (Bool-cases (ltb priority (2 ^ 31 + 1))) [
    | inl b ↦ rw b (inr (inr (ground (arith, b))), refl, refl)
    | inr b ↦ rw b (
      lt,
      f,
      rw (state_of, ==_refl pid) refl,
      rw (==_refl pid) refl,
      g ∙ rw (==_refl pid) refl,
      rw (==_refl pid) refl,
      rw (==_refl pid) refl,
      rw (==_refl pid) refl,
      refl,
      refl,
      refl,
      refl,
      started pid _ lt f refl refl (ground (arith, b)),
    )
  ]

-- create(), with the scheduler in order and a priority that is an int16, either makes a process that was free a
-- suspended one without a virtual heap, with that priority, the stack that getstk() gives and the current process as its parent, the
-- scheduler being in order; or fails, because there is no stack, no free entry or no positive priority, and then
-- changes neither the scheduler nor the number of processes.
pub create-Created :
    {S : Type 0} (im : Image) (funcaddr ssize priority : ℕ) (args : List ℕ) (w : System S)
    → InOrder w.kernel
    → priority ≤ max_key
    → Created ssize priority w (create im funcaddr ssize priority args w)
unfolding create start_process
create-Created im funcaddr ssize priority args w o top =
    outcome im funcaddr ssize priority args w o top (getstk (stack_size ssize) w.heap) refl
      (newpid nproc w.kernel.proctab w.nextpid) (newpid-Chosen w.kernel.proctab w.nextpid)
