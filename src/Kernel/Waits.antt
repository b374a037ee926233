-- ===== src/Kernel/Waits.antt =====
-- With a count that is not negative no process is in state PR_WAIT on the semaphore.
use operating_systems_paging.Prelude.{
  ℕ, ◌<◌, ◌≡◌, refl, sym, ap, ◌∙◌, inl, inr, Bool, true, false, true≢false, List, [], ◌∷◌, arith,
  ◌==◌, ==→≡, ==_refl, Bool-cases, contains, length, ◌&&◌,
}
use operating_systems_paging.Queues.{nproc}
use operating_systems_paging.Semaphores.{nsem}
use operating_systems_paging.Kernel.{
  Kernel, Prstate, pr_free, pr_curr, pr_ready, pr_recv, pr_sleep, pr_wait, pr_rectim, pr_susp,
  state_of,
}
use operating_systems_paging.Kernel.Kill.{is_waiting}
use operating_systems_paging.Kernel.Placed.{at_queue}
use operating_systems_paging.Kernel.Inv.{queue_for, squeue_of}
use operating_systems_paging.Kernel.System.{InOrder}
use operating_systems_paging.Kernel.Wait.{sentry, negative}

abbrev pub waits_on : ℕ → ℕ → Kernel → Bool
waits_on sem pid k = is_waiting (state_of pid k) && ((k.proctab pid).prsem == sem)

abbrev pub NoneWaits : ℕ → Kernel → Type 0
NoneWaits sem k = (pid : ℕ) → pid < nproc → waits_on sem pid k ≡ false

in_empty : (pid : ℕ) (xs : List ℕ) → length xs ≡ 0 → contains pid xs ≡ false
in_empty pid [] h = refl
in_empty pid (x ∷ xs) h = absurd (omega (arith, h))

is_wait : (st : Prstate) → is_waiting st ≡ true → st ≡ pr_wait
is_wait pr_wait h = refl
is_wait pr_free h = absurd (true≢false (sym h))
is_wait pr_curr h = absurd (true≢false (sym h))
is_wait pr_ready h = absurd (true≢false (sym h))
is_wait pr_recv h = absurd (true≢false (sym h))
is_wait pr_sleep h = absurd (true≢false (sym h))
is_wait pr_susp h = absurd (true≢false (sym h))
is_wait pr_rectim h = absurd (true≢false (sym h))

pub none_waits :
    (k : Kernel) (o : InOrder k) (sem : ℕ)
    → sem < nsem
    → negative ((sentry sem k).scount) ≡ false
    → NoneWaits sem k
none_waits k o sem lt n pid l = elim (Bool-cases (waits_on sem pid k)) [
  | inr e ↦ e
  | inl e ↦ absurd (true≢false (sym (listed e) ∙ in_empty pid (o.view (squeue_of sem k)) nobody))
]
  where
    nobody : length (o.view (squeue_of sem k)) ≡ 0
    nobody = (o.counted sem lt).idle (ground (arith, n))

    listed : waits_on sem pid k ≡ true → contains pid (o.view (squeue_of sem k)) ≡ true
    listed e =
        o.sched.lists.placed pid (squeue_of sem k) l (o.sched.queues.sem_list sem lt)
        ∙ ap
            (λ st.
              at_queue (queue_for st k.readylist k.sleepq (squeue_of ((k.proctab pid).prsem) k))
                (squeue_of sem k))
            (is_wait (state_of pid k) (ground arith))
        ∙ ap (λ s. squeue_of s k == squeue_of sem k)
            (==→≡ ((k.proctab pid).prsem) sem (ground arith))
        ∙ ==_refl (squeue_of sem k)
