-- ===== src/Kernel/Signaln.antt =====
-- signaln() releases processes one by one and keeps the kernel in order.
use mathlib.Core.Path.{subst}
use operating_systems_paging.Prelude.{
  ℕ, zero, suc, ◌+◌, ◌-◌, ◌^◌, ◌%◌, ◌<◌, ◌≡◌, ◌≢◌, refl, sym, inl, inr, Bool, true, not, ◌||◌, some,
  ◌∷◌, arith, Bool-cases,
}
use operating_systems_paging.Partial.{◌>>=◌, Ends, Ends-bind}
use operating_systems_paging.Queues.{dequeue}
use operating_systems_paging.Queues.Order.{IsQueue}
use operating_systems_paging.Queues.Fifo.{dequeue-IsQueue}
use operating_systems_paging.Semaphores.{nsem, is_bad_sem}
use operating_systems_paging.Kernel.{Kernel, with_queues, ready, defer_start, defer_stop}
use operating_systems_paging.Kernel.Inv.{squeue_of}
use operating_systems_paging.Kernel.System.{InOrder}
use operating_systems_paging.Kernel.Release.{
  count_of, count_up, first_waiting, releases_held, count_up-Deferring,
}
use operating_systems_paging.Kernel.Deferred.{Deferring, defer_start-Deferring, defer_stop-InOrder}
use operating_systems_paging.Kernel.Wake.{dequeue-Popped}
use operating_systems_paging.Kernel.Wait.{
  sentry, is_unusable, negative, inc, release_times, release, ready_first, signaln,
}

release-Deferring :
    (k : Kernel) (sem : ℕ)
    → Deferring k
    → sem < nsem
    → (sentry sem k).scount ≢ 2 ^ 31 - 1
    → Ends (release sem k) (λ k'. Deferring k' × (k'.semtab ≡ (count_up sem k).semtab))
unfolding release ready_first
release-Deferring k sem d lt ne = elim (Bool-cases (negative ((sentry sem k).scount))) [
  | inl e ↦
      let (x, xs, h) = first_waiting k d sem lt e in
      let queue : IsQueue k.queuetab (squeue_of sem k) (x ∷ xs) = rw h at (
        d.holding.sched.lists.table.queue (squeue_of sem k)
          (d.holding.sched.queues.sem_list sem lt)) in
      rw (e, (dequeue-IsQueue k.queuetab (squeue_of sem k) x xs queue).0)
        (Ends-bind (λ k'. Deferring k' × (k'.semtab ≡ (count_up sem k).semtab))
          (ready x (with_queues (dequeue (squeue_of sem k) k.queuetab).1 (count_up sem k)))
          (λ out. some out.1)
          (releases_held k d (dequeue (squeue_of sem k) k.queuetab).1 sem x xs lt e h
            (dequeue-Popped k.queuetab (squeue_of sem k) x xs queue))
          (λ out w. w))
  | inr e ↦ rw e (count_up-Deferring k d sem lt e ne, refl)
]

-- a count that grows `n` times and stays an int32
no_overflow :
    (c n : ℕ)
    → c < 2 ^ 32
    → (c + 2 ^ 31) % 2 ^ 32 + suc n < 2 ^ 32
    → (inc c + 2 ^ 31) % 2 ^ 32 + n < 2 ^ 32
no_overflow c n b h = omega (arith, b, h)

release_times-Deferring :
    (n : ℕ) (k : Kernel) (sem : ℕ)
    → Deferring k
    → sem < nsem
    → ((sentry sem k).scount + 2 ^ 31) % 2 ^ 32 + n < 2 ^ 32
    → Ends (release_times n sem k) Deferring
unfolding release_times
release_times-Deferring zero k sem d lt h = d
release_times-Deferring (suc n) k sem d lt h =
    Ends-bind Deferring (release sem k) (release_times n sem)
      (release-Deferring k sem d lt (λ e. omega (arith, h, e)))
      (λ k' w. release_times-Deferring n k' sem w.0 lt (
        subst (λ c. (c + 2 ^ 31) % 2 ^ 32 + n < 2 ^ 32) (sym (count_of k k' sem w.1))
          (no_overflow ((sentry sem k).scount) n ((d.counted sem lt).bits) h)))

signals :
    (k : Kernel) (sem n : ℕ)
    → InOrder k
    → sem < nsem
    → ((sentry sem k).scount + 2 ^ 31) % 2 ^ 32 + n < 2 ^ 32
    → Ends {A = Bool × Kernel}
        (release_times n sem (defer_start k)
          >>= (λ k'. defer_stop k' >>= (λ out. some (true, out.1))))
        (λ out. (out.0 ≡ true) × InOrder out.1)
unfolding defer_start
signals k sem n o lt h =
    Ends-bind (λ out. (out.0 ≡ true) × InOrder out.1) (release_times n sem (defer_start k))
      (λ k'. defer_stop k' >>= (λ out. some (true, out.1)))
      (release_times-Deferring n (defer_start k) sem (defer_start-Deferring k o) lt h)
      (λ k' d.
        Ends-bind (λ out. (out.0 ≡ true) × InOrder out.1) (defer_stop k')
          (λ out. some (true, out.1)) (defer_stop-InOrder k' d) (λ out b. (refl, b.1)))

-- signaln() ends with the kernel in order when the count as an int32 and the number of signals do not
-- overflow; it returns OK exactly for a semaphore in use and a number that is not negative.
pub signaln-InOrder :
    (k : Kernel) (sem n : ℕ)
    → InOrder k
    → ((sentry sem k).scount + 2 ^ 31) % 2 ^ 32 + n < 2 ^ 32
    → Ends
        (signaln sem n k)
        (λ out. (out.0 ≡ not (negative n || is_unusable sem k)) × InOrder out.1)
unfolding signaln
signaln-InOrder k sem n o h = elim (Bool-cases (is_bad_sem sem || negative n)) [
  | inl u ↦ rw u (ground (arith, u), o)
  | inr u ↦ elim (Bool-cases (sentry sem k).used) [
    | inl v ↦
        rw (u, v)
          (subst
            (λ b.
              Ends {A = Bool × Kernel}
                (release_times n sem (defer_start k)
                  >>= (λ k'. defer_stop k' >>= (λ out. some (true, out.1))))
                (λ out. (out.0 ≡ b) × InOrder out.1))
            (ground (arith, u, v)) (signals k sem n o (ground arith) h))
    | inr v ↦ rw (u, v) (ground (arith, v), o)
  ]
]
