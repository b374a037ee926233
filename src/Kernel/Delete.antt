-- ===== src/Kernel/Delete.antt =====
-- semdelete() frees a semaphore, releases every process that waits on it and keeps the kernel in order.
use mathlib.Core.Path.{subst}
use operating_systems_paging.Prelude.{
  ℕ, zero, suc, ◌+◌, ◌-◌, ◌^◌, ◌≤◌, ◌<◌, ◌≡◌, ◌≢◌, refl, sym, ap, ◌∙◌, inl, inr, Bool, true, false,
  not, Option, some, ◌∷◌, arith, ◌==◌, ==→≡, ==_refl, Bool-cases, if◌then◌else◌, length,
}
use operating_systems_paging.Partial.{◌>>=◌, Ends, Ends-bind}
use operating_systems_paging.Queues.{Queuetab, getfirst, getitem}
use operating_systems_paging.Queues.Order.{IsQueue}
use operating_systems_paging.Queues.Fifo.{getfirst_lem}
use operating_systems_paging.Semaphores.{nsem}
use operating_systems_paging.Kernel.{Kernel, with_queues, ready, defer_start, defer_stop, to_pid}
use operating_systems_paging.Kernel.Inv.{squeue_of}
use operating_systems_paging.Kernel.System.{IsCount, InOrder}
use operating_systems_paging.Kernel.System.{squeue-set_sentry, set_sentry-IsSched}
use operating_systems_paging.Kernel.Release.{
  count_of, count_up, first_waiting, releases_held, count_up-Deferring,
}
use operating_systems_paging.Kernel.Deferred.{Deferring, defer_start-Deferring, defer_stop-InOrder}
use operating_systems_paging.Kernel.Semaphore.{usable}
use operating_systems_paging.Kernel.Wake.{getitem-Popped}
use operating_systems_paging.Kernel.Waits.{NoneWaits, none_waits}
use operating_systems_paging.Kernel.Wait.{
  sentry, set_sentry, is_unusable, negative, inc, release_all, semdelete,
}

-- A round of the loop of semdelete() for a negative count, after getfirst().
abbrev round : ℕ → ℕ → Kernel → Option ℕ × Queuetab → Option Kernel
round n sem k (r, t) = do
  (ok, k') ← ready (to_pid r) (with_queues t (count_up sem k))
  release_all n sem k'

release_all_lem :
    (n sem : ℕ) (k : Kernel)
    → release_all (suc n) sem k ≡ (
        if negative ((sentry sem k).scount)
        then round n sem k (getfirst (squeue_of sem k) k.queuetab)
        else some (count_up sem k))
unfolding release_all
release_all_lem n sem k = refl

later_rounds : (c n : ℕ) → c < 2 ^ 32 → 2 ^ 32 < c + suc n → 2 ^ 31 ≤ inc c → 2 ^ 32 < inc c + n
later_rounds c n b h z = omega (arith, b, h, z)

-- what the loop is to leave of a semaphore that is free: a count that is not negative
abbrev Released : ℕ → Kernel → Type 0
Released sem k =
    Deferring k × (negative ((sentry sem k).scount) ≡ false) × ((sentry sem k).used ≡ false)

inc_small : (c : ℕ) → negative c ≡ false → c ≢ 2 ^ 31 - 1 → negative (inc c) ≡ false
inc_small c e n = ground (arith, e, n)

count_up-Released :
    (k : Kernel) (sem : ℕ)
    → Deferring k
    → sem < nsem
    → (sentry sem k).scount ≢ 2 ^ 31 - 1
    → (sentry sem k).used ≡ false
    → negative ((sentry sem k).scount) ≡ false
    → Released sem (count_up sem k)
count_up-Released k sem d lt ne f e = (
  count_up-Deferring k d sem lt e ne,
  rw (==_refl sem) (inc_small ((sentry sem k).scount) e ne),
  rw (==_refl sem) f,
)

used_of :
    (k k' : Kernel) (sem : ℕ)
    → k'.semtab ≡ (count_up sem k).semtab
    → (sentry sem k).used ≡ false
    → (sentry sem k').used ≡ false
used_of k k' sem e f = ap (λ t. (t.semtab sem).used) e ∙ rw (==_refl sem) f

-- 2^32 less the count and one more are enough rounds.
release_all-Released :
    (n : ℕ) (k : Kernel) (sem : ℕ)
    → Deferring k
    → sem < nsem
    → (sentry sem k).scount ≢ 2 ^ 31 - 1
    → (sentry sem k).used ≡ false
    → 0 < n
    → (2 ^ 31 ≤ (sentry sem k).scount → 2 ^ 32 < (sentry sem k).scount + n)
    → Ends (release_all n sem k) (Released sem)
release_all-Released zero k sem d lt ne f pos h = absurd (omega (arith, pos))
release_all-Released (suc n) k sem d lt ne f pos h =
    elim (Bool-cases (negative ((sentry sem k).scount))) [
      | inl e ↦
          let low : 2 ^ 31 ≤ (sentry sem k).scount = ground (arith, e) in
          let later_count : inc ((sentry sem k).scount) ≢ 2 ^ 31 - 1 =
            λ z. omega (arith, low, z, (d.counted sem lt).bits) in
          let (x, xs, l) = first_waiting k d sem lt e in
          let queue : IsQueue k.queuetab (squeue_of sem k) (x ∷ xs) = rw l at (
            d.holding.sched.lists.table.queue (squeue_of sem k)
              (d.holding.sched.queues.sem_list sem lt)) in
          subst (λ r. Ends r (Released sem))
            (sym (
              release_all_lem n sem k
              ∙ rw e (ap (round n sem k) (getfirst_lem k.queuetab (squeue_of sem k) x xs queue))))
            (Ends-bind (Released sem)
              (ready x (with_queues (getitem x k.queuetab) (count_up sem k)))
              (λ out. release_all n sem out.1)
              (releases_held k d (getitem x k.queuetab) sem x xs lt e l
                (getitem-Popped k.queuetab (squeue_of sem k) x xs queue))
              (λ out w.
                release_all-Released n out.1 sem w.0 lt
                  (λ z. later_count (sym (count_of k out.1 sem w.1) ∙ z))
                  (used_of k out.1 sem w.1 f) (omega (arith, h, low, (d.counted sem lt).bits))
                  (λ z.
                    subst (λ c. 2 ^ 32 < c + n) (sym (count_of k out.1 sem w.1))
                      (later_rounds ((sentry sem k).scount) n ((d.counted sem lt).bits) (h low)
                        (subst (λ c. 2 ^ 31 ≤ c) (count_of k out.1 sem w.1) z)))))
      | inr e ↦
          subst (λ r. Ends r (Released sem)) (sym (release_all_lem n sem k))
            (rw e (count_up-Released k sem d lt ne f e))
    ]

-- The semaphore is free from the start.
abbrev freed : ℕ → Kernel → Kernel
freed sem k = set_sentry sem (record (sentry sem k) { used = false }) k

freed-InOrder : (k : Kernel) (sem : ℕ) → InOrder k → InOrder (freed sem k)
freed-InOrder k sem o = record {
  view = o.view;
  sched = set_sentry-IsSched sem (record (sentry sem k) { used = false }) k o.view refl o.sched;
  runs = record { small = o.runs.small; only = o.runs.only; loaded = o.runs.loaded };
  highest = o.highest;
  counted = λ s l.
      subst (λ c. IsCount c (length (o.view (squeue_of s (freed sem k))))) (sym (scount_same s))
        (subst (λ q. IsCount ((sentry s k).scount) (length (o.view q)))
          (sym (squeue-set_sentry sem (record (sentry sem k) { used = false }) s k refl))
          (o.counted s l));
  ndefers = o.ndefers;
}
  where
    scount_same : (s : ℕ) → (sentry s (freed sem k)).scount ≡ (sentry s k).scount
    scount_same s = elim (Bool-cases (sem == s)) [
      | inl e ↦ rw e (ap (λ r. (sentry r k).scount) (==→≡ sem s e))
      | inr e ↦ rw e refl
    ]

-- what semdelete() is to have done: the semaphore is free and no process waits on it, and nothing has changed when
-- the result is SYSERR
abbrev pub Deletes : ℕ → Kernel → Kernel → Bool → Type 0
Deletes sem k k' true = ((sentry sem k').used ≡ false) × NoneWaits sem k'
Deletes sem k k' false = k' ≡ k

deletes :
    (k l : Kernel) (sem n : ℕ)
    → Deferring k
    → sem < nsem
    → (sentry sem k).scount ≢ 2 ^ 31 - 1
    → (sentry sem k).used ≡ false
    → 0 < n
    → (2 ^ 31 ≤ (sentry sem k).scount → 2 ^ 32 < (sentry sem k).scount + n)
    → Ends {A = Bool × Kernel}
        (release_all n sem k >>= (λ k'. defer_stop k' >>= (λ out. some (true, out.1))))
        (λ out. (out.0 ≡ true) × InOrder out.1 × Deletes sem l out.1 true)
deletes k l sem n d lt ne f pos h =
    Ends-bind (λ out. (out.0 ≡ true) × InOrder out.1 × Deletes sem l out.1 true)
      (release_all n sem k) (λ k'. defer_stop k' >>= (λ out. some (true, out.1)))
      (release_all-Released n k sem d lt ne f pos h)
      (λ k' (e, c, u).
        Ends-bind (λ out. (out.0 ≡ true) × InOrder out.1 × Deletes sem l out.1 true) (defer_stop k')
          (λ out. some (true, out.1)) (defer_stop-InOrder k' e)
          (λ out (b, o, same). (
            refl,
            o,
            (
              ap (λ t. (t.semtab sem).used) same ∙ u,
              none_waits out.1 o sem lt (ap (λ t. negative ((t.semtab sem).scount)) same ∙ c),
            ),
          )))

-- the count of a semaphore that is deleted
count_freed :
    (k : Kernel) (sem : ℕ) → (sentry sem (defer_start (freed sem k))).scount ≡ (sentry sem k).scount
unfolding defer_start
count_freed k sem = ground (arith, ==_refl sem)

used_freed : (k : Kernel) (sem : ℕ) → (sentry sem (defer_start (freed sem k))).used ≡ false
unfolding defer_start
used_freed k sem = rw (==_refl sem) refl

-- semdelete() ends with the kernel in order when the count is not the largest int32. For a semaphore in use it
-- returns OK, the semaphore is free and no process waits on it; for any other the result is SYSERR and nothing changes.
pub semdelete-InOrder :
    (k : Kernel) (sem : ℕ)
    → InOrder k
    → (sentry sem k).scount ≢ 2 ^ 31 - 1
    → Ends (semdelete sem k) (λ out.
      (out.0 ≡ not (is_unusable sem k))
      × InOrder out.1
      × Deletes sem k out.1 (not (is_unusable sem k)))
unfolding semdelete
semdelete-InOrder k sem o ne = elim (Bool-cases (is_unusable sem k)) [
  | inl u ↦ rw u (refl, o, refl)
  | inr u ↦ rw u (
      deletes (defer_start (freed sem k)) k sem (2 ^ 32 - (sentry sem k).scount + 1)
        (defer_start-Deferring (freed sem k) (freed-InOrder k sem o)) (usable sem k u)
        (λ z. ne (sym (count_freed k sem) ∙ z)) (used_freed k sem) (omega arith)
        (subst (λ c. 2 ^ 31 ≤ c → 2 ^ 32 < c + (2 ^ 32 - (sentry sem k).scount + 1))
          (sym (count_freed k sem)) (λ z. omega (arith, (o.counted sem (usable sem k u)).bits))))
]
