-- ===== src/Kernel/Release.antt =====
-- The release of one process that waits, while rescheduling is deferred.
use mathlib.Core.Path.{subst}
use operating_systems_paging.Prelude.{
  ℕ, ◌-◌, ◌^◌, ◌<◌, ◌≡◌, ◌≢◌, refl, sym, ap, ◌∙◌, inl, inr, true, false, true≢false, List, [], ◌∷◌,
  arith, ◌==◌, ==→≡, ==_refl, Bool-cases, update, length,
}
use operating_systems_paging.Partial.{Ends, Ends-mono}
use operating_systems_paging.Queues.{Queuetab}
use operating_systems_paging.Semaphores.{nsem}
use operating_systems_paging.Kernel.{Kernel, with_queues, ready}
use operating_systems_paging.Kernel.Inv.{Apart, IsSched, squeue_of}
use operating_systems_paging.Kernel.System.{IsCount, Counted, Counted-set, set_count-IsSched}
use operating_systems_paging.Kernel.Deferred.{Holding, Deferring, Woken, wakes_held}
use operating_systems_paging.Kernel.Semaphore.{update_self, inc-idle, inc-IsCount}
use operating_systems_paging.Kernel.Wake.{Popped}
use operating_systems_paging.Kernel.Wait.{sentry, set_count, negative, inc}

-- The counts after the first process of a semaphore's queue has been released.
pub Woken-Counted :
    (k : Kernel) (view : ℕ → List ℕ) (q : ℕ) (xs : List ℕ) (k' : Kernel) (w : Woken k view q xs k')
    → IsSched k view
    → Counted k (update view q xs)
    → Counted k' w.view'
Woken-Counted k view q xs k' w i c =
    subst
      (λ t.
        (s : ℕ) → s < nsem → IsCount ((t.semtab s).scount) (length (w.view' ((t.semtab s).squeue))))
      (sym w.semtab)
      (λ s l. subst (λ ys. IsCount ((sentry s k).scount) (length ys)) (contents s l) (c s l))
  where
    contents : (s : ℕ) → s < nsem → update view q xs (squeue_of s k) ≡ w.view' (squeue_of s k)
    contents s l = elim (Bool-cases (q == squeue_of s k)) [
      | inl e ↦ rw e (sym w.here ∙ ap w.view' (==→≡ q (squeue_of s k) e))
      | inr e ↦ rw e (
          sym (
            w.others (squeue_of s k)
              (λ z. true≢false (sym (subst (λ r. (q == r) ≡ true) z (==_refl q)) ∙ e))
              (λ z. i.queues.sem_ready s l (sym z))))
    ]

-- A semaphore's count goes up, and if it was negative the first process that waits becomes ready; `popped`
-- gives the queue table without that process.
abbrev pub count_up : ℕ → Kernel → Kernel
count_up sem k = set_count sem (inc ((sentry sem k).scount)) k

pub count_up-Holding :
    (k : Kernel) (view : ℕ → List ℕ) (sem c : ℕ) → Holding k view → Holding (set_count sem c k) view
count_up-Holding k view sem c h = record {
  sched = set_count-IsSched sem c k view h.sched;
  runs = record { small = h.runs.small; only = h.runs.only; loaded = h.runs.loaded };
  ndefers = h.ndefers;
  quiet = h.quiet;
}

pub first_waiting :
    (k : Kernel) (d : Deferring k) (sem : ℕ)
    → sem < nsem
    → negative ((sentry sem k).scount) ≡ true
    → (x : ℕ) × (xs : List ℕ) × (d.view (squeue_of sem k) ≡ x ∷ xs)
first_waiting k d sem lt e = from (d.view (squeue_of sem k)) refl
  where
    from : (xs : List ℕ) → d.view (squeue_of sem k) ≡ xs → (x : ℕ) × (ys : List ℕ) × (xs ≡ x ∷ ys)
    from (x ∷ xs) h = (x, xs, refl)
    from [] h = absurd (ground (arith, count.bits, count.waiting, e))
      where
        count : IsCount ((sentry sem k).scount) 0
        count = subst (λ l. IsCount ((sentry sem k).scount) (length l)) h (d.counted sem lt)

pub releases_held :
    (k : Kernel) (d : Deferring k) (u : Queuetab) (sem x : ℕ) (xs : List ℕ)
    → sem < nsem
    → negative ((sentry sem k).scount) ≡ true
    → d.view (squeue_of sem k) ≡ x ∷ xs
    → Popped k.queuetab u (squeue_of sem k) x xs
    → Ends
        (ready x (with_queues u (count_up sem k)))
        (λ out. Deferring out.1 × (out.1.semtab ≡ (count_up sem k).semtab))
releases_held k d u sem x xs lt e h p =
    Ends-mono (ready x (with_queues u (count_up sem k)))
      (λ out w. (
        record {
          view = w.1.view';
          holding = w.1.holding;
          counted =
              Woken-Counted (count_up sem k) d.view (squeue_of sem k) xs out.1 w.1
                (set_count-IsSched sem (inc ((sentry sem k).scount)) k d.view d.holding.sched)
                counts;
        },
        w.1.semtab,
      ))
      (wakes_held (count_up sem k) d.view u (squeue_of sem k) x xs
        (count_up-Holding k d.view sem (inc ((sentry sem k).scount)) d.holding)
        (queues.sem_list sem lt) (queues.sem_ready sem lt) h p)
  where
    queues : Apart k.readylist k.sleepq (λ s. squeue_of s k)
    queues = d.holding.sched.queues

    counts : Counted (count_up sem k) (update d.view (squeue_of sem k) xs)
    counts =
        Counted-set sem (inc ((sentry sem k).scount)) k d.view xs lt d.holding.sched
          (λ s l n. d.counted s l)
          (inc-IsCount ((sentry sem k).scount) (length xs) e
            (subst (λ l. IsCount ((sentry sem k).scount) (length l)) h (d.counted sem lt)))

pub count_up-Deferring :
    (k : Kernel) (d : Deferring k) (sem : ℕ)
    → sem < nsem
    → negative ((sentry sem k).scount) ≡ false
    → (sentry sem k).scount ≢ 2 ^ 31 - 1
    → Deferring (count_up sem k)
count_up-Deferring k d sem lt e ne = record {
  view = d.view;
  holding = count_up-Holding k d.view sem (inc ((sentry sem k).scount)) d.holding;
  counted = subst (Counted (count_up sem k)) (update_self d.view (squeue_of sem k)) (
      Counted-set sem (inc ((sentry sem k).scount)) k d.view (d.view (squeue_of sem k)) lt
        d.holding.sched (λ s l n. d.counted s l)
        (inc-idle ((sentry sem k).scount) (length (d.view (squeue_of sem k)))
          (ground (arith, ne, e)) (d.counted sem lt)));
}

-- the count after a release
pub count_of :
    (k k' : Kernel) (sem : ℕ)
    → k'.semtab ≡ (count_up sem k).semtab
    → (sentry sem k').scount ≡ inc ((sentry sem k).scount)
count_of k k' sem e = ap (λ t. (t.semtab sem).scount) e ∙ ground (arith, ==_refl sem)
