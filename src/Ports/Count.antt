-- ===== src/Ports/Count.antt =====
-- ptcount() counts the messages and the processes that wait.
use operating_systems_paging.Prelude.{
  ℕ, ◌+◌, ◌-◌, ◌%◌, ◌^◌, ◌<◌, ◌≡◌, ◌⊎◌, refl, ap, inl, inr, false, length, arith, Bool-cases,
  if◌then◌else◌,
}
use operating_systems_paging.Semaphores.{semcount}
use operating_systems_paging.Kernel.{Kernel}
use operating_systems_paging.Kernel.Inv.{squeue_of}
use operating_systems_paging.Kernel.Wait.{sentry, negative, is_unusable}
use operating_systems_paging.Kernel.System.{InOrder, IsCount}
use operating_systems_paging.Kernel.Semaphore.{usable}
use operating_systems_paging.Ports.{is_bad_or_unused}
use operating_systems_paging.Ports.Calls.{Messaging, entry, ptcount, to_int32}

-- the number of processes that wait for a semaphore
abbrev pub waiters : (k : Kernel) → InOrder k → ℕ → ℕ
waiters k o sem = length (o.view (squeue_of sem k))

semcount-usable :
    (sem : ℕ) (k : Kernel)
    → is_unusable sem k ≡ false
    → to_int32 (semcount sem k.semtab) ≡ (sentry sem k).scount
unfolding semcount
semcount-usable sem k h = rw h refl

-- For an allocated port whose semaphores are in use, ptcount() gives the count of messages that may be received and
-- that of the senders that wait, or less than zero by the number of receivers that wait.
pub ptcount-Counts :
    (portid : ℕ) (w : Messaging) (o : InOrder w.kernel)
    → is_bad_or_unused portid w.ports ≡ false
    → is_unusable (entry portid w).ptssem w.kernel ≡ false
    → is_unusable (entry portid w).ptrsem w.kernel ≡ false
    → (((sentry (entry portid w).ptrsem w.kernel).scount < 2 ^ 31)
        × (ptcount portid w
            ≡ ((sentry (entry portid w).ptrsem w.kernel).scount
                + waiters w.kernel o (entry portid w).ptssem)
              % 2 ^ 32))
      ⊎ ((0 < waiters w.kernel o (entry portid w).ptrsem)
          × (ptcount portid w + waiters w.kernel o (entry portid w).ptrsem ≡ 2 ^ 32))
unfolding ptcount
ptcount-Counts portid w o u us ur =
    rw
      (
        u,
        semcount-usable (entry portid w).ptssem w.kernel us,
        semcount-usable (entry portid w).ptrsem w.kernel ur,
      )
      (counts (sentry (entry portid w).ptrsem w.kernel).scount
        (sentry (entry portid w).ptssem w.kernel).scount
        (waiters w.kernel o (entry portid w).ptrsem) (waiters w.kernel o (entry portid w).ptssem)
        (o.counted (entry portid w).ptrsem (usable (entry portid w).ptrsem w.kernel ur))
        (o.counted (entry portid w).ptssem (usable (entry portid w).ptssem w.kernel us)))
  where
    counts :
        (c d n m : ℕ)
        → IsCount c n
        → IsCount d m
        → ((c < 2 ^ 31)
            × ((if negative c then c else if negative d then (c + (2 ^ 32 - d)) % 2 ^ 32 else c)
                ≡ (c + m) % 2 ^ 32))
          ⊎ ((0 < n)
              × ((if negative c then c else if negative d then (c + (2 ^ 32 - d)) % 2 ^ 32 else c)
                    + n
                  ≡ 2 ^ 32))
    counts c d n m a b = elim (Bool-cases (negative c)) [
      | inl p ↦ rw p (
          inr (omega (arith, a.bits, a.waiting (ground (arith, p))), a.waiting (ground (arith, p))))
      | inr p ↦ elim (Bool-cases (negative d)) [
        | inl q ↦
            rw (p, q)
              (inl (
                ground (arith, p),
                ap (λ z. (c + z) % 2 ^ 32) (omega (arith, b.bits, b.waiting (ground (arith, q)))),
              ))
        | inr q ↦
            rw (p, q)
              (let l : c < 2 ^ 31 = ground (arith, p) in
                inl (l, omega (arith, l, b.idle (ground (arith, q)))))
      ]
    ]
