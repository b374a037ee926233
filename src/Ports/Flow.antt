-- ===== src/Ports/Flow.antt =====
-- The calls on ports keep the messages and the scheduler in order: what ptsend() and ptrecv() do once wait()
-- has returned.
use operating_systems_paging.Prelude.{
  ℕ, suc, ◌-◌, ◌^◌, ◌<◌, ◌≡◌, ◌≢◌, ◌⊎◌, refl, ap, inl, inr, true, false, none, some, List, [], ◌∷◌,
  ◌++◌, arith, Bool-cases, update,
}
use operating_systems_paging.Partial.{Ends, Ends-bind}
use operating_systems_paging.Kernel.Wait.{sentry, signal}
use operating_systems_paging.Kernel.System.{InOrder}
use operating_systems_paging.Kernel.Signal.{signal-InOrder}
use operating_systems_paging.Ports.{nports, is_alloc, take_msg}
use operating_systems_paging.Ports.Rep.{Represents}
use operating_systems_paging.Ports.Put.{put_msg-Represents}
use operating_systems_paging.Ports.Take.{take_msg-Represents}
use operating_systems_paging.Ports.Calls.{Messaging, entry, is_stale, ptsend_end, ptrecv_end}

-- The ports hold the messages `box`, with `free` nodes to spare, and the scheduler is in order.
pub record Flows (w : Messaging) (box : ℕ → List ℕ) (free : ℕ) : Type 0 where
  pub holds : Represents w.ports box free
  pub in_order : InOrder w.kernel

fresh_alloc :
    (portid seq : ℕ) (w : Messaging)
    → is_stale portid seq w ≡ false
    → is_alloc ((entry portid w).ptstate) ≡ true
fresh_alloc portid seq w h = ground arith

-- A process that goes on in ptsend() returns SYSERR and changes nothing when the port is not allocated or has
-- another sequence number; else the system panics when no node is free; else the call returns OK, and the
-- message is the last of the port's.
pub ptsend_end-Flows :
    (portid msg seq : ℕ) (w : Messaging) (box : ℕ → List ℕ) (free : ℕ)
    → Flows w box free
    → portid < nports
    → (sentry (entry portid w).ptrsem w.kernel).scount ≢ 2 ^ 31 - 1
    → ((is_stale portid seq w ≡ true) × (ptsend_end portid msg seq w ≡ some (false, w)))
      ⊎ (((is_stale portid seq w ≡ false) × (free ≡ 0) × (ptsend_end portid msg seq w ≡ none))
          ⊎ ((is_stale portid seq w ≡ false)
              × (0 < free)
              × Ends (ptsend_end portid msg seq w) (λ out.
                (out.0 ≡ true)
                × Flows out.1 (update box portid (box portid ++ msg ∷ [])) (free - 1))))
unfolding ptsend_end
ptsend_end-Flows portid msg seq w box free f l ne = elim (Bool-cases (is_stale portid seq w)) [
  | inl s ↦ inl (s, rw s refl)
  | inr s ↦
      elim (put_msg-Represents portid msg w.ports box free f.holds l (fresh_alloc portid seq w s)) [
        | inl (z, e) ↦ inr (inl (s, z, rw (s, e) refl))
        | inr (p, e, pos, r, same) ↦ inr (
            inr (
              s,
              pos,
              rw (s, e)
                  (Ends-bind _ (signal (entry portid w).ptrsem w.kernel)
                    (λ out. some (true, record { ports = p; kernel = out.1 }))
                    (signal-InOrder w.kernel (entry portid w).ptrsem f.in_order ne)
                    (λ out d. (refl, record { holds = r; in_order = d.1 }))),
            ))
      ]
]

turned_away :
    (portid seq : ℕ) (w : Messaging)
    → is_stale portid seq w ≡ true
    → ptrecv_end portid seq w ≡ some (none, w)
unfolding ptrecv_end
turned_away portid seq w s = rw s refl

received :
    (portid seq m : ℕ) (ms : List ℕ) (w : Messaging) (box : ℕ → List ℕ) (free : ℕ)
    → Flows w box free
    → portid < nports
    → box portid ≡ m ∷ ms
    → (sentry (entry portid w).ptssem w.kernel).scount ≢ 2 ^ 31 - 1
    → is_stale portid seq w ≡ false
    → Ends
        (ptrecv_end portid seq w)
        (λ out. (out.0 ≡ some m) × Flows out.1 (update box portid ms) (suc free))
unfolding ptrecv_end
received portid seq m ms w box free f l b ne s =
    let (first, r, same) =
      take_msg-Represents portid m ms w.ports box free f.holds l (fresh_alloc portid seq w s) b in
    rw s (
      Ends-bind _ (signal (entry portid w).ptssem w.kernel)
        (λ out. some (
          some (take_msg portid w.ports).0,
          record { ports = (take_msg portid w.ports).1; kernel = out.1 },
        ))
        (signal-InOrder w.kernel (entry portid w).ptssem f.in_order ne)
        (λ out d. (ap some first, record { holds = r; in_order = d.1 })))

-- A process that goes on in ptrecv() returns SYSERR and changes nothing when the port is not allocated or has
-- another sequence number; else, when the port has messages, it gets the first of them, whose node is free again,
-- and the others stay. Nothing is said of a port without messages.
pub ptrecv_end-Flows :
    (portid seq : ℕ) (w : Messaging) (box : ℕ → List ℕ) (free : ℕ)
    → Flows w box free
    → portid < nports
    → (sentry (entry portid w).ptssem w.kernel).scount ≢ 2 ^ 31 - 1
    → ((is_stale portid seq w ≡ true) × (ptrecv_end portid seq w ≡ some (none, w)))
      ⊎ (((is_stale portid seq w ≡ false) × (box portid ≡ []))
          ⊎ ((is_stale portid seq w ≡ false)
              × (m : ℕ) × (ms : List ℕ) × (box portid ≡ m ∷ ms)
              × Ends
                  (ptrecv_end portid seq w)
                  (λ out. (out.0 ≡ some m) × Flows out.1 (update box portid ms) (suc free))))
ptrecv_end-Flows portid seq w box free f l ne = elim (Bool-cases (is_stale portid seq w)) [
  | inl s ↦ inl (s, turned_away portid seq w s)
  | inr s ↦ inr (from s (box portid) refl)
]
  where
    from :
        is_stale portid seq w ≡ false
        → (xs : List ℕ) → box portid ≡ xs
        → ((is_stale portid seq w ≡ false) × (box portid ≡ []))
          ⊎ ((is_stale portid seq w ≡ false)
              × (m : ℕ) × (ms : List ℕ) × (box portid ≡ m ∷ ms)
              × Ends
                  (ptrecv_end portid seq w)
                  (λ out. (out.0 ≡ some m) × Flows out.1 (update box portid ms) (suc free)))
    from s [] e = inl (s, e)
    from s (m ∷ ms) e = inr (s, m, ms, e, received portid seq m ms w box free f l e ne s)
