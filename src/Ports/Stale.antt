-- ===== src/Ports/Stale.antt =====
-- A port that is reset or deleted turns away the processes that wait at it.
use mathlib.Core.Path.{subst}
use mathlib.Core.Option.{some-injective}
use operating_systems_paging.Prelude.{
  ℕ, ◌+◌, ◌%◌, ◌^◌, ◌<◌, ◌≡◌, ◌≢◌, refl, sym, ◌∙◌, inl, inr, true, false, none, some, List, arith,
  ◌==◌, ==_refl, ==_ne, Bool-cases, if◌then◌else◌,
}
use operating_systems_paging.Partial.{bind-some}
use operating_systems_paging.Kernel.Wait.{semreset, semdelete}
use operating_systems_paging.Ports.{Ports, Ptstate, is_alloc, drop_msgs, dispose_all}
use operating_systems_paging.Ports.Calls.{
  Messaging, entry, is_stale, ptsend_end, ptrecv_end, ptclear_start,
}

drop_msgs-porttab : (s : ℕ) (p : Ports) → (drop_msgs s p).porttab ≡ p.porttab
unfolding drop_msgs
drop_msgs-porttab s p = elim (Bool-cases ((p.porttab s).pthead == 0)) [
  | inl q ↦ rw q refl
  | inr q ↦ rw q refl
]

ptseq-start :
    (n portid : ℕ) (newstate : Ptstate) (w : Messaging)
    → (out : List ℕ × Messaging) → ptclear_start n portid newstate w ≡ some out
    → (entry portid out.1).ptseq ≡ ((entry portid w).ptseq + 1) % 2 ^ 32
unfolding ptclear_start
ptseq-start n portid newstate w out h =
    let (ms, a, h') = bind-some (dispose_all n (entry portid w).pthead w.ports.node) _ out h in
    let (k, b, h'') =
      bind-some
        (if is_alloc newstate
          then semreset (entry portid w).ptssem (entry portid w).ptmaxcnt w.kernel
          else semdelete (entry portid w).ptssem w.kernel)
        _ out h' in
    subst (λ o. (entry portid o.1).ptseq ≡ ((entry portid w).ptseq + 1) % 2 ^ 32)
      (some-injective _ out h'')
      (elim (Bool-cases (is_alloc newstate)) [
        | inl q ↦ rw (q, ==_refl portid) refl
        | inr q ↦ rw (q, drop_msgs-porttab portid, ==_refl portid) refl
      ])

-- Once the first part of ptreset() or ptdelete() is done, and for as long as the port keeps its sequence number,
-- a process that had begun ptsend() or ptrecv() before gets SYSERR when it goes on, and changes nothing.
pub ptclear_start-Turns_away :
    (n portid msg : ℕ) (newstate : Ptstate) (w w' w'' : Messaging) (ms : List ℕ)
    → (entry portid w).ptseq < 2 ^ 32
    → ptclear_start n portid newstate w ≡ some (ms, w')
    → (entry portid w'').ptseq ≡ (entry portid w').ptseq
    → (ptsend_end portid msg (entry portid w).ptseq w'' ≡ some (false, w''))
      × (ptrecv_end portid (entry portid w).ptseq w'' ≡ some (none, w''))
unfolding ptsend_end ptrecv_end
ptclear_start-Turns_away n portid msg newstate w w' w'' ms b h e = (rw stale refl, rw stale refl)
  where
    differs : (entry portid w'').ptseq ≢ (entry portid w).ptseq
    differs q = omega (arith, b, sym q ∙ e ∙ ptseq-start n portid newstate w (ms, w') h)

    stale : is_stale portid (entry portid w).ptseq w'' ≡ true
    stale = ground (arith, ==_ne (entry portid w'').ptseq (entry portid w).ptseq differs)
