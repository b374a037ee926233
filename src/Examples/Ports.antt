-- ===== src/Examples/Ports.antt =====
-- The theorems on ports at concrete inputs: port 4 with two messages, and a node to spare.
use operating_systems_paging.Prelude.{
  ℕ, ◌+◌, ◌-◌, ◌%◌, ◌^◌, ◌<◌, ◌≡◌, ◌≢◌, ◌⊎◌, refl, inl, inr, true, false, Option, none, some, List,
  [], ◌∷◌, ◌++◌, arith, update,
}
use operating_systems_paging.Partial.{Ends, Ends-some}
use operating_systems_paging.Kernel.Wait.{sentry}
use operating_systems_paging.Ports.{
  Ports, Ptentry, pt_free, pt_limbo, pt_alloc, is_alloc, link_free, ptinit, put_msg, set_entry,
}
use operating_systems_paging.Ports.Rep.{
  Represents, SameUse, ptinit-Represents, set_entry-Represents,
}
use operating_systems_paging.Ports.Put.{put_msg-Represents}
use operating_systems_paging.Ports.Calls.{
  Messaging, entry, is_stale, ptcreate, ptsend_end, ptrecv_end, ptcount, ptclear_start,
  ptclear_next, ptclear_end,
}
use operating_systems_paging.Ports.Flow.{Flows, ptsend_end-Flows, ptrecv_end-Flows}
use operating_systems_paging.Ports.Clear.{Cleared, Frees, ptclear_start-Flows, ptclear_rest-Flows}
use operating_systems_paging.Ports.Open.{Opened, ptcreate-Opened}
use operating_systems_paging.Ports.Stale.{ptclear_start-Turns_away}
use operating_systems_paging.Ports.Count.{waiters, ptcount-Counts}
use operating_systems_paging.Examples.Kernel.{booted, booted-InOrder}

abbrev closed : Ptentry
closed = record {
  ptssem = 1;
  ptrsem = 2;
  ptstate = pt_free;
  ptmaxcnt = 3;
  ptseq = 6;
  pthead = 0;
  pttail = 0;
}

abbrev unset : Ports
unset = record {
  ptfree = 0;
  porttab = λ i. closed;
  ptnextid = 0;
  node = λ a. record { ptmsg = 0; ptnext = 0 };
}

ptinit-Represents_example : Represents (ptinit 3 1000 unset) (λ s. []) 3
ptinit-Represents_example = ptinit-Represents 3 1000 unset (omega arith) (λ e. omega (arith, e))

abbrev start : Ports
start = ptinit 3 1000 unset

start-Represents : Represents start (λ s. []) 3
start-Represents = ptinit-Represents 3 1000 unset (omega arith) (λ e. omega (arith, e))

abbrev opened : Ports
opened = set_entry 4 (record closed { ptstate = pt_alloc }) start

opened-Represents : Represents opened (update (λ s. []) 4 []) 3
unfolding ptinit
opened-Represents =
    set_entry-Represents start (λ s. []) 3 4 (record closed { ptstate = pt_alloc }) start-Represents
      (omega arith) (start-Represents.rep.unused 4 (omega arith) refl) (λ q. (refl, refl))

abbrev after_put : Option Ports → Ports
after_put none = opened
after_put (some p) = p

abbrev one : Ports
one = after_put (put_msg 4 7 opened)

-- put_msg() gives a state
put :
    (o : Option Ports) {free : ℕ}
    → free ≢ 0
    → ((free ≡ 0) × (o ≡ none))
      ⊎ ((p' : Ports) × (o ≡ some p')
          × (0 < free)
          × Represents p' (update (update (λ s. []) 4 []) 4 (7 ∷ [])) (free - 1)
          × SameUse opened p')
    → Represents (after_put o) (update (update (λ s. []) 4 []) 4 (7 ∷ [])) (free - 1)
put o n (inl (z, e)) = absurd (n z)
put o n (inr (p', e, l, r, s)) = rw e r

one-Represents : Represents one (update (update (λ s. []) 4 []) 4 (7 ∷ [])) 2
one-Represents =
    put (put_msg 4 7 opened) (λ e. omega (arith, e))
      (put_msg-Represents 4 7 opened (update (λ s. []) 4 []) 3 opened-Represents (omega arith) refl)

one_alloc : is_alloc ((one.porttab 4).ptstate) ≡ true
unfolding ptinit link_free put_msg
one_alloc = refl

abbrev waiting : Messaging
waiting = record { ports = one; kernel = booted }

abbrev box : ℕ → List ℕ
box = update (update (λ s. []) 4 []) 4 (7 ∷ [])

waiting-Flows : Flows waiting box 2
waiting-Flows = record { holds = one-Represents; in_order = booted-InOrder }

ptsend_end-Flows_example :
    ((is_stale 4 6 waiting ≡ true) × (ptsend_end 4 9 6 waiting ≡ some (false, waiting)))
    ⊎ (((is_stale 4 6 waiting ≡ false) × (◌≡◌ {A = ℕ} 2 0) × (ptsend_end 4 9 6 waiting ≡ none))
        ⊎ ((is_stale 4 6 waiting ≡ false)
            × (0 < 2)
            × Ends
                (ptsend_end 4 9 6 waiting)
                (λ out. (out.0 ≡ true) × Flows out.1 (update box 4 (box 4 ++ 9 ∷ [])) 1)))
ptsend_end-Flows_example =
    ptsend_end-Flows 4 9 6 waiting box 2 waiting-Flows (omega arith) (λ e. omega (arith, e))

ptrecv_end-Flows_example :
    ((is_stale 4 6 waiting ≡ true) × (ptrecv_end 4 6 waiting ≡ some (none, waiting)))
    ⊎ (((is_stale 4 6 waiting ≡ false) × (box 4 ≡ []))
        ⊎ ((is_stale 4 6 waiting ≡ false)
            × (m : ℕ) × (ms : List ℕ) × (box 4 ≡ m ∷ ms)
            × Ends
                (ptrecv_end 4 6 waiting)
                (λ out. (out.0 ≡ some m) × Flows out.1 (update box 4 ms) 3)))
ptrecv_end-Flows_example =
    ptrecv_end-Flows 4 6 waiting box 2 waiting-Flows (omega arith) (λ e. omega (arith, e))

-- port 4 in limbo, without messages
abbrev in_limbo : Messaging
in_limbo = record {
  ports = set_entry 4 (record closed { ptstate = pt_limbo }) start;
  kernel = booted;
}

in_limbo-Flows : Flows in_limbo (update (λ s. []) 4 []) 3
unfolding ptinit
in_limbo-Flows = record {
  holds =
      set_entry-Represents start (λ s. []) 3 4 (record closed { ptstate = pt_limbo })
        start-Represents (omega arith) (start-Represents.rep.unused 4 (omega arith) refl)
        (λ q. (refl, refl));
  in_order = booted-InOrder;
}

ptclear_rest-Flows_example : Ends (ptclear_next 4 pt_alloc in_limbo) (λ v.
    Frees true 2 booted v.kernel
    × ((entry 4 (ptclear_end 4 pt_alloc v)).ptstate ≡ pt_alloc)
    × Flows (ptclear_end 4 pt_alloc v) (update (update (λ s. []) 4 []) 4 []) 3)
ptclear_rest-Flows_example =
    ptclear_rest-Flows 4 true in_limbo (update (λ s. []) 4 []) 3 in_limbo-Flows (omega arith) refl
      (λ q. (refl, refl)) (λ e. omega (arith, e))

ptcreate-Opened_example : Opened 5 waiting box 2 (ptcreate 5 waiting)
unfolding ptinit link_free put_msg
ptcreate-Opened_example = ptcreate-Opened 5 waiting box 2 one-Represents (omega arith)

ptcount-Counts_example :
    (((sentry (entry 4 waiting).ptrsem booted).scount < 2 ^ 31)
      × (ptcount 4 waiting
          ≡ ((sentry (entry 4 waiting).ptrsem booted).scount
              + waiters booted booted-InOrder (entry 4 waiting).ptssem)
            % 2 ^ 32))
    ⊎ ((0 < waiters booted booted-InOrder (entry 4 waiting).ptrsem)
        × (ptcount 4 waiting + waiters booted booted-InOrder (entry 4 waiting).ptrsem ≡ 2 ^ 32))
unfolding ptinit link_free put_msg
ptcount-Counts_example = ptcount-Counts 4 waiting booted-InOrder refl refl refl

-- port 4 has been reset
abbrev cleared :
    (out : List ℕ × Messaging) × (ptclear_start 101 4 pt_alloc waiting ≡ some out)
    × Cleared 4 box 2 out
cleared = Ends-some (ptclear_start 101 4 pt_alloc waiting) (
    ptclear_start-Flows 101 4 true waiting box 2 waiting-Flows (omega arith) one_alloc (omega arith)
      (λ e. omega (arith, e)))

one_ptseq : (entry 4 waiting).ptseq < 2 ^ 32
unfolding ptinit link_free put_msg
one_ptseq = omega arith

ptclear_start-Turns_away_example :
    (ptsend_end 4 9 (entry 4 waiting).ptseq cleared.0.1 ≡ some (false, cleared.0.1))
    × (ptrecv_end 4 (entry 4 waiting).ptseq cleared.0.1 ≡ some (none, cleared.0.1))
ptclear_start-Turns_away_example =
    ptclear_start-Turns_away 101 4 9 pt_alloc waiting cleared.0.1 cleared.0.1 cleared.0.0 one_ptseq
      cleared.1 refl
