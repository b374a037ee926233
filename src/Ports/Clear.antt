-- ===== src/Ports/Clear.antt =====
-- The calls on ports keep the messages and the scheduler in order: _ptclear(), which ptreset() and ptdelete() call.
use mathlib.Core.Path.{subst, fun_ext}
use operating_systems_paging.Prelude.{
  ℕ, ◌+◌, ◌-◌, ◌%◌, ◌^◌, ◌<◌, ◌≡◌, ◌≢◌, refl, sym, ap, ◌∙◌, inl, inr, Bool, true, false, true≢false,
  some, List, [], length, ◌==◌, ==_refl, Bool-cases, update, if◌then◌else◌, not, ◌||◌,
}
use operating_systems_paging.Partial.{Ends, Ends-bind}
use operating_systems_paging.Kernel.{Kernel}
use operating_systems_paging.Kernel.Wait.{sentry, negative, is_unusable, semreset, semdelete}
use operating_systems_paging.Kernel.System.{InOrder}
use operating_systems_paging.Kernel.Reset.{Resets, semreset-InOrder}
use operating_systems_paging.Kernel.Delete.{Deletes, semdelete-InOrder}
use operating_systems_paging.Ports.{
  Ports, Ptentry, pt_free, pt_limbo, pt_alloc, nports, is_alloc, set_entry, drop_msgs, dispose_all,
}
use operating_systems_paging.Ports.Rep.{Represents, length-msgs, set_entry-Represents}
use operating_systems_paging.Ports.Take.{dispose_all_lem, drop_msgs-Represents}
use operating_systems_paging.Ports.Calls.{
  Messaging, entry, with_entry, ptclear_start, ptclear_next, ptclear_end,
}
use operating_systems_paging.Ports.Flow.{Flows}

-- An entry with the same list of messages may be written before or after the list is dropped.
drop_msgs-set_entry :
    (s : ℕ) (e : Ptentry) (p : Ports)
    → e.pthead ≡ (p.porttab s).pthead
    → e.pttail ≡ (p.porttab s).pttail
    → drop_msgs s (set_entry s e p) ≡ set_entry s e (drop_msgs s p)
unfolding drop_msgs
drop_msgs-set_entry s e p a b = elim (Bool-cases ((p.porttab s).pthead == 0)) [
  | inl q ↦ rw (==_refl s, a, q) refl
  | inr q ↦ rw (==_refl s, a, b, q) refl
]

set_entry-set_entry :
    (s : ℕ) (e e' : Ptentry) (p : Ports) → set_entry s e' (set_entry s e p) ≡ set_entry s e' p
set_entry-set_entry s e e' p =
    ap (λ t. record p { porttab = t })
      (fun_ext λ i. elim (Bool-cases (s == i)) [ inl q ↦ rw q refl | inr q ↦ rw q refl ])

-- What a call is to return, when the messages of the port are `ms`: they were disposed of, and none is left.
abbrev pub Cleared : ℕ → (ℕ → List ℕ) → ℕ → List ℕ × Messaging → Type 0
Cleared portid box free (ms, w) =
    (ms ≡ box portid) × Flows w (update box portid []) (length (box portid) + free)

-- the entry once the port is in limbo
abbrev limbo : ℕ → Messaging → Ptentry
limbo portid w = record (entry portid w) {
  ptstate = pt_limbo;
  ptseq = ((entry portid w).ptseq + 1) % 2 ^ 32;
}

module _ (n portid : ℕ) (w : Messaging) (box : ℕ → List ℕ) (free : ℕ) (f : Flows w box free)
    (l : portid < nports) (al : is_alloc ((entry portid w).ptstate) ≡ true) where
  disposed :
      length (box portid) < n
      → dispose_all n (entry portid w).pthead w.ports.node ≡ some (box portid)
  disposed len =
      dispose_all_lem w.ports.node n (entry portid w).pthead (f.holds.lists portid)
        (f.holds.rep.port portid l al).0 short
      ∙ ap some (f.holds.contents portid l)
    where
      short : length (f.holds.lists portid) < n
      short =
          subst (λ k. k < n)
            (ap (length {A = ℕ}) (sym (f.holds.contents portid l))
              ∙ length-msgs w.ports.node (f.holds.lists portid))
            len

  dropped :
      (e' : Ptentry)
      → (is_alloc e'.ptstate ≡ true → (e'.pthead ≡ 0) × (e'.pttail ≡ 0))
      → Represents
          (set_entry portid e' (drop_msgs portid w.ports))
          (update box portid [])
          (length (box portid) + free)
  dropped e' null = drop_msgs-Represents portid e' w.ports box free f.holds l al null

  limbo_first :
      drop_msgs portid (set_entry portid (limbo portid w) w.ports)
      ≡ set_entry portid (limbo portid w) (drop_msgs portid w.ports)
  limbo_first = drop_msgs-set_entry portid (limbo portid w) w.ports refl refl

  after_reset :
      Represents
        (set_entry portid
          (record (limbo portid w) { pttail = 0; pthead = 0 })
          (drop_msgs portid (set_entry portid (limbo portid w) w.ports)))
        (update box portid [])
        (length (box portid) + free)
  after_reset =
      subst (λ p. Represents p (update box portid []) (length (box portid) + free))
        (sym (
          ap (set_entry portid (record (limbo portid w) { pttail = 0; pthead = 0 })) limbo_first
          ∙ set_entry-set_entry portid (limbo portid w)
              (record (limbo portid w) { pttail = 0; pthead = 0 }) (drop_msgs portid w.ports)))
        (dropped (record (limbo portid w) { pttail = 0; pthead = 0 }) (λ q. (refl, refl)))

  after_delete :
      Represents
        (drop_msgs portid (set_entry portid (limbo portid w) w.ports))
        (update box portid [])
        (length (box portid) + free)
  after_delete =
      subst (λ p. Represents p (update box portid []) (length (box portid) + free))
        (sym limbo_first) (dropped (limbo portid w) (λ q. absurd (true≢false (sym q))))

pub ptclear_start-Flows :
    (n portid : ℕ) (stays : Bool) (w : Messaging) (box : ℕ → List ℕ) (free : ℕ)
    → Flows w box free
    → portid < nports
    → is_alloc ((entry portid w).ptstate) ≡ true
    → length (box portid) < n
    → (sentry (entry portid w).ptssem w.kernel).scount ≢ 2 ^ 31 - 1
    → Ends
        (ptclear_start n portid (if stays then pt_alloc else pt_free) w)
        (Cleared portid box free)
unfolding ptclear_start
ptclear_start-Flows n portid true w box free f l al len ne =
    rw (disposed n portid w box free f l al len) (
      Ends-bind (Cleared portid box free)
        (semreset (entry portid w).ptssem (entry portid w).ptmaxcnt w.kernel)
        (λ out. some (box portid, record { ports = _; kernel = out.1 }))
        (semreset-InOrder w.kernel (entry portid w).ptssem (entry portid w).ptmaxcnt f.in_order)
        (λ out d.
          (refl, record { holds = after_reset n portid w box free f l al; in_order = d.1 })))
ptclear_start-Flows n portid false w box free f l al len ne =
    rw (disposed n portid w box free f l al len) (
      Ends-bind (Cleared portid box free) (semdelete (entry portid w).ptssem w.kernel)
        (λ out. some (box portid, record { ports = _; kernel = out.1 }))
        (semdelete-InOrder w.kernel (entry portid w).ptssem f.in_order ne)
        (λ out d.
          (refl, record { holds = after_delete n portid w box free f l al; in_order = d.1 })))

-- what the second call that frees processes is to have done to its semaphore: no process waits on it
abbrev pub Frees : Bool → ℕ → Kernel → Kernel → Type 0
Frees true sem k k' = Resets sem 0 k k' (not (negative 0 || is_unusable sem k))
Frees false sem k k' = Deletes sem k k' (not (is_unusable sem k))

ends :
    (portid : ℕ) (e' : Ptentry) (w : Messaging) (k : Kernel) (box : ℕ → List ℕ) (free : ℕ)
    → Flows w box free
    → portid < nports
    → is_alloc ((entry portid w).ptstate) ≡ false
    → (is_alloc e'.ptstate ≡ true → (e'.pthead ≡ 0) × (e'.pttail ≡ 0))
    → InOrder k
    → Flows (with_entry portid e' (record w { kernel = k })) (update box portid []) free
ends portid e' w k box free f l off null o = record {
  holds =
      set_entry-Represents w.ports box free portid e' f.holds l (f.holds.rep.unused portid l off)
        null;
  in_order = o;
}

-- The rest of _ptclear(), for a port that is in limbo and, if it is to be used again, has NULL for its list: the second
-- call that frees processes ends with no process waiting on the receivers' semaphore when that is in use, and the
-- assignment of the new state then leaves a port without messages, the messages of the other ports and the scheduler in order.
pub ptclear_rest-Flows :
    (portid : ℕ) (stays : Bool) (w : Messaging) (box : ℕ → List ℕ) (free : ℕ)
    → Flows w box free
    → portid < nports
    → is_alloc ((entry portid w).ptstate) ≡ false
    → (stays ≡ true → ((entry portid w).pthead ≡ 0) × ((entry portid w).pttail ≡ 0))
    → (sentry (entry portid w).ptrsem w.kernel).scount ≢ 2 ^ 31 - 1
    → Ends (ptclear_next portid (if stays then pt_alloc else pt_free) w) (λ v.
      Frees stays (entry portid w).ptrsem w.kernel v.kernel
      × ((entry portid (ptclear_end portid (if stays then pt_alloc else pt_free) v)).ptstate
          ≡ (if stays then pt_alloc else pt_free))
      × Flows
          (ptclear_end portid (if stays then pt_alloc else pt_free) v)
          (update box portid [])
          free)
unfolding ptclear_next ptclear_end
ptclear_rest-Flows portid true w box free f l off null ne =
    Ends-bind _ (semreset (entry portid w).ptrsem 0 w.kernel)
      (λ out. some (record w { kernel = out.1 }))
      (semreset-InOrder w.kernel (entry portid w).ptrsem 0 f.in_order)
      (λ out (ok, o, freed). (
        freed,
        rw (==_refl portid) refl,
        ends portid (record (entry portid w) { ptstate = pt_alloc }) w out.1 box free f l off
            (λ q. null refl) o,
      ))
ptclear_rest-Flows portid false w box free f l off null ne =
    Ends-bind _ (semdelete (entry portid w).ptrsem w.kernel)
      (λ out. some (record w { kernel = out.1 }))
      (semdelete-InOrder w.kernel (entry portid w).ptrsem f.in_order ne)
      (λ out (ok, o, freed). (
        freed,
        rw (==_refl portid) refl,
        ends portid (record (entry portid w) { ptstate = pt_free }) w out.1 box free f l off
            (λ q. absurd (true≢false (sym q))) o,
      ))
