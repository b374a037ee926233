-- ===== src/Ports/Open.antt =====
-- ptcreate(): the search for a port that is free.
use operating_systems_paging.Prelude.{
  ℕ, zero, suc, ◌+◌, ◌-◌, ◌%◌, ◌<◌, ◌≡◌, ◌⊎◌, refl, sym, ap, ◌∙◌, inl, inr, true, false, true≢false,
  Option, none, some, List, [], arith, ◌==◌, ==→≡, ==_refl, Bool-cases, update,
}
use operating_systems_paging.Kernel.Wait.{negative}
use operating_systems_paging.Ports.{
  Ports, Ptstate, pt_free, pt_limbo, pt_alloc, nports, is_alloc, is_port_free,
}
use operating_systems_paging.Ports.Rep.{Represents, msgs, set_entry-Represents}
use operating_systems_paging.Ports.Calls.{
  Messaging, entry, next_port, open_port, find_port, ptcreate,
}

unused_ne : (st : Ptstate) → is_port_free st ≡ true → is_alloc st ≡ false
unused_ne pt_free h = refl
unused_ne pt_limbo h = refl
unused_ne pt_alloc h = absurd (true≢false (sym h))

-- The messages of a port that is not allocated are none.
no_msgs :
    (p : Ports) (box : ℕ → List ℕ) (free s : ℕ)
    → Represents p box free
    → s < nports
    → is_alloc ((p.porttab s).ptstate) ≡ false
    → box s ≡ []
no_msgs p box free s rp l h = sym (rp.contents s l) ∙ ap (msgs p.node) (rp.rep.unused s l h)

-- ptnextid plays no part.
turned :
    (p : Ports) (box : ℕ → List ℕ) (free n : ℕ)
    → Represents p box free
    → Represents (record p { ptnextid = n }) box free
turned p box free n rp = record {
  lists = rp.lists;
  place = rp.place;
  rep = record {
    free = rp.rep.free;
    port = rp.rep.port;
    unused = rp.rep.unused;
    distinct = rp.rep.distinct;
    placed = rp.rep.placed;
  };
  contents = rp.contents;
  room = rp.room;
}

-- a port that is now allocated: it was free, and has no messages
abbrev Opens : Messaging → (ℕ → List ℕ) → ℕ → ℕ → Messaging → Type 0
Opens w box free s w' =
    (s < nports)
    × (is_port_free ((entry s w).ptstate) ≡ true)
    × (is_alloc ((entry s w').ptstate) ≡ true)
    × (box s ≡ [])
    × Represents w'.ports box free

open_port-Opens :
    (s count : ℕ) (w : Messaging) (box : ℕ → List ℕ) (free : ℕ)
    → Represents w.ports box free
    → s < nports
    → is_port_free ((entry s w).ptstate) ≡ true
    → Opens w box free s (open_port s count w)
unfolding open_port
open_port-Opens s count w box free rp l u =
    let idle = unused_ne (entry s w).ptstate u in
    let empty = no_msgs w.ports box free s rp l idle in
    let rp' : Represents (open_port s count w).ports (update box s []) free =
      set_entry-Represents w.ports box free s _ rp l (rp.rep.unused s l idle) (λ q. (refl, refl)) in
    (l, u, rw (==_refl s) refl, empty, kept rp' (λ i m. same_box empty i))
  where
    same_box : box s ≡ [] → (i : ℕ) → update box s [] i ≡ box i
    same_box e i = elim (Bool-cases (s == i)) [
      | inl q ↦ rw q (sym e ∙ ap box (==→≡ s i q))
      | inr q ↦ rw q refl
    ]

    kept :
        {p : Ports} {b : ℕ → List ℕ}
        → Represents p b free
        → ((i : ℕ) → i < nports → b i ≡ box i)
        → Represents p box free
    kept r e = record {
      lists = r.lists;
      place = r.place;
      rep = r.rep;
      contents = λ i m. r.contents i m ∙ e i m;
      room = r.room;
    }

-- A search of `n` rounds: a port is found, or those tried are not free.
abbrev Searches : ℕ → Messaging → (ℕ → List ℕ) → ℕ → Option ℕ × Messaging → Type 0
Searches n w box free (none, w') =
    ((i : ℕ) → i < n → is_port_free ((entry ((w.ports.ptnextid + i) % nports) w).ptstate) ≡ false)
    × Represents w'.ports box free
Searches n w box free (some s, w') = Opens w box free s w'

find_port-Searches :
    (n count : ℕ) (w : Messaging) (box : ℕ → List ℕ) (free : ℕ)
    → Represents w.ports box free
    → w.ports.ptnextid < nports
    → Searches n w box free (find_port n count w)
unfolding find_port
find_port-Searches zero count w box free rp l = (λ i m. absurd (omega (arith, m)), rp)
find_port-Searches (suc n) count w box free rp l =
    elim (Bool-cases (is_port_free ((entry w.ports.ptnextid w).ptstate))) [
      | inl u ↦ rw u (open_port-Opens w.ports.ptnextid count w' box free turned' l u)
      | inr u ↦ rw u (
          later (find_port n count w') u
            (find_port-Searches n count w' box free turned' (ground arith)))
    ]
  where
    w' : Messaging
    w' = record w { ports = record w.ports { ptnextid = next_port w.ports.ptnextid } }

    turned' : Represents w'.ports box free
    turned' = turned w.ports box free (next_port w.ports.ptnextid) rp

    next_entry :
        (i : ℕ) → (w.ports.ptnextid + suc i) % nports ≡ (next_port w.ports.ptnextid + i) % nports
    next_entry i = ground arith

    later :
        (out : Option ℕ × Messaging)
        → is_port_free ((entry w.ports.ptnextid w).ptstate) ≡ false
        → Searches n w' box free out
        → Searches (suc n) w box free out
    later (none, v) u (f, r) = (seen, r)
      where
        seen :
            (i : ℕ)
            → i < suc n
            → is_port_free ((entry ((w.ports.ptnextid + i) % nports) w).ptstate) ≡ false
        seen zero m = ap (λ j. is_port_free ((entry j w).ptstate)) (omega (arith, l)) ∙ u
        seen (suc i) m =
            ap (λ j. is_port_free ((entry j w).ptstate)) (next_entry i) ∙ f i (omega (arith, m))
    later (some s, v) u g = g

-- SYSERR means that the count is negative or that no port is free, and nothing is lost; else the port was free, has no
-- messages and is now allocated, and the messages of the other ports are those of before.
abbrev pub Opened : ℕ → Messaging → (ℕ → List ℕ) → ℕ → Option ℕ × Messaging → Type 0
Opened count w box free (none, w') =
    ((negative count ≡ true) ⊎ ((i : ℕ) → i < nports → is_port_free ((entry i w).ptstate) ≡ false))
    × Represents w'.ports box free
Opened count w box free (some s, w') =
    (negative count ≡ false)
    × (s < nports)
    × (is_port_free ((entry s w).ptstate) ≡ true)
    × (is_alloc ((entry s w').ptstate) ≡ true)
    × (box s ≡ [])
    × Represents w'.ports box free

-- ptcreate(), when ptnextid is an index of the table, allocates a port that was free and has no messages, and
-- fails only for a negative count or when no port is free; no message is lost.
pub ptcreate-Opened :
    (count : ℕ) (w : Messaging) (box : ℕ → List ℕ) (free : ℕ)
    → Represents w.ports box free
    → w.ports.ptnextid < nports
    → Opened count w box free (ptcreate count w)
unfolding ptcreate
ptcreate-Opened count w box free rp l = elim (Bool-cases (negative count)) [
  | inl c ↦ rw c (inl c, rp)
  | inr c ↦
      rw c (opened c (find_port nports count w) (find_port-Searches nports count w box free rp l))
]
  where
    opened :
        negative count ≡ false
        → (out : Option ℕ × Messaging) → Searches nports w box free out
        → Opened count w box free out
    opened c (none, v) (f, r) = (
      inr (λ i m.
          ap (λ j. is_port_free ((entry j w).ptstate)) (omega (arith, m, l))
          ∙ f ((i + nports - w.ports.ptnextid) % nports) (omega arith)),
      r,
    )
    opened c (some s, v) (a, b, d, e, r) = (c, a, b, d, e, r)
