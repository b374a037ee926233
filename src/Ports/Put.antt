-- ===== src/Ports/Put.antt =====
-- ptsend() puts a message behind those of the port.
use mathlib.Core.Path.{subst}
use mathlib.Core.List.{append-nil}
use operating_systems_paging.Prelude.{
  ℕ, suc, ◌-◌, ◌<◌, ◌≡◌, ◌≢◌, ◌⊎◌, refl, sym, ap, ◌∙◌, inl, inr, true, false, none, some, List, [],
  ◌∷◌, ◌++◌, arith, ◌==◌, ==_refl, ==_ne, update, contains, length, NoRepeat, last_or,
}
use operating_systems_paging.Ports.{
  Ports, Ptnode, Ptentry, nports, is_alloc, put_msg, set_ptnext, set_entry,
}
use operating_systems_paging.Ports.Chain.{
  Linked, Linked-same, Linked-append, last_or-contains, set_ptnext-ptmsg, last_ne_zero,
}
use operating_systems_paging.Ports.Rep.{Represents, SameUse, contains_ne}
use operating_systems_paging.Ports.Fifo.{
  Put, put_lists, spare, after_put-IsRep, after_put-msgs, after_put-SameUse, f_new,
}

-- the memory with the message in the node `f`
abbrev with_msg : (ℕ → Ptnode) → ℕ → ℕ → ℕ → Ptnode
with_msg node f msg = update node f (record { ptmsg = msg; ptnext = 0 })

-- ptsend() to a port without messages
Put-first :
    (node : ℕ → Ptnode) (f msg : ℕ) (e : Ptentry)
    → f ≢ 0
    → Put node (with_msg node f msg) f msg [] e (record e { pttail = f; pthead = f })
Put-first node f msg e z = record {
  linked = (refl, z, rw (==_refl f) refl);
  tail = refl;
  state = refl;
  use_same = refl;
  next = λ y a b. rw a refl;
  kept = λ y a. rw a refl;
  new = rw (==_refl f) refl;
}

-- ptsend() to a port with messages
Put-behind :
    (node : ℕ → Ptnode) (f msg x : ℕ) (xs : List ℕ) (e : Ptentry)
    → f ≢ 0
    → contains f (x ∷ xs) ≡ false
    → NoRepeat (x ∷ xs)
    → Linked node e.pthead (x ∷ xs)
    → Put node
        (set_ptnext (last_or x xs) f (with_msg node f msg))
        f
        msg
        (x ∷ xs)
        e
        (record e { pttail = f })
Put-behind node f msg x xs e z n d l = record {
  linked =
      Linked-append (with_msg node f msg) e.pthead f x xs [] (f ∷ []) d
        (λ y m. ground (arith, contains_ne f y (x ∷ xs) n m))
        (subst (Linked (with_msg node f msg) e.pthead) (sym (append-nil (x ∷ xs))) (
          Linked-same node (with_msg node f msg) e.pthead (x ∷ xs)
            (λ y m. rw (contains_ne f y (x ∷ xs) n m) refl) l))
        (refl, z, rw (==_refl f) refl);
  tail = refl;
  state = refl;
  use_same = refl;
  next = λ y a b. rw (last_ne y b, a) refl;
  kept = λ y a. set_ptnext-ptmsg (last_or x xs) f y (with_msg node f msg) ∙ rw a refl;
  new = set_ptnext-ptmsg (last_or x xs) f f (with_msg node f msg) ∙ rw (==_refl f) refl;
}
  where
    last_ne : (y : ℕ) → contains y (x ∷ xs) ≡ false → (last_or x xs == y) ≡ false
    last_ne y b = ground (arith, contains_ne y (last_or x xs) (x ∷ xs) b (last_or-contains x xs))

put_msg-first :
    (s msg : ℕ) (p : Ports)
    → p.ptfree ≢ 0
    → (p.porttab s).pttail ≡ 0
    → put_msg s msg p
      ≡ some (
          set_entry s
            (record (p.porttab s) { pttail = p.ptfree; pthead = p.ptfree })
            (record p { ptfree = (p.node p.ptfree).ptnext; node = with_msg p.node p.ptfree msg }))
unfolding put_msg
put_msg-first s msg p a b = rw (==_ne p.ptfree 0 a, b) refl

put_msg-behind :
    (s msg : ℕ) (p : Ports)
    → p.ptfree ≢ 0
    → (p.porttab s).pttail ≢ 0
    → put_msg s msg p
      ≡ some (
          set_entry s
            (record (p.porttab s) { pttail = p.ptfree })
            (record p {
              ptfree = (p.node p.ptfree).ptnext;
              node = set_ptnext (p.porttab s).pttail p.ptfree (with_msg p.node p.ptfree msg);
            }))
unfolding put_msg
put_msg-behind s msg p a b = rw (==_ne p.ptfree 0 a, ==_ne (p.porttab s).pttail 0 b) refl

put_msg-Put :
    (p : Ports) (s msg : ℕ) (xs : List ℕ)
    → p.ptfree ≢ 0
    → contains p.ptfree xs ≡ false
    → NoRepeat xs
    → Linked p.node (p.porttab s).pthead xs
    → (p.porttab s).pttail ≡ last_or 0 xs
    → (node' : ℕ → Ptnode) × (e' : Ptentry) × Put p.node node' p.ptfree msg xs (p.porttab s) e'
      × (put_msg s msg p
          ≡ some (set_entry s e' (record p { ptfree = (p.node p.ptfree).ptnext; node = node' })))
put_msg-Put p s msg [] z n d l t =
    (_, _, Put-first p.node p.ptfree msg (p.porttab s) z, put_msg-first s msg p z t)
put_msg-Put p s msg (x ∷ xs) z n d l t = (
  _,
  _,
  Put-behind p.node p.ptfree msg x xs (p.porttab s) z n d l,
  rw t at
      (put_msg-behind s msg p z (λ e. last_ne_zero p.node (p.porttab s).pthead x xs l (sym t ∙ e))),
)

free_first :
    (p : Ports) (xs : List ℕ)
    → Linked p.node p.ptfree xs
    → ((xs ≡ []) × (p.ptfree ≡ 0)) ⊎ ((fs : List ℕ) × (xs ≡ p.ptfree ∷ fs) × (p.ptfree ≢ 0))
free_first p [] l = inl (refl, l)
free_first p (f ∷ fs) (a, b, c) = inr (fs, (λ i. sym a i ∷ fs), λ e. b (sym a ∙ e))

put_msg-Panics : (s msg : ℕ) (p : Ports) → p.ptfree ≡ 0 → put_msg s msg p ≡ none
unfolding put_msg
put_msg-Panics s msg p e = rw e refl

-- For an allocated port, ptsend() panics when no node is free; otherwise it leaves the message behind those
-- of the port, takes one of the free nodes, and changes nothing else of what the ports hold.
pub put_msg-Represents :
    (s msg : ℕ) (p : Ports) (box : ℕ → List ℕ) (free : ℕ)
    → Represents p box free
    → s < nports
    → is_alloc ((p.porttab s).ptstate) ≡ true
    → ((free ≡ 0) × (put_msg s msg p ≡ none))
      ⊎ ((p' : Ports) × (put_msg s msg p ≡ some p')
          × (0 < free)
          × Represents p' (update box s (box s ++ msg ∷ [])) (free - 1)
          × SameUse p p')
put_msg-Represents s msg p box free rp lt al = elim (free_first p (rp.lists nports) rp.rep.free) [
  | inl (e, z) ↦ inl (sym rp.room ∙ ap (length {A = ℕ}) e, put_msg-Panics s msg p z)
  | inr (fs, h, z) ↦
      let (li, ta) = rp.rep.port s lt al in
      let (node', e', u, q) =
        put_msg-Put p s msg (rp.lists s) z
          (f_new p rp.lists rp.place s p.ptfree msg fs rp.rep lt al h s lt)
          (rp.rep.distinct s (omega (arith, lt))) li ta in
      let size : suc (length fs) ≡ free = sym (ap (length {A = ℕ}) h) ∙ rp.room in
      inr (
        _,
        q,
        omega (arith, size),
        record {
          lists = put_lists p rp.lists rp.place s p.ptfree msg fs rp.rep lt al h;
          place = _;
          rep = after_put-IsRep p rp.lists rp.place s p.ptfree msg fs rp.rep lt al h node' e' u;
          contents =
              after_put-msgs p rp.lists rp.place s p.ptfree msg fs rp.rep lt al h node' e' u box
                rp.contents;
          room =
              ap (length {A = ℕ})
                (spare p rp.lists rp.place s p.ptfree msg fs rp.rep lt al h node' e' u)
              ∙ omega (arith, size);
        },
        after_put-SameUse p rp.lists rp.place s p.ptfree msg fs rp.rep lt al h node' e' u,
      )
]
