-- ===== src/Ports/Take.antt =====
-- ptrecv() takes the first message of a port, and _ptclear() all of them.
use mathlib.Core.Path.{subst}
use mathlib.Core.List.{append-nil}
use operating_systems_paging.Prelude.{
  ℕ, zero, suc, ◌+◌, ◌<◌, ◌≡◌, ◌≢◌, refl, sym, ap, ◌∙◌, inl, inr, true, false, true≢false, some,
  List, [], ◌∷◌, ◌++◌, arith, ◌==◌, ==_refl, ==_ne, Bool-cases, update, if◌then◌else◌, length,
  length-append, NoRepeat, last_or,
}
use operating_systems_paging.Ports.{
  Ports, Ptnode, Ptentry, nports, is_alloc, take_msg, dispose_all, drop_msgs, set_ptnext, set_entry,
}
use operating_systems_paging.Ports.Chain.{Linked, last_or-contains}
use operating_systems_paging.Ports.Rep.{
  Represents, SameUse, set_entry-SameUse, set_entry-Represents, msgs, length-msgs, contains_ne,
}
use operating_systems_paging.Ports.Move.{after_move-IsRep, after_move-msgs}

-- the entry once the first node is gone
abbrev taken : (ℕ → Ptnode) → Ptentry → Ptentry
taken node e =
    if e.pthead == e.pttail
    then record e { pthead = 0; pttail = 0 }
    else record e { pthead = (node e.pthead).ptnext }

taken-state : (node : ℕ → Ptnode) (e : Ptentry) → (taken node e).ptstate ≡ e.ptstate
taken-state node e = elim (Bool-cases (e.pthead == e.pttail)) [
  | inl q ↦ rw q refl
  | inr q ↦ rw q refl
]

taken-same :
    (node : ℕ → Ptnode) (e : Ptentry)
    → taken node e ≡ record e { pthead = (taken node e).pthead; pttail = (taken node e).pttail }
taken-same node e = elim (Bool-cases (e.pthead == e.pttail)) [
  | inl q ↦ rw q refl
  | inr q ↦ rw q refl
]

taken-Linked :
    (node : ℕ → Ptnode) (e : Ptentry) (f : ℕ) (ys : List ℕ)
    → NoRepeat (f ∷ ys)
    → Linked node e.pthead (f ∷ ys)
    → e.pttail ≡ last_or f ys
    → Linked node (taken node e).pthead ys × ((taken node e).pttail ≡ last_or 0 ys)
taken-Linked node e f [] (n, d) (a, b, c) t = rw (==_tail) (refl, refl)
  where
    ==_tail : (e.pthead == e.pttail) ≡ true
    ==_tail = rw (a, t) (==_refl f)
taken-Linked node e f (z ∷ zs) (n, d) (a, b, c) t =
    rw (==_tail) (subst (λ h. Linked node (node h).ptnext (z ∷ zs)) (sym a) c, t)
  where
    ==_tail : (e.pthead == e.pttail) ≡ false
    ==_tail = rw (a, t) (contains_ne f (last_or z zs) (z ∷ zs) n (last_or-contains z zs))

module _ (p : Ports) (box : ℕ → List ℕ) (free s : ℕ) (rp : Represents p box free) (lt : s < nports)
    (al : is_alloc ((p.porttab s).ptstate) ≡ true) where
  -- a port whose messages are not used up has a first node
  first_node :
      (m : ℕ) (ms xs : List ℕ)
      → rp.lists s ≡ xs
      → box s ≡ m ∷ ms
      → (ys : List ℕ) × (rp.lists s ≡ (p.porttab s).pthead ∷ ys)
        × ((p.node (p.porttab s).pthead).ptmsg ≡ m)
        × (msgs p.node ys ≡ ms)
  first_node m ms [] h b = absurd (cc (sym (ap (msgs p.node) h) ∙ rp.contents s lt ∙ b))
  first_node m ms (f ∷ ys) h b =
      let e : (p.node f).ptmsg ∷ msgs p.node ys ≡ m ∷ ms =
        sym (ap (msgs p.node) h) ∙ rp.contents s lt ∙ b in
      let q : (p.porttab s).pthead ≡ f =
        (subst (Linked p.node (p.porttab s).pthead) h (rp.rep.port s lt al).0).0 in
      (ys, h ∙ (λ i. sym q i ∷ ys), ap (λ a. (p.node a).ptmsg) q ∙ cc, cc)

-- ptrecv() from an allocated port that has messages gives the first, makes its node free, and changes nothing
-- else of what the ports hold.
pub take_msg-Represents :
    (s m : ℕ) (ms : List ℕ) (p : Ports) (box : ℕ → List ℕ) (free : ℕ)
    → Represents p box free
    → s < nports
    → is_alloc ((p.porttab s).ptstate) ≡ true
    → box s ≡ m ∷ ms
    → ((take_msg s p).0 ≡ m)
      × Represents (take_msg s p).1 (update box s ms) (suc free)
      × SameUse p (take_msg s p).1
unfolding take_msg
take_msg-Represents s m ms p box free rp lt al b =
    let (ys, h, first, later) = first_node p box free s rp lt al m ms (rp.lists s) refl b in
    let e = p.porttab s in
    let (li, ta) = rp.rep.port s lt al in
    let left =
      taken-Linked p.node e e.pthead ys (subst NoRepeat h (rp.rep.distinct s (omega (arith, lt))))
        (subst (Linked p.node e.pthead) h li) (ta ∙ ap (last_or 0) h) in
    let stays : (taken p.node e).ptstate ≡ e.ptstate = taken-state p.node e in
    (
      first,
      record {
        lists = _;
        place = _;
        rep =
            after_move-IsRep p rp.lists rp.place s e.pthead [] ys (taken p.node e) rp.rep lt al h
              (λ a. left) (λ a. absurd (true≢false (sym al ∙ ap is_alloc (sym stays) ∙ a)));
        contents =
            after_move-msgs p rp.lists rp.place s e.pthead [] ys (taken p.node e) rp.rep lt al h
              (λ a. left) (λ a. absurd (true≢false (sym al ∙ ap is_alloc (sym stays) ∙ a))) box ms
              rp.contents later;
        room = ap suc rp.room;
      },
      set_entry-SameUse p (take_msg s p).1 s (taken p.node e) refl (taken-same p.node e),
    )

-- The disposal function gets the messages in their order.
pub dispose_all_lem :
    (node : ℕ → Ptnode) (n h : ℕ) (xs : List ℕ)
    → Linked node h xs
    → length xs < n
    → dispose_all n h node ≡ some (msgs node xs)
unfolding dispose_all
dispose_all_lem node zero h xs l m = absurd (omega (arith, m))
dispose_all_lem node (suc n) h [] l m = rw l refl
dispose_all_lem node (suc n) h (x ∷ xs) (a, b, c) m =
    let rest : dispose_all n (node x).ptnext node ≡ some (msgs node xs) =
      dispose_all_lem node n (node x).ptnext xs c (omega (arith, m)) in
    subst (λ k. dispose_all (suc n) k node ≡ some (msgs node (x ∷ xs))) (sym a)
      (rw (==_ne x 0 b, rest) refl)

drop_msgs-none : (s : ℕ) (p : Ports) → (p.porttab s).pthead ≡ 0 → drop_msgs s p ≡ p
unfolding drop_msgs
drop_msgs-none s p h = rw h refl

drop_msgs-some :
    (s x : ℕ) (xs : List ℕ) (p : Ports)
    → (p.porttab s).pthead ≡ x
    → x ≢ 0
    → (p.porttab s).pttail ≡ last_or x xs
    → drop_msgs s p ≡ record p { node = set_ptnext (last_or x xs) p.ptfree p.node; ptfree = x }
unfolding drop_msgs
drop_msgs-some s x xs p h z t = rw (h, ==_ne x 0 z, t) refl

-- What _ptclear() leaves of a port's messages, when its entry becomes `e'`.
pub drop_msgs-Represents :
    (s : ℕ) (e' : Ptentry) (p : Ports) (box : ℕ → List ℕ) (free : ℕ)
    → Represents p box free
    → s < nports
    → is_alloc ((p.porttab s).ptstate) ≡ true
    → (is_alloc e'.ptstate ≡ true → (e'.pthead ≡ 0) × (e'.pttail ≡ 0))
    → Represents (set_entry s e' (drop_msgs s p)) (update box s []) (length (box s) + free)
drop_msgs-Represents s e' p box free rp lt al null = drops (rp.lists s) refl
  where
    size : length (rp.lists s) ≡ length (box s)
    size = sym (length-msgs p.node (rp.lists s)) ∙ ap (length {A = ℕ}) (rp.contents s lt)

    drops :
        (xs : List ℕ)
        → rp.lists s ≡ xs
        → Represents (set_entry s e' (drop_msgs s p)) (update box s []) (length (box s) + free)
    drops [] h =
        let none_waits : 0 ≡ length (box s) = sym (ap (length {A = ℕ}) h) ∙ size in
        let null_head : (p.porttab s).pthead ≡ 0 =
          subst (Linked p.node (p.porttab s).pthead) h (rp.rep.port s lt al).0 in
        let same_room : free ≡ length (box s) + free = omega (arith, none_waits) in
        subst (Represents (set_entry s e' (drop_msgs s p)) (update box s [])) same_room
          (rw (drop_msgs-none s p null_head) (set_entry-Represents p box free s e' rp lt h null))
    drops (x ∷ xs) h =
        let (li, ta) = rp.rep.port s lt al in
        let (a, b, c) = subst (Linked p.node (p.porttab s).pthead) h li in
        let all : rp.lists s ≡ x ∷ xs ++ [] = h ∙ sym (append-nil (x ∷ xs)) in
        rw (drop_msgs-some s x xs p a b (ta ∙ ap (last_or 0) h)) record {
          lists = _;
          place = _;
          rep = after_move-IsRep p rp.lists rp.place s x xs [] e' rp.rep lt al all null (λ q. refl);
          contents =
              after_move-msgs p rp.lists rp.place s x xs [] e' rp.rep lt al all null (λ q. refl) box
                [] rp.contents refl;
          room =
              length-append (x ∷ xs) (rp.lists nports)
              ∙ (λ i. (ap (length {A = ℕ}) (sym h) ∙ size) i + rp.room i);
        }
