-- ===== src/Ports/Rep.antt =====
-- What the nodes and the table of ports represent: a queue of messages for each port, and the free nodes.
use mathlib.Core.Path.{subst}
use operating_systems_paging.Prelude.{
  ℕ, zero, suc, ◌+◌, ◌-◌, length, ◌≤◌, ◌<◌, ◌≡◌, ◌≢◌, refl, sym, ap, ◌∙◌, inl, inr, true, false,
  true≢false, List, [], ◌∷◌, ◌++◌, arith, ◌==◌, ==→≡, ==_refl, ==_ne, Bool-cases, update,
  if◌then◌else◌, contains, NoRepeat, last_or, lt→ltb,
}
use operating_systems_paging.Ports.{
  Ports, Ptnode, Ptentry, nports, set_entry, is_alloc, link_free, ptinit,
}
use operating_systems_paging.Ports.Chain.{Linked, nodes, nodes-NoRepeat, link_free-Linked}

-- The nodes of the port `i`, or the free nodes for `i` = NPORTS; `place` says in which list a node is.
pub record IsRep (p : Ports) (lists : ℕ → List ℕ) (place : ℕ → ℕ) : Type 0 where
  pub free : Linked p.node p.ptfree (lists nports)
  pub port :
      (s : ℕ)
      → s < nports
      → is_alloc ((p.porttab s).ptstate) ≡ true
      → Linked p.node ((p.porttab s).pthead) (lists s)
        × ((p.porttab s).pttail ≡ last_or 0 (lists s))
  pub unused : (s : ℕ) → s < nports → is_alloc ((p.porttab s).ptstate) ≡ false → lists s ≡ []
  pub distinct : (i : ℕ) → i ≤ nports → NoRepeat (lists i)
  pub placed : (i x : ℕ) → i ≤ nports → contains x (lists i) ≡ true → place x ≡ i

-- A node of one list is in no other.
pub IsRep-apart :
    (p : Ports) (lists : ℕ → List ℕ) (place : ℕ → ℕ)
    → IsRep p lists place
    → (i j y : ℕ) → i ≤ nports
    → j ≤ nports
    → (i == j) ≡ false
    → contains y (lists i) ≡ true
    → contains y (lists j) ≡ false
IsRep-apart p lists place r i j y l m ne h = elim (Bool-cases (contains y (lists j))) [
  | inl e ↦ absurd (ground (arith, r.placed i y l h, r.placed j y m e, ne))
  | inr e ↦ e
]

-- A node of a list differs from one that is not in the list.
pub contains_ne :
    (f y : ℕ) (xs : List ℕ) → contains f xs ≡ false → contains y xs ≡ true → (f == y) ≡ false
contains_ne f y xs a b = elim (Bool-cases (f == y)) [
  | inl e ↦ absurd (true≢false (sym b ∙ ap (λ z. contains z xs) (sym (==→≡ f y e)) ∙ a))
  | inr e ↦ e
]

-- the messages of a list of nodes
abbrev pub msgs : (ℕ → Ptnode) → List ℕ → List ℕ
msgs node [] = []
msgs node (x ∷ xs) = (node x).ptmsg ∷ msgs node xs

pub msgs-same :
    (node node' : ℕ → Ptnode) (xs : List ℕ)
    → ((y : ℕ) → contains y xs ≡ true → (node' y).ptmsg ≡ (node y).ptmsg)
    → msgs node' xs ≡ msgs node xs
msgs-same node node' [] e = refl
msgs-same node node' (x ∷ xs) e =
    rw (e x (ground (arith, ==_refl x)), msgs-same node node' xs (λ y m. e y (ground arith))) refl

pub length-msgs : (node : ℕ → Ptnode) (xs : List ℕ) → length (msgs node xs) ≡ length xs
length-msgs node [] = refl
length-msgs node (x ∷ xs) = ap suc (length-msgs node xs)

pub msgs-append :
    (node : ℕ → Ptnode) (xs ys : List ℕ) → msgs node (xs ++ ys) ≡ msgs node xs ++ msgs node ys
msgs-append node [] ys = refl
msgs-append node (x ∷ xs) ys = ap (λ l. (node x).ptmsg ∷ l) (msgs-append node xs ys)

-- The ports hold the messages `box`, in order, with `free` nodes to spare.
pub record Represents (p : Ports) (box : ℕ → List ℕ) (free : ℕ) : Type 0 where
  pub lists : ℕ → List ℕ
  pub place : ℕ → ℕ
  pub rep : IsRep p lists place
  pub contents : (s : ℕ) → s < nports → msgs p.node (lists s) ≡ box s
  pub room : length (lists nports) ≡ free

-- No port has changed but for its list of messages.
abbrev pub SameUse : Ports → Ports → Type 0
SameUse p p' =
    (i : ℕ)
    → p'.porttab i
      ≡ record (p.porttab i) { pthead = (p'.porttab i).pthead; pttail = (p'.porttab i).pttail }

pub set_entry-SameUse :
    (p p' : Ports) (s : ℕ) (e' : Ptentry)
    → p'.porttab ≡ update p.porttab s e'
    → e' ≡ record (p.porttab s) { pthead = e'.pthead; pttail = e'.pttail }
    → SameUse p p'
set_entry-SameUse p p' s e' t h i = elim (Bool-cases (s == i)) [
  | inl q ↦
      rw (t, q)
        (subst (λ j. e' ≡ record (p.porttab j) { pthead = e'.pthead; pttail = e'.pttail })
          (==→≡ s i q) h)
  | inr q ↦ rw (t, q) refl
]

-- The entry of a port without messages is written.
pub set_entry-Represents :
    (p : Ports) (box : ℕ → List ℕ) (free s : ℕ) (e' : Ptentry) (rp : Represents p box free)
    → s < nports
    → rp.lists s ≡ []
    → (is_alloc e'.ptstate ≡ true → (e'.pthead ≡ 0) × (e'.pttail ≡ 0))
    → Represents (set_entry s e' p) (update box s []) free
set_entry-Represents p box free s e' rp lt h null = record {
  lists = rp.lists;
  place = rp.place;
  rep = record {
    free = rp.rep.free;
    port = ports;
    unused = λ i l. elim (Bool-cases (s == i)) [
      | inl q ↦ λ a. subst (λ j. rp.lists j ≡ []) (==→≡ s i q) h
      | inr q ↦ rw q (rp.rep.unused i l)
    ];
    distinct = rp.rep.distinct;
    placed = rp.rep.placed;
  };
  contents = λ i l. elim (Bool-cases (s == i)) [
    | inl q ↦ rw q (ap (msgs p.node) (subst (λ j. rp.lists j ≡ []) (==→≡ s i q) h))
    | inr q ↦ rw q (rp.contents i l)
  ];
  room = rp.room;
}
  where
    ports :
        (i : ℕ)
        → i < nports
        → is_alloc (((set_entry s e' p).porttab i).ptstate) ≡ true
        → Linked p.node (((set_entry s e' p).porttab i).pthead) (rp.lists i)
          × (((set_entry s e' p).porttab i).pttail ≡ last_or 0 (rp.lists i))
    ports i l = elim (Bool-cases (s == i)) [
      | inl q ↦ rw (q, sym (==→≡ s i q), h) null
      | inr q ↦ rw q (rp.rep.port i l)
    ]

length-nodes : (n a : ℕ) → length (nodes n a) ≡ n
length-nodes zero a = refl
length-nodes (suc n) a = ap suc (length-nodes n (a + 8))

-- ptinit() with room for `maxmsgs` nodes, at least one, at an address that is not NULL leaves every port
-- without messages and every node free.
pub ptinit-Represents :
    (maxmsgs mem : ℕ) (p : Ports)
    → 0 < maxmsgs
    → mem ≢ 0
    → Represents (ptinit maxmsgs mem p) (λ s. []) maxmsgs
unfolding ptinit
ptinit-Represents maxmsgs mem p h z = record {
  lists = λ i. if i == nports then nodes maxmsgs mem else [];
  place = λ x. nports;
  rep = record {
    free =
        subst (λ n. Linked (link_free (maxmsgs - 1) mem p.node) mem (nodes n mem)) (sym size)
          (link_free-Linked (maxmsgs - 1) mem p.node z);
    port = λ s l e. absurd (true≢false (sym e ∙ rw (lt→ltb s nports l) refl));
    unused = λ s l e. ground arith;
    distinct = λ i l. elim (Bool-cases (i == nports)) [
      | inl e ↦ rw e (nodes-NoRepeat maxmsgs mem)
      | inr e ↦ rw e tt
    ];
    placed = λ i x l e. elim (Bool-cases (i == nports)) [
      | inl f ↦ sym (==→≡ i nports f)
      | inr f ↦ absurd (true≢false (sym (rw f at e)))
    ];
  };
  contents = λ s l. rw (==_ne s nports (λ e. omega (arith, l, e))) refl;
  room = length-nodes maxmsgs mem;
}
  where
    size : maxmsgs ≡ suc (maxmsgs - 1)
    size = omega (arith, h)
