-- ===== src/Ports/Move.antt =====
-- The lists of nodes once the first nodes of a port, one in ptrecv() and all in _ptclear(), have been linked
-- before the free nodes.
use mathlib.Core.Path.{subst}
use operating_systems_paging.Prelude.{
  ℕ, ◌≤◌, ◌<◌, ◌≡◌, refl, sym, ap, ◌∙◌, inl, inr, true, false, true≢false, List, [], ◌∷◌, ◌++◌,
  arith, ◌==◌, ==→≡, ==_refl, ==_ne, Bool-cases, update, if◌then◌else◌, contains, contains-append,
  NoRepeat, NoRepeat-append, NoRepeat-split, Apart, last_or,
}
use operating_systems_paging.Ports.{Ports, Ptentry, nports, is_alloc, set_ptnext, set_entry}
use operating_systems_paging.Ports.Chain.{
  Linked, Linked-same, Linked-append, last_or-contains, set_ptnext-ptmsg,
}
use operating_systems_paging.Ports.Rep.{IsRep, IsRep-apart, contains_ne, msgs, msgs-same}

module _ (p : Ports) (lists : ℕ → List ℕ) (place : ℕ → ℕ) (s x : ℕ) (xs ys : List ℕ) (e' : Ptentry)
    (r : IsRep p lists place) (lt : s < nports) (al : is_alloc ((p.porttab s).ptstate) ≡ true)
    (h : lists s ≡ x ∷ xs ++ ys)
    (linked : is_alloc e'.ptstate ≡ true → Linked p.node e'.pthead ys × (e'.pttail ≡ last_or 0 ys))
    (none_left : is_alloc e'.ptstate ≡ false → ys ≡ []) where
  abbrev pub move_lists : ℕ → List ℕ
  move_lists = update (update lists s ys) nports (x ∷ xs ++ lists nports)

  abbrev pub move_place : ℕ → ℕ
  move_place y = if contains y (x ∷ xs) then nports else place y

  abbrev pub after_move : Ports
  after_move =
      set_entry s e' (record p { node = set_ptnext (last_or x xs) p.ptfree p.node; ptfree = x })

  parts : NoRepeat (x ∷ xs) × NoRepeat ys × Apart (x ∷ xs) ys
  parts = NoRepeat-split (x ∷ xs) ys (subst NoRepeat h (r.distinct s (omega (arith, lt))))

  pub moved_here : move_lists s ≡ ys
  moved_here = rw (==_ne nports s (λ e. omega (arith, lt, e)), ==_refl s) refl

  moved_else : (i : ℕ) → (s == i) ≡ false → (nports == i) ≡ false → move_lists i ≡ lists i
  moved_else i a b = rw (a, b) refl

  from_here : (y : ℕ) → contains y (x ∷ xs) ≡ true → contains y (lists s) ≡ true
  from_here y m = ap (contains y) h ∙ ground (arith, contains-append y (x ∷ xs) ys)

  stay_here : (y : ℕ) → contains y ys ≡ true → contains y (lists s) ≡ true
  stay_here y m =
      ap (contains y) h
      ∙ ground
          (arith, contains-append y (x ∷ xs) ys, Bool-cases (contains y xs), Bool-cases (y == x))

  -- The nodes that move are in no other list.
  apart :
      (i y : ℕ)
      → i ≤ nports
      → (s == i) ≡ false
      → contains y (lists i) ≡ true
      → contains y (x ∷ xs) ≡ false
  apart i y l e m = elim (Bool-cases (contains y (x ∷ xs))) [
    | inl q ↦ absurd (
        true≢false (
          sym (from_here y q)
          ∙ IsRep-apart p lists place r i s y l (omega (arith, lt)) (ground (arith, e)) m))
    | inr q ↦ q
  ]

  apart_left : (y : ℕ) → contains y ys ≡ true → contains y (x ∷ xs) ≡ false
  apart_left y m = elim (Bool-cases (contains y (x ∷ xs))) [
    | inl q ↦ absurd (true≢false (sym m ∙ parts.2 y q))
    | inr q ↦ q
  ]

  apart_free : Apart (x ∷ xs) (lists nports)
  apart_free y m =
      IsRep-apart p lists place r s nports y (omega (arith, lt)) (omega arith)
        (==_ne s nports (λ e. omega (arith, e, lt))) (from_here y m)

  whole : Linked p.node x (x ∷ xs ++ ys)
  whole =
      let (a, b, c) = subst (Linked p.node (p.porttab s).pthead) h (r.port s lt al).0 in
      (refl, b, c)

  next_same :
      (zs : List ℕ) (hd : ℕ)
      → ((y : ℕ) → contains y zs ≡ true → contains y (x ∷ xs) ≡ false)
      → Linked p.node hd zs
      → Linked (set_ptnext (last_or x xs) p.ptfree p.node) hd zs
  next_same zs hd a l =
      Linked-same p.node (set_ptnext (last_or x xs) p.ptfree p.node) hd zs
        (λ y m. rw (last_ne y (a y m)) refl) l
    where
      last_ne : (y : ℕ) → contains y (x ∷ xs) ≡ false → (last_or x xs == y) ≡ false
      last_ne y b = ground (arith, contains_ne y (last_or x xs) (x ∷ xs) b (last_or-contains x xs))

  moved_port :
      (i : ℕ)
      → i < nports
      → is_alloc ((after_move.porttab i).ptstate) ≡ true
      → Linked after_move.node ((after_move.porttab i).pthead) (move_lists i)
        × ((after_move.porttab i).pttail ≡ last_or 0 (move_lists i))
  moved_port i l = elim (Bool-cases (s == i)) [
    | inl e ↦
        rw (e, ==_ne nports i (λ q. omega (arith, q, l)))
          (λ a. let (li, ta) = linked a in (next_same ys e'.pthead (λ y m. apart_left y m) li, ta))
    | inr e ↦
        rw (e, ==_ne nports i (λ q. omega (arith, q, l)))
          (λ a.
            let (li, ta) = r.port i l a in
            (next_same (lists i) (p.porttab i).pthead (λ y. apart i y (omega (arith, l)) e) li, ta))
  ]

  moved_unused :
      (i : ℕ) → i < nports → is_alloc ((after_move.porttab i).ptstate) ≡ false → move_lists i ≡ []
  moved_unused i l = elim (Bool-cases (s == i)) [
    | inl e ↦ rw (e, ==_ne nports i (λ q. omega (arith, q, l))) none_left
    | inr e ↦ rw (e, ==_ne nports i (λ q. omega (arith, q, l))) (r.unused i l)
  ]

  moved_distinct : (i : ℕ) → i ≤ nports → NoRepeat (move_lists i)
  moved_distinct i l = elim (Bool-cases (nports == i)) [
    | inl g ↦ rw g (
        NoRepeat-append (x ∷ xs) (lists nports) parts.0 (r.distinct nports (omega arith))
          (λ y m. apart_free y m))
    | inr g ↦ elim (Bool-cases (s == i)) [
      | inl e ↦ rw (g, e) parts.1
      | inr e ↦ rw (g, e) (r.distinct i l)
    ]
  ]

  moved_placed : (i y : ℕ) → i ≤ nports → contains y (move_lists i) ≡ true → move_place y ≡ i
  moved_placed i y l = elim (Bool-cases (nports == i)) [
    | inl g ↦ rw g (λ m. elim (Bool-cases (contains y (x ∷ xs))) [
      | inl q ↦ rw q (==→≡ nports i g)
      | inr q ↦ rw q (
          r.placed nports y (omega arith)
            (ground (arith, contains-append y (x ∷ xs) (lists nports), m, q))
          ∙ ==→≡ nports i g)
    ])
    | inr g ↦ elim (Bool-cases (s == i)) [
      | inl e ↦
          rw (g, e)
            (λ m.
              rw (apart_left y m) (r.placed s y (omega (arith, lt)) (stay_here y m) ∙ ==→≡ s i e))
      | inr e ↦ rw (g, e) (λ m. rw (apart i y l e m) (r.placed i y l m))
    ]
  ]

  pub after_move-IsRep : IsRep after_move move_lists move_place
  after_move-IsRep = record {
    free = Linked-append p.node x p.ptfree x xs ys (lists nports) parts.0 apart_free whole r.free;
    port = moved_port;
    unused = moved_unused;
    distinct = moved_distinct;
    placed = moved_placed;
  }

  pub after_move-msgs :
      (box : ℕ → List ℕ) (ms : List ℕ)
      → ((i : ℕ) → i < nports → msgs p.node (lists i) ≡ box i)
      → msgs p.node ys ≡ ms
      → (i : ℕ) → i < nports
      → msgs after_move.node (move_lists i) ≡ update box s ms i
  after_move-msgs box ms c d i l = elim (Bool-cases (s == i)) [
    | inl e ↦ rw (e, ==_ne nports i (λ q. omega (arith, q, l))) (same ys ∙ d)
    | inr e ↦ rw (e, ==_ne nports i (λ q. omega (arith, q, l))) (same (lists i) ∙ c i l)
  ]
    where
      same : (zs : List ℕ) → msgs after_move.node zs ≡ msgs p.node zs
      same zs =
          msgs-same p.node after_move.node zs
            (λ y m. set_ptnext-ptmsg (last_or x xs) p.ptfree y p.node)
