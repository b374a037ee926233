-- ===== src/Ports/Fifo.antt =====
-- The lists of nodes once ptsend() has taken a free node and linked it behind those of a port.
use mathlib.Core.Path.{subst}
use operating_systems_paging.Prelude.{
  ℕ, ◌≤◌, ◌<◌, ◌≡◌, ◌≢◌, ◌⊎◌, refl, sym, ap, ◌∙◌, inl, inr, true, false, true≢false, List, [], ◌∷◌,
  ◌++◌, arith, ◌==◌, ==→≡, ==_refl, ==_ne, Bool-cases, update, contains, contains-append, NoRepeat,
  NoRepeat-append, last_or, last_or-append,
}
use operating_systems_paging.Ports.{Ports, Ptnode, Ptentry, nports, is_alloc, set_entry}
use operating_systems_paging.Ports.Chain.{Linked, Linked-same}
use operating_systems_paging.Ports.Rep.{
  IsRep, IsRep-apart, SameUse, set_entry-SameUse, contains_ne, msgs, msgs-same, msgs-append,
}

-- The first free node `f`, with the message, has been linked behind the nodes `xs` of the port.
pub record Put (node node' : ℕ → Ptnode) (f msg : ℕ) (xs : List ℕ) (e : Ptentry) (e' : Ptentry)
    : Type 0 where
  pub linked : Linked node' e'.pthead (xs ++ f ∷ [])
  pub tail : e'.pttail ≡ f
  pub state : e'.ptstate ≡ e.ptstate
  pub use_same : e' ≡ record e { pthead = e'.pthead; pttail = e'.pttail }
  pub next : (y : ℕ) → (f == y) ≡ false → contains y xs ≡ false → (node' y).ptnext ≡ (node y).ptnext
  pub kept : (y : ℕ) → (f == y) ≡ false → (node' y).ptmsg ≡ (node y).ptmsg
  pub new : (node' f).ptmsg ≡ msg

module _ (p : Ports) (lists : ℕ → List ℕ) (place : ℕ → ℕ) (s f msg : ℕ) (fs : List ℕ)
    (r : IsRep p lists place) (lt : s < nports) (al : is_alloc ((p.porttab s).ptstate) ≡ true)
    (h : lists nports ≡ f ∷ fs) where
  f_free : contains f (lists nports) ≡ true
  f_free = ap (contains f) h ∙ ground (arith, ==_refl f)

  pub f_new : (i : ℕ) → i < nports → contains f (lists i) ≡ false
  f_new i l =
      IsRep-apart p lists place r nports i f (omega arith) (omega (arith, l))
        (==_ne nports i (λ e. omega (arith, e, l))) f_free

  fs_apart : (i y : ℕ) → i < nports → contains y (lists i) ≡ true → contains y fs ≡ false
  fs_apart i y l m = ground (
    arith,
    ap (contains y) h,
    IsRep-apart p lists place r i nports y (omega (arith, l)) (omega arith)
        (==_ne i nports (λ e. omega (arith, e, l))) m,
  )

  pub fs_distinct : (contains f fs ≡ false) × NoRepeat fs
  fs_distinct = subst NoRepeat h (r.distinct nports (omega arith))

  pub free_linked : (p.ptfree ≡ f) × (f ≢ 0) × Linked p.node (p.node f).ptnext fs
  free_linked = subst (Linked p.node p.ptfree) h r.free

  abbrev pub put_lists : ℕ → List ℕ
  put_lists = update (update lists nports fs) s (lists s ++ f ∷ [])

  module _ (node' : ℕ → Ptnode) (e' : Ptentry)
      (u : Put p.node node' f msg (lists s) (p.porttab s) e') where
    -- the state afterwards
    abbrev pub after_put : Ports
    after_put = set_entry s e' (record p { ptfree = (p.node f).ptnext; node = node' })

    pub here : put_lists s ≡ lists s ++ f ∷ []
    here = rw (==_refl s) refl

    pub spare : put_lists nports ≡ fs
    spare = rw (==_ne s nports (λ e. omega (arith, lt, e))) refl

    pub elsewhere : (i : ℕ) → (s == i) ≡ false → (nports == i) ≡ false → put_lists i ≡ lists i
    elsewhere i a b = rw (a, b) refl

    was_here :
        (x : ℕ) → contains x (put_lists s) ≡ true → ((f == x) ≡ false) → contains x (lists s) ≡ true
    was_here x m q =
        ground (arith, contains-append x (lists s) (f ∷ []), ap (contains x) here, m, q)

    was_spare :
        (x : ℕ)
        → contains x (put_lists nports) ≡ true
        → ((f == x) ≡ false) × (contains x (lists nports) ≡ true)
    was_spare x m =
        let m' : contains x fs ≡ true = sym (ap (contains x) spare) ∙ m in
        (contains_ne f x fs fs_distinct.0 m', ground (arith, ap (contains x) h, m'))

    was_else :
        (i x : ℕ)
        → i ≤ nports
        → (s == i) ≡ false
        → (nports == i) ≡ false
        → contains x (put_lists i) ≡ true
        → ((f == x) ≡ false) × (contains x (lists i) ≡ true)
    was_else i x l e g m =
        let m' : contains x (lists i) ≡ true = sym (ap (contains x) (elsewhere i e g)) ∙ m in
        (contains_ne f x (lists i) (f_new i (ground (arith, l, g))) m', m')

    -- the lists are those of before but for `f`
    was :
        (i x : ℕ)
        → i ≤ nports
        → contains x (put_lists i) ≡ true
        → ((f == x) ≡ true) × (s ≡ i) ⊎ (((f == x) ≡ false) × (contains x (lists i) ≡ true))
    was i x l m = elim (Bool-cases (s == i)) [
      | inl e ↦ elim (Bool-cases (f == x)) [
        | inl q ↦ inl (q, ==→≡ s i e)
        | inr q ↦ inr (
          q,
          subst (λ j. contains x (put_lists j) ≡ true → contains x (lists j) ≡ true) (==→≡ s i e)
              (λ a. was_here x a q) m,
        )
      ]
      | inr e ↦ elim (Bool-cases (nports == i)) [
        | inl g ↦ inr (
            subst
              (λ j.
                contains x (put_lists j) ≡ true
                → ((f == x) ≡ false) × (contains x (lists j) ≡ true))
              (==→≡ nports i g) (was_spare x) m)
        | inr g ↦ inr (was_else i x l e g m)
      ]
    ]

    kept_distinct : (i : ℕ) → i ≤ nports → NoRepeat (put_lists i)
    kept_distinct i l = elim (Bool-cases (s == i)) [
      | inl e ↦ rw e (
          NoRepeat-append (lists s) (f ∷ []) (r.distinct s (omega (arith, lt))) (refl, tt)
            (λ y m. ground (arith, contains_ne f y (lists s) (f_new s lt) m)))
      | inr e ↦ elim (Bool-cases (nports == i)) [
        | inl g ↦ rw (e, g) fs_distinct.1
        | inr g ↦ rw (e, g) (r.distinct i l)
      ]
    ]

    other_port :
        (i : ℕ)
        → i < nports
        → (s == i) ≡ false
        → is_alloc ((p.porttab i).ptstate) ≡ true
        → Linked node' ((p.porttab i).pthead) (lists i)
          × ((p.porttab i).pttail ≡ last_or 0 (lists i))
    other_port i l e a =
        let (li, ta) = r.port i l a in
        (
          Linked-same p.node node' (p.porttab i).pthead (lists i)
              (λ y m. u.next y (contains_ne f y (lists i) (f_new i l) m) (
                IsRep-apart p lists place r i s y (omega (arith, l)) (omega (arith, lt))
                  (ground (arith, e)) m))
              li,
          ta,
        )

    fs_apart_here : (y : ℕ) → contains y fs ≡ true → contains y (lists s) ≡ false
    fs_apart_here y m =
        IsRep-apart p lists place r nports s y (omega arith) (omega (arith, lt))
          (==_ne nports s (λ e. omega (arith, e, lt))) (ground (arith, ap (contains y) h, m))

    kept_port :
        (i : ℕ)
        → i < nports
        → is_alloc ((after_put.porttab i).ptstate) ≡ true
        → Linked node' ((after_put.porttab i).pthead) (put_lists i)
          × ((after_put.porttab i).pttail ≡ last_or 0 (put_lists i))
    kept_port i l = elim (Bool-cases (s == i)) [
      | inl e ↦ rw e (λ a. (u.linked, u.tail ∙ sym (last_or-append 0 (lists s) (f ∷ []))))
      | inr e ↦ rw (e, ==_ne nports i (λ q. omega (arith, q, l))) (other_port i l e)
    ]

    kept_unused :
        (i : ℕ) → i < nports → is_alloc ((after_put.porttab i).ptstate) ≡ false → put_lists i ≡ []
    kept_unused i l = elim (Bool-cases (s == i)) [
      | inl e ↦ rw e (λ a. absurd (true≢false (sym al ∙ ap is_alloc (sym u.state) ∙ a)))
      | inr e ↦ rw (e, ==_ne nports i (λ q. omega (arith, q, l))) (λ a. r.unused i l a)
    ]

    pub after_put-IsRep : IsRep after_put put_lists (update place f s)
    after_put-IsRep = record {
      free = rw spare (
          Linked-same p.node node' (p.node f).ptnext fs
            (λ y m. u.next y (contains_ne f y fs fs_distinct.0 m) (fs_apart_here y m))
            free_linked.2);
      port = kept_port;
      unused = kept_unused;
      distinct = kept_distinct;
      placed = λ i x l m. elim (was i x l m) [
        | inl (q, e) ↦ rw q e
        | inr (q, m') ↦ rw q (r.placed i x l m')
      ];
    }

    -- what is in the ports
    pub after_put-msgs :
        (box : ℕ → List ℕ)
        → ((i : ℕ) → i < nports → msgs p.node (lists i) ≡ box i)
        → (i : ℕ) → i < nports
        → msgs node' (put_lists i) ≡ update box s (box s ++ msg ∷ []) i
    after_put-msgs box c i l = elim (Bool-cases (s == i)) [
      | inl e ↦ rw e (
          msgs-append node' (lists s) (f ∷ [])
          ∙ (λ k. same s lt k ++ u.new k ∷ [])
          ∙ ap (λ b. b ++ msg ∷ []) (c s lt))
      | inr e ↦ rw (e, ==_ne nports i (λ q. omega (arith, q, l))) (same i l ∙ c i l)
    ]
      where
        same : (j : ℕ) → j < nports → msgs node' (lists j) ≡ msgs p.node (lists j)
        same j m =
            msgs-same p.node node' (lists j)
              (λ y n. u.kept y (contains_ne f y (lists j) (f_new j m) n))

    pub after_put-SameUse : SameUse p after_put
    after_put-SameUse = set_entry-SameUse p after_put s e' refl u.use_same
