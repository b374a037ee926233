-- ===== src/Ports/Chain.antt =====
-- Lists of message nodes that end in NULL.
use operating_systems_paging.Prelude.{
  ℕ, zero, suc, ◌+◌, ◌<◌, ◌≡◌, ◌≢◌, refl, sym, ap, ◌∙◌, inl, inr, true, false, true≢false, List, [],
  ◌∷◌, ◌++◌, arith, ◌==◌, ==→≡, ==_refl, ==_ne, Bool-cases, contains, NoRepeat, Apart, last_or,
}
use operating_systems_paging.Ports.{Ptnode, set_ptnext, link_free}

-- From `h` the pointers lead through the nodes `xs` to NULL.
abbrev pub Linked : (ℕ → Ptnode) → ℕ → List ℕ → Type 0
Linked node h [] = h ≡ 0
Linked node h (x ∷ xs) = (h ≡ x) × (x ≢ 0) × Linked node (node x).ptnext xs

pub Linked-same :
    (node node' : ℕ → Ptnode) (h : ℕ) (xs : List ℕ)
    → ((y : ℕ) → contains y xs ≡ true → (node' y).ptnext ≡ (node y).ptnext)
    → Linked node h xs
    → Linked node' h xs
Linked-same node node' h [] e l = l
Linked-same node node' h (x ∷ xs) e (a, b, c) = (
  a,
  b,
  rw (e x (ground (arith, ==_refl x)))
      (Linked-same node node' (node x).ptnext xs (λ y m. e y (ground arith)) c),
)

-- The last node of a list is in it.
pub last_or-contains : (x : ℕ) (xs : List ℕ) → contains (last_or x xs) (x ∷ xs) ≡ true
last_or-contains x [] = ground (arith, ==_refl x)
last_or-contains x (y ∷ ys) = ground (arith, last_or-contains y ys)

pub set_ptnext-ptmsg :
    (a next y : ℕ) (node : ℕ → Ptnode) → (set_ptnext a next node y).ptmsg ≡ (node y).ptmsg
set_ptnext-ptmsg a next y node = elim (Bool-cases (a == y)) [
  | inl e ↦ rw e (ap (λ z. (node z).ptmsg) (==→≡ a y e))
  | inr e ↦ rw e refl
]

-- The last of the first nodes of a list is made to point to another list.
pub Linked-append :
    (node : ℕ → Ptnode) (h f x : ℕ) (xs vs ys : List ℕ)
    → NoRepeat (x ∷ xs)
    → Apart (x ∷ xs) ys
    → Linked node h (x ∷ xs ++ vs)
    → Linked node f ys
    → Linked (set_ptnext (last_or x xs) f node) h (x ∷ xs ++ ys)
Linked-append node h f x [] vs ys r d (a, b, c) l = (
  a,
  b,
  rw (==_refl x) (Linked-same node (set_ptnext x f node) f ys (λ y m. ground (arith, d y)) l),
)
Linked-append node h f x (z ∷ zs) vs ys (n, r) d (a, b, c) l = (
  a,
  b,
  rw (last_ne) (Linked-append node (node x).ptnext f z zs vs ys r (λ y m. d y (ground arith)) c l),
)
  where
    last_ne : (last_or z zs == x) ≡ false
    last_ne = elim (Bool-cases (last_or z zs == x)) [
      | inl e ↦ absurd (
          true≢false (
            sym (last_or-contains z zs)
            ∙ ap (λ w. contains w (z ∷ zs)) (==→≡ (last_or z zs) x e)
            ∙ n))
      | inr e ↦ e
    ]

-- A list that is not empty ends in a node.
pub last_ne_zero :
    (node : ℕ → Ptnode) (h x : ℕ) (xs : List ℕ) → Linked node h (x ∷ xs) → last_or x xs ≢ 0
last_ne_zero node h x [] (a, b, c) = b
last_ne_zero node h x (z ∷ zs) (a, b, c) = last_ne_zero node (node x).ptnext z zs c

-- the addresses of `n` nodes from `a` on
abbrev pub nodes : ℕ → ℕ → List ℕ
nodes zero a = []
nodes (suc n) a = a ∷ nodes n (a + 8)

pub nodes_above : (n a b : ℕ) → b < a → contains b (nodes n a) ≡ false
nodes_above zero a b h = refl
nodes_above (suc n) a b h = ground (arith, nodes_above n (a + 8) b (omega (arith, h)))

pub nodes-NoRepeat : (n a : ℕ) → NoRepeat (nodes n a)
nodes-NoRepeat zero a = tt
nodes-NoRepeat (suc n) a = (nodes_above n (a + 8) a (omega arith), nodes-NoRepeat n (a + 8))

link_free-same :
    (n a y : ℕ) (node : ℕ → Ptnode) → y < a → (link_free n a node y).ptnext ≡ (node y).ptnext
unfolding link_free
link_free-same zero a y node h = rw (==_ne a y (λ e. omega (arith, e, h))) refl
link_free-same (suc n) a y node h =
    link_free-same n (a + 8) y (set_ptnext a (a + 8) node) (omega (arith, h))
    ∙ rw (==_ne a y (λ e. omega (arith, e, h))) refl

-- The loop of ptinit() links the nodes in the order of their addresses.
pub link_free-Linked :
    (n a : ℕ) (node : ℕ → Ptnode) → a ≢ 0 → Linked (link_free n a node) a (nodes (suc n) a)
unfolding link_free
link_free-Linked zero a node h = (refl, h, rw (==_refl a) refl)
link_free-Linked (suc n) a node h = (
  refl,
  h,
  rw (link_free-same n (a + 8) a (set_ptnext a (a + 8) node) (omega arith), ==_refl a)
      (link_free-Linked n (a + 8) (set_ptnext a (a + 8) node) (λ e. omega (arith, e))),
)
