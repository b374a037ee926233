-- ===== src/Queues/Chain.antt =====
-- Queues as doubly linked chains of the table, and what linking and unlinking do to them.
use operating_systems_paging.Prelude.{
  ℕ, ◌≡◌, sym, ap, ◌∙◌, inl, inr, true, false, List, [], ◌∷◌, ◌++◌, arith, ◌==◌, Bool-cases,
  contains, NoRepeat, head_or, last_or, contains-append, true≢false, ==→≡,
}
use operating_systems_paging.Queues.{Queuetab, link, getitem, set_qnext, set_qprev}

-- The entries `xs` are linked both ways, between `p` and `n`.
abbrev pub Chain : Queuetab → ℕ → List ℕ → ℕ → Type 0
Chain t p [] n = ((t p).qnext ≡ n) × ((t n).qprev ≡ p)
Chain t p (x ∷ xs) n = ((t p).qnext ≡ x) × ((t x).qprev ≡ p) × Chain t x xs n

pub Chain-split :
    (t : Queuetab) (p : ℕ) (xs : List ℕ) (a : ℕ) (ys : List ℕ) (n : ℕ)
    → Chain t p (xs ++ a ∷ ys) n
    → Chain t p xs a × Chain t a ys n
Chain-split t p [] a ys n (h, k, l) = ((h, k), l)
Chain-split t p (x ∷ xs) a ys n (h, k, l) =
    let (u, v) = Chain-split t x xs a ys n l in ((h, k, u), v)

pub Chain-join :
    (t : Queuetab) (p : ℕ) (xs : List ℕ) (a : ℕ) (ys : List ℕ) (n : ℕ)
    → Chain t p xs a
    → Chain t a ys n
    → Chain t p (xs ++ a ∷ ys) n
Chain-join t p [] a ys n (h, k) v = (h, k, v)
Chain-join t p (x ∷ xs) a ys n (h, k, l) v = (h, k, Chain-join t x xs a ys n l v)

-- A chain stands as long as the links inside it do.
pub Chain-same :
    (t u : Queuetab) (p : ℕ) (xs : List ℕ) (n : ℕ)
    → ((x : ℕ) → contains x (p ∷ xs) ≡ true → (u x).qnext ≡ (t x).qnext)
    → ((x : ℕ) → contains x (n ∷ xs) ≡ true → (u x).qprev ≡ (t x).qprev)
    → Chain t p xs n
    → Chain u p xs n
Chain-same t u p [] n f g (h, k) = (f p (ground arith) ∙ h, g n (ground arith) ∙ k)
Chain-same t u p (x ∷ xs) n f g (h, k, l) = (
  f p (ground arith) ∙ h,
  g x (ground arith) ∙ k,
  Chain-same t u x xs n (λ y e. f y (ground arith)) (λ y e. g y (ground arith)) l,
)

-- Linking `pid`, which is not in the chain, in after its first end.
link-front :
    (t : Queuetab) (p : ℕ) (xs : List ℕ) (n pid : ℕ)
    → contains pid (p ∷ n ∷ xs) ≡ false
    → contains n (p ∷ xs) ≡ false
    → NoRepeat (p ∷ xs)
    → Chain t p xs n
    → Chain (link pid p (head_or xs n) t) p (pid ∷ xs) n
link-front t p [] n pid e f r (h, k) = ground arith
link-front t p (x ∷ xs) n pid e f r (h, k, l) = (
  ground arith,
  ground arith,
  (
    ground arith,
    ground arith,
    Chain-same t (link pid p x t) x xs n (λ y c. ground arith) (λ y c. ground arith) l,
  ),
)

pub last_in : (x : ℕ) (xs : List ℕ) → contains (last_or x xs) (x ∷ xs) ≡ true
last_in x [] = ground arith
last_in x (y ∷ ys) = ground (arith, last_in y ys)

pub head_in : (ys : List ℕ) (n : ℕ) → contains (head_or ys n) (n ∷ ys) ≡ true
head_in [] n = ground arith
head_in (y ∷ ys) n = ground arith

-- What is not in a list differs from what is.
pub absent_ne :
    (a b : ℕ) (xs : List ℕ) → contains a xs ≡ false → contains b xs ≡ true → (a == b) ≡ false
absent_ne a b xs h k = elim (Bool-cases (a == b)) [
  | inl e ↦ absurd (true≢false (sym k ∙ ap (λ x. contains x xs) (sym (==→≡ a b e)) ∙ h))
  | inr e ↦ e
]

pub absent_left :
    (a : ℕ) (xs ys : List ℕ)
    → contains a (xs ++ ys) ≡ false
    → (contains a xs ≡ false) × (contains a ys ≡ false)
absent_left a xs ys h = ground (arith, contains-append a xs ys)

-- Linking `pid` in anywhere in the chain.
pub link-Chain :
    (t : Queuetab) (p : ℕ) (xs ys : List ℕ) (n pid : ℕ)
    → contains pid (p ∷ n ∷ xs ++ ys) ≡ false
    → contains n (p ∷ xs ++ ys) ≡ false
    → NoRepeat (p ∷ xs ++ ys)
    → Chain t p (xs ++ ys) n
    → Chain (link pid (last_or p xs) (head_or ys n) t) p (xs ++ pid ∷ ys) n
link-Chain t p [] ys n pid e f r c = link-front t p ys n pid e f r c
link-Chain t p (x ∷ xs) ys n pid e f r (h, k, l) = (
  ground (arith, last_apart),
  ground (arith, head_apart),
  link-Chain t x xs ys n pid (ground arith) (ground arith) r.1 l,
)
  where
    last_apart : (p == last_or x xs) ≡ false
    last_apart =
        absent_ne p (last_or x xs) (x ∷ xs) ((absent_left p (x ∷ xs) ys r.0).0) (last_in x xs)

    head_apart : (x == head_or ys n) ≡ false
    head_apart =
        absent_ne x (head_or ys n) (n ∷ ys) (ground (arith, absent_left x xs ys r.1.0))
          (head_in ys n)

abbrev bridge : ℕ → ℕ → Queuetab → Queuetab
bridge prev next t = set_qprev next prev (set_qnext prev next t)

bridge-front :
    (t : Queuetab) (p x : ℕ) (ys : List ℕ) (n : ℕ)
    → contains n (p ∷ x ∷ ys) ≡ false
    → NoRepeat (p ∷ x ∷ ys)
    → Chain t p (x ∷ ys) n
    → Chain (bridge p (head_or ys n) t) p ys n
bridge-front t p x [] n f r (h, k, l) = ground arith
bridge-front t p x (y ∷ ys) n f (r, (q, s)) (h, k, (a, b, c)) = (
  ground arith,
  ground arith,
  Chain-same t (bridge p y t) y ys n (λ z e. ground arith) (λ z e. ground arith) c,
)

bridge-Chain :
    (t : Queuetab) (p : ℕ) (xs : List ℕ) (x : ℕ) (ys : List ℕ) (n : ℕ)
    → contains n (p ∷ xs ++ x ∷ ys) ≡ false
    → NoRepeat (p ∷ xs ++ x ∷ ys)
    → Chain t p (xs ++ x ∷ ys) n
    → Chain (bridge (last_or p xs) (head_or ys n) t) p (xs ++ ys) n
bridge-Chain t p [] x ys n f r c = bridge-front t p x ys n f r c
bridge-Chain t p (z ∷ zs) x ys n f r (h, k, l) = (
  ground (arith, last_apart),
  ground (arith, head_apart),
  bridge-Chain t z zs x ys n (ground arith) r.1 l,
)
  where
    last_apart : (p == last_or z zs) ≡ false
    last_apart =
        absent_ne p (last_or z zs) (z ∷ zs) ((absent_left p (z ∷ zs) (x ∷ ys) r.0).0) (last_in z zs)

    head_apart : (z == head_or ys n) ≡ false
    head_apart =
        absent_ne z (head_or ys n) (n ∷ ys) (ground (arith, absent_left z zs (x ∷ ys) r.1.0))
          (head_in ys n)

-- where an entry of the chain points
pub links_of :
    (t : Queuetab) (p : ℕ) (xs : List ℕ) (x : ℕ) (ys : List ℕ) (n : ℕ)
    → Chain t p (xs ++ x ∷ ys) n
    → ((t x).qprev ≡ last_or p xs) × ((t x).qnext ≡ head_or ys n)
links_of t p [] x [] n (h, k, (a, b)) = (k, a)
links_of t p [] x (y ∷ ys) n (h, k, (a, b, c)) = (k, a)
links_of t p (z ∷ zs) x ys n (h, k, l) = links_of t z zs x ys n l

-- getitem() of an entry of the chain.
pub getitem-Chain :
    (t : Queuetab) (p : ℕ) (xs : List ℕ) (x : ℕ) (ys : List ℕ) (n : ℕ)
    → contains n (p ∷ xs ++ x ∷ ys) ≡ false
    → NoRepeat (p ∷ xs ++ x ∷ ys)
    → Chain t p (xs ++ x ∷ ys) n
    → Chain (getitem x t) p (xs ++ ys) n
unfolding getitem
getitem-Chain t p xs x ys n f r c =
    let (a, b) = links_of t p xs x ys n c in rw (a, b) (bridge-Chain t p xs x ys n f r c)
