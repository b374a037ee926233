-- ===== src/Frames/Links.antt =====
-- Doubly linked lists in the frame table.
use operating_systems_paging.Prelude.{ℕ, ◌≡◌, false, List, [], ◌∷◌, ◌++◌, arith, update}
use operating_systems_paging.Frames.{Frame, set_next, set_prev}
use operating_systems_paging.Prelude.{head_or, last_or, contains, head_or-append}

-- The frames `xs` are linked both ways; `p` stands before the first and `n` after the last.
abbrev pub Links : (ℕ → Frame) → ℕ → List ℕ → ℕ → Type 0
Links t p [] n = Unit
Links t p (x ∷ xs) n = ((t x).prev_frame ≡ p) × ((t x).next_frame ≡ head_or xs n) × Links t x xs n

pub Links-split :
    (t : ℕ → Frame) (p : ℕ) (xs ys : List ℕ) (n : ℕ)
    → Links t p (xs ++ ys) n
    → Links t p xs (head_or ys n) × Links t (last_or p xs) ys n
Links-split t p [] ys n h = (tt, h)
Links-split t p (x ∷ xs) ys n (a, b, c) =
    let (l, r) = Links-split t x xs ys n c in ((a, rw (head_or-append xs ys n) at b, l), r)

pub Links-append :
    (t : ℕ → Frame) (p : ℕ) (xs ys : List ℕ) (n : ℕ)
    → Links t p xs (head_or ys n)
    → Links t (last_or p xs) ys n
    → Links t p (xs ++ ys) n
Links-append t p [] ys n l r = r
Links-append t p (x ∷ xs) ys n (a, b, c) r =
    (a, rw (head_or-append xs ys n) b, Links-append t x xs ys n c r)

-- A write to a frame outside the list leaves it alone.
pub Links-update :
    (t : ℕ → Frame) (p : ℕ) (xs : List ℕ) (n a : ℕ) (f : Frame)
    → contains a xs ≡ false
    → Links t p xs n
    → Links (update t a f) p xs n
Links-update t p [] n a f e h = tt
Links-update t p (x ∷ xs) n a f e (b, c, d) =
    let e' : contains a xs ≡ false = ground arith in
    (ground arith, ground arith, Links-update t x xs n a f e' d)

pub Links-set_prev :
    (t : ℕ → Frame) (p p' x : ℕ) (xs : List ℕ) (n : ℕ)
    → contains x xs ≡ false
    → Links t p (x ∷ xs) n
    → Links (set_prev x p' t) p' (x ∷ xs) n
Links-set_prev t p p' x xs n e (b, c, d) =
    (ground arith, ground arith, Links-update t x xs n x _ e d)

pub Links-set_next :
    (t : ℕ → Frame) (p : ℕ) (xs : List ℕ) (a n n' : ℕ)
    → contains a xs ≡ false
    → Links t p (xs ++ a ∷ []) n
    → Links (set_next a n' t) p (xs ++ a ∷ []) n'
Links-set_next t p [] a n n' e (b, c, d) = (ground arith, ground arith, tt)
Links-set_next t p (x ∷ xs) a n n' e (b, c, d) =
    let e' : contains a xs ≡ false = ground arith in
    (
      ground arith,
      ground (arith, head_or-append xs (a ∷ []) n, head_or-append xs (a ∷ []) n'),
      Links-set_next t x xs a n n' e' d,
    )
