-- ===== src/Prelude/Members.antt =====
-- Lists of numbers: members, repetitions, first and last elements.
use Prim.Native.Nat.{ℕ}
use mathlib.Core.Path.{◌≡◌, refl, sym, ap}
use mathlib.Core.Logic.{◌⊎◌, inl, inr}
use mathlib.Core.Bool.{Bool, true, false, ◌||◌}
use mathlib.Core.List.{List, [], ◌∷◌, ◌++◌}
use native.Mathlib.Omega.{arith}
use operating_systems_paging.Prelude.Tests.{◌==◌, Bool-cases}

abbrev pub head_or : List ℕ → ℕ → ℕ
head_or [] n = n
head_or (x ∷ xs) n = x

abbrev pub last_or : ℕ → List ℕ → ℕ
last_or p [] = p
last_or p (x ∷ xs) = last_or x xs

abbrev pub contains : ℕ → List ℕ → Bool
contains a [] = false
contains a (x ∷ xs) = a == x || contains a xs

abbrev pub NoRepeat : List ℕ → Type 0
NoRepeat [] = Unit
NoRepeat (x ∷ xs) = (contains x xs ≡ false) × NoRepeat xs

pub contains-append :
    (a : ℕ) (xs ys : List ℕ) → contains a (xs ++ ys) ≡ (contains a xs || contains a ys)
contains-append a [] ys = refl
contains-append a (x ∷ xs) ys = ground (arith, contains-append a xs ys)

pub head_or-append : (xs ys : List ℕ) (n : ℕ) → head_or (xs ++ ys) n ≡ head_or xs (head_or ys n)
head_or-append [] ys n = refl
head_or-append (x ∷ xs) ys n = refl

pub last_or-append : (p : ℕ) (xs ys : List ℕ) → last_or p (xs ++ ys) ≡ last_or (last_or p xs) ys
last_or-append p [] ys = refl
last_or-append p (x ∷ xs) ys = last_or-append x xs ys

-- A list is empty or ends in an element.
pub Snoc-cases : (xs : List ℕ) → (xs ≡ []) ⊎ ((ys : List ℕ) × (a : ℕ) × (xs ≡ ys ++ a ∷ []))
Snoc-cases [] = inl refl
Snoc-cases (x ∷ xs) = elim (Snoc-cases xs) [
  | inl e ↦ inr ([], x, rw e)
  | inr (ys, a, e) ↦ inr (x ∷ ys, a, rw e)
]

-- No element stands in both lists.
abbrev pub Apart : List ℕ → List ℕ → Type 0
Apart xs ys = (a : ℕ) → contains a xs ≡ true → contains a ys ≡ false

pub NoRepeat-split :
    (xs ys : List ℕ) → NoRepeat (xs ++ ys) → NoRepeat xs × NoRepeat ys × Apart xs ys
NoRepeat-split [] ys h = (tt, h, λ a e. absurd (cc))
NoRepeat-split (x ∷ xs) ys (f, h) =
    let (p, q, d) = NoRepeat-split xs ys h in
    (
      (ground (arith, contains-append x xs ys), p),
      q,
      λ a e. ground (arith, contains-append x xs ys, d a),
    )

pub NoRepeat-append :
    (xs ys : List ℕ) → NoRepeat xs → NoRepeat ys → Apart xs ys → NoRepeat (xs ++ ys)
NoRepeat-append [] ys p q d = q
NoRepeat-append (x ∷ xs) ys (f, p) q d = (
  ground (arith, contains-append x xs ys, d x),
  NoRepeat-append xs ys p q (λ a e. d a (ground arith)),
)

-- Taking one element out of the middle.
pub NoRepeat-middle :
    (xs : List ℕ) (x : ℕ) (ys : List ℕ)
    → NoRepeat (xs ++ x ∷ ys)
    → (contains x xs ≡ false) × (contains x ys ≡ false) × NoRepeat (xs ++ ys) × Apart xs ys
NoRepeat-middle xs x ys h =
    let (p, q, d) = NoRepeat-split xs (x ∷ ys) h in
    let d' : Apart xs ys = λ a e. ground (arith, d a) in
    (ground (arith, d x, Bool-cases (contains x xs)), q.0, NoRepeat-append xs ys p q.1 d', d')

-- An element that is contained splits the list.
pub contains-split :
    (x : ℕ) (zs : List ℕ)
    → contains x zs ≡ true
    → (xs : List ℕ) × (ys : List ℕ) × (zs ≡ xs ++ x ∷ ys)
contains-split x [] h = absurd (cc)
contains-split x (z ∷ zs) h = elim (Bool-cases (x == z)) [
  | inl e ↦ let e' : x ≡ z = ground arith in ([], zs, λ i. sym e' i ∷ zs)
  | inr n ↦ let (xs, ys, e) = contains-split x zs (ground arith) in (z ∷ xs, ys, ap (λ l. z ∷ l) e)
]
