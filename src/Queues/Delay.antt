-- ===== src/Queues/Delay.antt =====
-- insertd() on a delta list: the key of a process is its delay after the one before it.
use operating_systems_paging.Prelude.{
  ℕ, ◌+◌, ◌-◌, ◌≤◌, ◌<◌, ◌≡◌, refl, ap, true, ◌==◌, if◌then◌else◌, false, List, [], ◌∷◌, ◌++◌,
  arith, contains, leb, Bool-cases, inl, inr, ==_refl,
}

-- The processes that wake no later than after `n`, the others, and what is left of `n` after the first.
abbrev pub sooner : (ℕ → ℕ) → ℕ → List ℕ → List ℕ
sooner d n [] = []
sooner d n (x ∷ xs) = if leb (d x) n then x ∷ sooner d (n - d x) xs else []

abbrev pub after : (ℕ → ℕ) → ℕ → List ℕ → List ℕ
after d n [] = []
after d n (x ∷ xs) = if leb (d x) n then after d (n - d x) xs else x ∷ xs

abbrev pub remaining : (ℕ → ℕ) → ℕ → List ℕ → ℕ
remaining d n [] = n
remaining d n (x ∷ xs) = if leb (d x) n then remaining d (n - d x) xs else n

-- The time after which `y` wakes.
abbrev pub wake_time : (ℕ → ℕ) → List ℕ → ℕ → ℕ
wake_time d [] y = 0
wake_time d (x ∷ xs) y = d x + (if y == x then 0 else wake_time d xs y)

pub sooner-after : (d : ℕ → ℕ) (n : ℕ) (xs : List ℕ) → sooner d n xs ++ after d n xs ≡ xs
sooner-after d n [] = refl
sooner-after d n (x ∷ xs) = elim (Bool-cases (leb (d x) n)) [
  | inl e ↦ rw e (ap (λ l. x ∷ l) (sooner-after d (n - d x) xs))
  | inr e ↦ rw e refl
]

pub remaining_le : (d : ℕ → ℕ) (n : ℕ) (xs : List ℕ) → remaining d n xs ≤ n
remaining_le d n [] = omega arith
remaining_le d n (x ∷ xs) = elim (Bool-cases (leb (d x) n)) [
  | inl e ↦ rw e (omega (arith, remaining_le d (n - d x) xs))
  | inr e ↦ rw e (omega arith)
]

-- The delay of the first process is above `r`.
abbrev pub IsAbove : (ℕ → ℕ) → ℕ → List ℕ → Type 0
IsAbove d r [] = Unit
IsAbove d r (x ∷ xs) = r < d x

pub after-IsAbove : (d : ℕ → ℕ) (n : ℕ) (xs : List ℕ) → IsAbove d (remaining d n xs) (after d n xs)
after-IsAbove d n [] = tt
after-IsAbove d n (x ∷ xs) = elim (Bool-cases (leb (d x) n)) [
  | inl e ↦ rw e (after-IsAbove d (n - d x) xs)
  | inr e ↦ rw e (ground (arith, e))
]

-- `d'` gives the new process its delay and takes it off that of the next one.
abbrev pub Shrunk : (ℕ → ℕ) → (ℕ → ℕ) → ℕ → List ℕ → Type 0
Shrunk d d' r [] = Unit
Shrunk d d' r (x ∷ xs) = (d' x + r ≡ d x) × ((y : ℕ) → contains y xs ≡ true → d' y ≡ d y)

wake_time-same :
    (d d' : ℕ → ℕ) (xs : List ℕ) (y : ℕ)
    → ((z : ℕ) → contains z xs ≡ true → d' z ≡ d z)
    → wake_time d' xs y ≡ wake_time d xs y
wake_time-same d d' [] y h = refl
wake_time-same d d' (x ∷ xs) y h =
    ground
      (arith, h x (ground (arith, ==_refl x)), wake_time-same d d' xs y (λ z m. h z (ground arith)))

-- The other processes wake when they did.
pub wake_time-insert :
    (d d' : ℕ → ℕ) (pid n : ℕ) (xs : List ℕ) (y : ℕ)
    → contains pid xs ≡ false
    → d' pid ≡ remaining d n xs
    → ((z : ℕ) → contains z (sooner d n xs) ≡ true → d' z ≡ d z)
    → Shrunk d d' (remaining d n xs) (after d n xs)
    → contains y xs ≡ true
    → wake_time d' (sooner d n xs ++ pid ∷ after d n xs) y ≡ wake_time d xs y
wake_time-insert d d' pid n [] y new p s a m = absurd (ground arith)
wake_time-insert d d' pid n (x ∷ xs) y new p s a m = elim (Bool-cases (leb (d x) n)) [
  | inl e ↦
      let s' : (z : ℕ) → contains z (x ∷ sooner d (n - d x) xs) ≡ true → d' z ≡ d z = rw e at s in
      let here : d' x ≡ d x = s' x (ground (arith, ==_refl x)) in
      rw e (elim (Bool-cases (y == x)) [
        | inl f ↦ rw (f, here) refl
        | inr f ↦
            rw (f, here)
              (ap (λ w. d x + w)
                (wake_time-insert d d' pid (n - d x) xs y (ground arith) (rw e at p)
                  (λ z h. s' z (ground arith)) (rw e at a) (ground arith)))
      ])
  | inr e ↦
      let p' : d' pid ≡ n = rw e at p in
      let a' : (d' x + n ≡ d x) × ((z : ℕ) → contains z xs ≡ true → d' z ≡ d z) = rw e at a in
      let same : wake_time d' xs y ≡ wake_time d xs y = wake_time-same d d' xs y a'.1 in
      rw e (ground (arith, p', a'.0, same))
]

-- The new one wakes after `n`.
pub wake_time_new :
    (d d' : ℕ → ℕ) (pid n : ℕ) (xs : List ℕ)
    → contains pid xs ≡ false
    → d' pid ≡ remaining d n xs
    → ((z : ℕ) → contains z (sooner d n xs) ≡ true → d' z ≡ d z)
    → wake_time d' (sooner d n xs ++ pid ∷ after d n xs) pid ≡ n
wake_time_new d d' pid n [] new p s = rw (==_refl pid) (omega (arith, p))
wake_time_new d d' pid n (x ∷ xs) new p s = elim (Bool-cases (leb (d x) n)) [
  | inl e ↦
      let s' : (z : ℕ) → contains z (x ∷ sooner d (n - d x) xs) ≡ true → d' z ≡ d z = rw e at s in
      let here : d' x ≡ d x = s' x (ground (arith, ==_refl x)) in
      let later : wake_time d' (sooner d (n - d x) xs ++ pid ∷ after d (n - d x) xs) pid ≡ n - d x =
        wake_time_new d d' pid (n - d x) xs (ground arith) (rw e at p)
          (λ z h. s' z (ground arith)) in
      rw e (ground (arith, here, later))
  | inr e ↦ let p' : d' pid ≡ n = rw e at p in rw e (ground (arith, p', ==_refl pid))
]
