-- ===== src/Outcome.antt =====
-- How a kernel routine ends: it returns, its caller blocks in wait(), or panic() stops the system.
use operating_systems_paging.Prelude.{ℕ, ◌+◌, ◌-◌, ◌≡◌, refl, ◌==◌, if◌then◌else◌}

pub data Outcome {ℓ} (A : Type ℓ) : Type ℓ where
  done : A → Outcome A
  blocked : Outcome A
  panic : Outcome A

-- The state is passed on explicitly: a routine returns its result and the new state.
infixl 5 ◌>>=◌
abbrev pub ◌>>=◌ {ℓ κ} : {A : Type ℓ} {B : Type κ} → Outcome A → (A → Outcome B) → Outcome B
done a >>= f = f a
blocked >>= f = blocked
panic >>= f = panic

-- wait() and signal() on a mutex by its count, 1 when free and 0 when held. A wait on a held one
-- blocks.
abbrev pub down : ℕ → Outcome ℕ
down n = if n == 0 then blocked else done (n - 1)

abbrev pub up : ℕ → ℕ
up n = n + 1

-- The routine returns, and its result meets `P`.
abbrev pub Returns {ℓ} : {A : Type ℓ} → Outcome A → (A → Type 0) → Type 0
Returns (done a) P = P a
Returns blocked P = ⊥
Returns panic P = ⊥

pub Returns-mono :
    {A : Type 0} {P Q : A → Type 0} (o : Outcome A)
    → ((a : A) → P a → Q a)
    → Returns o P
    → Returns o Q
Returns-mono (done a) f h = f a h
Returns-mono blocked f h = h
Returns-mono panic f h = h

pub Returns-bind :
    {A B : Type 0} {P : A → Type 0} (Q : B → Type 0) (o : Outcome A) (f : A → Outcome B)
    → Returns o P
    → ((a : A) → P a → Returns (f a) Q)
    → Returns (o >>= f) Q
Returns-bind Q (done a) f h k = k a h
Returns-bind Q blocked f h k = h
Returns-bind Q panic f h k = h

pub Returns-done :
    {A : Type 0} {P : A → Type 0} (o : Outcome A) → Returns o P → (a : A) × (o ≡ done a) × P a
Returns-done (done a) h = (a, refl, h)
Returns-done blocked h = absurd h
Returns-done panic h = absurd h
