-- ===== src/Partial.antt =====
-- Routines whose loops may fail to end: `none` is a search that goes on for ever.
use operating_systems_paging.Prelude.{◌≡◌, refl, Option, none, some}

infixl 5 ◌>>=◌
abbrev pub ◌>>=◌ {ℓ κ} : {A : Type ℓ} {B : Type κ} → Option A → (A → Option B) → Option B
none >>= f = none
some a >>= f = f a

-- The routine ends, and its result meets `P`.
abbrev pub Ends {ℓ} : {A : Type ℓ} → Option A → (A → Type 0) → Type 0
Ends none P = ⊥
Ends (some a) P = P a

pub Ends-mono :
    {A : Type 0} {P Q : A → Type 0} (o : Option A) → ((a : A) → P a → Q a) → Ends o P → Ends o Q
Ends-mono none f h = h
Ends-mono (some a) f h = f a h

pub Ends-bind :
    {A B : Type 0} {P : A → Type 0} (Q : B → Type 0) (o : Option A) (f : A → Option B)
    → Ends o P
    → ((a : A) → P a → Ends (f a) Q)
    → Ends (o >>= f) Q
Ends-bind Q none f h k = h
Ends-bind Q (some a) f h k = k a h

pub Ends-some :
    {A : Type 0} {P : A → Type 0} (o : Option A) → Ends o P → (a : A) × (o ≡ some a) × P a
Ends-some none h = absurd h
Ends-some (some a) h = (a, refl, h)

-- What a chain gives, its first part has given something to.
pub bind-some :
    {A B : Type 0} (o : Option A) (f : A → Option B) (b : B)
    → (o >>= f) ≡ some b
    → (a : A) × (o ≡ some a) × (f a ≡ some b)
bind-some none f b h = absurd (cc)
bind-some (some a) f b h = (a, refl, h)

-- The result meets both.
pub Ends-both :
    {A : Type 0} (P Q : A → Type 0) (o : Option A) → Ends o P → Ends o Q → Ends o (λ a. P a × Q a)
Ends-both P Q none h k = h
Ends-both P Q (some a) h k = (h, k)
