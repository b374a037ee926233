-- ===== src/Queues/Table.antt =====
-- All the queues of the table at once: an operation on one leaves the others alone.
use mathlib.Core.Path.{subst}
use operating_systems_paging.Prelude.{
  ℕ, ◌-◌, ◌≤◌, ◌<◌, ◌%◌, ◌≡◌, refl, sym, ap, ◌∙◌, ◌⊎◌, inl, inr, Bool, true, false, true≢false,
  List, ◌∷◌, arith, ◌==◌, ==→≡, Bool-cases, update, contains,
}
use operating_systems_paging.Queues.{Queuetab, nproc, nqent, queuetail}
use operating_systems_paging.Queues.Chain.{Chain-same}
use operating_systems_paging.Queues.Order.{IsQueue}

-- The queues that newqueue() hands out: it starts at NPROC and moves on by two.
pub record IsList (q : ℕ) : Type 0 where
  pub above : nproc ≤ q
  pub even : q % 2 ≡ 0
  pub known : q < nqent - 1

-- `u` is `t` but for the entries `ws`.
abbrev pub Same : Queuetab → Queuetab → List ℕ → Type 0
Same t u ws = (y : ℕ) → contains y ws ≡ false → u y ≡ t y

-- Each queue `q` holds the processes `view q`, and no process is in two.
pub record IsTable (t : Queuetab) (view : ℕ → List ℕ) : Type 0 where
  pub queue : (q : ℕ) → IsList q → IsQueue t q (view q)
  pub apart :
      (q r x : ℕ)
      → IsList q
      → IsList r
      → contains x (view q) ≡ true
      → contains x (view r) ≡ true
      → q ≡ r

-- A queue whose entries stay the same stays a queue.
pub IsQueue-same :
    (t u : Queuetab) (q : ℕ) (xs : List ℕ)
    → ((y : ℕ) → contains y (q ∷ queuetail q ∷ xs) ≡ true → u y ≡ t y)
    → IsQueue t q xs
    → IsQueue u q xs
IsQueue-same t u q xs h i = record {
  chain =
      Chain-same t u q xs (queuetail q) (λ y e. ap (λ r. r.qnext) (h y (ground arith)))
        (λ y e. ap (λ r. r.qprev) (h y (ground arith))) i.chain;
  procs = i.procs;
  no_repeat = i.no_repeat;
  above = i.above;
  known = i.known;
  tail_key = ap (λ r. r.qkey) (h (queuetail q) (ground arith)) ∙ i.tail_key;
}

-- An operation on queue `q`, which may put in `pid` or take out what is in it.
pub record Changed (t u : Queuetab) (view : ℕ → List ℕ) (q pid : ℕ) (ys : List ℕ) : Type 0 where
  pub queue : IsQueue u q ys
  pub same : Same t u (pid ∷ q ∷ queuetail q ∷ view q)
  pub small : pid < nproc
  pub only : (r : ℕ) → IsList r → contains pid (view r) ≡ true → q ≡ r
  pub within : (x : ℕ) → contains x ys ≡ true → contains x (pid ∷ view q) ≡ true

-- What a contradiction follows from is false.
pub refute : (b : Bool) → (b ≡ true → ⊥) → b ≡ false
refute true h = absurd (h refl)
refute false h = refl

-- The entries of another queue are none of those that the operation touches.
module _ (t u : Queuetab) (view : ℕ → List ℕ) (q pid : ℕ) (ys : List ℕ) (i : IsTable t view)
    (c : Changed t u view q pid ys) (l : IsList q) (r : ℕ) (m : IsList r)
    (ne : (q == r) ≡ false) where
  distinct : q ≡ r → ⊥
  distinct e = ground arith

  member_apart :
      (y : ℕ) → contains y (view r) ≡ true → contains y (pid ∷ q ∷ queuetail q ∷ view q) ≡ false
  member_apart y e = ground (
    arith,
    (i.queue r m).procs y e,
    l.above,
    refute (y == pid) (λ h. distinct (c.only r m (rw (==→≡ y pid h) at e))),
    refute (contains y (view q)) (λ h. distinct (i.apart q r y l m h e)),
  )

  high : (y : ℕ) → (y ≡ r) ⊎ (y ≡ queuetail r) → nproc ≤ y
  high y (inl e) = omega (arith, m.above)
  high y (inr e) = omega (arith, m.above)

  end_apart :
      (y : ℕ) → (y ≡ r) ⊎ (y ≡ queuetail r) → contains y (pid ∷ q ∷ queuetail q ∷ view q) ≡ false
  end_apart y e = ground (
    arith,
    c.small,
    l.even,
    m.even,
    m.above,
    distinct,
    refute (contains y (view q)) (λ h. absurd (omega (arith, (i.queue q l).procs y h, high y e))),
  )

  untouched : (y : ℕ) → contains y (r ∷ queuetail r ∷ view r) ≡ true → u y ≡ t y
  untouched y e = c.same y (elim (Bool-cases (contains y (view r))) [
    | inl here ↦ member_apart y here
    | inr nowhere ↦ end_apart y (ground arith)
  ])

-- After an operation on queue `q` the others hold what they held.
pub change-IsTable :
    (t u : Queuetab) (view : ℕ → List ℕ) (q pid : ℕ) (ys : List ℕ)
    → IsTable t view
    → Changed t u view q pid ys
    → IsList q
    → IsTable u (update view q ys)
change-IsTable t u view q pid ys i c l = record { queue = queue; apart = apart }
  where
    queue : (r : ℕ) → IsList r → IsQueue u r (update view q ys r)
    queue r m = elim (Bool-cases (q == r)) [
      | inl e ↦ rw e (subst (λ s. IsQueue u s ys) (==→≡ q r e) c.queue)
      | inr e ↦
          rw e (IsQueue-same t u r (view r) (untouched t u view q pid ys i c l r m e) (i.queue r m))
    ]

    held :
        (r x : ℕ)
        → contains x (update view q ys r) ≡ true
        → ((q ≡ r) × (contains x ys ≡ true)) ⊎ (((q == r) ≡ false) × (contains x (view r) ≡ true))
    held r x h = elim (Bool-cases (q == r)) [
      | inl e ↦ inl (==→≡ q r e, rw e at h)
      | inr e ↦ inr (e, rw e at h)
    ]

    -- a process of another queue is not among the new contents
    other :
        (r x : ℕ)
        → IsList r
        → (q == r) ≡ false
        → contains x (view r) ≡ true
        → contains x ys ≡ true
        → ⊥
    other r x m e h k =
        true≢false
          (sym (c.within x k) ∙ ground (arith, member_apart t u view q pid ys i c l r m e x h))

    apart :
        (r s x : ℕ)
        → IsList r
        → IsList s
        → contains x (update view q ys r) ≡ true
        → contains x (update view q ys s) ≡ true
        → r ≡ s
    apart r s x m n h k = elim (held r x h) [
      | inl (e, a) ↦ elim (held s x k) [
        | inl (f, b) ↦ sym e ∙ f
        | inr (f, b) ↦ absurd (other s x n f b a)
      ]
      | inr (e, a) ↦ elim (held s x k) [
        | inl (f, b) ↦ absurd (other r x m e a b)
        | inr (f, b) ↦ i.apart r s x m n a b
      ]
    ]
