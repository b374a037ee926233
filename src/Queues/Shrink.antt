-- ===== src/Queues/Shrink.antt =====
-- The keys of a delta list after insertd(): the next process loses what the new one has.
use mathlib.Core.Path.{subst}
use operating_systems_paging.Prelude.{
  ℕ, ◌+◌, ◌-◌, ◌^◌, ◌≤◌, ◌<◌, ◌≡◌, refl, sym, ◌∙◌, ap, head_or, true, not, ◌&&◌, ◌==◌,
  if◌then◌else◌, false, List, [], ◌∷◌, ◌++◌, arith, contains, contains-append, Bool-cases, inl, inr,
  ==→≡, ==_refl, ==_ne, NoRepeat, NoRepeat-split, Apart,
}
use operating_systems_paging.Queues.{Queuetab, queuetail, sub_key}
use operating_systems_paging.Queues.Chain.{absent_ne, head_in}
use operating_systems_paging.Queues.Order.{IsQueue}
use operating_systems_paging.Queues.Delay.{IsAbove, Shrunk}
use operating_systems_paging.Queues.Search.{delay, Delays}

-- The keys after insertd() are as the wake times want them.
module _ (t u : Queuetab) (q pid r : ℕ) (us vs : List ℕ) (i : IsQueue t q (us ++ vs))
    (new : contains pid (us ++ vs) ≡ false) (d : Delays t (us ++ vs)) (b : r < 2 ^ 31)
    (above : IsAbove (delay t) r vs)
    (key : (y : ℕ)
      → (u y).qkey ≡ (
          if pid == y
          then 2 ^ 31 + r
          else if head_or vs (queuetail q) == y && not (y == queuetail q)
          then sub_key ((t y).qkey) (2 ^ 31 + r)
          else (t y).qkey)) where
  parts : NoRepeat us × NoRepeat vs × Apart us vs
  parts = NoRepeat-split us vs i.no_repeat

  -- the key of a process that is neither the new one nor the next
  plain :
      (y : ℕ)
      → (pid == y) ≡ false
      → (head_or vs (queuetail q) == y) ≡ false
      → (u y).qkey ≡ (t y).qkey
  plain y e f = key y ∙ rw (e, f) refl

  pid_apart : (y : ℕ) → contains y (us ++ vs) ≡ true → (pid == y) ≡ false
  pid_apart y m = absent_ne pid y (us ++ vs) new m

  -- the key of the next process
  next_key : (v : ℕ) (ws : List ℕ) → vs ≡ v ∷ ws → (u v).qkey ≡ sub_key ((t v).qkey) (2 ^ 31 + r)
  next_key v ws e =
      key v ∙ rw (pid_apart v member, ap (λ l. head_or l (queuetail q)) e, ==_refl v, tail_ne) refl
    where
      member : contains v (us ++ vs) ≡ true
      member = ground (arith, contains-append v us vs, ap (contains v) e, ==_refl v)

      tail_ne : (v == queuetail q) ≡ false
      tail_ne = ==_ne v (queuetail q) (λ z. omega (arith, z, i.above, i.procs v member))

  -- the delay of the next process, and its key
  next_delay :
      (v : ℕ) (ws : List ℕ)
      → vs ≡ v ∷ ws
      → (delay u v + r ≡ delay t v) × ((2 ^ 31 ≤ (u v).qkey) × ((u v).qkey < 2 ^ 32))
  next_delay v ws e = (
    omega (arith, next_key v ws e, range, gap, b),
    (omega (arith, next_key v ws e, range, gap, b), omega (arith, next_key v ws e, range, gap, b)),
  )
    where
      range : (2 ^ 31 ≤ (t v).qkey) × ((t v).qkey < 2 ^ 32)
      range = d v (ground (arith, contains-append v us vs, ap (contains v) e, ==_refl v))

      gap : r < delay t v
      gap = subst (IsAbove (delay t) r) e above

  pub shrunk : Shrunk (delay t) (delay u) r vs
  shrunk = from vs refl
    where
      from : (zs : List ℕ) → vs ≡ zs → Shrunk (delay t) (delay u) r zs
      from [] e = tt
      from (v ∷ ws) e = (
        (next_delay v ws e).0,
        λ y m.
            ap (λ n. n - 2 ^ 31)
              (plain y (pid_apart y (ground (arith, contains-append y us vs, ap (contains y) e))) (
                ap (λ l. head_or l (queuetail q) == y) e
                ∙ absent_ne v y ws ((subst NoRepeat e parts.1).0) m)),
      )

  apart_next : (z : ℕ) → contains z us ≡ true → (head_or vs (queuetail q) == z) ≡ false
  apart_next z m = ground (
    arith,
    absent_ne z (head_or vs (queuetail q)) (queuetail q ∷ vs)
        (ground (arith, parts.2 z m, i.above, i.procs z (ground (arith, contains-append z us vs))))
        (head_in vs (queuetail q)),
  )

  pub kept : (z : ℕ) → contains z us ≡ true → delay u z ≡ delay t z
  kept z m =
      ap (λ n. n - 2 ^ 31)
        (plain z (pid_apart z (ground (arith, contains-append z us vs))) (apart_next z m))

  pub own : (z : ℕ) → (pid == z) ≡ true → (u z).qkey ≡ 2 ^ 31 + r
  own z e = key z ∙ rw e refl

  pub still : Delays u (us ++ pid ∷ vs)
  still z m = elim (Bool-cases (pid == z)) [
    | inl e ↦ rw (own z e) (omega arith, omega (arith, b))
    | inr e ↦ elim (Bool-cases (head_or vs (queuetail q) == z)) [
      | inl f ↦ next vs refl e f
      | inr f ↦ rw (plain z e f) (d z (listed e))
    ]
  ]
    where
      listed : (pid == z) ≡ false → contains z (us ++ vs) ≡ true
      listed e = ground (arith, contains-append z us (pid ∷ vs), contains-append z us vs)

      next :
          (zs : List ℕ)
          → vs ≡ zs
          → (pid == z) ≡ false
          → (head_or vs (queuetail q) == z) ≡ true
          → (2 ^ 31 ≤ (u z).qkey) × ((u z).qkey < 2 ^ 32)
      next [] h e f = absurd (
          omega (
            arith,
            ==→≡ (head_or vs (queuetail q)) z f,
            ap (λ l. head_or l (queuetail q)) h,
            i.above,
            i.procs z (listed e),
          ))
      next (v ∷ ws) h e f =
          subst (λ y. (2 ^ 31 ≤ (u y).qkey) × ((u y).qkey < 2 ^ 32))
            (sym (ap (λ l. head_or l (queuetail q)) h) ∙ ==→≡ (head_or vs (queuetail q)) z f)
            ((next_delay v ws h).1)
