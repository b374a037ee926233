-- ===== src/Queues/Search.antt =====
-- The walk of insertd() over a delta list stops where the delay ends.
use operating_systems_paging.Prelude.{
  ℕ, zero, suc, ◌+◌, ◌-◌, ◌^◌, ◌≤◌, ◌<◌, ◌≡◌, refl, head_or, last_or, true, ◌==◌, false, some, List,
  [], ◌∷◌, arith, contains, length, leb, Bool-cases, inl, inr, ==_refl, ==_ne,
}
use operating_systems_paging.Queues.{Queuetab, nproc, queuetail, find_delay, sub_key}
use operating_systems_paging.Queues.Chain.{Chain}
use operating_systems_paging.Queues.Delay.{sooner, after, remaining}

-- the delay that a key that is not negative stands for
abbrev pub delay : Queuetab → ℕ → ℕ
delay t x = (t x).qkey - 2 ^ 31

-- The keys of a delta list are not negative.
abbrev pub Delays : Queuetab → List ℕ → Type 0
Delays t xs = (x : ℕ) → contains x xs ≡ true → (2 ^ 31 ≤ (t x).qkey) × ((t x).qkey < 2 ^ 32)

sub_key_lem :
    (n k : ℕ)
    → n < 2 ^ 31
    → 2 ^ 31 ≤ k
    → k < 2 ^ 32
    → k - 2 ^ 31 ≤ n
    → sub_key (2 ^ 31 + n) k ≡ 2 ^ 31 + (n - (k - 2 ^ 31))
sub_key_lem n k a b c h = omega arith

pub next_of : (t : Queuetab) (p n : ℕ) (xs : List ℕ) → Chain t p xs n → (t p).qnext ≡ head_or xs n
next_of t p n [] c = c.0
next_of t p n (x ∷ xs) c = c.0

pub find_delay_lem :
    (t : Queuetab) (q p n fuel : ℕ) (xs : List ℕ)
    → Chain t p xs (queuetail q)
    → ((x : ℕ) → contains x xs ≡ true → x < nproc)
    → nproc ≤ q
    → Delays t xs
    → n < 2 ^ 31
    → length xs < fuel
    → find_delay fuel q (2 ^ 31 + n) p (head_or xs (queuetail q)) t
      ≡ some (
        2 ^ 31 + remaining (delay t) n xs,
        last_or p (sooner (delay t) n xs),
        head_or (after (delay t) n xs) (queuetail q),
      )
unfolding find_delay
find_delay_lem t q p n zero xs c s lo d b h = absurd (omega (arith, h))
find_delay_lem t q p n (suc fuel) [] c s lo d b h = rw (find_delay, ==_refl (queuetail q)) refl
find_delay_lem t q p n (suc fuel) (x ∷ xs) c s lo d b h = elim (Bool-cases (leb (delay t x) n)) [
  | inl e ↦
      let le : leb ((t x).qkey) (2 ^ 31 + n) ≡ true = ground (arith, e, k.0) in
      rw
        (
          find_delay,
          e,
          le,
          tail_ne,
          next_of t x (queuetail q) xs c.2,
          sub_key_lem n ((t x).qkey) b k.0 k.1 (ground (arith, e)),
        )
        (find_delay_lem t q x (n - delay t x) fuel xs c.2 (λ y m. s y (ground arith)) lo
          (λ y m. d y (ground arith)) (omega (arith, b)) (omega (arith, h)))
  | inr e ↦
      let gt : leb ((t x).qkey) (2 ^ 31 + n) ≡ false = ground (arith, e, k.0) in
      rw (find_delay, e, gt, tail_ne) refl
]
  where
    k : (2 ^ 31 ≤ (t x).qkey) × ((t x).qkey < 2 ^ 32)
    k = d x (ground (arith, ==_refl x))

    tail_ne : (x == queuetail q) ≡ false
    tail_ne = ==_ne x (queuetail q) (λ z. omega (arith, z, lo, s x (ground (arith, ==_refl x))))
