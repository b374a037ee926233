-- ===== src/Heap/Join.antt =====
-- The work of freemem() on a list in order: where the region goes, and what it joins.
use operating_systems_paging.Prelude.{
  ℕ, ◌+◌, ◌≤◌, ◌<◌, ◌^◌, ◌≡◌, refl, true, false, ◌||◌, Option, none, some, List, [], ◌∷◌, arith,
  ltb, ◌==◌, inl, inr, Bool-cases, ltb→lt, ==→≡,
}
use operating_systems_paging.Heap.{
  Block, block, top, join_next, hits_next, link_after, walk, give, add32,
}
use operating_systems_paging.Heap.Order.{InOrder, InOrder-lower, holds, within, total}

-- `rest` is `bs` with the `n` bytes from `a` on, none of which `bs` holds.
pub record Filled (lo hi a n : ℕ) (bs rest : List Block) : Type 0 where
  pub order : InOrder lo hi rest
  pub bytes : (x : ℕ) → holds x rest ≡ (holds x bs || within a n x)
  pub size : total rest ≡ total bs + n

-- Failure means that a byte of the region is free already.
abbrev pub Given : (lo hi a n : ℕ) → List Block → Option (List Block) → Type 0
Given lo hi a n bs none = (x : ℕ) × (within a n x ≡ true) × (holds x bs ≡ true)
Given lo hi a n bs (some rest) = Filled lo hi a n bs rest

-- a list that starts at `b`, which may be adjacent to the next block
abbrev Headed : (lo hi : ℕ) → Block → List Block → Type 0
Headed lo hi b xs =
    (lo ≤ b.addr) × (0 < b.len) × (b.addr + b.len ≤ hi) × InOrder (b.addr + b.len) hi xs

pub record Joined (lo hi : ℕ) (b : Block) (xs rest : List Block) : Type 0 where
  pub order : InOrder lo hi rest
  pub bytes : (x : ℕ) → holds x rest ≡ holds x (b ∷ xs)
  pub size : total rest ≡ total (b ∷ xs)

join_next-Joined :
    (lo hi : ℕ) (b : Block) (xs : List Block)
    → hi < 2 ^ 32
    → Headed lo hi b xs
    → Joined lo hi b xs (join_next b xs)
unfolding join_next
join_next-Joined lo hi b [] hb (p, q, r, s) = record {
  order = (p, q, r, tt);
  bytes = λ x. refl;
  size = refl;
}
join_next-Joined lo hi b (y ∷ ys) hb (p, q, r, (s, t, u, v)) = elim (Bool-cases (top b == y.addr)) [
  | inl e ↦
      rw (join_next, e)
        (record {
          order = (
            p,
            omega arith,
            omega arith,
            InOrder-lower (y.addr + y.len + 1) (b.addr + add32 b.len y.len + 1) hi ys
                (omega (arith, ==→≡ (top b) y.addr e)) v,
          );
          bytes = λ x. ground (arith, ==→≡ (top b) y.addr e);
          size = omega (arith, ==→≡ (top b) y.addr e);
        })
  | inr e ↦
      rw (join_next, e)
        (record { order = (p, q, r, (ground arith, t, u, v)); bytes = λ x. refl; size = refl })
]

-- No block of the list starts below `a`.
abbrev From : ℕ → List Block → Type 0
From a [] = Unit
From a (x ∷ xs) = a ≤ x.addr

-- past the region: the next block does not reach into it
Clear :
    (a n lo hi : ℕ) (next : List Block)
    → lo ≤ a + n
    → a + n < 2 ^ 32
    → hits_next a n next ≡ false
    → InOrder lo hi next
    → InOrder (a + n) hi next
Clear a n lo hi [] l h e o = tt
Clear a n lo hi (x ∷ xs) l h e (p, q, r, s) = (ground arith, q, r, s)

module _ (hi a n : ℕ) (bounded : hi < 2 ^ 32) (positive : 0 < n) (region : a + n ≤ hi) where
  -- the new block before `next`
  before :
      (lo : ℕ) (next : List Block)
      → lo ≤ a
      → InOrder lo hi next
      → From a next
      → hits_next a n next ≡ false
      → Filled lo hi a n next (join_next (block a n) next)
  before lo next l o f e = record {
    order = j.order;
    bytes = λ x. ground (arith, j.bytes x);
    size = omega (arith, j.size);
  }
    where
      j : Joined lo hi (block a n) next (join_next (block a n) next)
      j =
          join_next-Joined lo hi (block a n) next bounded
            (l, positive, region, Clear a n lo hi next (omega arith) (omega arith) e o)

  hit :
      (lo : ℕ) (next : List Block)
      → InOrder lo hi next
      → From a next
      → hits_next a n next ≡ true
      → (x : ℕ) × (within a n x ≡ true) × (holds x next ≡ true)
  hit lo [] o f e = absurd (ground arith)
  hit lo (y ∷ ys) (p, q, r, s) f e = (y.addr, ground arith, ground arith)

  -- the block before the region, lengthened by it
  widened :
      (lo : ℕ) (prev : Block) (next : List Block)
      → InOrder lo hi (prev ∷ next)
      → prev.addr + prev.len ≡ a
      → hits_next a n next ≡ false
      → Filled lo hi a n (prev ∷ next) (join_next (record prev { len = add32 prev.len n }) next)
  widened lo prev next (p, q, r, s) k e = record {
    order = j.order;
    bytes = λ x. ground (arith, j.bytes x);
    size = omega (arith, j.size);
  }
    where
      j :
          Joined lo hi
            (record prev { len = add32 prev.len n })
            next
            (join_next (record prev { len = add32 prev.len n }) next)
      j =
          join_next-Joined lo hi (record prev { len = add32 prev.len n }) next bounded
            (
              p,
              omega arith,
              omega arith,
              InOrder-lower (a + n) (prev.addr + add32 prev.len n) hi next (omega arith)
                  (Clear a n (prev.addr + prev.len + 1) hi next (omega arith) (omega arith) e s),
            )

  -- a block before a list that is filled
  kept :
      (lo : ℕ) (b : Block) (bs rest : List Block)
      → InOrder lo hi (b ∷ bs)
      → Filled (b.addr + b.len + 1) hi a n bs rest
      → Filled lo hi a n (b ∷ bs) (b ∷ rest)
  kept lo b bs rest (p, q, r, s) f = record {
    order = (p, q, r, f.order);
    bytes = λ x. ground (arith, f.bytes x);
    size = omega (arith, f.size);
  }

  link_after-Given :
      (lo : ℕ) (prev : Block) (next : List Block)
      → InOrder lo hi (prev ∷ next)
      → prev.addr < a
      → From a next
      → Given lo hi a n (prev ∷ next) (link_after a n prev next)
  unfolding link_after
  link_after-Given lo prev next (p, q, r, s) b f = elim (Bool-cases (ltb a (top prev))) [
    | inl e ↦ rw (link_after, e) (a, ground arith, ground arith)
    | inr e ↦ elim (Bool-cases (hits_next a n next)) [
      | inl g ↦
          (let (x, u, v) = hit (prev.addr + prev.len + 1) next s f g in
            rw (link_after, e, g) (x, u, ground arith))
      | inr g ↦ elim (Bool-cases (top prev == a)) [
        | inl k ↦ rw (link_after, e, g, k) (widened lo prev next (p, q, r, s) (ground arith) g)
        | inr k ↦
            rw (link_after, e, g, k)
              (kept lo prev next (join_next (block a n) next) (p, q, r, s)
                (before (prev.addr + prev.len + 1) next (ground arith) s f g))
      ]
    ]
  ]

  walk-Given :
      (lo : ℕ) (prev : Block) (next : List Block)
      → InOrder lo hi (prev ∷ next)
      → prev.addr < a
      → Given lo hi a n (prev ∷ next) (walk a n prev next)
  unfolding walk
  walk-Given lo prev [] o b = link_after-Given lo prev [] o b tt
  walk-Given lo prev (x ∷ xs) o b = elim (Bool-cases (ltb x.addr a)) [
    | inl e ↦
        rw (walk, e)
          (further (walk a n x xs)
            (walk-Given (prev.addr + prev.len + 1) x xs o.3 (ltb→lt x.addr a e)))
    | inr e ↦ rw (walk, e) (link_after-Given lo prev (x ∷ xs) o b (ground arith))
  ]
    where
      further :
          (r : Option (List Block))
          → Given (prev.addr + prev.len + 1) hi a n (x ∷ xs) r
          → Given lo hi a n
              (prev ∷ x ∷ xs)
              (elim r [ none ↦ none | some rest ↦ some (prev ∷ rest) ])
      further none (y, u, v) = (y, u, ground arith)
      further (some rest) f = kept lo prev (x ∷ xs) rest o f

  pub give-Given :
      (lo : ℕ) (bs : List Block) → InOrder lo hi bs → lo ≤ a → Given lo hi a n bs (give a n bs)
  unfolding give join_next
  give-Given lo [] o l = record {
    order = (l, positive, region, tt);
    bytes = λ x. ground arith;
    size = omega arith;
  }
  give-Given lo (x ∷ xs) o l = elim (Bool-cases (ltb x.addr a)) [
    | inl e ↦ rw (give, e) (walk-Given lo x xs o (ltb→lt x.addr a e))
    | inr e ↦ elim (Bool-cases (hits_next a n (x ∷ xs))) [
      | inl g ↦ rw (give, e, g) (hit lo (x ∷ xs) o (ground arith) g)
      | inr g ↦ rw (give, e, g) (before lo (x ∷ xs) l o (ground arith) g)
    ]
  ]
