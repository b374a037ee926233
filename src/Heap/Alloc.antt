-- ===== src/Heap/Alloc.antt =====
-- What getmem() does to a heap in order.
use operating_systems_paging.Prelude.{
  ℕ, ◌+◌, ◌-◌, ◌≤◌, ◌<◌, ◌^◌, ◌≡◌, refl, true, false, ◌||◌, Option, none, some, List, [], ◌∷◌,
  arith, ltb, ◌==◌, All, inl, inr, Bool-cases, ltb→lt, ==→≡, ==_ne,
}
use operating_systems_paging.Heap.{
  Block, block, FreeList, take_first, take, getmem, roundmb, add32, sub32,
}
use operating_systems_paging.Heap.Order.{
  InOrder, InOrder-lower, holds, holds-below, within, total, total-le, IsHeap,
}

-- `rest` is `bs` less the `n` bytes from `a` on, all of which `bs` holds.
pub record Carved (lo hi n : ℕ) (bs : List Block) (a : ℕ) (rest : List Block) : Type 0 where
  pub order : InOrder lo hi rest
  pub above : lo ≤ a
  pub below : a + n ≤ hi
  pub bytes : (x : ℕ) → holds x bs ≡ (holds x rest || within a n x)
  pub away : (x : ℕ) → within a n x ≡ true → holds x rest ≡ false
  pub size : total bs ≡ total rest + n

abbrev pub Searched : (lo hi n : ℕ) → List Block → Option (ℕ × List Block) → Type 0
Searched lo hi n bs none = All (λ b. b.len < n) bs
Searched lo hi n bs (some (a, rest)) = Carved lo hi n bs a rest

pub whole :
    (lo hi n : ℕ) (b : Block) (bs : List Block)
    → InOrder lo hi (b ∷ bs)
    → b.len ≡ n
    → Carved lo hi n (b ∷ bs) b.addr bs
whole lo hi n b bs (p, q, r, s) e = record {
  order = InOrder-lower (b.addr + b.len + 1) lo hi bs (omega arith) s;
  above = p;
  below = omega arith;
  bytes = λ x. ground arith;
  away = λ x w. holds-below x (b.addr + b.len + 1) hi bs s (ground arith);
  size = omega arith;
}

front :
    (lo hi n : ℕ) (b : Block) (bs : List Block)
    → InOrder lo hi (b ∷ bs)
    → hi < 2 ^ 32
    → 0 < n
    → n < b.len
    → Carved lo hi n (b ∷ bs) b.addr (block (b.addr + n) (b.len - n) ∷ bs)
front lo hi n b bs (p, q, r, s) hb hn h = record {
  order = (
    omega arith,
    omega arith,
    omega arith,
    InOrder-lower (b.addr + b.len + 1) (b.addr + n + (b.len - n) + 1) hi bs (omega arith) s,
  );
  above = p;
  below = omega arith;
  bytes = λ x. ground arith;
  away = λ x w. ground (arith, holds-below x (b.addr + b.len + 1) hi bs s);
  size = omega arith;
}

pub pass :
    (lo hi n : ℕ) (b : Block) (bs : List Block) (a : ℕ) (rest : List Block)
    → InOrder lo hi (b ∷ bs)
    → 0 < n
    → Carved (b.addr + b.len + 1) hi n bs a rest
    → Carved lo hi n (b ∷ bs) a (b ∷ rest)
pass lo hi n b bs a rest (p, q, r, s) hn c = record {
  order = (p, q, r, c.order);
  above = omega (arith, c.above);
  below = c.below;
  bytes = λ x. ground (arith, c.bytes x);
  away = λ x w. ground (arith, c.above, c.away x w);
  size = omega (arith, c.size);
}

pub add32-small : (a b : ℕ) → a + b < 2 ^ 32 → add32 a b ≡ a + b
add32-small a b h = omega arith

pub sub32-small : (a b : ℕ) → a < 2 ^ 32 → b ≤ a → sub32 a b ≡ a - b
sub32-small a b h k = omega arith

pub take_first-Searched :
    (lo hi n : ℕ) (bs : List Block)
    → InOrder lo hi bs
    → hi < 2 ^ 32
    → 0 < n
    → Searched lo hi n bs (take_first n bs)
unfolding take_first
take_first-Searched lo hi n [] o hb hn = tt
take_first-Searched lo hi n (b ∷ bs) o hb hn = elim (Bool-cases (b.len == n)) [
  | inl e ↦ rw (take_first, e) (whole lo hi n b bs o (==→≡ b.len n e))
  | inr e ↦ elim (Bool-cases (ltb n b.len)) [
    | inl f ↦
        rw
          (
            take_first,
            e,
            f,
            add32-small b.addr n (omega (arith, o.2, ltb→lt n b.len f)),
            sub32-small b.len n (omega (arith, o.2)) (omega (arith, ltb→lt n b.len f)),
          )
          (front lo hi n b bs o hb hn (ltb→lt n b.len f))
    | inr f ↦
        rw (take_first, e, f)
          (later (take_first n bs) (ground arith)
            (take_first-Searched (b.addr + b.len + 1) hi n bs o.3 hb hn))
  ]
]
  where
    later :
        (r : Option (ℕ × List Block))
        → b.len < n
        → Searched (b.addr + b.len + 1) hi n bs r
        → Searched lo hi n (b ∷ bs) (elim r [ none ↦ none | some (a, rest) ↦ some (a, b ∷ rest) ])
    later none h s = (h, s)
    later (some (a, rest)) h s = pass lo hi n b bs a rest o hn s

-- SYSERR leaves the heap as it is and means that no block is long enough; a block found comes off the
-- heap, which stays in order.
abbrev pub Got : (lo hi n : ℕ) → FreeList → Option ℕ × FreeList → Type 0
Got lo hi n l (none, k) = All (λ b. b.len < n) l.blocks × (k ≡ l)
Got lo hi n l (some a, k) = IsHeap lo hi k × Carved lo hi n l.blocks a k.blocks

pub roundmb-positive : (n : ℕ) → 1 ≤ n → n ≤ 2 ^ 32 - 8 → 0 < roundmb n
roundmb-positive n h k = omega arith

pub take-IsHeap :
    (lo hi n a : ℕ) (l : FreeList) (rest : List Block)
    → IsHeap lo hi l
    → Carved lo hi n l.blocks a rest
    → IsHeap lo hi (record { mlength = sub32 l.mlength n; blocks = rest })
take-IsHeap lo hi n a l rest h s = record {
  order = s.order;
  counted = omega (
    arith,
    total-le lo hi l.blocks (omega (arith, h.bounded)) h.order,
    s.size,
    s.above,
    s.below,
    h.counted,
    h.fits,
    h.start,
    h.bounded,
  );
  start = h.start;
  bounded = h.bounded;
  fits = h.fits;
}

pub take-Got : (lo hi n : ℕ) (l : FreeList) → IsHeap lo hi l → 0 < n → Got lo hi n l (take n l)
take-Got lo hi n l h hn =
    got (take_first n l.blocks) (take_first-Searched lo hi n l.blocks h.order h.fits hn)
  where
    got :
        (r : Option (ℕ × List Block))
        → Searched lo hi n l.blocks r
        → Got lo hi n l (elim r [
          | none ↦ (none, l)
          | some (a, rest) ↦ (some a, record { mlength = sub32 l.mlength n; blocks = rest })
        ])
    got none s = (s, refl)
    got (some (a, rest)) s = (take-IsHeap lo hi n a l rest h s, s)

-- On a heap in order, a request of 1 to 2^32 - 8 bytes, rounded up to n, either fails, with the heap
-- unchanged and every free block shorter than n, or takes n bytes that were all free out of the
-- heap: just they are no longer free, the list stays in order and mlength counts it.
pub getmem-Got :
    (lo hi nbytes : ℕ) (l : FreeList)
    → IsHeap lo hi l
    → 1 ≤ nbytes
    → nbytes ≤ 2 ^ 32 - 8
    → Got lo hi (roundmb nbytes) l (getmem nbytes l)
unfolding getmem
getmem-Got lo hi nbytes l h a b =
    rw (==_ne nbytes 0 (omega arith))
      (take-Got lo hi (roundmb nbytes) l h (roundmb-positive nbytes a b))
