-- ===== src/Heap/Stack.antt =====
-- What getstk() does to a heap in order, and that freestk() takes it back.
use mathlib.Core.Path.{subst}
use operating_systems_paging.Prelude.{
  ℕ, ◌+◌, ◌-◌, ◌≤◌, ◌<◌, ◌^◌, ◌≡◌, refl, sym, true, not, Option, none, some, List, [], ◌∷◌, arith,
  leb, ◌==◌, if◌then◌else◌, All, inl, inr, Bool-cases, ==→≡, ==_ne, leb→ltb,
}
use operating_systems_paging.Heap.{
  Block, block, FreeList, take_last, getstk, freemem, freestk, roundmb, add32, sub32,
}
use operating_systems_paging.Heap.Order.{InOrder, InOrder-lower, holds-below, IsHeap}
use operating_systems_paging.Heap.Alloc.{
  Carved, Searched, whole, pass, roundmb-positive, take-IsHeap, add32-small, sub32-small,
}
use operating_systems_paging.Heap.Release.{put_back-Carved}

-- the end of the first block
back :
    (lo hi n : ℕ) (b : Block) (bs : List Block)
    → InOrder lo hi (b ∷ bs)
    → 0 < n
    → n < b.len
    → Carved lo hi n (b ∷ bs) (b.addr + (b.len - n)) (block b.addr (b.len - n) ∷ bs)
back lo hi n b bs (p, q, r, s) hn h = record {
  order = (
    p,
    omega arith,
    omega arith,
    InOrder-lower (b.addr + b.len + 1) (b.addr + (b.len - n) + 1) hi bs (omega arith) s,
  );
  above = omega arith;
  below = omega arith;
  bytes = λ x. ground arith;
  away = λ x w. ground (arith, holds-below x (b.addr + b.len + 1) hi bs s);
  size = omega arith;
}

-- The search for the last block that fits either finds one, from whose end the bytes come, or all are
-- too short.
take_last-Searched :
    (lo hi n : ℕ) (bs : List Block)
    → InOrder lo hi bs
    → hi < 2 ^ 32
    → 0 < n
    → Searched lo hi n bs (take_last n bs)
unfolding take_last
take_last-Searched lo hi n [] o hb hn = tt
take_last-Searched lo hi n (b ∷ bs) o hb hn =
    found (take_last n bs) (take_last-Searched (b.addr + b.len + 1) hi n bs o.3 hb hn)
  where
    found :
        (r : Option (ℕ × List Block))
        → Searched (b.addr + b.len + 1) hi n bs r
        → Searched lo hi n (b ∷ bs) (elim r [
          | some (a, rest) ↦ some (a, b ∷ rest)
          | none ↦
              if not (leb n b.len)
              then none
              else if n == b.len
              then some (b.addr, bs)
              else some (add32 b.addr (sub32 b.len n), record b { len = sub32 b.len n } ∷ bs)
        ])
    found (some (a, rest)) s = pass lo hi n b bs a rest o hn s
    found none s = elim (Bool-cases (leb n b.len)) [
      | inr e ↦ rw e (ground arith, s)
      | inl e ↦ elim (Bool-cases (n == b.len)) [
        | inl f ↦ rw (e, f) (whole lo hi n b bs o (sym (==→≡ n b.len f)))
        | inr f ↦
            rw
              (
                e,
                f,
                sub32-small b.len n (omega (arith, o.2)) (ground arith),
                add32-small b.addr (b.len - n) (omega (arith, o.2)),
              )
              (back lo hi n b bs o hn (ground arith))
      ]
    ]

-- SYSERR leaves the heap as it is and means that no block is long enough; else `n` free bytes whose
-- highest word is at the address returned come off the heap.
abbrev pub GotStack : (lo hi n : ℕ) → FreeList → Option ℕ × FreeList → Type 0
GotStack lo hi n l (none, k) = All (λ b. b.len < n) l.blocks × (k ≡ l)
GotStack lo hi n l (some p, k) =
    IsHeap lo hi k × ((a : ℕ) × (p + 4 ≡ a + n) × Carved lo hi n l.blocks a k.blocks)

-- On a heap in order, a request for a stack of 1 to 2^32 - 8 bytes, rounded up to n, either fails, with
-- the heap unchanged and every free block shorter than n, or returns the address of the highest word
-- of n bytes that were all free and that the heap, which stays in order, holds no more.
pub getstk-GotStack :
    (lo hi nbytes : ℕ) (l : FreeList)
    → IsHeap lo hi l
    → 1 ≤ nbytes
    → nbytes ≤ 2 ^ 32 - 8
    → GotStack lo hi (roundmb nbytes) l (getstk nbytes l)
unfolding getstk
getstk-GotStack lo hi nbytes l h p q = rw (==_ne nbytes 0 (omega arith)) (
    got (take_last (roundmb nbytes) l.blocks) (
      take_last-Searched lo hi (roundmb nbytes) l.blocks h.order h.fits
        (roundmb-positive nbytes p q)))
  where
    got :
        (r : Option (ℕ × List Block))
        → Searched lo hi (roundmb nbytes) l.blocks r
        → GotStack lo hi (roundmb nbytes) l (elim r [
          | none ↦ (none, l)
          | some (a, rest) ↦ (
            some (sub32 (add32 a (roundmb nbytes)) 4),
            record { mlength = sub32 l.mlength (roundmb nbytes); blocks = rest },
          )
        ])
    got none s = (s, refl)
    got (some (a, rest)) s = (
      take-IsHeap lo hi (roundmb nbytes) a l rest h s,
      (a, omega (arith, s.above, s.below, h.fits, roundmb-positive nbytes p q), s),
    )

-- On a heap in order, freestk() of what getstk() returned for a request of 1 to 2^32 - 8 bytes
-- succeeds and leaves the very free list that getstk() found.
pub freestk-getstk :
    (lo hi nbytes p : ℕ) (l k : FreeList)
    → IsHeap lo hi l
    → 1 ≤ nbytes
    → nbytes ≤ 2 ^ 32 - 8
    → getstk nbytes l ≡ (some p, k)
    → freestk lo hi p nbytes k ≡ (true, l)
unfolding freemem
freestk-getstk lo hi nbytes p l k h u v e =
    returned (subst (λ r. GotStack lo hi n l r) e (getstk-GotStack lo hi nbytes l h u v))
  where
    n : ℕ
    n = roundmb nbytes

    returned : GotStack lo hi (roundmb nbytes) l (some p, k) → freestk lo hi p nbytes k ≡ (true, l)
    returned (hk, (a, at_top, c)) =
        rw
          (
            start,
            again,
            ==_ne (roundmb nbytes) 0 (omega (arith, roundmb-positive nbytes u v)),
            leb→ltb lo a c.above,
            leb→ltb a hi (omega (arith, c.below)),
          )
          (put_back-Carved lo hi a (roundmb nbytes) l k h (roundmb-positive nbytes u v) hk c)
      where
        start : add32 (sub32 p (roundmb nbytes)) 4 ≡ a
        start = omega (arith, at_top, c.below, h.fits, roundmb-positive nbytes u v)

        again : roundmb (roundmb nbytes) ≡ roundmb nbytes
        again = omega arith
