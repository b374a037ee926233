-- ===== src/Heap/Release.antt =====
-- What freemem() does to a heap in order, and that it takes back what getmem() gave.
use mathlib.Core.Path.{subst}
use operating_systems_paging.Prelude.{
  ℕ, ◌+◌, ◌-◌, ◌≤◌, ◌<◌, ◌^◌, ◌≡◌, refl, sym, Bool, true, false, Option, none, some, List, arith,
  ==_ne, leb→ltb, true≢false, ◌∙◌,
}
use operating_systems_paging.Heap.{Block, FreeList, give, put_back, freemem, getmem, roundmb, add32}
use operating_systems_paging.Heap.Order.{total-le, holds_unique, IsHeap}
use operating_systems_paging.Heap.Alloc.{Carved, Got, getmem-Got, roundmb-positive}
use operating_systems_paging.Heap.Join.{Filled, Given, give-Given}

-- SYSERR leaves the heap as it is and means that a byte of the region is free already; else the region
-- joins the free bytes and the heap stays in order.
abbrev pub Back : (lo hi a n : ℕ) → FreeList → Bool × FreeList → Type 0
Back lo hi a n l (false, k) = (k ≡ l) × Given lo hi a n l.blocks none
Back lo hi a n l (true, k) = IsHeap lo hi k × Filled lo hi a n l.blocks k.blocks

put_back-Back :
    (lo hi a n : ℕ) (l : FreeList)
    → IsHeap lo hi l
    → 0 < n
    → lo ≤ a
    → a + n ≤ hi
    → Back lo hi a n l (put_back a n l)
put_back-Back lo hi a n l h hn la ha =
    back (give a n l.blocks) (give-Given hi a n h.fits hn ha lo l.blocks h.order la)
  where
    back :
        (r : Option (List Block))
        → Given lo hi a n l.blocks r
        → Back lo hi a n l (elim r [
          | none ↦ (false, l)
          | some rest ↦ (true, record { mlength = add32 l.mlength n; blocks = rest })
        ])
    back none g = (refl, g)
    back (some rest) g = (
      record {
        order = g.order;
        counted = omega (
          arith,
          total-le lo hi rest (omega (arith, h.bounded)) g.order,
          g.size,
          h.counted,
          h.start,
          h.fits,
        );
        start = h.start;
        bounded = h.bounded;
        fits = h.fits;
      },
      g,
    )

-- On a heap in order from minheap to maxheap, freeing a region inside it of 1 to 2^32 - 8 bytes,
-- rounded up to n, either fails, with the heap unchanged and some byte of the region free already,
-- or adds just the bytes of the region to the free ones, the list staying in order, without adjacent
-- blocks, and mlength counting it.
pub freemem-Back :
    (lo hi a nbytes : ℕ) (l : FreeList)
    → IsHeap lo hi l
    → 1 ≤ nbytes
    → nbytes ≤ 2 ^ 32 - 8
    → lo ≤ a
    → a + roundmb nbytes ≤ hi
    → Back lo hi a (roundmb nbytes) l (freemem lo hi a nbytes l)
unfolding freemem
freemem-Back lo hi a nbytes l h p q la ha =
    rw (==_ne nbytes 0 (omega arith), leb→ltb lo a la, leb→ltb a hi (omega arith))
      (put_back-Back lo hi a (roundmb nbytes) l h (roundmb-positive nbytes p q) la ha)

-- What was carved out of a heap and comes back gives the heap that was there.
pub put_back-Carved :
    (lo hi a n : ℕ) (l k : FreeList)
    → IsHeap lo hi l
    → 0 < n
    → IsHeap lo hi k
    → Carved lo hi n l.blocks a k.blocks
    → put_back a n k ≡ (true, l)
put_back-Carved lo hi a n l k h hn hk c =
    restored (put_back a n k) (put_back-Back lo hi a n k hk hn c.above c.below)
  where
    restored : (r : Bool × FreeList) → Back lo hi a n k r → r ≡ (true, l)
    restored (false, m) (s, (x, u, v)) = absurd (true≢false (sym v ∙ c.away x u))
    restored (true, m) (s, f) = λ i. (true, record { mlength = count i; blocks = same i })
      where
        same : m.blocks ≡ l.blocks
        same =
            holds_unique lo hi m.blocks l.blocks s.order h.order (λ x. f.bytes x ∙ sym (c.bytes x))

        count : m.mlength ≡ l.mlength
        count = omega (arith, s.counted, h.counted, f.size, c.size)

-- On a heap in order, freemem() of what getmem() returned for a request of 1 to 2^32 - 8 bytes
-- succeeds and leaves the very free list that getmem() found.
pub freemem-getmem :
    (lo hi nbytes a : ℕ) (l k : FreeList)
    → IsHeap lo hi l
    → 1 ≤ nbytes
    → nbytes ≤ 2 ^ 32 - 8
    → getmem nbytes l ≡ (some a, k)
    → freemem lo hi a nbytes k ≡ (true, l)
unfolding freemem
freemem-getmem lo hi nbytes a l k h p q e =
    rw
      (
        ==_ne nbytes 0 (omega arith),
        leb→ltb lo a g.1.above,
        leb→ltb a hi (omega (arith, g.1.below)),
      )
      (put_back-Carved lo hi a (roundmb nbytes) l k h (roundmb-positive nbytes p q) g.0 g.1)
  where
    g : Got lo hi (roundmb nbytes) l (some a, k)
    g = subst (λ r. Got lo hi (roundmb nbytes) l r) e (getmem-Got lo hi nbytes l h p q)
