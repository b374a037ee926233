-- ===== src/Heap.antt =====
-- The heap and the virtual heaps: system/getmem.c, freemem.c, getstk.c, vgetmem.c and vfreemem.c. The
-- list that is linked through the free blocks themselves stands as the list of its blocks. Addresses
-- and lengths are uint32 numbers, and arithmetic on them wraps.
pub mod Order
pub mod Alloc
pub mod Join
pub mod Release
pub mod Stack
pub mod Virtual
use operating_systems_paging.Prelude.{
  ℕ, ◌+◌, ◌-◌, ◌*◌, ◌/◌, ◌%◌, ◌^◌, Bool, true, false, not, ◌&&◌, ◌||◌, Option, none, some, List, [],
  ◌∷◌, ltb, leb, ◌==◌, if◌then◌else◌,
}

-- struct memblk: where the block is and its mlength
pub record Block : Type 0 where
  pub addr : ℕ
  pub len : ℕ

abbrev pub block : ℕ → ℕ → Block
block a n = record { addr = a; len = n }

-- memlist: its mlength and the blocks that it links
pub record FreeList : Type 0 where
  pub mlength : ℕ
  pub blocks : List Block

-- roundmb(x), (7 + x) & ~7
abbrev pub roundmb : ℕ → ℕ
roundmb x = (7 + x) % 2 ^ 32 / 8 * 8

abbrev pub add32 : ℕ → ℕ → ℕ
add32 a b = (a + b) % 2 ^ 32

abbrev pub sub32 : ℕ → ℕ → ℕ
sub32 a b = (a + 2 ^ 32 - b) % 2 ^ 32

-- the end of a block
abbrev pub top : Block → ℕ
top b = add32 b.addr b.len

-- The search of getmem() for the first block that fits: the address and the list without it.
unfoldable pub take_first : ℕ → List Block → Option (ℕ × List Block)
take_first n [] = none
take_first n (b ∷ bs) =
    let later : Option (ℕ × List Block) = elim (take_first n bs) [
      | none ↦ none
      | some (a, rest) ↦ some (a, b ∷ rest)
    ] in
    if b.len == n
    then some (b.addr, bs)
    else if ltb n b.len
    then some (b.addr, block (add32 b.addr n) (sub32 b.len n) ∷ bs)
    else later

-- SYSERR is `none`.
abbrev pub take : ℕ → FreeList → Option ℕ × FreeList
take n l = elim (take_first n l.blocks) [
  | none ↦ (none, l)
  | some (a, rest) ↦ (some a, record { mlength = sub32 l.mlength n; blocks = rest })
]

unfoldable pub getmem : ℕ → FreeList → Option ℕ × FreeList
getmem nbytes l = if nbytes == 0 then (none, l) else take (roundmb nbytes) l

-- The search of getstk() for the last block that fits: the address of the part taken, at the block's
-- end, and the list without it.
unfoldable pub take_last : ℕ → List Block → Option (ℕ × List Block)
take_last n [] = none
take_last n (b ∷ bs) = elim (take_last n bs) [
  | some (a, rest) ↦ some (a, b ∷ rest)
  | none ↦
      if not (leb n b.len)
      then none
      else if n == b.len
      then some (b.addr, bs)
      else some (add32 b.addr (sub32 b.len n), record b { len = sub32 b.len n } ∷ bs)
]

-- The address returned is that of the highest word.
unfoldable pub getstk : ℕ → FreeList → Option ℕ × FreeList
getstk nbytes l =
    if nbytes == 0
    then (none, l)
    else (let n = roundmb nbytes in
        elim (take_last n l.blocks) [
          | none ↦ (none, l)
          | some (a, rest) ↦
              (some (sub32 (add32 a n) 4), record { mlength = sub32 l.mlength n; blocks = rest })
        ])

-- Coalesce with the next block if it is adjacent.
unfoldable pub join_next : Block → List Block → List Block
join_next b [] = b ∷ []
join_next b (x ∷ xs) =
    if top b == x.addr then record b { len = add32 b.len x.len } ∷ xs else b ∷ x ∷ xs

-- (next != NULL) && block+nbytes > next
abbrev pub hits_next : ℕ → ℕ → List Block → Bool
hits_next a n [] = false
hits_next a n (x ∷ xs) = ltb x.addr (add32 a n)

-- The part of freemem() after the walk that stopped between `prev` and `next`.
unfoldable pub link_after : ℕ → ℕ → Block → List Block → Option (List Block)
link_after a n prev next =
    if ltb a (top prev) || hits_next a n next
    then none
    else if top prev == a
    then some (join_next (record prev { len = add32 prev.len n }) next)
    else some (prev ∷ join_next (block a n) next)

-- The walk, with `prev` the last block passed.
unfoldable pub walk : ℕ → ℕ → Block → List Block → Option (List Block)
walk a n prev [] = link_after a n prev []
walk a n prev (x ∷ xs) =
    let further : Option (List Block) = elim (walk a n x xs) [
      | none ↦ none
      | some rest ↦ some (prev ∷ rest)
    ] in
    if ltb x.addr a then further else link_after a n prev (x ∷ xs)

-- With no block passed `top` is NULL; it differs from the block, since minheap is not 0. With no block left the code
-- compares the end of the block with NULL, which only a sum that wraps around to 0 equals; that test is left out.
unfoldable pub give : ℕ → ℕ → List Block → Option (List Block)
give a n [] = some (block a n ∷ [])
give a n (x ∷ xs) =
    if ltb x.addr a
    then walk a n x xs
    else if hits_next a n (x ∷ xs)
    then none
    else some (join_next (block a n) (x ∷ xs))

abbrev pub put_back : ℕ → ℕ → FreeList → Bool × FreeList
put_back a n l = elim (give a n l.blocks) [
  | none ↦ (false, l)
  | some rest ↦ (true, record { mlength = add32 l.mlength n; blocks = rest })
]

-- freemem() for a heap from minheap to maxheap; false is SYSERR.
unfoldable pub freemem : (minheap maxheap : ℕ) → ℕ → ℕ → FreeList → Bool × FreeList
freemem minheap maxheap a nbytes l =
    if nbytes == 0 || ltb a minheap || ltb maxheap a
    then (false, l)
    else put_back a (roundmb nbytes) l

-- freestk(p, len)
abbrev pub freestk : (minheap maxheap : ℕ) → ℕ → ℕ → FreeList → Bool × FreeList
freestk minheap maxheap p len l =
    freemem minheap maxheap (add32 (sub32 p (roundmb len)) 4) (roundmb len) l

-- The fields vh, hsize, vmeminit and vmemlist of a process.
pub record VHeap : Type 0 where
  pub vh : Bool
  pub hsize : ℕ
  pub inited : Bool
  pub vmemlist : FreeList

abbrev pub vheap_start : ℕ
vheap_start = 0x01000000

abbrev pub vheap_bytes : VHeap → ℕ
vheap_bytes v = 4096 * v.hsize % 2 ^ 32

-- One block holds the whole heap.
unfoldable pub vmeminit : VHeap → VHeap
vmeminit v = record v {
  inited = true;
  vmemlist = record { mlength = vheap_bytes v; blocks = block vheap_start (vheap_bytes v) ∷ [] };
}

unfoldable pub vgetmem : ℕ → VHeap → Option ℕ × VHeap
vgetmem nbytes v =
    if nbytes == 0
    then (none, v)
    else if not v.vh
    then (none, v)
    else (let w = if v.inited then v else vmeminit v in
        let (r, l) = take (roundmb nbytes) w.vmemlist in (r, record w { vmemlist = l }))

unfoldable pub vfreemem : ℕ → ℕ → VHeap → Bool × VHeap
vfreemem a nbytes v =
    if nbytes == 0 || ltb a vheap_start || ltb (add32 vheap_start (vheap_bytes v)) a
    then (false, v)
    else if not v.vh
    then (false, v)
    else (let (r, l) = put_back a (roundmb nbytes) v.vmemlist in (r, record v { vmemlist = l }))
