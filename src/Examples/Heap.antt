-- ===== src/Examples/Heap.antt =====
-- The theorems on the heaps at a heap of two free blocks, and at a virtual heap of two pages.
use operating_systems_paging.Prelude.{◌≡◌, refl, true, false, true≢false, some, [], ◌∷◌, arith, sym}
use operating_systems_paging.Heap.{
  FreeList, VHeap, block, vmeminit, getmem, freemem, getstk, freestk, vgetmem, vfreemem, take_first,
  take_last,
}
use operating_systems_paging.Heap.Order.{IsHeap}
use operating_systems_paging.Heap.Release.{Back, freemem-Back, freemem-getmem}
use operating_systems_paging.Heap.Stack.{freestk-getstk}
use operating_systems_paging.Heap.Virtual.{IsVirtual, started, vfreemem-vgetmem}

abbrev pub two_blocks : FreeList
two_blocks = record { mlength = 0x1100; blocks = block 0x1000 0x100 ∷ block 0x2000 0x1000 ∷ [] }

pub two_blocks-IsHeap : IsHeap 0x1000 0x4000 two_blocks
two_blocks-IsHeap = record {
  order = (omega arith, omega arith, omega arith, (omega arith, omega arith, omega arith, tt));
  counted = refl;
  start = omega arith;
  bounded = omega arith;
  fits = omega arith;
}

abbrev less_front : FreeList
less_front = record { mlength = 0x10e8; blocks = block 0x1018 0xe8 ∷ block 0x2000 0x1000 ∷ [] }

abbrev less_back : FreeList
less_back = record { mlength = 0x10e8; blocks = block 0x1000 0x100 ∷ block 0x2000 0xfe8 ∷ [] }

getmem_run : getmem 20 two_blocks ≡ (some 0x1000, less_front)
unfolding getmem take_first
getmem_run = refl

getstk_run : getstk 20 two_blocks ≡ (some 0x2ffc, less_back)
unfolding getstk take_last
getstk_run = refl

freemem-Back_example :
    Back 0x1000 0x4000 0x1100 24 two_blocks (freemem 0x1000 0x4000 0x1100 20 two_blocks)
freemem-Back_example =
    freemem-Back 0x1000 0x4000 0x1100 20 two_blocks two_blocks-IsHeap (omega arith) (omega arith)
      (omega arith) (omega arith)

freemem-getmem_example : freemem 0x1000 0x4000 0x1000 20 less_front ≡ (true, two_blocks)
freemem-getmem_example =
    freemem-getmem 0x1000 0x4000 20 0x1000 two_blocks less_front two_blocks-IsHeap (omega arith)
      (omega arith) getmem_run

freestk-getstk_example : freestk 0x1000 0x4000 0x2ffc 20 less_back ≡ (true, two_blocks)
freestk-getstk_example =
    freestk-getstk 0x1000 0x4000 20 0x2ffc two_blocks less_back two_blocks-IsHeap (omega arith)
      (omega arith) getstk_run

abbrev unused_heap : VHeap
unused_heap = record {
  vh = true;
  hsize = 2;
  inited = false;
  vmemlist = record { mlength = 0; blocks = [] };
}

unused_heap-IsVirtual : IsVirtual unused_heap
unused_heap-IsVirtual = record {
  vh = refl;
  lower = omega arith;
  upper = omega arith;
  heap = λ e. absurd (true≢false (sym e));
}

abbrev used_heap : VHeap
used_heap = record {
  vh = true;
  hsize = 2;
  inited = true;
  vmemlist = record { mlength = 0x1fe8; blocks = block 0x1000018 0x1fe8 ∷ [] };
}

vgetmem_run : vgetmem 20 unused_heap ≡ (some 0x1000000, used_heap)
unfolding vgetmem vmeminit take_first
vgetmem_run = refl

vfreemem-vgetmem_example : vfreemem 0x1000000 20 used_heap ≡ (true, started unused_heap)
vfreemem-vgetmem_example =
    vfreemem-vgetmem 20 0x1000000 unused_heap used_heap unused_heap-IsVirtual (omega arith)
      (omega arith) vgetmem_run
