-- ===== src/Heap/Virtual.antt =====
-- The virtual heap of a process: its first use, and vfreemem() after vgetmem().
use mathlib.Core.Path.{subst}
use operating_systems_paging.Prelude.{
  ℕ, ◌+◌, ◌-◌, ◌*◌, ◌≤◌, ◌^◌, ◌≡◌, refl, sym, ◌∙◌, ◌%◌, ap, true, Option, some, arith,
  if◌then◌else◌, Bool-cases, ==_ne, leb→ltb, inl, inr,
}
use operating_systems_paging.Heap.{
  FreeList, VHeap, take, vheap_start, vheap_bytes, vmeminit, vgetmem, vfreemem, roundmb,
}
use operating_systems_paging.Heap.Order.{IsHeap}
use operating_systems_paging.Heap.Alloc.{Got, take-Got, roundmb-positive}
use operating_systems_paging.Heap.Release.{put_back-Carved}

abbrev pub vheap_end : VHeap → ℕ
vheap_end v = vheap_start + 4096 * v.hsize

-- A process with a virtual heap of 1 to 200 pages, which once it is used is in order.
pub record IsVirtual (v : VHeap) : Type 0 where
  pub vh : v.vh ≡ true
  pub lower : 1 ≤ v.hsize
  pub upper : v.hsize ≤ 200
  pub heap : v.inited ≡ true → IsHeap vheap_start (vheap_end v) v.vmemlist

-- the heap after its initialization on the first use
abbrev pub started : VHeap → VHeap
started v = if v.inited then v else vmeminit v

vmeminit-IsHeap :
    (v : VHeap)
    → 1 ≤ v.hsize
    → v.hsize ≤ 200
    → IsHeap vheap_start (vheap_end v) (vmeminit v).vmemlist
unfolding vmeminit
vmeminit-IsHeap v h k = record {
  order = (omega arith, omega arith, omega arith, tt);
  counted = omega arith;
  start = omega arith;
  bounded = omega arith;
  fits = omega arith;
}

started-IsHeap : (v : VHeap) → IsVirtual v → IsHeap vheap_start (vheap_end v) (started v).vmemlist
unfolding vmeminit
started-IsHeap v h = elim (Bool-cases v.inited) [
  | inl e ↦ rw e (h.heap e)
  | inr e ↦ rw e (vmeminit-IsHeap v h.lower h.upper)
]

with_list : VHeap → Option ℕ × FreeList → Option ℕ × VHeap
with_list v (r, l) = (r, record v { vmemlist = l })

vgetmem_lem :
    (nbytes : ℕ) (v : VHeap)
    → v.vh ≡ true
    → 1 ≤ nbytes
    → vgetmem nbytes v ≡ with_list (started v) (take (roundmb nbytes) (started v).vmemlist)
unfolding vgetmem with_list
vgetmem_lem nbytes v h k = rw (==_ne nbytes 0 (omega arith), h) refl

-- A process with a virtual heap of 1 to 200 pages that asks vgetmem() for 1 to 2^32 - 8 bytes, rounded
-- up to n, for the first time or later, either fails, its heap initialized but otherwise unchanged
-- and every free block shorter than n, or takes n bytes that were all free out of the heap, which
-- stays in order.
pub vgetmem-Got :
    (nbytes : ℕ) (v : VHeap)
    → IsVirtual v
    → 1 ≤ nbytes
    → nbytes ≤ 2 ^ 32 - 8
    → Got vheap_start
        (vheap_end v)
        (roundmb nbytes)
        (started v).vmemlist
        ((vgetmem nbytes v).0, (vgetmem nbytes v).1.vmemlist)
unfolding with_list
vgetmem-Got nbytes v h p q = rw (vgetmem_lem nbytes v h.vh p) (
    take-Got vheap_start (vheap_end v) (roundmb nbytes) (started v).vmemlist (started-IsHeap v h)
      (roundmb-positive nbytes p q))

started-vh : (v : VHeap) → v.vh ≡ true → (started v).vh ≡ true
unfolding vmeminit
started-vh v h = elim (Bool-cases v.inited) [ inl e ↦ rw e h | inr e ↦ rw e h ]

started-bytes : (v : VHeap) → vheap_bytes (started v) ≡ vheap_bytes v
unfolding vmeminit
started-bytes v = elim (Bool-cases v.inited) [ inl e ↦ rw e refl | inr e ↦ rw e refl ]

give_back :
    (nbytes a : ℕ) (v : VHeap) (k : FreeList)
    → IsVirtual v
    → 1 ≤ nbytes
    → nbytes ≤ 2 ^ 32 - 8
    → Got vheap_start (vheap_end v) (roundmb nbytes) (started v).vmemlist (some a, k)
    → vfreemem a nbytes (record (started v) { vmemlist = k }) ≡ (true, started v)
unfolding vfreemem
give_back nbytes a v k h p q (hk, c) =
    rw
      (
        ==_ne nbytes 0 (omega arith),
        leb→ltb vheap_start a c.above,
        started-bytes v,
        leb→ltb a ((vheap_start + vheap_bytes v) % 2 ^ 32) (omega (arith, c.below, h.upper)),
        started-vh v h.vh,
        put_back-Carved vheap_start (vheap_end v) a (roundmb nbytes) (started v).vmemlist k
            (started-IsHeap v h) (roundmb-positive nbytes p q) hk c,
      )
      (λ i. (true, record (started v) { vh = sym (started-vh v h.vh) i }))

-- For a process with a virtual heap of 1 to 200 pages, vfreemem() of what vgetmem() returned for a
-- request of 1 to 2^32 - 8 bytes succeeds and leaves the heap as it was, initialized if the request was
-- the first.
pub vfreemem-vgetmem :
    (nbytes a : ℕ) (v w : VHeap)
    → IsVirtual v
    → 1 ≤ nbytes
    → nbytes ≤ 2 ^ 32 - 8
    → vgetmem nbytes v ≡ (some a, w)
    → vfreemem a nbytes w ≡ (true, started v)
unfolding with_list
vfreemem-vgetmem nbytes a v w h p q e =
    trip (take (roundmb nbytes) (started v).vmemlist)
      (take-Got vheap_start (vheap_end v) (roundmb nbytes) (started v).vmemlist (started-IsHeap v h)
        (roundmb-positive nbytes p q))
      (sym (vgetmem_lem nbytes v h.vh p) ∙ e)
  where
    trip :
        (r : Option ℕ × FreeList)
        → Got vheap_start (vheap_end v) (roundmb nbytes) (started v).vmemlist r
        → with_list (started v) r ≡ (some a, w)
        → vfreemem a nbytes w ≡ (true, started v)
    trip (x, l) g f =
        subst (λ z. vfreemem a nbytes z ≡ (true, started v)) (ap (λ z. z.1) f)
          (give_back nbytes a v l h p q (
            subst (λ y. Got vheap_start (vheap_end v) (roundmb nbytes) (started v).vmemlist (y, l))
              (ap (λ z. z.0) f) g))
