-- ===== src/Pools/Link.antt =====
-- The buffers that mkbufpool() links.
use mathlib.Core.Path.{subst}
use native.Mathlib.Nat.{mul-le-mul_right}
use operating_systems_paging.Prelude.{
  ℕ, zero, suc, ◌+◌, ◌-◌, ◌*◌, ◌<◌, ◌≤◌, ◌≡◌, ◌≢◌, ◌^◌, refl, ◌∙◌, inl, inr, false, Option, some,
  none, List, [], ◌∷◌, arith, ==_refl, ==_ne, Bool-cases, update,
}
use operating_systems_paging.Heap.{FreeList, getmem, roundmb}
use operating_systems_paging.Heap.Order.{IsHeap}
use operating_systems_paging.Heap.Alloc.{Got, getmem-Got}
use operating_systems_paging.Semaphores.{Semtab, nsem, semcreate, semcount}
use operating_systems_paging.Semaphores.Create.{Created, semcreate-Created}
use operating_systems_paging.Pools.{
  Pools, link_buffers, round_buffer, mkbufpool, is_bad_pool, bp_maxn, bp_maxb,
}

-- From `h` the words lead through the free buffers `bs` to NULL.
abbrev pub Leads : (ℕ → ℕ) → ℕ → List ℕ → Type 0
Leads word h [] = h ≡ 0
Leads word h (b ∷ bs) = (h ≡ b) × (b ≢ 0) × Leads word (word b) bs

-- `n` buffers of a size, from `a` on
abbrev pub buffers : ℕ → ℕ → ℕ → List ℕ
buffers zero size a = []
buffers (suc n) size a = a ∷ buffers n size (a + size)

link_buffers-same : (n size a y : ℕ) (word : ℕ → ℕ) → y < a → link_buffers n size a word y ≡ word y
unfolding link_buffers
link_buffers-same zero size a y word h = rw (==_ne a y (λ e. omega (arith, e, h))) refl
link_buffers-same (suc n) size a y word h =
    link_buffers-same n size (a + size) y (update word a (a + size)) (omega (arith, h))
    ∙ rw (==_ne a y (λ e. omega (arith, e, h))) refl

-- The loop of mkbufpool() leads through every buffer in the order of the addresses.
pub link_buffers-Leads :
    (n size a : ℕ) (word : ℕ → ℕ)
    → 0 < size
    → a ≢ 0
    → Leads (link_buffers n size a word) a (buffers (suc n) size a)
unfolding link_buffers
link_buffers-Leads zero size a word p h = (refl, h, rw (==_refl a) refl)
link_buffers-Leads (suc n) size a word p h = (
  refl,
  h,
  rw
      (
        link_buffers-same n size (a + size) a (update word a (a + size)) (omega (arith, p)),
        ==_refl a,
      )
      (link_buffers-Leads n size (a + size) (update word a (a + size)) p
        (λ e. omega (arith, e, p))),
)

-- A pool that is made has the next identifier, the memory that getmem() gives, a semaphore with the number of
-- its buffers, and all of them on its free list; a failure makes no pool and writes no buffer.
abbrev pub Made : (bufsiz numbufs : ℕ) → Pools → Option ℕ × Pools → Type 0
Made bufsiz numbufs w (none, w') = (w'.nbpools ≡ w.nbpools) × (w'.word ≡ w.word)
Made bufsiz numbufs w (some pool, w') =
    (pool ≡ w.nbpools)
    × (w'.nbpools ≡ pool + 1)
    × ((buf : ℕ) × (getmem (numbufs * (round_buffer bufsiz + 4)) w.heap ≡ (some buf, w'.heap))
        × Leads w'.word (w'.buftab pool).bpnext (buffers numbufs (round_buffer bufsiz + 4) buf))
    × (semcount (w'.buftab pool).bpsem w'.kernel.semtab ≡ some numbufs)

module _ (lo hi bufsiz numbufs : ℕ) (w : Pools) (hp : IsHeap lo hi w.heap)
    (turn : w.kernel.semtab.nextsem < nsem) (ok : is_bad_pool bufsiz numbufs w ≡ false) where
  positive : 1 ≤ numbufs
  positive = ground (arith, ok)

  few : numbufs ≤ bp_maxn
  few = ground (arith, ok)

  small : bufsiz ≤ bp_maxb
  small = ground (arith, ok)

  bytes :
      (1 ≤ numbufs * (round_buffer bufsiz + 4)) × (numbufs * (round_buffer bufsiz + 4) ≤ 2 ^ 32 - 8)
  bytes =
      let up = mul-le-mul_right {m = numbufs} {n = bp_maxn} (round_buffer bufsiz + 4) few in
      let low = mul-le-mul_right {m = 1} {n = numbufs} (round_buffer bufsiz + 4) positive in
      (omega (arith, low, small), omega (arith, up, small))

  made :
      (out : Option ℕ × FreeList)
      → getmem (numbufs * (round_buffer bufsiz + 4)) w.heap ≡ out
      → Got lo hi (roundmb (numbufs * (round_buffer bufsiz + 4))) w.heap out
      → (sem : Option ℕ × Semtab) → Created numbufs w.kernel.semtab sem
      → Made bufsiz numbufs w (elim out.0 [
        | none ↦ (none, record w { heap = out.1 })
        | some buf ↦ elim sem.0 [
          | none ↦ (
            none,
            record w {
              heap = out.1;
              buftab = update w.buftab w.nbpools (record (w.buftab w.nbpools) {
                bpsize = round_buffer bufsiz;
                bpnext = buf;
                bpsem = 2 ^ 32 - 1;
              });
              kernel = record w.kernel { semtab = sem.1 };
            },
          )
          | some s ↦ (
            some w.nbpools,
            record w {
              heap = out.1;
              buftab = update w.buftab w.nbpools (record (w.buftab w.nbpools) {
                bpsize = round_buffer bufsiz;
                bpnext = buf;
                bpsem = s;
              });
              nbpools = w.nbpools + 1;
              word = link_buffers (numbufs - 1) (round_buffer bufsiz + 4) buf w.word;
              kernel = record w.kernel { semtab = sem.1 };
            },
          )
        ]
      ])
  made (none, h) g got sem c = (refl, refl)
  made (some buf, h) g got (none, t) c = (refl, refl)
  made (some buf, h) g (hk, carved) (some s, t) c = (
    refl,
    refl,
    (
      buf,
      g,
      rw (==_refl w.nbpools) (
          subst
            (λ n.
              Leads (link_buffers (numbufs - 1) (round_buffer bufsiz + 4) buf w.word) buf
                (buffers n (round_buffer bufsiz + 4) buf))
            size
            (link_buffers-Leads (numbufs - 1) (round_buffer bufsiz + 4) buf w.word (omega arith)
              not_null)),
    ),
    rw (==_refl w.nbpools) c.3,
  )
    where
      size : suc (numbufs - 1) ≡ numbufs
      size = omega (arith, positive)

      not_null : buf ≢ 0
      not_null e = omega (arith, carved.above, hp.start, e)

-- mkbufpool(), on a heap in order and with nextsem an index of the table, either makes the next pool, with as many
-- free buffers as asked for in the memory that it takes and a semaphore that counts them, or fails and makes none.
pub mkbufpool-Made :
    (lo hi bufsiz numbufs : ℕ) (w : Pools)
    → IsHeap lo hi w.heap
    → w.kernel.semtab.nextsem < nsem
    → Made bufsiz numbufs w (mkbufpool bufsiz numbufs w)
unfolding mkbufpool
mkbufpool-Made lo hi bufsiz numbufs w hp turn = elim (Bool-cases (is_bad_pool bufsiz numbufs w)) [
  | inl b ↦ rw b (refl, refl)
  | inr ok ↦
      let (low, up) = bytes lo hi bufsiz numbufs w hp turn ok in
      rw ok (
        made lo hi bufsiz numbufs w hp turn ok (getmem (numbufs * (round_buffer bufsiz + 4)) w.heap)
          refl (getmem-Got lo hi (numbufs * (round_buffer bufsiz + 4)) w.heap hp low up)
          (semcreate numbufs w.kernel.semtab)
          (semcreate-Created numbufs w.kernel.semtab turn
            (omega (arith, few lo hi bufsiz numbufs w hp turn ok))))
]
