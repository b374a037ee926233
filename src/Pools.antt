-- ===== src/Pools.antt =====
-- Buffer pools: system/bufinit.c, mkbufpool.c, getbuf.c, freebuf.c and include/bufpool.h. A buffer is the address
-- of its first word, which holds the next free buffer or, in use, the pool's identifier; NULL is 0. Identifiers
-- and sizes are the bit patterns of an int32. SYSERR is `none` or false.
pub mod Cycle
pub mod Link
use operating_systems_paging.Prelude.{
  ℕ, zero, suc, ◌+◌, ◌-◌, ◌*◌, ◌/◌, ◌%◌, ◌^◌, Bool, true, false, not, ◌||◌, Option, none, some, leb,
  ltb, ◌==◌, if◌then◌else◌, update,
}
use operating_systems_paging.Partial.{◌>>=◌}
use operating_systems_paging.Heap.{FreeList, getmem, add32, sub32}
use operating_systems_paging.Semaphores.{semcreate}
use operating_systems_paging.Kernel.{Kernel}
use operating_systems_paging.Kernel.Wait.{wait, signal}

-- struct bpentry
pub record Bpentry : Type 0 where
  pub bpnext : ℕ
  pub bpsem : ℕ
  pub bpsize : ℕ

-- buftab and nbpools, the first words of the buffers, the heap, and the scheduler with its semaphores
pub record Pools : Type 0 where
  pub buftab : ℕ → Bpentry
  pub nbpools : ℕ
  pub word : ℕ → ℕ
  pub heap : FreeList
  pub kernel : Kernel

-- NBPOOLS, BP_MAXB, BP_MINB and BP_MAXN
abbrev pub nbpools_max : ℕ
nbpools_max = 20

abbrev pub bp_maxb : ℕ
bp_maxb = 8192

abbrev pub bp_minb : ℕ
bp_minb = 8

abbrev pub bp_maxn : ℕ
bp_maxn = 2048

unfoldable pub bufinit : Pools → Pools
bufinit w = record w { nbpools = 0 }

-- `for (numbufs-- ; numbufs>0 ; numbufs--)` and the NULL at the end, where `n` rounds are left
unfoldable pub link_buffers : ℕ → (bufsiz buf : ℕ) → (ℕ → ℕ) → ℕ → ℕ
link_buffers zero bufsiz buf word = update word buf 0
link_buffers (suc n) bufsiz buf word =
    link_buffers n bufsiz (buf + bufsiz) (update word buf (buf + bufsiz))

-- Are the sizes refused? A negative number is above each maximum.
abbrev pub is_bad_pool : (bufsiz numbufs : ℕ) → Pools → Bool
is_bad_pool bufsiz numbufs w =
    ltb bufsiz bp_minb
    || ltb bp_maxb bufsiz
    || ltb numbufs 1
    || ltb bp_maxn numbufs
    || leb nbpools_max w.nbpools

-- a multiple of 4 bytes
abbrev pub round_buffer : ℕ → ℕ
round_buffer bufsiz = (bufsiz + 3) / 4 * 4

unfoldable pub mkbufpool : (bufsiz numbufs : ℕ) → Pools → Option ℕ × Pools
mkbufpool bufsiz numbufs w =
    let size = round_buffer bufsiz in
    let (r, heap) = getmem (numbufs * (size + 4)) w.heap in
    let (q, semtab) = semcreate numbufs w.kernel.semtab in
    let pool = w.nbpools in
    let e = record (w.buftab pool) { bpsize = size } in
    if is_bad_pool bufsiz numbufs w then (none, w) else elim r [
      | none ↦ (none, record w { heap = heap })
      | some buf ↦ elim q [
        | none ↦ (
          none,
          record w {
            heap = heap;
            buftab = update w.buftab pool (record e { bpnext = buf; bpsem = 2 ^ 32 - 1 });
            kernel = record w.kernel { semtab = semtab };
          },
        )
        | some sem ↦ (
          some pool,
          record w {
            heap = heap;
            buftab = update w.buftab pool (record e { bpnext = buf; bpsem = sem });
            nbpools = pool + 1;
            word = link_buffers (numbufs - 1) (size + 4) buf w.word;
            kernel = record w.kernel { semtab = semtab };
          },
        )
      ]
    ]

-- poolid < 0 || poolid >= nbpools
abbrev pub is_no_pool : ℕ → Pools → Bool
is_no_pool poolid w = leb (2 ^ 31) poolid || leb w.nbpools poolid

-- getbuf() up to wait(), whose result it does not read; false is SYSERR.
unfoldable pub getbuf_start : ℕ → Pools → Option (Bool × Pools)
getbuf_start poolid w =
    if is_no_pool poolid w
    then some (false, w)
    else do (ok, k) ← wait (w.buftab poolid).bpsem w.kernel; some (true, record w { kernel = k })

-- the rest of getbuf()
unfoldable pub getbuf_end : ℕ → Pools → ℕ × Pools
getbuf_end poolid w =
    let bufptr = (w.buftab poolid).bpnext in
    (
      add32 bufptr 4,
      record w {
        buftab = update w.buftab poolid (record (w.buftab poolid) { bpnext = w.word bufptr });
        word = update w.word bufptr poolid;
      },
    )

unfoldable pub freebuf : ℕ → Pools → Option (Bool × Pools)
freebuf bufaddr w =
    let buf = sub32 bufaddr 4 in
    let poolid = w.word buf in
    let e = w.buftab poolid in
    if is_no_pool poolid w then some (false, w) else do
      (ok, k) ← signal e.bpsem w.kernel
      some (
        true,
        record w {
          word = update w.word buf e.bpnext;
          buftab = update w.buftab poolid (record e { bpnext = buf });
          kernel = k;
        },
      )
