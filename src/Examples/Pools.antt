-- ===== src/Examples/Pools.antt =====
-- The theorems on buffer pools at concrete inputs.
use operating_systems_paging.Prelude.{◌+◌, ◌*◌, ◌≡◌, refl, true, false, arith, if◌then◌else◌, ◌==◌}
use operating_systems_paging.Partial.{Ends}
use operating_systems_paging.Kernel.System.{InOrder}
use operating_systems_paging.Pools.{Pools, mkbufpool, getbuf_end, freebuf}
use operating_systems_paging.Pools.Link.{Made, mkbufpool-Made}
use operating_systems_paging.Pools.Cycle.{freebuf-getbuf}
use operating_systems_paging.Examples.Heap.{two_blocks, two_blocks-IsHeap}
use operating_systems_paging.Examples.Kernel.{booted, booted-InOrder}

-- no pool, and every semaphore free
abbrev no_pool : Pools
no_pool = record {
  buftab = λ i. record { bpnext = 0; bpsem = 0; bpsize = 0 };
  nbpools = 0;
  word = λ a. 0;
  heap = two_blocks;
  kernel = record booted {
    semtab = record {
      semtab = λ s. record { used = false; scount = 0; squeue = 104 + 2 * s };
      nextsem = 0;
    };
  };
}

mkbufpool-Made_example : Made 30 3 no_pool (mkbufpool 30 3 no_pool)
mkbufpool-Made_example = mkbufpool-Made 0x1000 0x4000 30 3 no_pool two_blocks-IsHeap (omega arith)

-- pool 0 with two free buffers
abbrev one_pool : Pools
one_pool = record {
  buftab = λ i. record { bpnext = 0x1000; bpsem = 5; bpsize = 32 };
  nbpools = 1;
  word = λ a. if a == 0x1000 then 0x1024 else 0;
  heap = two_blocks;
  kernel = booted;
}

freebuf-getbuf_example : Ends (freebuf (getbuf_end 0 one_pool).0 (getbuf_end 0 one_pool).1) (λ out.
    (out.0 ≡ true)
    × (out.1.buftab ≡ one_pool.buftab)
    × (out.1.word ≡ one_pool.word)
    × (out.1.nbpools ≡ 1)
    × InOrder out.1.kernel)
freebuf-getbuf_example =
    freebuf-getbuf 0 one_pool booted-InOrder refl (omega arith) (λ e. omega (arith, e))
