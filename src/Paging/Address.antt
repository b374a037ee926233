-- ===== src/Paging/Address.antt =====
-- The parts of a virtual address. A mask that keeps the bits from `k` up is `x / 2 ^ k * 2 ^ k`, one
-- that keeps the bits below `k` is `x % 2 ^ k`.
use operating_systems_paging.Prelude.{ℕ, ◌+◌, ◌*◌, ◌/◌, ◌%◌, ◌^◌, ◌<◌, ◌≡◌, Bool, arith, leb}

-- vaddr & 0x00000FFF
unfoldable pub vaddr2offset : ℕ → ℕ
vaddr2offset vaddr = vaddr % 2 ^ 12

-- (vaddr & 0xFFC00000) >> 22
unfoldable pub vaddr2pdi : ℕ → ℕ
vaddr2pdi vaddr = vaddr / 2 ^ 22 * 2 ^ 22 / 2 ^ 22

-- (vaddr & 0x003FF000) >> 12
unfoldable pub vaddr2pti : ℕ → ℕ
vaddr2pti vaddr = vaddr % 2 ^ 22 / 2 ^ 12 * 2 ^ 12 / 2 ^ 12

unfoldable pub vaddr2vpn : ℕ → ℕ
vaddr2vpn vaddr = vaddr / 2 ^ 12

-- VHEAP_START
abbrev pub vheap_start : ℕ
vheap_start = 0x01000000

-- isInvalidAddr() on the heap size of the process
unfoldable pub is_invalid_addr : ℕ → ℕ → Bool
is_invalid_addr a hsize = leb ((vheap_start + 4096 * hsize) % 2 ^ 32) a

-- The directory index, table index and offset of a 32-bit address are in range and make it up, and its
-- page number is the directory index followed by the table index.
pub vaddr_parts :
    (a : ℕ)
    → a < 2 ^ 32
    → (vaddr2pdi a < 1024)
      × (vaddr2pti a < 1024)
      × (vaddr2offset a < 4096)
      × (vaddr2pdi a * 2 ^ 22 + vaddr2pti a * 2 ^ 12 + vaddr2offset a ≡ a)
      × (vaddr2vpn a ≡ vaddr2pdi a * 1024 + vaddr2pti a)
unfolding vaddr2pdi vaddr2pti vaddr2offset vaddr2vpn
vaddr_parts a h = omega arith
