-- ===== src/Disk.antt =====
-- read_bs() and write_bs(): paging/read_bs.c and paging/write_bs.c, over the remote disk WRDISK. A
-- page is 1024 words and a disk block 128, so a page is eight blocks. The addresses `dst` and `src`
-- are page-aligned, and stand here as page numbers.
pub mod Read
use operating_systems_paging.Prelude.{
  ℕ, zero, suc, ◌+◌, ◌*◌, ◌/◌, ◌%◌, Bool, true, false, not, ◌&&◌, ◌||◌, Option, none, some, leb,
  ◌==◌, if◌then◌else◌,
}
use operating_systems_paging.Outcome.{Outcome, done, panic, ◌>>=◌}
use operating_systems_paging.BackingStore.{Stores, lock, unlock, bad_id}

-- The driver of WRDISK, with states `S`: `read` is `none`, and `write` false, when the call of
-- read() or write() returns SYSERR.
pub record Device (S : Type 0) : Type 0 where
  pub read : ℕ → S → Option (ℕ → ℕ) × S
  pub write : ℕ → (ℕ → ℕ) → S → Bool × S

-- Physical memory: the words of each page.
abbrev pub Memory : Type 0
Memory = ℕ → ℕ → ℕ

-- RD_PAGES_PER_BS
abbrev pub rd_pages_per_bs : ℕ
rd_pages_per_bs = 205

abbrev pub first_block : ℕ → ℕ → ℕ
first_block bs_id page = (bs_id * rd_pages_per_bs + page) * 8

-- memcpy(dst + i*RD_BLKSIZ, buf, RD_BLKSIZ)
unfoldable pub copy_block : ℕ → ℕ → (ℕ → ℕ) → Memory → Memory
copy_block dst i buf mem p j = if p == dst && j / 128 == i then buf (j % 128) else mem p j

-- memcpy(buf, src + i*RD_BLKSIZ, RD_BLKSIZ)
abbrev pub block_of : Memory → ℕ → ℕ → ℕ → ℕ
block_of mem src i k = mem src (i * 128 + k)

-- the checks of both functions under the mutex: may the page be read or written?
abbrev pub in_store : ℕ → ℕ → Stores → Bool
in_store bs_id page s = (s.bstab bs_id).isopen && not (leb ((s.bstab bs_id).npages) page)

module _ {S : Type 0} (dev : Device S) where
  -- `while(SYSERR == read(...)) if(attempts-- == 0) panic(...)`: the attempts left and the block
  pub read_block : ℕ → ℕ → S → Outcome (ℕ × (ℕ → ℕ) × S)
  read_block zero blk d =
      let (r, d') = dev.read blk d in elim r [ none ↦ panic | some buf ↦ done (0, buf, d') ]
  read_block (suc attempts) blk d =
      let (r, d') = dev.read blk d in
      elim r [ none ↦ read_block attempts blk d' | some buf ↦ done (suc attempts, buf, d') ]

  -- the blocks from the `i`th on, with `n` left
  pub read_blocks : ℕ → ℕ → ℕ → ℕ → ℕ → Memory → S → Outcome (Memory × S)
  read_blocks zero i attempts blk dst mem d = done (mem, d)
  read_blocks (suc n) i attempts blk dst mem d = do
    (attempts', buf, d') ← read_block attempts (blk + i) d
    read_blocks n (i + 1) attempts' blk dst (copy_block dst i buf mem) d'

  pub read_bs : ℕ → ℕ → ℕ → Memory → Stores → S → Outcome (Bool × Memory × Stores × S)
  read_bs dst bs_id page mem s d =
      if not s.active || bad_id bs_id then done (false, mem, s, d) else do
        t ← lock s
        if not (in_store bs_id page t) then done (false, mem, unlock t, d) else do
          (mem', d') ← read_blocks 8 0 10 (first_block bs_id page) dst mem d
          done (true, mem', unlock t, d')

  pub write_block : ℕ → ℕ → (ℕ → ℕ) → S → Outcome (ℕ × S)
  write_block zero blk buf d =
      let (ok, d') = dev.write blk buf d in elim ok [ false ↦ panic | true ↦ done (0, d') ]
  write_block (suc attempts) blk buf d =
      let (ok, d') = dev.write blk buf d in
      elim ok [ false ↦ write_block attempts blk buf d' | true ↦ done (suc attempts, d') ]

  pub write_blocks : ℕ → ℕ → ℕ → ℕ → ℕ → Memory → S → Outcome S
  write_blocks zero i attempts blk src mem d = done d
  write_blocks (suc n) i attempts blk src mem d = do
    (attempts', d') ← write_block attempts (blk + i) (block_of mem src i) d
    write_blocks n (i + 1) attempts' blk src mem d'

  pub write_bs : ℕ → ℕ → ℕ → Memory → Stores → S → Outcome (Bool × Stores × S)
  write_bs src bs_id page mem s d = if not s.active || bad_id bs_id then done (false, s, d) else do
    t ← lock s
    if not (in_store bs_id page t) then done (false, unlock t, d) else do
      d' ← write_blocks 8 0 10 (first_block bs_id page) src mem d
      done (true, unlock t, d')
