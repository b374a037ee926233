-- ===== src/Disk/Read.antt =====
-- What read_bs() brings into memory from a disk whose reads succeed.
use operating_systems_paging.Prelude.{
  ℕ, zero, suc, ◌+◌, ◌/◌, ◌%◌, ◌<◌, ◌≡◌, refl, Bool, true, ◌&&◌, some, arith, ltb, leb, ◌==◌,
  if◌then◌else◌,
}
use operating_systems_paging.Outcome.{done, ◌>>=◌, Returns, Returns-mono, Returns-bind}
use operating_systems_paging.BackingStore.{Stores}
use operating_systems_paging.Disk.{
  Device, Memory, first_block, copy_block, in_store, read_block, read_blocks, read_bs,
}

-- A driver whose reads succeed, return the blocks on the disk and leave them alone.
pub record Reliable {S : Type 0} (dev : Device S) : Type 0 where
  pub contents : S → ℕ → ℕ → ℕ
  pub reads : (blk : ℕ) (d : S) → (dev.read blk d).0 ≡ some (contents d blk)
  pub keeps : (blk : ℕ) (d : S) → (dev.read blk d).1 ≡ d

-- The store can be read: the server is active, the mutex is free, and the page is one of the store's.
pub record CanRead (bs_id page : ℕ) (s : Stores) : Type 0 where
  pub active : s.active ≡ true
  pub unlocked : s.bs_sem ≡ 1
  pub known : bs_id < 8
  pub within : in_store bs_id page s ≡ true

module _ {S : Type 0} (dev : Device S) (r : Reliable dev) where
  -- the word that the disk has for word `j` of the page that begins at block `blk`
  abbrev pub disk_word : S → ℕ → ℕ → ℕ
  disk_word d blk j = r.contents d (blk + j / 128) (j % 128)

  read_block_lem :
      (attempts blk : ℕ) (d : S)
      → read_block dev attempts blk d ≡ done (attempts, r.contents d blk, d)
  unfolding read_block
  read_block_lem zero blk d = rw (r.reads blk d, r.keeps blk d, read_block)
  read_block_lem (suc attempts) blk d = rw (r.reads blk d, r.keeps blk d, read_block)

  -- Words `128 i` to `128 (i + n) - 1` of page `dst` come from the disk.
  abbrev Brought : ℕ → ℕ → ℕ → ℕ → Memory → S → Memory × S → Type 0
  Brought n i blk dst mem d out =
      ((p j : ℕ)
        → out.0 p j ≡ (
            if p == dst && (leb i (j / 128) && ltb (j / 128) (i + n))
            then disk_word d blk j
            else mem p j))
      × (out.1 ≡ d)

  -- The call returned OK with the page in memory, and the table and the disk as they were.
  abbrev pub Loaded : ℕ → ℕ → ℕ → Memory → Stores → S → Bool × Memory × Stores × S → Type 0
  Loaded dst bs_id page mem s d out =
      (out.0 ≡ true)
      × ((p j : ℕ)
          → out.1 p j
            ≡ (if p == dst && ltb j 1024 then disk_word d (first_block bs_id page) j else mem p j))
      × (out.2 ≡ s)
      × (out.3 ≡ d)

  read_blocks_lem :
      (n i attempts blk dst : ℕ) (mem : Memory) (d : S)
      → Returns (read_blocks dev n i attempts blk dst mem d) (Brought n i blk dst mem d)
  unfolding read_blocks copy_block
  read_blocks_lem zero i attempts blk dst mem d = (λ p j. ground arith, refl)
  read_blocks_lem (suc n) i attempts blk dst mem d = rw (read_block_lem attempts (blk + i) d) (
      Returns-mono
        (read_blocks dev n (i + 1) attempts blk dst (copy_block dst i (r.contents d (blk + i)) mem)
          d)
        (λ out h. (λ p j. ground (arith, h.0 p j), h.1))
        (read_blocks_lem n (i + 1) attempts blk dst (copy_block dst i (r.contents d (blk + i)) mem)
          d))

  read_bs_open :
      (dst bs_id page : ℕ) (mem : Memory) (s : Stores) (d : S)
      → CanRead bs_id page s
      → read_bs dev dst bs_id page mem s d ≡ (do
        (mem', d') ← read_blocks dev 8 0 10 (first_block bs_id page) dst mem d
        done (true, mem', record s { bs_sem = 1 }, d'))
  unfolding read_bs
  read_bs_open dst bs_id page mem s d c = ground (arith, c.active, c.unlocked, c.known, c.within)

  -- On a driver whose reads succeed, read_bs() of a page of an open store, with the server active and the
  -- mutex free, returns OK with the 1024 words of the destination page those of the store's page on
  -- the disk, all other memory, the table and the disk as they were, and the mutex free.
  pub read_bs_lem :
      (dst bs_id page : ℕ) (mem : Memory) (s : Stores) (d : S)
      → CanRead bs_id page s
      → Returns (read_bs dev dst bs_id page mem s d) (Loaded dst bs_id page mem s d)
  read_bs_lem dst bs_id page mem s d c = rw (read_bs_open dst bs_id page mem s d c) (
      Returns-bind (Loaded dst bs_id page mem s d)
        (read_blocks dev 8 0 10 (first_block bs_id page) dst mem d) _
        (read_blocks_lem 8 0 10 (first_block bs_id page) dst mem d)
        (λ out h. (refl, λ p j. ground (arith, h.0 p j), ground (arith, c.unlocked), h.1)))
