-- ===== src/Machine/Evict.antt =====
-- Evicting the last resident page of a page table frees the table as well.
use operating_systems_paging.Prelude.{ℕ, ◌*◌, ◌%◌, ◌^◌, ◌<◌, ◌≡◌, false, arith, ◌≢◌}
use operating_systems_paging.Outcome.{done}
use operating_systems_paging.Frames.{nframes, free_frame}
use operating_systems_paging.Paging.Address.{vaddr2pdi, vaddr2pti}
use operating_systems_paging.Paging.Entry.{set_pres, base}
use operating_systems_paging.Disk.{Device, Memory}
use operating_systems_paging.Machine.{
  Machine, place_of, frame_page, set_pte, pte, flush, set_count, store_word, dec_ref_count,
  write_back, evict_frame, must_write,
}

module _ {S : Type 0} (dev : Device S) where
  -- Frame `x` holds a clean page, the only one in memory of the table in frame `tf`, for entry `i` of
  -- the directory in frame `df`.
  pub record IsLast (m : Machine S) (x df tf i : ℕ) : Type 0 where
    pub dir_page : (m.procs ((m.frames.ipt x).pid)).pd ≡ frame_page df
    pub dir_small : df < nframes
    pub dir_index : vaddr2pdi ((m.frames.ipt x).vpn * 4096 % 2 ^ 32) ≡ i
    pub table_page : base (m.mem (frame_page df) i) ≡ frame_page tf
    pub table_small : tf < nframes
    pub apart : df ≢ tf
    pub one : (m.frames.ipt tf).ref_count ≡ 1
    pub clean :
        must_write
          (set_pres 0 (m.mem (frame_page tf) (vaddr2pti ((m.frames.ipt x).vpn * 4096 % 2 ^ 32))))
        ≡ false

  module _ (m : Machine S) (x df tf i : ℕ) (c : IsLast m x df tf i) where
    abbrev entry : ℕ
    entry = vaddr2pti ((m.frames.ipt x).vpn * 4096 % 2 ^ 32)

    -- the memory without the page's entry, and without the table
    abbrev pub unmapped : Memory
    unmapped = store_word (frame_page tf) entry (set_pres 0 (m.mem (frame_page tf) entry)) m.mem

    abbrev pub without_table : Memory
    without_table = store_word (frame_page df) i (set_pres 0 (unmapped (frame_page df) i)) unmapped

    abbrev marked : Machine S
    marked =
        flush ((m.frames.ipt x).pid) ((m.frames.ipt x).vpn * 4096 % 2 ^ 32)
          (record m { mem = unmapped })

    abbrev pub evicted : Machine S
    evicted = record marked {
      frames = free_frame tf (set_count tf 0 m.frames);
      mem = without_table;
    }

    drops_table : dec_ref_count (place_of x m) marked ≡ evicted
    unfolding dec_ref_count
    drops_table = ground (arith, c.dir_page, c.dir_index, c.table_page, c.table_small, c.one)

    unmaps :
        flush
          ((m.frames.ipt x).pid)
          ((m.frames.ipt x).vpn * 4096 % 2 ^ 32)
          (set_pte (place_of x m) (set_pres 0 (pte (place_of x m) m)) m)
        ≡ marked
    unmaps = ground (arith, c.dir_page, c.dir_index, c.table_page)

    stays_out : write_back dev x ((m.frames.ipt x).pid) (place_of x m) evicted ≡ done evicted
    unfolding write_back
    stays_out =
        ground (
          arith, c.dir_page, c.dir_index, c.table_page, c.dir_small, c.table_small, c.apart,
          c.clean,
        )

    -- evictFrame() of the clean last page of a page table unmaps the page, frees the frame of the table and
    -- marks the directory's entry for the table as not present; nothing is written to the disk.
    pub evict_last : evict_frame dev x m ≡ done evicted
    unfolding evict_frame
    evict_last = rw (unmaps, drops_table) stays_out
