-- ===== src/Machine/Fault/Served.antt =====
-- A page fault that finds its page table present and a frame unused.
use operating_systems_paging.Prelude.{
  ℕ, ◌+◌, ◌*◌, ◌%◌, ◌^◌, ◌<◌, ◌≡◌, refl, false, ◌&&◌, Option, some, arith, ltb, ◌==◌, if◌then◌else◌,
  ◌≢◌,
}
use operating_systems_paging.Outcome.{done, panic, ◌>>=◌, Returns, Returns-bind}
use operating_systems_paging.BackingStore.{Stores}
use operating_systems_paging.BackingStore.Process.{get_bs_info}
use operating_systems_paging.Frames.{Status, fifo, page, ptab, pdir, nframes, find_unused}
use operating_systems_paging.Frames.Free.{init_frame-SameUse}
use operating_systems_paging.Frames.Search.{find_unused-some}
use operating_systems_paging.Paging.Address.{vaddr2pdi, vaddr2pti, vaddr2vpn, is_invalid_addr}
use operating_systems_paging.Paging.Entry.{pres, set_pres, base, set_addr, entry_fields}
use operating_systems_paging.Disk.{Device, Memory, first_block, read_bs}
use operating_systems_paging.Disk.Read.{Reliable, CanRead, disk_word, read_bs_lem}
use operating_systems_paging.Machine.{
  Machine, Place, place, frame_page, take_frame, with_frames, store_word, get_new_frame,
  get_new_frame_fifo, inc_ref_count,
}
use operating_systems_paging.Machine.Tables.{page_addr}
use operating_systems_paging.Machine.Fault.{Verdict, resumed, load_page, pf_handler, vaddr2paddr}

module _ {S : Type 0} (dev : Device S) where
  abbrev pub found : Machine S → Option ℕ × ℕ
  found m = find_unused nframes m.frames.next_fifo m.frames.ipt

  get_new_frame-unused :
      (type : Status) (pid vpn : ℕ) (m : Machine S) (fr : ℕ)
      → m.frames.currpolicy ≡ fifo
      → (found m).0 ≡ some fr
      → get_new_frame dev type pid vpn m
        ≡ done (
          some (frame_page fr),
          take_frame fr type pid vpn (with_frames (record m.frames { next_fifo = (found m).1 }) m),
        )
  unfolding get_new_frame get_new_frame_fifo
  get_new_frame-unused type pid vpn m fr p e = ground (arith, p, e)

  -- The page at `a` can be loaded from page `off` of store `bsd`: the entry for its table is present,
  -- frames `df` and `tf` hold the directory and the table, and frame `fr` is the unused one that the
  -- search finds.
  pub record CanServe (m : Machine S) (a fr df tf bsd off : ℕ) : Type 0 where
    pub lock_free : m.pf_sem ≡ 1
    pub valid : is_invalid_addr a ((m.procs m.currpid).hsize) ≡ false
    pub policy : m.frames.currpolicy ≡ fifo
    pub unused : (found m).0 ≡ some fr
    pub dir_page : (m.procs m.currpid).pd ≡ frame_page df
    pub dir_small : df < nframes
    pub dir_status : (m.frames.ipt df).status ≡ pdir
    pub table_page : base (m.mem (frame_page df) (vaddr2pdi a)) ≡ frame_page tf
    pub table_small : tf < nframes
    pub table_status : (m.frames.ipt tf).status ≡ ptab
    pub present : pres (m.mem (frame_page df) (vaddr2pdi a)) ≡ 1
    pub info : get_bs_info ((m.procs m.currpid).pbsd) (vaddr2vpn a) ≡ done (bsd, off)
    pub can_read : CanRead bsd off m.stores

  module _ (r : Reliable dev) (m : Machine S) (a fr df tf bsd off : ℕ)
      (c : CanServe m a fr df tf bsd off) where
    -- What the handler has done: the process resumes with the page mapped to frame `fr`, whose words
    -- are those of the disk, and the lock is free.
    pub record Served (out : Verdict × Machine S) : Type 0 where
      pub verdict : out.0 ≡ resumed
      pub lock : out.1.pf_sem ≡ 1
      pub counted : out.1.pfc ≡ (m.pfc + 1) % 2 ^ 32
      pub mapped : pres (out.1.mem (frame_page tf) (vaddr2pti a)) ≡ 1
      pub still : out.1.mem (frame_page df) (vaddr2pdi a) ≡ m.mem (frame_page df) (vaddr2pdi a)
      pub address : vaddr2paddr dev a out.1 ≡ frame_page fr * 4096 + a % 2 ^ 12
      pub words :
          (j : ℕ)
          → j < 1024
          → out.1.mem (frame_page fr) j ≡ disk_word dev r m.disk (first_block bsd off) j
      pub kept : (out.1.stores ≡ m.stores) × (out.1.disk ≡ m.disk)
      pub frame :
          ((out.1.frames.ipt fr).status ≡ page)
          × ((out.1.frames.ipt fr).pid ≡ m.currpid)
          × ((out.1.frames.ipt fr).vpn ≡ vaddr2vpn a)
      pub count : (out.1.frames.ipt tf).ref_count ≡ ((m.frames.ipt tf).ref_count + 1) % 2 ^ 32

    frames_apart : (fr < nframes) × (fr ≢ df) × (fr ≢ tf) × (df ≢ tf)
    frames_apart = ground (
      arith,
      find_unused-some nframes m.frames.next_fifo m.frames.ipt fr c.unused,
      c.dir_status,
      c.table_status,
    )

    abbrev target : Place
    target = place ((m.procs m.currpid).pd) a m.mem

    -- the machine once the frame is taken
    abbrev ready : Machine S
    ready = take_frame fr page m.currpid (vaddr2vpn a) (record m {
      frames = record m.frames { next_fifo = (found m).1 };
      pfc = (m.pfc + 1) % 2 ^ 32;
      pf_sem = 0;
    })

    -- what pf_handler() makes of the page that read_bs() has brought into memory
    abbrev finished : Memory → Stores → S → Machine S
    finished mem stores disk =
        let m2 =
          inc_ref_count target.table (record ready { mem = mem; stores = stores; disk = disk }) in
        let w = set_addr (page_addr (frame_page fr)) (set_pres 1 (mem target.table target.pti)) in
        record m2 { mem = store_word target.table target.pti w mem; pf_sem = 1 }

    abbrev entered : Machine S
    entered = record m { pfc = (m.pfc + 1) % 2 ^ 32; pf_sem = 0 }

    handler_loads : pf_handler dev a m ≡ load_page dev target entered
    unfolding pf_handler
    handler_loads = ground (arith, c.lock_free, c.valid, c.dir_page, c.present)

    load_reads : load_page dev target entered ≡ (do
      (ok, mem, stores, disk) ← read_bs dev (frame_page fr) bsd off m.mem m.stores m.disk
      if ok then done (resumed, finished mem stores disk) else panic)
    unfolding load_page inc_ref_count
    load_reads =
        rw (get_new_frame-unused page m.currpid (vaddr2vpn a) entered fr c.policy c.unused, c.info)

    finished-Served :
        (mem : Memory) (stores : Stores) (disk : S)
        → ((p j : ℕ)
            → mem p j ≡ (
                if p == frame_page fr && ltb j 1024
                then disk_word dev r m.disk (first_block bsd off) j
                else m.mem p j))
        → stores ≡ m.stores
        → disk ≡ m.disk
        → Served (resumed, finished mem stores disk)
    unfolding inc_ref_count vaddr2paddr
    finished-Served mem stores disk h es ed = record {
      verdict = refl;
      lock = refl;
      counted = refl;
      mapped = ground (
        arith,
        c.dir_page,
        c.table_page,
        entry_fields (mem target.table target.pti) (page_addr (frame_page fr)),
        entry_fields (set_pres 1 (mem target.table target.pti)) (page_addr (frame_page fr)),
      );
      still = ground (
        arith,
        c.dir_page,
        c.table_page,
        frames_apart,
        c.dir_small,
        c.table_small,
        h (frame_page df) (vaddr2pdi a),
      );
      address = ground (
        arith,
        c.dir_page,
        c.table_page,
        frames_apart,
        c.dir_small,
        c.table_small,
        h (frame_page df) (vaddr2pdi a),
        entry_fields (set_pres 1 (mem target.table target.pti)) (page_addr (frame_page fr)),
      );
      words = λ j lt.
          ground
            (arith, c.dir_page, c.table_page, frames_apart, c.table_small, h (frame_page fr) j);
      kept = (es, ed);
      frame = ground (
        arith,
        c.dir_page,
        c.table_page,
        frames_apart,
        c.table_small,
        init_frame-SameUse fr page m.currpid (vaddr2vpn a)
            (record m.frames { next_fifo = (found m).1 }) fr,
      );
      count = ground (
        arith,
        c.dir_page,
        c.table_page,
        frames_apart,
        c.table_small,
        init_frame-SameUse fr page m.currpid (vaddr2vpn a)
            (record m.frames { next_fifo = (found m).1 }) tf,
      );
    }

    -- Under FIFO, with reliable reads, a valid fault whose page table is present, with a frame unused and the
    -- page's store readable, is served: the handler returns to the process, the faulting address
    -- translates to the frame that the search found, the frame holds the page's words from the disk
    -- and is recorded for the page, the table's count goes up by one, the directory's entry, the stores
    -- and the disk are as before, and the lock is free.
    pub pf_handler-Served : Returns (pf_handler dev a m) Served
    pf_handler-Served =
        rw (handler_loads, load_reads)
          (Returns-bind Served (read_bs dev (frame_page fr) bsd off m.mem m.stores m.disk) _
            (read_bs_lem dev r (frame_page fr) bsd off m.mem m.stores m.disk c.can_read)
            (λ out h. rw (h.0) (finished-Served out.1 out.2 out.3 h.1 h.2 h.3)))
