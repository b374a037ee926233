-- ===== src/Machine/Fault/Lost.antt =====
-- A page fault that must evict the last resident page of the very table it needs: the handler goes on
-- with the freed table.
use operating_systems_paging.Prelude.{
  ℕ, ◌+◌, ◌%◌, ◌^◌, ◌<◌, ◌≡◌, refl, ◌∙◌, true, false, ◌&&◌, none, some, arith, ltb, ◌==◌,
  if◌then◌else◌, List, [], ◌∷◌, ◌++◌,
}
use operating_systems_paging.Outcome.{done, panic, ◌>>=◌, Returns, Returns-bind}
use operating_systems_paging.BackingStore.{Stores}
use operating_systems_paging.BackingStore.Process.{get_bs_info}
use operating_systems_paging.Frames.{
  Ipt, Status, fifo, page, ptab, pdir, not_used, nframes, pick_frame, free_frame,
}
use operating_systems_paging.Frames.Fifo.{IsQueue}
use operating_systems_paging.Frames.Free.{
  SameUse, pick_frame-oldest, init_frame-SameUse, free_frame_self,
}
use operating_systems_paging.Paging.Address.{vaddr2pdi, vaddr2vpn, is_invalid_addr}
use operating_systems_paging.Paging.Entry.{pres, set_pres, set_addr, entry_fields}
use operating_systems_paging.Disk.{Device, Memory, first_block, read_bs}
use operating_systems_paging.Disk.Read.{Reliable, CanRead, disk_word, read_bs_lem}
use operating_systems_paging.Machine.{
  Machine, Place, place, frame_page, take_frame, with_frames, set_count, store_word, get_new_frame,
  get_new_frame_fifo, evict_frame, inc_ref_count,
}
use operating_systems_paging.Machine.Evict.{IsLast, unmapped, evicted, evict_last}
use operating_systems_paging.Machine.Tables.{page_addr}
use operating_systems_paging.Machine.Fault.{Verdict, resumed, load_page, pf_handler}
use operating_systems_paging.Machine.Fault.Served.{found}

module _ {S : Type 0} (dev : Device S) where
  get_new_frame-evicts :
      (type : Status) (pid vpn : ℕ) (m : Machine S) (x : ℕ) (t : Ipt)
      → m.frames.currpolicy ≡ fifo
      → (found dev m).0 ≡ none
      → pick_frame (record m.frames { next_fifo = (found dev m).1 }) ≡ done (some x, t)
      → get_new_frame dev type pid vpn m ≡ (do
        m2 ← evict_frame dev x (with_frames t m)
        done (some (frame_page x), take_frame x type pid vpn m2))
  unfolding get_new_frame get_new_frame_fifo
  get_new_frame-evicts type pid vpn m x t p e h = ground (arith, p, e, h)

  -- No frame is unused, and the oldest queued frame `x` holds the only page in memory, a clean one, of
  -- the table in frame `tf` that the faulting address needs; the process owns it.
  pub record IsCornered (m : Machine S) (a x df tf bsd off : ℕ) (xs : List ℕ) : Type 0 where
    pub lock_free : m.pf_sem ≡ 1
    pub valid : is_invalid_addr a ((m.procs m.currpid).hsize) ≡ false
    pub full : (found dev m).0 ≡ none
    pub queue : IsQueue m.frames (xs ++ x ∷ [])
    pub own : (m.frames.ipt x).pid ≡ m.currpid
    pub last : IsLast dev m x df tf (vaddr2pdi a)
    pub x_small : x < nframes
    pub x_status : (m.frames.ipt x).status ≡ page
    pub dir_status : (m.frames.ipt df).status ≡ pdir
    pub table_status : (m.frames.ipt tf).status ≡ ptab
    pub present : pres (m.mem (frame_page df) (vaddr2pdi a)) ≡ 1
    pub info : get_bs_info ((m.procs m.currpid).pbsd) (vaddr2vpn a) ≡ done (bsd, off)
    pub can_read : CanRead bsd off m.stores

  -- The process resumes, but the directory's entry for the address is not present and the table's
  -- frame is free.
  pub record IsLost (a df tf : ℕ) (out : Verdict × Machine S) : Type 0 where
    pub verdict : out.0 ≡ resumed
    pub absent : pres (out.1.mem (frame_page df) (vaddr2pdi a)) ≡ 0
    pub freed : (out.1.frames.ipt tf).status ≡ not_used

  module _ (r : Reliable dev) (m : Machine S) (a x df tf bsd off : ℕ) (xs : List ℕ)
      (c : IsCornered m a x df tf bsd off xs) where
    abbrev entered : Machine S
    entered = record m { pfc = (m.pfc + 1) % 2 ^ 32; pf_sem = 0 }

    abbrev target : Place
    target = place ((m.procs m.currpid).pd) a m.mem

    own_dir : (m.procs m.currpid).pd ≡ frame_page df
    own_dir = ground (arith, c.last.dir_page, c.own)

    handler_loads : pf_handler dev a m ≡ load_page dev target entered
    unfolding pf_handler
    handler_loads = ground (arith, c.lock_free, c.valid, own_dir, c.present)

    abbrev searched : Ipt
    searched = record m.frames { next_fifo = (found dev m).1 }

    searched-IsQueue : IsQueue searched (xs ++ x ∷ [])
    searched-IsQueue = record {
      policy = c.queue.policy;
      links = c.queue.links;
      head = c.queue.head;
      tail = c.queue.tail;
      no_repeat = c.queue.no_repeat;
      range = c.queue.range;
    }

    module _ (t : Ipt) (same : (f : ℕ) → SameUse (m.frames.ipt f) (t.ipt f)) where
      abbrev at_eviction : Machine S
      at_eviction = with_frames t entered

      still-IsLast : IsLast dev at_eviction x df tf (vaddr2pdi a)
      still-IsLast =
          let l = c.last in
          let (_, p, v, _) = same x in
          record {
            dir_page = rw p l.dir_page;
            dir_small = l.dir_small;
            dir_index = rw v l.dir_index;
            table_page = l.table_page;
            table_small = l.table_small;
            apart = l.apart;
            one = (same tf).3 ∙ l.one;
            clean = rw v l.clean;
          }

      abbrev ready : Machine S
      ready =
          take_frame x page m.currpid (vaddr2vpn a)
            (evicted dev at_eviction x df tf (vaddr2pdi a) still-IsLast)

      abbrev finished : Memory → Stores → S → Machine S
      finished mem stores disk =
          let m2 =
            inc_ref_count target.table (record ready { mem = mem; stores = stores; disk = disk }) in
          let w = set_addr (page_addr (frame_page x)) (set_pres 1 (mem target.table target.pti)) in
          record m2 { mem = store_word target.table target.pti w mem; pf_sem = 1 }

      current : (m.currpid == (t.ipt x).pid) ≡ true
      current = ground (arith, same x, c.own)

      load_reads :
          pick_frame searched ≡ done (some x, t)
          → load_page dev target entered ≡ (do
            (ok, mem, stores, disk) ← read_bs dev (frame_page x) bsd off ready.mem m.stores m.disk
            if ok then done (resumed, finished mem stores disk) else panic)
      unfolding load_page inc_ref_count
      load_reads e = rw (
        get_new_frame-evicts page m.currpid (vaddr2vpn a) entered x t c.queue.policy c.full e,
        evict_last dev at_eviction x df tf (vaddr2pdi a) still-IsLast,
        current,
        c.info,
      )

      finished-IsLost :
          (mem : Memory) (stores : Stores) (disk : S)
          → ((p j : ℕ)
              → mem p j ≡ (
                  if p == frame_page x && ltb j 1024
                  then disk_word dev r m.disk (first_block bsd off) j
                  else ready.mem p j))
          → IsLost a df tf (resumed, finished mem stores disk)
      unfolding inc_ref_count
      finished-IsLost mem stores disk h = record {
        verdict = refl;
        absent = ground (
          arith,
          own_dir,
          c.last.table_page,
          c.last.dir_small,
          c.last.table_small,
          c.last.apart,
          c.x_small,
          c.x_status,
          c.dir_status,
          h (frame_page df) (vaddr2pdi a),
          entry_fields
              (unmapped dev at_eviction x df tf (vaddr2pdi a) still-IsLast (frame_page df)
                (vaddr2pdi a))
              0,
        );
        freed = ground (
          arith,
          current,
          own_dir,
          c.last.table_page,
          c.last.table_small,
          c.x_status,
          c.table_status,
          free_frame_self tf (set_count tf 0 t),
          init_frame-SameUse x page m.currpid (vaddr2vpn a) (free_frame tf (set_count tf 0 t)) tf,
        );
      }

    -- When no frame is unused and the oldest frame in the FIFO queue holds a clean page of the faulting
    -- process, the only page in memory of the very table that the valid faulting address needs, with
    -- reliable reads and the page's store readable, the handler resumes the process with the directory's
    -- entry for the address not present and the frame of its table free.
    pub pf_handler-IsLost : Returns (pf_handler dev a m) (IsLost a df tf)
    pf_handler-IsLost =
        let (t, e, q, same) = pick_frame-oldest searched xs x searched-IsQueue in
        rw (handler_loads, load_reads t same e)
          (Returns-bind (IsLost a df tf)
            (read_bs dev (frame_page x) bsd off (ready t same).mem m.stores m.disk) _
            (read_bs_lem dev r (frame_page x) bsd off (ready t same).mem m.stores m.disk c.can_read)
            (λ out h. rw (h.0) (finished-IsLost t same out.1 out.2 out.3 h.1)))
