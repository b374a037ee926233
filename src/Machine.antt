-- ===== src/Machine.antt =====
-- The pager: system/paging.c and the parts of system/ipt.c that touch page tables. Page tables and
-- directories live in physical memory; a page-aligned pointer stands as its page number, which is
-- 1024 (FRAME0) above the number of its frame.
pub mod Evict
pub mod Fault
pub mod Tables
use operating_systems_paging.Prelude.{
  ℕ, zero, suc, ◌+◌, ◌-◌, ◌*◌, ◌/◌, ◌%◌, ◌^◌, Bool, true, false, ◌&&◌, ◌||◌, List, ◌∷◌, Option,
  none, some, ◌==◌, if◌then◌else◌, update,
}
use operating_systems_paging.Outcome.{Outcome, done, panic, ◌>>=◌}
use operating_systems_paging.BackingStore.{Stores}
use operating_systems_paging.BackingStore.Process.{get_bs_info}
use operating_systems_paging.Frames.{
  Ipt, Frame, Status, Policy, fifo, gca, other, not_used, page, pdir, ptab, global, no_process,
  no_vpn, nframes, free_frame, init_frame, find_unused, pick_frame,
}
use operating_systems_paging.Paging.Address.{vaddr2pdi, vaddr2pti, vaddr2vpn}
use operating_systems_paging.Paging.Entry.{
  pres, set_pres, acc, set_acc, dirty, set_dirty, avail, set_avail, base,
}
use operating_systems_paging.Disk.{Device, Memory, write_bs}

-- The fields of struct procent that the pager uses: the directory's page, the heap size in pages,
-- whether there is a virtual heap, the backing stores.
pub record Procent : Type 0 where
  pub pd : ℕ
  pub hsize : ℕ
  pub vh : Bool
  pub pbsd : ℕ → ℕ

-- `frames` are the variables of ipt.c, `flushed` the addresses that invalPage() was called with, the
-- latest first, and `disk` the state of the device.
pub record Machine (S : Type 0) : Type 0 where
  pub frames : Ipt
  pub mem : Memory
  pub procs : ℕ → Procent
  pub currpid : ℕ
  pub stores : Stores
  pub disk : S
  pub pf_sem : ℕ
  pub pfc : ℕ
  pub flushed : List ℕ

-- the page of a frame, and faddr2frameNum() of a page-aligned address
abbrev pub frame_page : ℕ → ℕ
frame_page fr = (1024 + fr) % 2 ^ 20

abbrev pub page_frame : ℕ → ℕ
page_frame p = (p * 4096 + 2 ^ 32 - 0x400000) % 2 ^ 32 / 4096

-- `mem[p][j] = w`
abbrev pub store_word : ℕ → ℕ → ℕ → Memory → Memory
store_word p j w mem = update mem p (update (mem p) j w)

-- The address of a virtual page, (char*)(vp*NBPG), and where its entry is: the directory, the index
-- in it, the page of the table and the index in that.
pub record Place : Type 0 where
  pub addr : ℕ
  pub dir : ℕ
  pub pdi : ℕ
  pub table : ℕ
  pub pti : ℕ

abbrev pub place : ℕ → ℕ → Memory → Place
place dir a mem = record {
  addr = a;
  dir = dir;
  pdi = vaddr2pdi a;
  table = base (mem dir (vaddr2pdi a));
  pti = vaddr2pti a;
}

abbrev pub set_count : ℕ → ℕ → Ipt → Ipt
set_count fr n s = record s { ipt = update s.ipt fr (record (s.ipt fr) { ref_count = n }) }

-- What the loop of getNewFrameGCA() ends with: an unused frame, one to evict, or no frame, when
-- `fr` keeps the value (uint32)-1.
pub data Chosen : Type 0 where
  unused evict : ℕ → Chosen
  nothing : Chosen

-- pt_dirty == 1 || pt_avail == 1
unfoldable pub must_write : ℕ → Bool
must_write w = dirty w == 1 || avail w == 1

module _ {S : Type 0} where
  abbrev pub with_mem : Memory → Machine S → Machine S
  with_mem mem m = record m { mem = mem }

  abbrev pub with_frames : Ipt → Machine S → Machine S
  with_frames f m = record m { frames = f }

  abbrev pub place_of : ℕ → Machine S → Place
  place_of fr m =
      place ((m.procs ((m.frames.ipt fr).pid)).pd) ((m.frames.ipt fr).vpn * 4096 % 2 ^ 32) m.mem

  -- the word of a page table entry, and its assignment
  abbrev pub pte : Place → Machine S → ℕ
  pte l m = m.mem l.table l.pti

  abbrev pub set_pte : Place → ℕ → Machine S → Machine S
  set_pte l w m = record m { mem = store_word l.table l.pti w m.mem }

  -- incRefCount() on the page of a table
  pub inc_ref_count : ℕ → Machine S → Machine S
  inc_ref_count table m =
      let fr = page_frame table in
      with_frames (set_count fr (((m.frames.ipt fr).ref_count + 1) % 2 ^ 32) m.frames) m

  pub dec_ref_count : Place → Machine S → Machine S
  dec_ref_count l m =
      let fr = page_frame l.table in
      let n = ((m.frames.ipt fr).ref_count + 2 ^ 32 - 1) % 2 ^ 32 in
      let f = set_count fr n m.frames in
      if n == 0
      then record m {
        frames = free_frame fr f;
        mem = store_word l.dir l.pdi (set_pres 0 (m.mem l.dir l.pdi)) m.mem;
      }
      else with_frames f m

  -- Give frame `fr`, free or freed by eviction, its new use.
  abbrev pub take_frame : ℕ → Status → ℕ → ℕ → Machine S → Machine S
  take_frame fr type pid vpn m = with_frames (init_frame fr type pid vpn m.frames) m

  -- invalPage(), for a page of the current process
  abbrev pub flush : ℕ → ℕ → Machine S → Machine S
  flush pid a m = if m.currpid == pid then record m { flushed = a ∷ m.flushed } else m

  pub get_faults : Machine S → ℕ
  get_faults m = m.pfc

  module _ (dev : Device S) where
    -- The page is written back if its entry is dirty, or was when the clock passed it.
    pub write_back : ℕ → ℕ → Place → Machine S → Outcome (Machine S)
    write_back fr pid l m =
        let w = pte l m in
        if must_write w
        then (do
          (bsd, offset) ← get_bs_info ((m.procs pid).pbsd) (vaddr2vpn l.addr)
          (ok, stores, disk) ← write_bs dev (frame_page fr) bsd offset m.mem m.stores m.disk
          let m' = record m { stores = stores; disk = disk }
          if ok then done (set_pte l (set_avail 0 (set_dirty 0 w)) m') else panic)
        else done m

    pub evict_frame : ℕ → Machine S → Outcome (Machine S)
    evict_frame fr m =
        let pid = (m.frames.ipt fr).pid in
        let l = place_of fr m in
        let m1 = set_pte l (set_pres 0 (pte l m)) m in
        let m2 = flush pid l.addr m1 in write_back fr pid l (dec_ref_count l m2)

    -- The result is the frame's page, or `none` for SYSERR.
    pub get_new_frame_fifo : Status → ℕ → ℕ → Machine S → Outcome (Option ℕ × Machine S)
    get_new_frame_fifo type pid vpn m =
        let (found, next) = find_unused nframes m.frames.next_fifo m.frames.ipt in
        let m1 = with_frames (record m.frames { next_fifo = next }) m in
        elim found [
          | some fr ↦ done (some (frame_page fr), take_frame fr type pid vpn m1)
          | none ↦ do
            (picked, frames) ← pick_frame m1.frames
            elim picked [
              | none ↦ done (none, with_frames frames m1)
              | some fr ↦ do
                m2 ← evict_frame fr (with_frames frames m1)
                done (some (frame_page fr), take_frame fr type pid vpn m2)
            ]
        ]

  -- getAndSetUM(): is the frame to be taken (UM00)? SKIP_FRAME, UM10 and UM11 pass it by.
  pub get_and_set_um : ℕ → Machine S → Outcome (Bool × Machine S)
  get_and_set_um fr m =
      let f = m.frames.ipt fr in
      if f.pid == global || f.pid == no_process || f.vpn == no_vpn
      then done (false, m)
      else (let l = place_of fr m in
          let w = pte l m in
          let used = acc w == 1 in
          let modified = dirty w == 1 in
          if used && modified
          then done (false, set_pte l (set_avail 1 (set_dirty 0 w)) m)
          else if used
          then done (false, set_pte l (set_acc 0 w) m)
          else if modified
          then panic
          else done (true, m))

  abbrev pub with_clock : ℕ → Machine S → Machine S
  with_clock n m = with_frames (record m.frames { next_gca = n }) m

  -- `for(i = 0; i <= 3*NFRAMES; i++)`, with `n` rounds left
  pub clock : ℕ → Machine S → Outcome (Chosen × Machine S)
  clock zero m = done (nothing, m)
  clock (suc n) m =
      let fr = m.frames.next_gca % nframes in
      let here = with_clock (fr + 1) m in
      elim ((m.frames.ipt fr).status) [
        | not_used ↦ done (unused fr, here)
        | page ↦ do
          (chosen, m') ← get_and_set_um fr here
          elim chosen [ true ↦ done (evict fr, m') | false ↦ clock n m' ]
        | pdir ↦ clock n here
        | ptab ↦ clock n here
      ]

  module _ (dev : Device S) where
    -- Evict frame `fr` and give it its new use.
    replace_frame : ℕ → Status → ℕ → ℕ → Machine S → Outcome (Option ℕ × Machine S)
    replace_frame fr type pid vpn m = do
      m' ← evict_frame dev fr m
      done (some (frame_page fr), take_frame fr type pid vpn m')

    pub get_new_frame_gca : Status → ℕ → ℕ → Machine S → Outcome (Option ℕ × Machine S)
    unfolding replace_frame
    get_new_frame_gca type pid vpn m = do
      (c, m1) ← clock 85 m
      elim c [
        | unused fr ↦ done (some (frame_page fr), take_frame fr type pid vpn m1)
        | evict fr ↦ replace_frame fr type pid vpn m1
        | nothing ↦ replace_frame (2 ^ 32 - 1) type pid vpn m1
      ]

    pub get_new_frame : Status → ℕ → ℕ → Machine S → Outcome (Option ℕ × Machine S)
    get_new_frame type pid vpn m = elim (m.frames.currpolicy) [
      | fifo ↦ get_new_frame_fifo dev type pid vpn m
      | gca ↦ get_new_frame_gca type pid vpn m
      | other ↦ done (none, m)
    ]
