-- ===== src/Examples/Pager.antt =====
-- The theorems on paging at a machine with one process, whose directory is in frame 0 and whose only
-- page table is in frame 1.
use operating_systems_paging.Prelude.{
  ℕ, ◌+◌, ◌*◌, ◌^◌, ◌≡◌, ◌<◌, refl, true, [], arith, ◌==◌, if◌then◌else◌, ◌&&◌, update,
}
use operating_systems_paging.Outcome.{Returns}
use operating_systems_paging.BackingStore.{Stores, cleared}
use operating_systems_paging.BackingStore.Laws.{taken}
use operating_systems_paging.BackingStore.Process.{get_bs_info}
use operating_systems_paging.Frames.{
  Frame, cleared as unused_frame, fifo, page, pdir, ptab, fresh, no_vpn, find_unused,
}
use operating_systems_paging.Paging.Address.{
  vaddr2pdi, vaddr2pti, vaddr2offset, vaddr2vpn, is_invalid_addr, vaddr_parts,
}
use operating_systems_paging.Paging.Entry.{pres, dirty, avail, set_pres, base}
use operating_systems_paging.Disk.{Memory}
use operating_systems_paging.Machine.{Machine, must_write}
use operating_systems_paging.Machine.Evict.{IsLast}
use operating_systems_paging.Machine.Fault.{pf_handler}
use operating_systems_paging.Machine.Fault.Served.{CanServe, Served, pf_handler-Served}
use operating_systems_paging.Machine.Fault.Lost.{IsCornered, IsLost, pf_handler-IsLost}
use operating_systems_paging.Examples.Stores.{sound_disk, sound_disk-Reliable}

abbrev some_stores : Stores
some_stores = record {
  active = true;
  init_sem = 1;
  bs_sem = 1;
  bstab = update (λ i. cleared) 0 (taken 10);
  free_bs_count = 7;
}

-- The directory's entry 4 points at the table, whose entry 1 points at frame 2.
abbrev tables : Memory
tables p j =
    if p == 1024 && j == 4
    then 1 + 1025 * 4096
    else if p == 1025 && j == 1
    then 1 + 1026 * 4096
    else 0

abbrev machine : (ℕ → Frame) → ℕ → Machine (ℕ → ℕ → ℕ)
machine t queued = record {
  frames = record {
    ipt = t;
    flist_head = queued;
    flist_tail = queued;
    currpolicy = fifo;
    next_fifo = 0;
    next_gca = 0;
  };
  mem = tables;
  procs = λ p. record { pd = 1024; hsize = 10; vh = true; pbsd = λ i. 0 };
  currpid = 50;
  stores = some_stores;
  disk = λ blk k. blk + k;
  pf_sem = 1;
  pfc = 0;
  flushed = [];
}

-- Frame 2 holds virtual page 4097, and the others are as `rest` says.
abbrev frames_with : Frame → ℕ → Frame
frames_with rest f =
    if f == 0
    then fresh pdir 50 no_vpn
    else if f == 1
    then record (fresh ptab 50 no_vpn) { ref_count = 1 }
    else if f == 2
    then fresh page 50 4097
    else rest

abbrev roomy : Machine (ℕ → ℕ → ℕ)
roomy = machine (frames_with unused_frame) 2

abbrev full : Machine (ℕ → ℕ → ℕ)
full = machine (frames_with (fresh ptab 51 no_vpn)) 2

roomy-CanServe : CanServe sound_disk roomy 0x1000008 3 0 1 0 0
unfolding find_unused pres base vaddr2pdi vaddr2vpn is_invalid_addr get_bs_info
roomy-CanServe = record {
  lock_free = refl;
  valid = refl;
  policy = refl;
  unused = refl;
  dir_page = refl;
  dir_small = omega arith;
  dir_status = refl;
  table_page = refl;
  table_small = omega arith;
  table_status = refl;
  present = refl;
  info = refl;
  can_read = record { active = refl; unlocked = refl; known = omega arith; within = refl };
}

pf_handler-Served_example :
    Returns
      (pf_handler sound_disk 0x1000008 roomy)
      (Served sound_disk sound_disk-Reliable roomy 0x1000008 3 0 1 0 0 roomy-CanServe)
pf_handler-Served_example =
    pf_handler-Served sound_disk sound_disk-Reliable roomy 0x1000008 3 0 1 0 0 roomy-CanServe

full-IsLast : IsLast sound_disk full 2 0 1 4
unfolding base vaddr2pdi vaddr2pti set_pres must_write dirty avail
full-IsLast = record {
  dir_page = refl;
  dir_small = omega arith;
  dir_index = refl;
  table_page = refl;
  table_small = omega arith;
  apart = omega arith;
  one = refl;
  clean = refl;
}

full-IsCornered : IsCornered sound_disk full 0x1000008 2 0 1 0 0 []
unfolding find_unused pres vaddr2vpn vaddr2pdi is_invalid_addr get_bs_info
full-IsCornered = record {
  lock_free = refl;
  valid = refl;
  full = refl;
  queue = record {
    policy = refl;
    links = (refl, refl, tt);
    head = refl;
    tail = refl;
    no_repeat = (refl, tt);
    range = λ f e. ground arith;
  };
  own = refl;
  last = full-IsLast;
  x_small = omega arith;
  x_status = refl;
  dir_status = refl;
  table_status = refl;
  present = refl;
  info = refl;
  can_read = record { active = refl; unlocked = refl; known = omega arith; within = refl };
}

pf_handler-IsLost_example :
    Returns (pf_handler sound_disk 0x1000008 full) (IsLost sound_disk 0x1000008 0 1)
pf_handler-IsLost_example =
    pf_handler-IsLost sound_disk sound_disk-Reliable full 0x1000008 2 0 1 0 0 [] full-IsCornered

vaddr_parts_example :
    (vaddr2pdi 0x1003008 < 1024)
    × (vaddr2pti 0x1003008 < 1024)
    × (vaddr2offset 0x1003008 < 4096)
    × (vaddr2pdi 0x1003008 * 2 ^ 22 + vaddr2pti 0x1003008 * 2 ^ 12 + vaddr2offset 0x1003008
        ≡ 0x1003008)
    × (vaddr2vpn 0x1003008 ≡ vaddr2pdi 0x1003008 * 1024 + vaddr2pti 0x1003008)
vaddr_parts_example = vaddr_parts 0x1003008 (omega arith)
