-- ===== src/Frames.antt =====
-- The inverted page table and its FIFO queue: system/ipt.c and include/ipt.h. A uint32 is a number
-- below 2^32; the queue's EMPTY, and the special pids and page numbers, are the bit patterns of
-- negative constants. A C array is a function of the index.
pub mod Links
pub mod Fifo
pub mod Unlink
pub mod Free
pub mod Search
pub mod Admit
use operating_systems_paging.Prelude.{
  ℕ, zero, suc, ◌+◌, ◌-◌, ◌*◌, ◌/◌, ◌%◌, ◌^◌, Bool, true, false, ◌&&◌, Option, none, some, ◌==◌,
  if◌then◌else◌, update,
}
use operating_systems_paging.Outcome.{Outcome, done, panic}

abbrev pub nframes : ℕ
nframes = 28

-- EMPTY, NO_VPN and GLOBAL are -1; NO_PROCESS is -2.
abbrev pub empty : ℕ
empty = 2 ^ 32 - 1

abbrev pub no_vpn : ℕ
no_vpn = 2 ^ 32 - 1

abbrev pub global : ℕ
global = 2 ^ 32 - 1

abbrev pub no_process : ℕ
no_process = 2 ^ 32 - 2

-- NOT_USED, PDIR, PTAB, PAGE
pub data Status : Type 0 where
  not_used pdir ptab page : Status

-- currpolicy; `other` is any value but FIFO and GCA
pub data Policy : Type 0 where
  fifo gca other : Policy

-- frame_t
pub record Frame : Type 0 where
  pub next_frame : ℕ
  pub prev_frame : ℕ
  pub status : Status
  pub pid : ℕ
  pub vpn : ℕ
  pub ref_count : ℕ

-- ipt, flistHead, flistTail, currpolicy, and the two static counters `nextframe`
pub record Ipt : Type 0 where
  pub ipt : ℕ → Frame
  pub flist_head : ℕ
  pub flist_tail : ℕ
  pub currpolicy : Policy
  pub next_fifo : ℕ
  pub next_gca : ℕ

abbrev pub is_page : Status → Bool
is_page page = true
is_page not_used = false
is_page pdir = false
is_page ptab = false

abbrev pub is_unused : Status → Bool
is_unused not_used = true
is_unused pdir = false
is_unused ptab = false
is_unused page = false

abbrev pub is_fifo : Policy → Bool
is_fifo fifo = true
is_fifo gca = false
is_fifo other = false

-- The result of srpolicy() is OK or SYSERR.
pub srpolicy : Policy → Ipt → Bool × Ipt
srpolicy fifo s = (true, record s { currpolicy = fifo })
srpolicy gca s = (true, record s { currpolicy = gca })
srpolicy other s = (false, s)

abbrev pub set_next : ℕ → ℕ → (ℕ → Frame) → ℕ → Frame
set_next fr n t = update t fr (record (t fr) { next_frame = n })

abbrev pub set_prev : ℕ → ℕ → (ℕ → Frame) → ℕ → Frame
set_prev fr p t = update t fr (record (t fr) { prev_frame = p })

abbrev pub cleared : Frame
cleared = record {
  next_frame = empty;
  prev_frame = empty;
  status = not_used;
  pid = no_process;
  vpn = no_vpn;
  ref_count = 0;
}

pub clear_frame : ℕ → Ipt → Ipt
clear_frame fr s = record s { ipt = update s.ipt fr cleared }

-- the loop of init_ipt() over the first `n` frames
pub init_ipt_loop : ℕ → Ipt → Ipt
unfolding clear_frame
init_ipt_loop zero s = s
init_ipt_loop (suc n) s = clear_frame n (init_ipt_loop n s)

pub init_ipt : Ipt → Ipt
unfolding init_ipt_loop
init_ipt = init_ipt_loop nframes

-- frameNum2ptr() and faddr2frameNum(), with METADATA_START = 0x400000 and NBPG = 4096
pub frame_num2ptr : ℕ → ℕ
frame_num2ptr fr = (0x400000 + fr * 4096 % 2 ^ 32) % 2 ^ 32

pub faddr2frame_num : ℕ → ℕ
faddr2frame_num faddr = (faddr + 2 ^ 32 - 0x400000) % 2 ^ 32 / 4096

-- Enqueue at the head.
unfoldable pub init_frame_fifo : ℕ → Ipt → Ipt
init_frame_fifo fr s =
    if s.flist_head == empty && s.flist_tail == empty
    then record s { flist_head = fr; flist_tail = fr }
    else (let h = s.flist_head in
        record s { ipt = set_prev h fr (set_prev fr empty (set_next fr h s.ipt)); flist_head = fr })

abbrev pub fresh : Status → ℕ → ℕ → Frame
fresh type pid vpn = record {
  next_frame = empty;
  prev_frame = empty;
  status = type;
  pid = pid;
  vpn = vpn;
  ref_count = 0;
}

-- init_frame_GCA() is empty.
unfoldable pub init_frame : ℕ → Status → ℕ → ℕ → Ipt → Ipt
init_frame fr type pid vpn s =
    let t = record s { ipt = update s.ipt fr (fresh type pid vpn) } in
    if is_page type && is_fifo s.currpolicy then init_frame_fifo fr t else t

pub free_frame_fifo : ℕ → Ipt → Ipt
free_frame_fifo fr s =
    let prev = (s.ipt fr).prev_frame in
    let next = (s.ipt fr).next_frame in
    if fr == s.flist_head && fr == s.flist_tail
    then record s { flist_head = empty; flist_tail = empty }
    else if fr == s.flist_head
    then record s { ipt = set_prev next empty s.ipt; flist_head = next }
    else if fr == s.flist_tail
    then record s { ipt = set_next prev empty s.ipt; flist_tail = prev }
    else record s { ipt = set_prev next prev (set_next prev next s.ipt) }

-- freeFrameGCA() is empty.
pub free_frame : ℕ → Ipt → Ipt
free_frame fr s =
    clear_frame fr
      (if is_fifo s.currpolicy && is_page ((s.ipt fr).status) then free_frame_fifo fr s else s)

-- Dequeue from the tail; SYSERR is `none`.
pub pick_frame_fifo : Ipt → Outcome (Option ℕ × Ipt)
pick_frame_fifo s =
    let fr = s.flist_tail in
    if fr == empty && s.flist_head == empty
    then done (none, s)
    else if fr == s.flist_head
    then (if fr == empty
        then panic
        else done (some fr, record s { flist_tail = empty; flist_head = empty }))
    else if fr == empty
    then panic
    else (let tail = (s.ipt fr).prev_frame in
        done (some fr, record s { flist_tail = tail; ipt = set_next tail empty s.ipt }))

-- pickFrameGCA() panics.
pub pick_frame : Ipt → Outcome (Option ℕ × Ipt)
pick_frame s = if is_fifo s.currpolicy then pick_frame_fifo s else panic

-- The search of getNewFrameFIFO() for an unused frame, with `n` rounds left: the frame found, if
-- any, and the new value of `nextframe`.
unfoldable pub find_unused : ℕ → ℕ → (ℕ → Frame) → Option ℕ × ℕ
find_unused zero next t = (none, next)
find_unused (suc n) next t =
    let fr = next % nframes in
    let rest : Option ℕ × ℕ = find_unused n (fr + 1) t in
    if is_unused ((t fr).status) then (some fr, fr + 1) else rest

-- the loop of freeProcFrames() over the first `n` frames
pub free_proc_loop : ℕ → ℕ → Ipt → Ipt
free_proc_loop zero pid s = s
free_proc_loop (suc n) pid s =
    let t = free_proc_loop n pid s in if (t.ipt n).pid == pid then free_frame n t else t

-- `vh` says whether the process has a virtual heap.
unfoldable pub free_proc_frames : Bool → ℕ → Ipt → Ipt
free_proc_frames vh pid s = if vh then free_proc_loop nframes pid s else s
