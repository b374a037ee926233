-- ===== src/Machine/Fault.antt =====
-- The page fault handler: pf_handler() of system/paging.c.
pub mod Served
pub mod Lost
use operating_systems_paging.Prelude.{
  ℕ, ◌+◌, ◌*◌, ◌%◌, ◌^◌, Option, none, some, ◌==◌, if◌then◌else◌,
}
use operating_systems_paging.Outcome.{Outcome, done, panic, ◌>>=◌, down, up}
use operating_systems_paging.BackingStore.Process.{get_bs_info}
use operating_systems_paging.Frames.{page}
use operating_systems_paging.Paging.Address.{vaddr2pdi, vaddr2pti, vaddr2vpn, is_invalid_addr}
use operating_systems_paging.Paging.Entry.{pres, set_pres, base, set_addr}
use operating_systems_paging.Disk.{Device, read_bs}
use operating_systems_paging.Machine.{
  Machine, Place, place, with_mem, store_word, inc_ref_count, get_new_frame,
}
use operating_systems_paging.Machine.Tables.{new_page_table, page_addr}

-- How the handler ends: the process resumes, it is handed to kill(), or the handler goes on to write
-- through the address (char*)SYSERR, where the model stops.
pub data Verdict : Type 0 where
  resumed killed wild : Verdict

module _ {S : Type 0} (dev : Device S) where
  -- From the frame for the page on: the page is read from its store and mapped.
  pub load_page : Place → Machine S → Outcome (Verdict × Machine S)
  load_page l m = do
    (r, m1) ← get_new_frame dev page m.currpid (vaddr2vpn l.addr) m
    elim r [
      | none ↦ done (wild, m1)
      | some p ↦ do
        (bsd, offset) ← get_bs_info ((m1.procs m1.currpid).pbsd) (vaddr2vpn l.addr)
        (ok, mem, stores, disk) ← read_bs dev p bsd offset m1.mem m1.stores m1.disk
        if ok
            then (let m2 =
                  inc_ref_count l.table (record m1 { mem = mem; stores = stores; disk = disk }) in
                let w = set_addr (page_addr p) (set_pres 1 (m2.mem l.table l.pti)) in
                done (
                  resumed,
                  record m2 { mem = store_word l.table l.pti w m2.mem; pf_sem = up m2.pf_sem },
                ))
            else panic
    ]

  -- A new page table for the entry `l.pdi` of the directory.
  pub add_table : Place → Machine S → Outcome (Verdict × Machine S)
  add_table l m = do
    (r, m1) ← new_page_table dev m.currpid m
    elim r [
      | none ↦ done (wild, m1)
      | some pt ↦
          let w = set_pres 1 (set_addr (page_addr pt) (m1.mem l.dir l.pdi)) in
          load_page (record l { table = pt }) (with_mem (store_word l.dir l.pdi w m1.mem) m1)
    ]

  -- `a` is the faulting address, from readCR2().
  pub pf_handler : ℕ → Machine S → Outcome (Verdict × Machine S)
  pf_handler a m = do
    n ← down m.pf_sem
    let m1 = record m { pfc = (m.pfc + 1) % 2 ^ 32; pf_sem = n }
    let pr = m1.procs m1.currpid
    let l = place pr.pd a m1.mem
    if is_invalid_addr a pr.hsize
        then done (killed, record m1 { pf_sem = up n })
        else if pres (m1.mem l.dir l.pdi) == 0
        then add_table l m1
        else load_page l m1

  -- vaddr2paddr() less its debugging output: what the tables of the current process make of `a`.
  pub vaddr2paddr : ℕ → Machine S → ℕ
  vaddr2paddr a m =
      let l = place ((m.procs m.currpid).pd) a m.mem in
      base (m.mem l.table l.pti) * 4096 + a % 2 ^ 12
