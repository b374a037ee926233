-- ===== src/Machine/Tables.antt =====
-- Making page tables and directories: setup_id_paging(), newPageTable(), init_gpt() and init_pd() of
-- system/paging.c. The hooks do nothing unless HOOK_LOG_ON is defined.
use operating_systems_paging.Prelude.{
  ℕ, zero, suc, ◌+◌, ◌-◌, ◌*◌, ◌/◌, ◌%◌, ◌^◌, Bool, true, false, Option, none, some, update,
}
use operating_systems_paging.Outcome.{Outcome, done, ◌>>=◌, down, up}
use operating_systems_paging.Frames.{ptab, pdir, global, no_vpn}
use operating_systems_paging.Paging.Entry.{set_addr, blank_pte, identity_pte, blank_pde, global_pde}
use operating_systems_paging.Disk.{Device, Memory}
use operating_systems_paging.Machine.{Machine, with_mem, store_word, get_new_frame}

-- An address that is a page's first.
abbrev pub page_addr : ℕ → ℕ
page_addr p = p * 4096

-- the loop of setup_id_paging(), from entry `i` on, with `n` entries left
unfoldable pub identity_loop : ℕ → ℕ → ℕ → ℕ → Memory → Memory
identity_loop zero i pt addr mem = mem
identity_loop (suc n) i pt addr mem =
    identity_loop n (i + 1) pt ((addr + 4096) % 2 ^ 32)
      (store_word pt i (set_addr addr (identity_pte (mem pt i))) mem)

unfoldable pub setup_id_paging : ℕ → ℕ → Memory → Memory
setup_id_paging pt first mem = identity_loop 1024 0 pt (first / 2 ^ 12 * 2 ^ 12) mem

-- the loop of newPageTable() over the first `n` entries
unfoldable pub blank_loop : ℕ → ℕ → Memory → Memory
blank_loop zero pt mem = mem
blank_loop (suc n) pt mem =
    let mem' = blank_loop n pt mem in store_word pt n (blank_pte (mem' pt n)) mem'

-- the three loops of init_pd() over the first `n` entries
unfoldable pub blank_pd_loop : ℕ → ℕ → Memory → Memory
blank_pd_loop zero pd mem = mem
blank_pd_loop (suc n) pd mem =
    let mem' = blank_pd_loop n pd mem in store_word pd n (blank_pde (mem' pd n)) mem'

unfoldable pub global_loop : ℕ → (ℕ → ℕ) → ℕ → Memory → Memory
global_loop zero gpt pd mem = mem
global_loop (suc n) gpt pd mem =
    let mem' = global_loop n gpt pd mem in
    store_word pd n (global_pde (page_addr (gpt n)) (mem' pd n)) mem'

-- gpt[] and dpt: the pages of the global tables
pub record Globals : Type 0 where
  pub gpt : ℕ → ℕ
  pub dpt : ℕ

-- DEV_MEM_PD_INDEX
abbrev pub dev_mem_pd_index : ℕ
dev_mem_pd_index = 576

-- the writes of init_pd() to the page of the new directory
unfoldable pub fill_pd : Globals → ℕ → Memory → Memory
fill_pd g pd mem =
    let mem' = global_loop 4 g.gpt pd (blank_pd_loop 1024 pd mem) in
    store_word pd dev_mem_pd_index (global_pde (page_addr g.dpt) (mem' pd dev_mem_pd_index)) mem'

-- The result of getNewFrame() as a page. init_gpt() does not test for SYSERR, (char*)-1, which lies
-- in the last page.
abbrev pub page_of : Option ℕ → ℕ
page_of none = 2 ^ 20 - 1
page_of (some p) = p

module _ {S : Type 0} (dev : Device S) where
  -- The result is the table's page, or `none` for SYSERR.
  unfoldable pub new_page_table : ℕ → Machine S → Outcome (Option ℕ × Machine S)
  new_page_table pid m = do
    (r, m') ← get_new_frame dev ptab pid no_vpn m
    elim r [
      | none ↦ done (none, m')
      | some pt ↦ done (some pt, with_mem (blank_loop 1024 pt m'.mem) m')
    ]

  -- init_pd() under pf_sem; the result is OK or SYSERR.
  pub init_pd : Globals → ℕ → Machine S → Outcome (Bool × Machine S)
  init_pd g pid m = do
    n ← down m.pf_sem
    (r, m1) ← get_new_frame dev pdir pid no_vpn (record m { pf_sem = n })
    let m2 = record m1 { pf_sem = up m1.pf_sem }
    elim r [
      | none ↦ done (false, m2)
      | some pd ↦ done (
        true,
        record m2 {
          procs = update m2.procs pid (record (m2.procs pid) { pd = pd });
          mem = fill_pd g pd m2.mem;
        },
      )
    ]

  -- The loop of init_gpt() from table `j` on, with `n` left.
  pub gpt_loop : ℕ → ℕ → (ℕ → ℕ) → Machine S → Outcome ((ℕ → ℕ) × Machine S)
  gpt_loop zero j gpt m = done (gpt, m)
  gpt_loop (suc n) j gpt m = do
    (r, m') ← get_new_frame dev ptab global no_vpn m
    let pt = page_of r
    gpt_loop n (j + 1) (update gpt j pt)
        (with_mem (setup_id_paging pt (j * 2 ^ 22 % 2 ^ 32) m'.mem) m')

  -- DEV_MEM_START
  pub init_gpt : (ℕ → ℕ) → Machine S → Outcome (Globals × Machine S)
  init_gpt gpt m = do
    (gpt', m1) ← gpt_loop 4 0 gpt m
    (r, m2) ← get_new_frame dev ptab global no_vpn m1
    let pt = page_of r
    done (record { gpt = gpt'; dpt = pt }, with_mem (setup_id_paging pt 0x90000000 m2.mem) m2)
