-- ===== src/BackingStore/Process.antt =====
-- The backing stores of a process: paging/bs.c. The functions take the fields of struct procent
-- that they read, and bs_init() returns the field pbsd that it writes.
pub mod Account
use operating_systems_paging.Prelude.{
  ℕ, zero, suc, ◌+◌, ◌-◌, ◌*◌, ◌/◌, ◌%◌, ◌^◌, Bool, Option, none, some, ltb, ◌==◌, if◌then◌else◌,
  update,
}
use operating_systems_paging.Outcome.{Outcome, done, panic, ◌>>=◌}
use operating_systems_paging.BackingStore.{
  Stores, Env, allocate_bs, deallocate_bs, max_pages_per_bs, max_bs_entries,
}

-- The result of a call as the bsd_t that is stored: SYSERR is -1.
abbrev pub to_bsd : Option ℕ → ℕ
to_bsd none = 2 ^ 32 - 1
to_bsd (some i) = i

abbrev pub inc_free : Stores → Stores
inc_free s = record s { free_bs_count = (s.free_bs_count + 1) % 2 ^ 32 }

abbrev pub dec_free : Stores → Stores
dec_free s = record s { free_bs_count = (s.free_bs_count + 2 ^ 32 - 1) % 2 ^ 32 }

-- min() of bs.c
pub min : ℕ → ℕ → ℕ
min a b = if ltb a b then a else b

-- `while(remain > 0)` of bs_init(). The truncated `remain - 200` ends the loop as the negative
-- number does. The loop runs at most `remain` rounds, which is the fuel.
pub init_loop : Env → ℕ → ℕ → ℕ → (ℕ → ℕ) → Stores → Outcome ((ℕ → ℕ) × Stores)
init_loop env zero remain i pbsd s = done (pbsd, s)
init_loop env (suc fuel) remain i pbsd s = if remain == 0 then done (pbsd, s) else do
  (r, t) ← allocate_bs env (min remain max_pages_per_bs) s
  init_loop env fuel (remain - max_pages_per_bs) (i + 1) (update pbsd i (to_bsd r)) (dec_free t)

-- `for(i = 0; i < MAX_BS_ENTRIES; i++) prptr->pbsd[i] = 0`
pub zero_bsds : ℕ → (ℕ → ℕ) → ℕ → ℕ
zero_bsds zero p = p
zero_bsds (suc n) p = update (zero_bsds n p) n 0

-- (int32)hsize, at most 0 when the top bit is set
abbrev pub signed_pages : ℕ → ℕ
signed_pages hsize = if ltb hsize (2 ^ 31) then hsize else 0

pub bs_init : Env → ℕ → (ℕ → ℕ) → Stores → Outcome ((ℕ → ℕ) × Stores)
bs_init env hsize pbsd s =
    let n = signed_pages hsize in init_loop env n n 0 (zero_bsds max_bs_entries pbsd) s

-- `while(remain > 0)` of freeProcBS(), on the same fuel
pub free_loop : ℕ → ℕ → ℕ → (ℕ → ℕ) → Stores → Outcome Stores
free_loop zero remain i pbsd s = done s
free_loop (suc fuel) remain i pbsd s = if remain == 0 then done s else do
  (_, t) ← deallocate_bs (pbsd i) s
  free_loop fuel (remain - max_pages_per_bs) (i + 1) pbsd (inc_free t)

unfoldable pub free_proc_bs : Bool → ℕ → (ℕ → ℕ) → Stores → Outcome Stores
free_proc_bs vh hsize pbsd s =
    if vh then (let n = signed_pages hsize in free_loop n n 0 pbsd s) else done s

-- bsReq of vcreate()
unfoldable pub bs_req : ℕ → ℕ
bs_req hsize = if hsize == 0 then 0 else 1 + (hsize - 1) / max_pages_per_bs

-- VPN0 and FRAME0
abbrev pub vpn0 : ℕ
vpn0 = 4096

abbrev pub frame0 : ℕ
frame0 = 1024

-- get_bs_info(), on the virtual page number of its address: the store and the page in it. The
-- subtraction vpn - VPN0 wraps.
unfoldable pub get_bs_info : (ℕ → ℕ) → ℕ → Outcome (ℕ × ℕ)
get_bs_info pbsd vpn =
    if ltb vpn frame0
    then panic
    else (let off = (vpn + 2 ^ 32 - vpn0) % 2 ^ 32 in
        done (pbsd (off / max_pages_per_bs), off % max_pages_per_bs))
