-- ===== src/BackingStore.antt =====
-- The table of backing stores: paging/*.c and include/page_server.h. A bsd_t is the bit pattern of
-- its int32, so a negative one is above MAX_ID. SYSERR is `none`.
pub mod Laws
pub mod Count
pub mod Process
use operating_systems_paging.Prelude.{
  ℕ, zero, suc, ◌+◌, ◌-◌, ◌%◌, ◌^◌, Bool, true, false, not, ◌&&◌, ◌||◌, Option, none, some, ltb,
  ◌==◌, if◌then◌else◌, update,
}
use operating_systems_paging.Outcome.{Outcome, done, panic, ◌>>=◌, down, up}

-- struct bs_entry, less the field bs_id, which no code reads or writes
pub record BsEntry : Type 0 where
  pub isopen : Bool
  pub isallocated : Bool
  pub usecount : ℕ
  pub npages : ℕ

-- PAGE_SERVER_STATUS (is it ACTIVE?), the counts of bs_init_sem and bs_sem, bstab, free_bs_count
pub record Stores : Type 0 where
  pub active : Bool
  pub init_sem : ℕ
  pub bs_sem : ℕ
  pub bstab : ℕ → BsEntry
  pub free_bs_count : ℕ

-- MAX_BS_ENTRIES
abbrev pub max_bs_entries : ℕ
max_bs_entries = 8

abbrev pub max_pages_per_bs : ℕ
max_pages_per_bs = 200

-- store > MAX_ID || store < MIN_ID
abbrev pub bad_id : ℕ → Bool
bad_id store = ltb 7 store

-- x > 0 for an int32
abbrev pub positive : ℕ → Bool
positive x = ltb 0 x && ltb x (2 ^ 31)

-- wait(bs_sem), signal(bs_sem)
abbrev pub lock : Stores → Outcome Stores
lock s = do n ← down s.bs_sem; done (record s { bs_sem = n })

abbrev pub unlock : Stores → Stores
unlock s = record s { bs_sem = up s.bs_sem }

abbrev pub put : ℕ → BsEntry → Stores → Stores
put i e s = record s { bstab = update s.bstab i e }

-- the loop of psinit() over the first `n` entries
abbrev pub cleared : BsEntry
cleared = record { isopen = false; isallocated = false; usecount = 0; npages = 0 }

pub clear_entries : ℕ → (ℕ → BsEntry) → ℕ → BsEntry
clear_entries zero t = t
clear_entries (suc n) t = update (clear_entries n t) n cleared

-- The results of open(WRDISK, ...) and of semcreate(1), which are other components' work.
pub record Env : Type 0 where
  pub opened : Bool
  pub created : Bool

pub psinit : Env → Stores → Outcome Stores
psinit env s = do
  n ← down s.init_sem
  if s.active
      then done (record s { init_sem = n })
      else if not env.opened || not env.created
      then panic
      else done (record s {
        active = true;
        bs_sem = 1;
        bstab = clear_entries max_bs_entries s.bstab;
        init_sem = up n;
      })

-- if(PAGE_SERVER_STATUS == PAGE_SERVER_INACTIVE) psinit();
pub ensure_active : Env → Stores → Outcome Stores
ensure_active env s = if s.active then done s else psinit env s

pub get_bs : Env → ℕ → ℕ → Stores → Outcome (Option ℕ × Stores)
get_bs env bs_id npages s = do
  a ← ensure_active env s
  if bad_id bs_id || npages == 0 || ltb max_pages_per_bs npages then done (none, a) else do
    t ← lock a
    if (t.bstab bs_id).isopen
        then done (none, unlock t)
        else done (
          some npages,
          unlock (put bs_id (record (t.bstab bs_id) { isopen = true; npages = npages }) t),
        )

-- The assignments of allocate_bs() after a successful get_bs().
abbrev mark_allocated : ℕ → Stores → Stores
mark_allocated i s = put i (record (s.bstab i) { isallocated = true; usecount = 0 }) s

-- for(i = 0; i < MAX_BS_ENTRIES; i++), with `n` rounds left
pub find_store : Env → ℕ → ℕ → ℕ → Stores → Outcome (Option ℕ × Stores)
find_store env npages zero i s = done (none, s)
find_store env npages (suc n) i s =
    let next : Outcome (Option ℕ × Stores) = find_store env npages n (i + 1) s in
    if (s.bstab i).isallocated then next else do
      (r, t) ← get_bs env i npages s
      elim r [
        | none ↦ find_store env npages n (i + 1) t
        | some _ ↦ done (some i, mark_allocated i t)
      ]

pub allocate_bs : Env → ℕ → Stores → Outcome (Option ℕ × Stores)
allocate_bs env npages s = do t ← ensure_active env s; find_store env npages max_bs_entries 0 t

pub release_bs : ℕ → Stores → Outcome (Option (Unit {0}) × Stores)
release_bs bs_id s = if not s.active then done (none, s) else do
  t ← lock s
  if bad_id bs_id || not (t.bstab bs_id).isopen
      then done (none, unlock t)
      else done
          (some tt, unlock (put bs_id (record (t.bstab bs_id) { isopen = false; npages = 0 }) t))

pub deallocate_bs : ℕ → Stores → Outcome (Option ℕ × Stores)
deallocate_bs store s =
    if bad_id store
    then done (none, s)
    else if not (s.bstab store).isallocated
    then done (none, s)
    else if positive (s.bstab store).usecount
    then done (none, s)
    else do
      r ← release_bs store s
      let t = r.1
      let e = record (t.bstab store) { isallocated = false; usecount = 0 }
      done (some store, put store e t)

pub open_bs : ℕ → Stores → Outcome (Option ℕ × Stores)
open_bs store s = if bad_id store then done (none, s) else do
  t ← lock s
  let e = t.bstab store
  if not e.isallocated
      then done (none, unlock t)
      else done
          (some store, unlock (put store (record e { usecount = (e.usecount + 1) % 2 ^ 32 }) t))

pub close_bs : ℕ → Stores → Outcome (Option ℕ × Stores)
close_bs store s = if bad_id store then done (none, s) else do
  t ← lock s
  let e = t.bstab store
  if not e.isallocated
      then done (none, unlock t)
      else done (
        some store,
        unlock (put store (record e { usecount = (e.usecount + 2 ^ 32 - 1) % 2 ^ 32 }) t),
      )

-- the loop of count_bs() over the first `n` entries
unfoldable pub count_free : ℕ → (ℕ → BsEntry) → ℕ
count_free zero t = 0
count_free (suc n) t = count_free n t + (if (t n).isallocated then 0 else 1)

pub count_bs : Stores → ℕ
unfolding count_free
count_bs s = count_free max_bs_entries s.bstab
