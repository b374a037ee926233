-- ===== src/Semaphores.antt =====
-- The table of semaphores: system/semcreate.c, semcount.c and include/semaphore.h. An int32 is its bit
-- pattern. SYSERR is `none`.
pub mod Create
use operating_systems_paging.Prelude.{
  ℕ, zero, suc, ◌+◌, ◌^◌, Bool, true, false, ◌||◌, not, Option, none, some, leb, if◌then◌else◌,
  update,
}

-- struct sentry; `used` says that sstate is S_USED and not S_FREE.
pub record Sentry : Type 0 where
  pub used : Bool
  pub scount : ℕ
  pub squeue : ℕ

-- semtab, and the static variable nextsem of newsem()
pub record Semtab : Type 0 where
  pub semtab : ℕ → Sentry
  pub nextsem : ℕ

-- NSEM of config/conf.h
abbrev pub nsem : ℕ
nsem = 100

-- isbadsem(s)
abbrev pub is_bad_sem : ℕ → Bool
is_bad_sem sem = leb nsem sem

-- `if (nextsem >= NSEM) nextsem = 0` after nextsem++
abbrev pub step : ℕ → ℕ
step sem = if leb nsem (sem + 1) then 0 else sem + 1

-- the loop of newsem(), with `n` rounds left
unfoldable pub newsem : ℕ → Semtab → Option ℕ × Semtab
newsem zero s = (none, s)
newsem (suc n) s =
    let sem = s.nextsem in
    let s' = record s { nextsem = step sem } in
    let later : Option ℕ × Semtab = newsem n s' in
    if not (s.semtab sem).used
    then (
      some sem,
      record s' { semtab = update s.semtab sem (record (s.semtab sem) { used = true }) },
    )
    else later

unfoldable pub semcreate : ℕ → Semtab → Option ℕ × Semtab
semcreate count s =
    if leb (2 ^ 31) count
    then (none, s)
    else (let (r, t) = newsem nsem s in
        elim r [
          | none ↦ (none, t)
          | some sem ↦ (
            some sem,
            record t { semtab = update t.semtab sem (record (t.semtab sem) { scount = count }) },
          )
        ])

unfoldable pub semcount : ℕ → Semtab → Option ℕ
semcount sem s =
    if is_bad_sem sem || not (s.semtab sem).used then none else some (s.semtab sem).scount
