-- ===== src/Semaphores/Create.antt =====
-- What semcreate() does to the table.
use mathlib.Core.Path.{fun_ext}
use operating_systems_paging.Prelude.{
  ℕ, zero, suc, ◌+◌, ◌-◌, ◌%◌, ◌^◌, ◌<◌, ◌≡◌, refl, ap, ◌∙◌, inl, inr, true, false, Option, none,
  some, arith, ==_refl, lt→leb, Bool-cases, update,
}
use operating_systems_paging.Semaphores.{Semtab, nsem, step, newsem, semcreate, semcount}

-- A search of `n` rounds from entry `p` on: a free entry of the table is now used, or the `n` entries are
-- all used already.
abbrev Searched : ℕ → ℕ → Semtab → Option ℕ × Semtab → Type 0
Searched n p s (none, t) =
    ((i : ℕ) → i < n → (s.semtab ((p + i) % nsem)).used ≡ true) × (t.semtab ≡ s.semtab)
Searched n p s (some sem, t) =
    (sem < nsem)
    × ((s.semtab sem).used ≡ false)
    × (t.semtab ≡ update s.semtab sem (record (s.semtab sem) { used = true }))

newsem-Searched : (n : ℕ) (s : Semtab) → s.nextsem < nsem → Searched n s.nextsem s (newsem n s)
unfolding newsem
newsem-Searched zero s h = (λ i l. absurd (omega arith), refl)
newsem-Searched (suc n) s h = elim (Bool-cases (s.semtab s.nextsem).used) [
  | inr free ↦ rw (newsem, free) (h, free, refl)
  | inl used ↦
      rw (newsem, used)
        (later (newsem n (record s { nextsem = step s.nextsem })) used
          (newsem-Searched n (record s { nextsem = step s.nextsem }) (ground arith)))
]
  where
    next_entry : (i : ℕ) → (s.nextsem + suc i) % nsem ≡ (step s.nextsem + i) % nsem
    next_entry i = ground arith

    later :
        (out : Option ℕ × Semtab)
        → (s.semtab s.nextsem).used ≡ true
        → Searched n (step s.nextsem) (record s { nextsem = step s.nextsem }) out
        → Searched (suc n) s.nextsem s out
    later (none, t) u (f, e) = (seen, e)
      where
        seen : (i : ℕ) → i < suc n → (s.semtab ((s.nextsem + i) % nsem)).used ≡ true
        seen zero l = ap (λ j. (s.semtab j).used) (omega arith) ∙ u
        seen (suc i) l = ap (λ j. (s.semtab j).used) (next_entry i) ∙ f i (omega arith)
    later (some sem, t) u g = g

-- SYSERR means that every entry is used, and leaves them alone; else an entry that was free is used and has
-- the count, which semcount() reads, and no other entry changes.
abbrev pub Created : ℕ → Semtab → Option ℕ × Semtab → Type 0
Created count s (none, t) = ((i : ℕ) → i < nsem → (s.semtab i).used ≡ true) × (t.semtab ≡ s.semtab)
Created count s (some sem, t) =
    (sem < nsem)
    × ((s.semtab sem).used ≡ false)
    × (t.semtab ≡ update s.semtab sem (record (s.semtab sem) { used = true; scount = count }))
    × (semcount sem t ≡ some count)

-- semcreate() of a count that is not negative, when nextsem is an index of the table, either returns an entry
-- that was free, which is now used and has that count, as semcount() says, no other entry being
-- changed, or fails because every entry is used, and changes none.
pub semcreate-Created :
    (count : ℕ) (s : Semtab)
    → s.nextsem < nsem
    → count < 2 ^ 31
    → Created count s (semcreate count s)
unfolding semcreate semcount
semcreate-Created count s h c =
    rw (lt→leb (2 ^ 31) count c) (created (newsem nsem s) (newsem-Searched nsem s h))
  where
    created :
        (out : Option ℕ × Semtab)
        → Searched nsem s.nextsem s out
        → Created count s (elim out.0 [
          | none ↦ (none, out.1)
          | some sem ↦ (
            some sem,
            record out.1 {
              semtab = update out.1.semtab sem (record (out.1.semtab sem) { scount = count });
            },
          )
        ])
    created (none, t) (f, e) = (all_used, e)
      where
        all_used : (i : ℕ) → i < nsem → (s.semtab i).used ≡ true
        all_used i l =
            ap (λ j. (s.semtab j).used) (omega arith)
            ∙ f ((i + nsem - s.nextsem) % nsem) (omega arith)
    created (some sem, t) (l, u, e) = (
      l,
      u,
      (rw e (fun_ext λ i. ground arith)),
      ground (arith, lt→leb nsem sem l, ==_refl sem, ap (λ g. g sem) e),
    )
