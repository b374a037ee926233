-- ===== src/Frames/Search.antt =====
-- The round-robin search for an unused frame.
use operating_systems_paging.Prelude.{
  ℕ, zero, suc, ◌+◌, ◌-◌, ◌%◌, ◌<◌, ◌≡◌, inl, inr, true, false, none, some, arith, Bool-cases,
}
use operating_systems_paging.Frames.{Frame, is_unused, nframes, find_unused}

-- A frame that the search returns is unused, is one of the table, and the search will go on behind it.
pub find_unused-some :
    (n next : ℕ) (t : ℕ → Frame) (fr : ℕ)
    → (find_unused n next t).0 ≡ some fr
    → (fr < nframes) × (is_unused ((t fr).status) ≡ true) × ((find_unused n next t).1 ≡ fr + 1)
unfolding find_unused
find_unused-some zero next t fr h = absurd (cc)
find_unused-some (suc n) next t fr h = elim (Bool-cases (is_unused ((t (next % nframes)).status))) [
  | inl free ↦ ground arith
  | inr used ↦ ground (arith, find_unused-some n (next % nframes + 1) t fr)
]

-- A search that fails has seen `n` used frames in a row.
find_unused-run :
    (n next : ℕ) (t : ℕ → Frame) (i : ℕ)
    → (find_unused n next t).0 ≡ none
    → i < n
    → is_unused ((t ((next + i) % nframes)).status) ≡ false
unfolding find_unused
find_unused-run zero next t i h lt = absurd (omega arith)
find_unused-run (suc n) next t zero h lt =
    let e : (next + 0) % nframes ≡ next % nframes = omega arith in rw e (ground arith)
find_unused-run (suc n) next t (suc i) h lt =
    let e : (next + suc i) % nframes ≡ (next % nframes + 1 + i) % nframes = omega arith in
    rw e (find_unused-run n (next % nframes + 1) t i (ground arith) (omega arith))

-- A search of NFRAMES rounds, from wherever it starts, finds nothing only if every frame is in use.
pub find_unused-none :
    (next : ℕ) (t : ℕ → Frame)
    → (find_unused nframes next t).0 ≡ none
    → (f : ℕ) → f < nframes
    → is_unused ((t f).status) ≡ false
find_unused-none next t h f lt =
    let i = (f + nframes - next % nframes) % nframes in
    let e : (next + i) % nframes ≡ f = omega arith in
    rw e at (find_unused-run nframes next t i h (omega arith))
