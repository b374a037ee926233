-- ===== src/BackingStore/Count.antt =====
-- How many stores are free: count_bs() against allocate_bs() and deallocate_bs().
use operating_systems_paging.Prelude.{
  ℕ, zero, suc, ◌+◌, ◌≤◌, ◌<◌, ◌≡◌, refl, false, inl, inr, none, some, arith, update, Option-cases,
  ==_refl, ==_ne, if◌then◌else◌,
}
use operating_systems_paging.BackingStore.{BsEntry, count_free}
use operating_systems_paging.BackingStore.Laws.{first_free}

abbrev free_one : BsEntry → ℕ
free_one e = if e.isallocated then 0 else 1

pub count_free-above :
    (n i : ℕ) (t : ℕ → BsEntry) (e : BsEntry) → n ≤ i → count_free n (update t i e) ≡ count_free n t
unfolding count_free
count_free-above zero i t e h = refl
count_free-above (suc n) i t e h =
    ground (arith, count_free-above n i t e (omega arith), ==_ne i n (omega arith))

pub count_free-update :
    (n i : ℕ) (t : ℕ → BsEntry) (e : BsEntry)
    → i < n
    → count_free n (update t i e) + free_one (t i) ≡ count_free n t + free_one e
unfolding count_free
count_free-update zero i t e h = absurd (omega arith)
count_free-update (suc n) i t e h =
    ground (arith, count_free-update n i t e, count_free-above n i t e, ==_refl i)

-- What first_free() finds, and what it means that it finds nothing.
pub first_free-some :
    (n i : ℕ) (t : ℕ → BsEntry) (k : ℕ)
    → first_free n i t ≡ some k
    → (i ≤ k) × (k < n + i) × ((t k).isallocated ≡ false)
unfolding first_free
first_free-some zero i t k h = absurd (cc)
first_free-some (suc n) i t k h = ground (arith, first_free-some n (i + 1) t k)

-- the free ones among the `n` entries from `i` on
count_from : ℕ → ℕ → (ℕ → BsEntry) → ℕ
count_from zero i t = 0
count_from (suc n) i t = free_one (t i) + count_from n (i + 1) t

count_from-snoc :
    (n i : ℕ) (t : ℕ → BsEntry) → count_from (suc n) i t ≡ count_from n i t + free_one (t (i + n))
unfolding count_from
count_from-snoc zero i t = let e : i + 0 ≡ i = omega arith in rw e (omega arith)
count_from-snoc (suc n) i t =
    let e : i + suc n ≡ i + 1 + n = omega arith in rw e (omega (arith, count_from-snoc n (i + 1) t))

count_from-eq-count_free : (n : ℕ) (t : ℕ → BsEntry) → count_from n 0 t ≡ count_free n t
unfolding count_free
count_from-eq-count_free zero t = unfold count_from in refl
count_from-eq-count_free (suc n) t =
    let e : 0 + n ≡ n = omega arith in
    omega (arith, rw e at (count_from-snoc n 0 t), count_from-eq-count_free n t)

first_free-none : (n i : ℕ) (t : ℕ → BsEntry) → first_free n i t ≡ none → count_from n i t ≡ 0
unfolding first_free count_from
first_free-none zero i t h = refl
first_free-none (suc n) i t h = ground (arith, first_free-none n (i + 1) t)

-- When a store is free, the search finds one.
pub first_free_total :
    (t : ℕ → BsEntry) → 0 < count_free 8 t → (k : ℕ) × (first_free 8 0 t ≡ some k)
first_free_total t h = elim (Option-cases (first_free 8 0 t)) [
  | inl e ↦ absurd (omega (arith, first_free-none 8 0 t e, count_from-eq-count_free 8 t))
  | inr f ↦ f
]
