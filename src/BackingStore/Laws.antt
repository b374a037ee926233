-- ===== src/BackingStore/Laws.antt =====
-- What allocate_bs() and deallocate_bs() do to a table that is ready for use.
use mathlib.Core.Path.{fun_ext}
use operating_systems_paging.Prelude.{
  ℕ, zero, suc, ◌+◌, ◌≤◌, ◌<◌, ◌≡◌, refl, ap, true, false, inl, inr, Option, none, some, arith,
  if◌then◌else◌, update, Bool-cases, ==_refl,
}
use operating_systems_paging.Outcome.{Outcome, done}
use operating_systems_paging.BackingStore.{
  BsEntry, Stores, Env, ensure_active, get_bs, find_store, allocate_bs, positive, release_bs,
  deallocate_bs, cleared,
}

-- The page server runs, no process holds a mutex, and a store is open exactly if it is allocated.
pub record IsReady (s : Stores) : Type 0 where
  pub active : s.active ≡ true
  pub init_free : s.init_sem ≡ 1
  pub bs_free : s.bs_sem ≡ 1
  pub agree : (i : ℕ) → (s.bstab i).isopen ≡ (s.bstab i).isallocated

-- the first of the `n` stores from `i` on that is not allocated
unfoldable pub first_free : ℕ → ℕ → (ℕ → BsEntry) → Option ℕ
first_free zero i t = none
first_free (suc n) i t = if (t i).isallocated then first_free n (i + 1) t else some i

abbrev pub taken : ℕ → BsEntry
taken npages = record { isopen = true; isallocated = true; usecount = 0; npages = npages }

abbrev pub with_table : Stores → (ℕ → BsEntry) → Stores
with_table s t = record s { bstab = t }

pub update-update {ℓ} :
    {A : Type ℓ} (t : ℕ → A) (i : ℕ) (a b : A) → update (update t i a) i b ≡ update t i b
update-update t i a b = fun_ext λ j. ground arith

abbrev pub allocated : Stores → ℕ → Option ℕ → Outcome (Option ℕ × Stores)
allocated s npages none = done (none, s)
allocated s npages (some i) = done (some i, with_table s (update s.bstab i (taken npages)))

ensure_active_lem : (env : Env) (s : Stores) → s.active ≡ true → ensure_active env s ≡ done s
unfolding ensure_active
ensure_active_lem env s e = rw e

get_bs-free :
    (env : Env) (i npages : ℕ) (s : Stores)
    → IsReady s
    → i < 8
    → 1 ≤ npages
    → npages ≤ 200
    → (s.bstab i).isallocated ≡ false
    → get_bs env i npages s
      ≡ done (
        some npages,
        with_table s (update s.bstab i (record (s.bstab i) { isopen = true; npages = npages })),
      )
unfolding get_bs
get_bs-free env i npages s r hi lo hi' e =
    ground (arith, ensure_active_lem env s r.active, r.agree i)

find_store_lem :
    (env : Env) (npages : ℕ) (s : Stores) (n i : ℕ)
    → IsReady s
    → n + i ≤ 8
    → 1 ≤ npages
    → npages ≤ 200
    → find_store env npages n i s ≡ allocated s npages (first_free n i s.bstab)
unfolding find_store first_free
find_store_lem env npages s zero i r b lo hi = refl
find_store_lem env npages s (suc n) i r b lo hi = elim (Bool-cases (s.bstab i).isallocated) [
  | inl t ↦ rw (t, find_store) (find_store_lem env npages s n (i + 1) r (omega arith) lo hi)
  | inr f ↦
      rw (f, find_store, get_bs-free env i npages s r (omega arith) lo hi f)
        (ap (λ t. done (some i, with_table s t)) (fun_ext λ j. ground arith))
]

-- On a table that is ready, allocate_bs() of 1 to 200 pages returns the first store that is not
-- allocated, which is then open and allocated with that many pages, all else as before; when all
-- eight are allocated it returns SYSERR and changes nothing.
pub allocate_bs_lem :
    (env : Env) (npages : ℕ) (s : Stores)
    → IsReady s
    → 1 ≤ npages
    → npages ≤ 200
    → allocate_bs env npages s ≡ allocated s npages (first_free 8 0 s.bstab)
unfolding allocate_bs
allocate_bs_lem env npages s r lo hi =
    ground (
      arith,
      ensure_active_lem env s r.active,
      find_store_lem env npages s 8 0 r (omega arith) lo hi,
    )

abbrev released : BsEntry → BsEntry
released e = record e { isopen = false; npages = 0 }

release_bs_lem :
    (i : ℕ) (s : Stores)
    → IsReady s
    → i < 8
    → (s.bstab i).isallocated ≡ true
    → release_bs i s ≡ done (some tt, with_table s (update s.bstab i (released (s.bstab i))))
unfolding release_bs
release_bs_lem i s r hi a = ground (arith, r.agree i)

-- On a table that is ready, deallocate_bs() of an allocated store whose use count is not positive
-- clears the entry of that store and changes nothing else.
pub deallocate_bs_lem :
    (i : ℕ) (s : Stores)
    → IsReady s
    → i < 8
    → (s.bstab i).isallocated ≡ true
    → positive (s.bstab i).usecount ≡ false
    → deallocate_bs i s ≡ done (some i, with_table s (update s.bstab i cleared))
unfolding deallocate_bs
deallocate_bs_lem i s r hi a u = ground (
  arith,
  release_bs_lem i s r hi a,
  ==_refl i,
  update-update s.bstab i (released (s.bstab i)) cleared,
)
