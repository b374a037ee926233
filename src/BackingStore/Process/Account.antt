-- ===== src/BackingStore/Process/Account.antt =====
-- bs_init() takes as many stores as the process needs, and freeProcBS() gives them all back.
use operating_systems_paging.Prelude.{
  ℕ, zero, suc, ◌+◌, ◌-◌, ◌/◌, ◌^◌, ◌≤◌, ◌<◌, ◌≡◌, refl, true, false, some, arith, update, ==_ne,
  lt→ltb,
}
use operating_systems_paging.Outcome.{done, ◌>>=◌, Returns, Returns-mono, Returns-bind}
use operating_systems_paging.BackingStore.{
  BsEntry, Stores, Env, count_free, count_bs, allocate_bs, deallocate_bs, cleared,
}
use operating_systems_paging.BackingStore.Laws.{
  IsReady, taken, with_table, allocate_bs_lem, deallocate_bs_lem,
}
use operating_systems_paging.BackingStore.Count.{
  count_free-update, first_free-some, first_free_total,
}
use operating_systems_paging.BackingStore.Process.{
  min, init_loop, free_loop, bs_init, free_proc_bs, bs_req, zero_bsds, inc_free, dec_free,
}

-- The stores pbsd[lo], ..., pbsd[hi - 1] are distinct, allocated and not in use.
pub record Held (lo hi : ℕ) (p : ℕ → ℕ) (t : ℕ → BsEntry) : Type 0 where
  pub held :
      (k : ℕ)
      → lo ≤ k
      → k < hi
      → (p k < 8) × ((t (p k)).isallocated ≡ true) × ((t (p k)).usecount ≡ 0)
  pub apart : (j k : ℕ) → lo ≤ j → j < hi → lo ≤ k → k < hi → p j ≡ p k → j ≡ k

-- The table is ready, and free_bs_count is the number of free stores.
pub record IsCounted (s : Stores) : Type 0 where
  pub ready : IsReady s
  pub counted : s.free_bs_count ≡ count_free 8 s.bstab

count_free-le : (n : ℕ) (t : ℕ → BsEntry) → count_free n t ≤ n
unfolding count_free
count_free-le zero t = omega arith
count_free-le (suc n) t = ground (arith, count_free-le n t)

take_one :
    (env : Env) (npages : ℕ) (s : Stores)
    → IsCounted s
    → 0 < count_free 8 s.bstab
    → 1 ≤ npages
    → npages ≤ 200
    → (k : ℕ) × (allocate_bs env npages s
        ≡ done (some k, with_table s (update s.bstab k (taken npages))))
      × (k < 8)
      × ((s.bstab k).isallocated ≡ false)
      × (count_free 8 (update s.bstab k (taken npages)) + 1 ≡ count_free 8 s.bstab)
take_one env npages s c pos lo hi =
    let (k, e) = first_free_total s.bstab pos in
    let f = first_free-some 8 0 s.bstab k e in
    (
      k,
      rw (allocate_bs_lem env npages s c.ready lo hi, e),
      omega arith,
      f.2,
      ground (arith, f, count_free-update 8 k s.bstab (taken npages)),
    )

update-IsReady :
    (s : Stores) (k : ℕ) (e : BsEntry)
    → IsReady s
    → e.isopen ≡ e.isallocated
    → IsReady (with_table s (update s.bstab k e))
update-IsReady s k e r h = record {
  active = r.active;
  init_free = r.init_free;
  bs_free = r.bs_free;
  agree = λ i. ground (arith, r.agree i);
}

-- Setting entry `k` to `e`, and the count of free stores to the new number, keeps the table counted.
update-IsCounted :
    (s : Stores) (k n : ℕ) (e : BsEntry)
    → IsReady s
    → e.isopen ≡ e.isallocated
    → n ≡ count_free 8 (update s.bstab k e)
    → IsCounted (record s { bstab = update s.bstab k e; free_bs_count = n })
update-IsCounted s k n e r h c = record {
  ready = record {
    active = r.active;
    init_free = r.init_free;
    bs_free = r.bs_free;
    agree = (update-IsReady s k e r h).agree;
  };
  counted = c;
}

Held-take :
    (i k npages : ℕ) (p : ℕ → ℕ) (t : ℕ → BsEntry)
    → Held 0 i p t
    → k < 8
    → (t k).isallocated ≡ false
    → Held 0 (i + 1) (update p i k) (update t k (taken npages))
Held-take i k npages p t h lt free = record {
  held = λ j a b. ground (arith, h.held j);
  apart = λ j l a b c d e. ground (arith, h.held j, h.held l, h.apart j l);
}

Held-clear :
    (i m : ℕ) (p : ℕ → ℕ) (t : ℕ → BsEntry)
    → i < m
    → Held i m p t
    → Held (i + 1) m p (update t (p i) cleared)
Held-clear i m p t lt h = record {
  held = λ j a b. ground (arith, h.held j, h.apart i j);
  apart = λ j l a b c d e. h.apart j l (omega arith) b (omega arith) d e;
}

min_bounds : (n : ℕ) → (1 ≤ min (suc n) 200) × (min (suc n) 200 ≤ 200)
unfolding min
min_bounds n = ground arith

-- `r` stores were taken from `s`, and the table is counted again.
pub record Took (s : Stores) (r m : ℕ) (out : (ℕ → ℕ) × Stores) : Type 0 where
  pub table : IsCounted out.1
  pub spent : count_free 8 out.1.bstab + r ≡ count_free 8 s.bstab
  pub owned : Held 0 m out.0 out.1.bstab

init_loop-Took :
    (env : Env) (fuel remain i r m : ℕ) (p : ℕ → ℕ) (s : Stores)
    → IsCounted s
    → remain ≤ fuel
    → r ≡ (remain + 199) / 200
    → m ≡ i + r
    → r ≤ count_free 8 s.bstab
    → Held 0 i p s.bstab
    → Returns (init_loop env fuel remain i p s) (Took s r m)
unfolding init_loop
init_loop-Took env zero remain i r m p s c le er em enough h =
    let e : m ≡ i = omega arith in record { table = c; spent = omega arith; owned = rw e h }
init_loop-Took env (suc fuel) zero i r m p s c le er em enough h =
    let e : m ≡ i = omega arith in record { table = c; spent = omega arith; owned = rw e h }
init_loop-Took env (suc fuel) (suc n) i r m p s c le er em enough h =
    let np = min (suc n) 200 in
    let (k, e, lt, free, cnt) =
      take_one env np s c (omega arith) (min_bounds n).0 (min_bounds n).1 in
    let t = with_table s (update s.bstab k (taken np)) in
    let c' =
      update-IsCounted s k (dec_free t).free_bs_count (taken np) c.ready refl
        (omega (arith, c.counted, count_free-le 8 s.bstab)) in
    rw (==_ne (suc n) 0 (omega arith), e)
      (Returns-mono (init_loop env fuel (suc n - 200) (i + 1) (update p i k) (dec_free t))
        (λ out o. record { table = o.table; spent = omega (arith, o.spent); owned = o.owned })
        (init_loop-Took env fuel (suc n - 200) (i + 1) (r - 1) m (update p i k) (dec_free t) c'
          (omega arith) (omega arith) (omega arith) (omega arith)
          (Held-take i k np p s.bstab h lt free)))

-- `r` stores were given back to `s`.
abbrev pub Gave : Stores → ℕ → Stores → Type 0
Gave s r t = IsCounted t × (count_free 8 t.bstab ≡ count_free 8 s.bstab + r)

give_one :
    (k : ℕ) (s : Stores)
    → IsCounted s
    → k < 8
    → (s.bstab k).isallocated ≡ true
    → (s.bstab k).usecount ≡ 0
    → (deallocate_bs k s ≡ done (some k, with_table s (update s.bstab k cleared)))
      × (count_free 8 (update s.bstab k cleared) ≡ count_free 8 s.bstab + 1)
give_one k s c lt a u = (
  deallocate_bs_lem k s c.ready lt a (ground arith),
  ground (arith, count_free-update 8 k s.bstab cleared),
)

free_loop-Gave :
    (fuel remain i r m : ℕ) (p : ℕ → ℕ) (s : Stores)
    → IsCounted s
    → remain ≤ fuel
    → r ≡ (remain + 199) / 200
    → m ≡ i + r
    → Held i m p s.bstab
    → Returns (free_loop fuel remain i p s) (Gave s r)
unfolding free_loop
free_loop-Gave zero remain i r m p s c le er em h = (c, omega arith)
free_loop-Gave (suc fuel) zero i r m p s c le er em h = (c, omega arith)
free_loop-Gave (suc fuel) (suc n) i r m p s c le er em h =
    let (lt, a, u) = h.held i (omega arith) (omega arith) in
    let (e, cnt) = give_one (p i) s c lt a u in
    let t = with_table s (update s.bstab (p i) cleared) in
    let c' =
      update-IsCounted s (p i) (inc_free t).free_bs_count cleared c.ready refl
        (omega (arith, c.counted, count_free-le 8 s.bstab)) in
    rw (==_ne (suc n) 0 (omega arith), e)
      (Returns-mono (free_loop fuel (suc n - 200) (i + 1) p (inc_free t))
        (λ out o. (o.0, omega (arith, o.1)))
        (free_loop-Gave fuel (suc n - 200) (i + 1) (r - 1) m p (inc_free t) c' (omega arith)
          (omega arith) (omega arith) (Held-clear i m p s.bstab (omega arith) h)))

bs_req_lem : (hsize : ℕ) → bs_req hsize ≡ (hsize + 199) / 200
unfolding bs_req
bs_req_lem hsize = ground arith

-- When the table is ready, free_bs_count is the number of free stores and ⌈hsize/200⌉ is at most that,
-- bs_init() for hsize < 2^31 pages returns with ⌈hsize/200⌉ distinct stores allocated to the process
-- in pbsd, just so many fewer stores are free, and free_bs_count is again their number.
pub bs_init-Took :
    (env : Env) (hsize : ℕ) (p : ℕ → ℕ) (s : Stores)
    → IsCounted s
    → hsize < 2 ^ 31
    → bs_req hsize ≤ s.free_bs_count
    → Returns (bs_init env hsize p s) (Took s (bs_req hsize) (bs_req hsize))
unfolding bs_init
bs_init-Took env hsize p s c small enough = rw (lt→ltb hsize (2 ^ 31) small) (
    init_loop-Took env hsize hsize 0 (bs_req hsize) (bs_req hsize) (zero_bsds 8 p) s c (omega arith)
      (bs_req_lem hsize) (omega arith) (omega (arith, c.counted))
      (record { held = λ k a b. absurd (omega arith); apart = λ j k a b. absurd (omega arith) }))

-- The table is ready, and as many stores are free as in `s`.
abbrev pub Restored : Stores → Stores → Type 0
Restored s u = IsReady u × (count_bs u ≡ count_bs s) × (u.free_bs_count ≡ s.free_bs_count)

-- When the table is ready, free_bs_count is the number of free stores and ⌈hsize/200⌉ is at most that,
-- bs_init() for hsize < 2^31 pages and then freeProcBS() return, and leave the table ready, with the
-- number of free stores and free_bs_count as they were.
pub free_proc_bs-bs_init :
    (env : Env) (hsize : ℕ) (p : ℕ → ℕ) (s : Stores)
    → IsCounted s
    → hsize < 2 ^ 31
    → bs_req hsize ≤ s.free_bs_count
    → Returns (do (p', t) ← bs_init env hsize p s; free_proc_bs true hsize p' t) (Restored s)
unfolding free_proc_bs count_bs
free_proc_bs-bs_init env hsize p s c small enough =
    Returns-bind (Restored s) (bs_init env hsize p s) _ (bs_init-Took env hsize p s c small enough)
      λ out k. rw (lt→ltb hsize (2 ^ 31) small) (
        Returns-mono (free_loop hsize hsize 0 out.0 out.1)
          (λ u g. (
            g.0.ready,
            omega (arith, g.1, k.spent),
            omega (arith, g.0.counted, g.1, k.spent, c.counted),
          ))
          (free_loop-Gave hsize hsize 0 (bs_req hsize) (bs_req hsize) out.0 out.1 k.table
            (omega arith) (bs_req_lem hsize) (omega arith) k.owned))
