-- ===== src/Queues/Insertd.antt =====
-- insertd() keeps the delta list: the process sleeps for its delay, and no other wakes later or sooner.
use operating_systems_paging.Prelude.{
  ℕ, ◌+◌, ◌-◌, ◌^◌, ◌<◌, ◌≡◌, refl, head_or, true, not, ◌&&◌, ◌==◌, if◌then◌else◌, Bool, false,
  Option, some, List, ◌∷◌, ◌++◌, arith, contains, lt→leb, ==_refl,
}
use operating_systems_paging.Queues.{Queuetab, nproc, nqent, queuetail, insertd, sub_key}
use operating_systems_paging.Queues.Order.{IsQueue}
use operating_systems_paging.Queues.Sorted.{length-bound}
use operating_systems_paging.Queues.Delay.{
  sooner, after, remaining, remaining_le, IsAbove, after-IsAbove, wake_time, sooner-after,
  wake_time-insert, wake_time_new,
}
use operating_systems_paging.Queues.Linked.{
  inserted, link_delay-IsQueue, link_delay-same, link_delay_keys,
}
use operating_systems_paging.Queues.Search.{delay, Delays, next_of, find_delay_lem}
use operating_systems_paging.Queues.Shrink.{shrunk, kept, own, still}

-- What insertd() does to a delta list.
pub record Delayed (t : Queuetab) (q pid n : ℕ) (xs : List ℕ) (out : Option (Bool × Queuetab))
    : Type 0 where
  pub table : Queuetab
  pub first : List ℕ
  pub last : List ℕ
  pub returns : out ≡ some (true, table)
  pub split : first ++ last ≡ xs
  pub queue : IsQueue table q (first ++ pid ∷ last)
  pub same : (y : ℕ) → contains y (pid ∷ q ∷ queuetail q ∷ xs) ≡ false → table y ≡ t y
  pub delays : Delays table (first ++ pid ∷ last)
  pub wakes : wake_time (delay table) (first ++ pid ∷ last) pid ≡ n
  pub others :
      (y : ℕ)
      → contains y xs ≡ true
      → wake_time (delay table) (first ++ pid ∷ last) y ≡ wake_time (delay t) xs y

module _ (t : Queuetab) (q pid n : ℕ) (xs : List ℕ) (i : IsQueue t q xs) (lt : pid < nproc)
    (new : contains pid xs ≡ false) (d : Delays t xs) (b : n < 2 ^ 31) where
  abbrev us : List ℕ
  us = sooner (delay t) n xs

  abbrev vs : List ℕ
  vs = after (delay t) n xs

  abbrev rest : ℕ
  rest = remaining (delay t) n xs

  whole : us ++ vs ≡ xs
  whole = sooner-after (delay t) n xs

  queue_split : IsQueue t q (us ++ vs)
  queue_split = rw whole i

  new_split : contains pid (us ++ vs) ≡ false
  new_split = rw whole new

  abbrev changed : Queuetab
  changed = inserted t q pid (2 ^ 31 + rest) us vs queue_split lt new_split

  key_of :
      (y : ℕ)
      → (changed y).qkey ≡ (
          if pid == y
          then 2 ^ 31 + rest
          else if head_or vs (queuetail q) == y && not (y == queuetail q)
          then sub_key ((t y).qkey) (2 ^ 31 + rest)
          else (t y).qkey)
  key_of y = link_delay_keys t q pid (2 ^ 31 + rest) us vs queue_split lt new_split y

  returned :
      (free : ℕ → Bool)
      → free pid ≡ false
      → insertd free pid q (2 ^ 31 + n) t ≡ some (true, changed)
  unfolding insertd
  returned free live =
      rw
        (
          lt→leb (nqent - 1) q i.known,
          lt→leb nproc pid lt,
          live,
          next_of t q (queuetail q) xs i.chain,
          find_delay_lem t q q n (nproc + 1) xs i.chain i.procs i.above d b
              (omega (arith, length-bound nproc xs i.no_repeat i.procs)),
        )
        refl

-- insertd() of a live process with a delay of `n` ms, at least 0 as an int32, into a delta list with delays
-- at least 0 ends and returns OK: the process is put in, wakes after `n`, every other process of the
-- list wakes when it did, the delays stay at least 0, and no entry but those of the list changes.
pub insertd-Delayed :
    (free : ℕ → Bool) (t : Queuetab) (q pid n : ℕ) (xs : List ℕ)
    → IsQueue t q xs
    → pid < nproc
    → free pid ≡ false
    → contains pid xs ≡ false
    → Delays t xs
    → n < 2 ^ 31
    → Delayed t q pid n xs (insertd free pid q (2 ^ 31 + n) t)
insertd-Delayed free t q pid n xs i lt live new d b = record {
  table = u;
  first = f;
  last = l;
  returns = returned t q pid n xs i lt new d b free live;
  split = whole t q pid n xs i lt new d b;
  queue = link_delay-IsQueue t q pid (2 ^ 31 + r) f l queue lt fresh;
  same = λ y h.
      link_delay-same t q pid (2 ^ 31 + r) f l queue lt fresh y
        (rw (whole t q pid n xs i lt new d b) h);
  delays = still t u q pid r f l queue fresh delays small above keys;
  wakes =
      wake_time_new (delay t) (delay u) pid n xs new at
        (kept t u q pid r f l queue fresh delays small above keys);
  others = λ y m.
      wake_time-insert (delay t) (delay u) pid n xs y new at
        (kept t u q pid r f l queue fresh delays small above keys)
        (shrunk t u q pid r f l queue fresh delays small above keys) m;
}
  where
    u : Queuetab
    u = changed t q pid n xs i lt new d b

    f : List ℕ
    f = us t q pid n xs i lt new d b

    l : List ℕ
    l = vs t q pid n xs i lt new d b

    r : ℕ
    r = rest t q pid n xs i lt new d b

    queue : IsQueue t q (f ++ l)
    queue = queue_split t q pid n xs i lt new d b

    fresh : contains pid (f ++ l) ≡ false
    fresh = new_split t q pid n xs i lt new d b

    delays : Delays t (f ++ l)
    delays = rw (whole t q pid n xs i lt new d b) d

    small : r < 2 ^ 31
    small = omega (arith, remaining_le (delay t) n xs, b)

    above : IsAbove (delay t) r l
    above = after-IsAbove (delay t) n xs

    keys :
        (y : ℕ)
        → (u y).qkey ≡ (
            if pid == y
            then 2 ^ 31 + r
            else if head_or l (queuetail q) == y && not (y == queuetail q)
            then sub_key ((t y).qkey) (2 ^ 31 + r)
            else (t y).qkey)
    keys y = key_of t q pid n xs i lt new d b y

    at : delay u pid ≡ r
    at = omega (arith, own t u q pid r f l queue fresh delays small above keys pid (==_refl pid))
