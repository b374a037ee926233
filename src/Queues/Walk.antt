-- ===== src/Queues/Walk.antt =====
-- insertd() ends and puts the process in, whatever the keys of the queue.
use operating_systems_paging.Prelude.{
  ℕ, zero, suc, ◌+◌, ◌-◌, ◌≤◌, ◌<◌, ◌≡◌, refl, ap, head_or, last_or, true, ◌==◌, Bool, false,
  Option, some, List, [], ◌∷◌, ◌++◌, arith, contains, length, lt→leb, leb, Bool-cases, inl, inr,
  ==_refl, ==_ne,
}
use operating_systems_paging.Queues.{
  Queuetab, nproc, nqent, queuetail, insertd, find_delay, sub_key,
}
use operating_systems_paging.Queues.Chain.{Chain}
use operating_systems_paging.Queues.Order.{IsQueue}
use operating_systems_paging.Queues.Sorted.{length-bound}
use operating_systems_paging.Queues.Linked.{inserted, link_delay-IsQueue, link_delay-same}
use operating_systems_paging.Queues.Search.{next_of}

-- Where the walk stops.
pub record Stopped (p n : ℕ) (xs : List ℕ) (out : Option (ℕ × ℕ × ℕ)) : Type 0 where
  pub key : ℕ
  pub us : List ℕ
  pub vs : List ℕ
  pub split : us ++ vs ≡ xs
  pub found : out ≡ some (key, last_or p us, head_or vs n)

find_delay-Stopped :
    (t : Queuetab) (q p key fuel : ℕ) (xs : List ℕ)
    → Chain t p xs (queuetail q)
    → ((x : ℕ) → contains x xs ≡ true → x < nproc)
    → nproc ≤ q
    → length xs < fuel
    → Stopped p (queuetail q) xs (find_delay fuel q key p (head_or xs (queuetail q)) t)
unfolding find_delay
find_delay-Stopped t q p key zero xs c s lo h = absurd (omega (arith, h))
find_delay-Stopped t q p key (suc fuel) [] c s lo h = record {
  key = key;
  us = [];
  vs = [];
  split = refl;
  found = rw (==_refl (queuetail q)) refl;
}
find_delay-Stopped t q p key (suc fuel) (x ∷ xs) c s lo h =
    elim (Bool-cases (leb ((t x).qkey) key)) [
      | inl e ↦
          let r =
            find_delay-Stopped t q x (sub_key key ((t x).qkey)) fuel xs c.2
              (λ y m. s y (ground arith)) lo (omega (arith, h)) in
          record {
            key = r.key;
            us = x ∷ r.us;
            vs = r.vs;
            split = ap (λ l. x ∷ l) r.split;
            found = rw (e, tail_ne, next_of t x (queuetail q) xs c.2) r.found;
          }
      | inr e ↦ record {
        key = key;
        us = [];
        vs = x ∷ xs;
        split = refl;
        found = rw (e, tail_ne) refl;
      }
    ]
  where
    tail_ne : (x == queuetail q) ≡ false
    tail_ne = ==_ne x (queuetail q) (λ z. omega (arith, z, lo, s x (ground (arith, ==_refl x))))

-- The process stands somewhere in the queue, and no entry but its own and those of the queue has changed.
pub record Slotted (t : Queuetab) (q pid : ℕ) (xs : List ℕ) (out : Option (Bool × Queuetab))
    : Type 0 where
  pub table : Queuetab
  pub us : List ℕ
  pub vs : List ℕ
  pub split : us ++ vs ≡ xs
  pub returns : out ≡ some (true, table)
  pub queue : IsQueue table q (us ++ pid ∷ vs)
  pub same : (y : ℕ) → contains y (pid ∷ q ∷ queuetail q ∷ xs) ≡ false → table y ≡ t y

pub insertd-Slotted :
    (free : ℕ → Bool) (t : Queuetab) (q pid key : ℕ) (xs : List ℕ)
    → IsQueue t q xs
    → pid < nproc
    → free pid ≡ false
    → contains pid xs ≡ false
    → Slotted t q pid xs (insertd free pid q key t)
unfolding insertd
insertd-Slotted free t q pid key xs i lt live new = record {
  table = inserted t q pid r.key r.us r.vs queue lt fresh;
  us = r.us;
  vs = r.vs;
  split = r.split;
  returns =
      rw
        (
          lt→leb (nqent - 1) q i.known,
          lt→leb nproc pid lt,
          live,
          next_of t q (queuetail q) xs i.chain,
          r.found,
        )
        refl;
  queue = link_delay-IsQueue t q pid r.key r.us r.vs queue lt fresh;
  same = λ y h. link_delay-same t q pid r.key r.us r.vs queue lt fresh y (rw r.split h);
}
  where
    r : Stopped q (queuetail q) xs (find_delay (nproc + 1) q key q (head_or xs (queuetail q)) t)
    r =
        find_delay-Stopped t q q key (nproc + 1) xs i.chain i.procs i.above
          (omega (arith, length-bound nproc xs i.no_repeat i.procs))

    queue : IsQueue t q (r.us ++ r.vs)
    queue = rw r.split i

    fresh : contains pid (r.us ++ r.vs) ≡ false
    fresh = rw r.split new
