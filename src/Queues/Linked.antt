-- ===== src/Queues/Linked.antt =====
-- The end of insertd(): the process goes in between two entries, and the next delay shrinks.
use mathlib.Core.Path.{subst}
use operating_systems_paging.Prelude.{
  ℕ, ◌<◌, ◌≡◌, refl, ◌∙◌, head_or, last_or, not, ◌&&◌, ◌==◌, if◌then◌else◌, false, List, [], ◌∷◌,
  ◌++◌, arith, contains, contains-append, Bool-cases, inl, inr, ==→≡, ==_refl, ==_ne,
}
use operating_systems_paging.Queues.{
  Queuetab, nproc, queuetail, link, link_delay, set_qkey, sub_key,
}
use operating_systems_paging.Queues.Order.{IsQueue, link-IsQueue, link_qkey, link-same, prev_of}
use operating_systems_paging.Queues.Sorted.{keyed-IsQueue}

module _ (t : Queuetab) (q pid key : ℕ) (us vs : List ℕ) (i : IsQueue t q (us ++ vs))
    (lt : pid < nproc) (new : contains pid (us ++ vs) ≡ false) where
  abbrev keyed : Queuetab
  keyed = set_qkey pid key t

  -- the table before the next delay shrinks
  abbrev linked : Queuetab
  linked = link pid (last_or q us) (head_or vs (queuetail q)) keyed

  -- the table after insertd()
  abbrev pub inserted : Queuetab
  inserted = link_delay pid q key (last_or q us) (head_or vs (queuetail q)) t

  before_next : (keyed (head_or vs (queuetail q))).qprev ≡ last_or q us
  before_next =
      prev_of keyed q us vs (queuetail q) (keyed-IsQueue t q (us ++ vs) pid key i lt).chain

  linked-IsQueue : IsQueue linked q (us ++ pid ∷ vs)
  linked-IsQueue =
      subst (λ p. IsQueue (link pid p (head_or vs (queuetail q)) keyed) q (us ++ pid ∷ vs))
        before_next
        (link-IsQueue keyed q us vs pid (keyed-IsQueue t q (us ++ vs) pid key i lt) lt new)

  linked-same : (y : ℕ) → contains y (pid ∷ q ∷ queuetail q ∷ us ++ vs) ≡ false → linked y ≡ t y
  linked-same y h = link-same keyed q us vs pid (last_or q us) y refl h ∙ ground arith

  linked_key : (y : ℕ) → (linked y).qkey ≡ (if pid == y then key else (t y).qkey)
  linked_key y = link_qkey pid (last_or q us) (head_or vs (queuetail q)) keyed y ∙ ground arith

set_qkey_other : (v key : ℕ) (u : Queuetab) (y : ℕ) → (v == y) ≡ false → set_qkey v key u y ≡ u y
set_qkey_other v key u y h = rw h refl

set_qkey_at :
    (v key : ℕ) (u : Queuetab) (y : ℕ)
    → (set_qkey v key u y).qkey ≡ (if v == y then key else (u y).qkey)
set_qkey_at v key u y = ground arith

-- a process of the queue is not its tail
not_tail :
    (t : Queuetab) (q v : ℕ) (us vs : List ℕ)
    → IsQueue t q (us ++ v ∷ vs)
    → (v == queuetail q) ≡ false
not_tail t q v us vs i = ==_ne v (queuetail q) (λ z.
    omega (arith, z, i.above, i.procs v (ground (arith, contains-append v us (v ∷ vs), ==_refl v))))

pub link_delay-IsQueue :
    (t : Queuetab) (q pid key : ℕ) (us vs : List ℕ) (i : IsQueue t q (us ++ vs)) (lt : pid < nproc)
    (new : contains pid (us ++ vs) ≡ false)
    → IsQueue (inserted t q pid key us vs i lt new) q (us ++ pid ∷ vs)
unfolding link_delay
link_delay-IsQueue t q pid key us [] i lt new =
    rw (==_refl (queuetail q)) (linked-IsQueue t q pid key us [] i lt new)
link_delay-IsQueue t q pid key us (v ∷ vs) i lt new = rw (not_tail t q v us vs i) (
    keyed-IsQueue (linked t q pid key us (v ∷ vs) i lt new) q (us ++ pid ∷ v ∷ vs) v _
      (linked-IsQueue t q pid key us (v ∷ vs) i lt new)
      (i.procs v (ground (arith, contains-append v us (v ∷ vs), ==_refl v))))

pub link_delay-same :
    (t : Queuetab) (q pid key : ℕ) (us vs : List ℕ) (i : IsQueue t q (us ++ vs)) (lt : pid < nproc)
    (new : contains pid (us ++ vs) ≡ false) (y : ℕ)
    → contains y (pid ∷ q ∷ queuetail q ∷ us ++ vs) ≡ false
    → inserted t q pid key us vs i lt new y ≡ t y
unfolding link_delay
link_delay-same t q pid key us [] i lt new y h =
    rw (==_refl (queuetail q)) (linked-same t q pid key us [] i lt new y h)
link_delay-same t q pid key us (v ∷ vs) i lt new y h = rw (not_tail t q v us vs i) (
    set_qkey_other v _ (linked t q pid key us (v ∷ vs) i lt new) y apart
    ∙ linked-same t q pid key us (v ∷ vs) i lt new y h)
  where
    apart : (v == y) ≡ false
    apart = ground (arith, contains-append y us (v ∷ vs))

-- the key of the process, of the next one and of the others
pub link_delay_keys :
    (t : Queuetab) (q pid key : ℕ) (us vs : List ℕ) (i : IsQueue t q (us ++ vs)) (lt : pid < nproc)
    (new : contains pid (us ++ vs) ≡ false) (y : ℕ)
    → (inserted t q pid key us vs i lt new y).qkey ≡ (
        if pid == y
        then key
        else if head_or vs (queuetail q) == y && not (y == queuetail q)
        then sub_key ((t y).qkey) key
        else (t y).qkey)
unfolding link_delay
link_delay_keys t q pid key us [] i lt new y =
    rw (==_refl (queuetail q)) (linked_key t q pid key us [] i lt new y ∙ ground arith)
link_delay_keys t q pid key us (v ∷ vs) i lt new y = rw (not_tail t q v us vs i) (
    set_qkey_at v (sub_key ((linked t q pid key us (v ∷ vs) i lt new v).qkey) key)
      (linked t q pid key us (v ∷ vs) i lt new) y
    ∙ at)
  where
    pid_ne : (pid == v) ≡ false
    pid_ne = ground (arith, contains-append pid us (v ∷ vs))

    old : (linked t q pid key us (v ∷ vs) i lt new v).qkey ≡ (t v).qkey
    old = linked_key t q pid key us (v ∷ vs) i lt new v ∙ rw pid_ne refl

    at :
        (if v == y
          then sub_key ((linked t q pid key us (v ∷ vs) i lt new v).qkey) key
          else (linked t q pid key us (v ∷ vs) i lt new y).qkey)
        ≡ (if pid == y
            then key
            else if v == y && not (y == queuetail q)
            then sub_key ((t y).qkey) key
            else (t y).qkey)
    at =
        rw (old, linked_key t q pid key us (v ∷ vs) i lt new y)
          (elim (Bool-cases (v == y)) [
            | inl e ↦
                subst
                  (λ z.
                    (if v == z
                      then sub_key ((t v).qkey) key
                      else if pid == z
                      then key
                      else (t z).qkey)
                    ≡ (if pid == z
                        then key
                        else if v == z && not (z == queuetail q)
                        then sub_key ((t z).qkey) key
                        else (t z).qkey))
                  (==→≡ v y e) (rw (==_refl v, pid_ne, not_tail t q v us vs i) refl)
            | inr e ↦ rw e refl
          ])
