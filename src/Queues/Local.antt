-- ===== src/Queues/Local.antt =====
-- What getitem() and enqueue() leave alone.
use mathlib.Core.List.{append-nil}
use operating_systems_paging.Prelude.{
  ℕ, ◌-◌, ◌≤◌, ◌<◌, ◌≡◌, refl, head_or, last_or, ◌||◌, Bool, false, List, [], ◌∷◌, ◌++◌, arith,
  contains, lt→leb, Bool-cases, inl, inr,
}
use operating_systems_paging.Queues.{
  Queuetab, nproc, nqent, queuetail, enqueue, getitem, is_bad_qid, is_bad_pid,
}
use operating_systems_paging.Queues.Chain.{links_of, absent_ne, absent_left, head_in, last_in}
use operating_systems_paging.Queues.Order.{IsQueue, link_qkey, link-same, prev_of}
use operating_systems_paging.Queues.Sorted.{Descending}

-- getitem() and enqueue() change no key, and no entry but those of the queue and the process.
pub getitem-same :
    (t : Queuetab) (q : ℕ) (xs : List ℕ) (x : ℕ) (ys : List ℕ) (y : ℕ)
    → IsQueue t q (xs ++ x ∷ ys)
    → contains y (q ∷ queuetail q ∷ xs ++ x ∷ ys) ≡ false
    → getitem x t y ≡ t y
unfolding getitem
getitem-same t q xs x ys y i h = ground (
  arith,
  links_of t q xs x ys (queuetail q) i.chain,
  absent_ne y (last_or q xs) (q ∷ xs) (ground (arith, absent_left y xs (x ∷ ys))) (last_in q xs),
  absent_ne y (head_or ys (queuetail q)) (queuetail q ∷ ys)
      (ground (arith, absent_left y xs (x ∷ ys))) (head_in ys (queuetail q)),
)

pub enqueue_keys :
    (free : ℕ → Bool) (pid q : ℕ) (t : Queuetab) (y : ℕ)
    → ((enqueue free pid q t).1 y).qkey ≡ (t y).qkey
unfolding enqueue
enqueue_keys free pid q t y = elim (Bool-cases (is_bad_qid q || is_bad_pid free pid)) [
  | inl e ↦ rw e refl
  | inr e ↦ rw e (link_qkey pid ((t (queuetail q)).qprev) (queuetail q) t y)
]

pub enqueue-same :
    (free : ℕ → Bool) (t : Queuetab) (q : ℕ) (xs : List ℕ) (pid y : ℕ)
    → IsQueue t q xs
    → pid < nproc
    → free pid ≡ false
    → contains y (pid ∷ q ∷ queuetail q ∷ xs) ≡ false
    → (enqueue free pid q t).1 y ≡ t y
unfolding enqueue
enqueue-same free t q xs pid y i lt live h =
    rw (lt→leb (nqent - 1) q i.known, lt→leb nproc pid lt, live)
      (link-same t q xs [] pid ((t (queuetail q)).qprev) y
        (prev_of t q xs [] (queuetail q) (rw (append-nil xs) i.chain)) (rw (append-nil xs) h))

-- A shorter list in descending order.
Descending-weak :
    (f : ℕ → ℕ) (hi lo : ℕ) (xs : List ℕ) → lo ≤ hi → Descending f lo xs → Descending f hi xs
Descending-weak f hi lo [] h d = tt
Descending-weak f hi lo (x ∷ xs) h (a, d) = (omega arith, d)

pub Descending-without :
    (f : ℕ → ℕ) (hi : ℕ) (xs : List ℕ) (x : ℕ) (ys : List ℕ)
    → Descending f hi (xs ++ x ∷ ys)
    → Descending f hi (xs ++ ys)
Descending-without f hi [] x ys (a, d) = Descending-weak f hi (f x) ys a d
Descending-without f hi (z ∷ zs) x ys (a, d) = (a, Descending-without f (f z) zs x ys d)
