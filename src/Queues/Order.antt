-- ===== src/Queues/Order.antt =====
-- Queues of processes: enqueue(), dequeue(), getitem() and newqueue() keep them first in, first out.
use mathlib.Core.Path.{subst}
use operating_systems_paging.Prelude.{
  ℕ, ◌-◌, ◌≤◌, ◌<◌, ◌≡◌, sym, ◌∙◌, inl, inr, true, false, List, [], ◌∷◌, ◌++◌, arith, Bool-cases,
  contains, NoRepeat, head_or, last_or, contains-append,
}
use operating_systems_paging.Queues.{Queuetab, nproc, nqent, queuetail, min_key, link, getitem}
use operating_systems_paging.Queues.Chain.{
  Chain, link-Chain, last_in, head_in, absent_ne, absent_left,
}

-- Queue `q` holds the processes `xs`, from its head to its tail.
pub record IsQueue (t : Queuetab) (q : ℕ) (xs : List ℕ) : Type 0 where
  pub chain : Chain t q xs (queuetail q)
  pub procs : (x : ℕ) → contains x xs ≡ true → x < nproc
  pub no_repeat : NoRepeat xs
  pub above : nproc ≤ q
  pub known : q < nqent - 1
  pub tail_key : (t (queuetail q)).qkey ≡ min_key

-- What is no process is not in the queue.
pub outside :
    (t : Queuetab) (q : ℕ) (xs : List ℕ)
    → IsQueue t q xs
    → (a : ℕ) → nproc ≤ a
    → contains a xs ≡ false
outside t q xs i a h = elim (Bool-cases (contains a xs)) [
  | inl e ↦ absurd (omega (arith, i.procs a e))
  | inr e ↦ e
]

pub prev_of :
    (t : Queuetab) (p : ℕ) (xs ys : List ℕ) (n : ℕ)
    → Chain t p (xs ++ ys) n
    → (t (head_or ys n)).qprev ≡ last_or p xs
prev_of t p [] [] n (h, k) = k
prev_of t p [] (y ∷ ys) n (h, k, l) = k
prev_of t p (x ∷ xs) ys n (h, k, l) = prev_of t x xs ys n l

-- Linking changes no key.
pub link_qkey : (pid p n : ℕ) (t : Queuetab) (x : ℕ) → (link pid p n t x).qkey ≡ (t x).qkey
link_qkey pid p n t x = ground arith

-- Linking a process in between two entries of a queue.
pub link-IsQueue :
    (t : Queuetab) (q : ℕ) (xs ys : List ℕ) (pid : ℕ)
    → IsQueue t q (xs ++ ys)
    → pid < nproc
    → contains pid (xs ++ ys) ≡ false
    → IsQueue
        (link pid ((t (head_or ys (queuetail q))).qprev) (head_or ys (queuetail q)) t)
        q
        (xs ++ pid ∷ ys)
link-IsQueue t q xs ys pid i lt new = record {
  chain =
      subst (λ p. Chain (link pid p (head_or ys (queuetail q)) t) q (xs ++ pid ∷ ys) (queuetail q))
        (sym (prev_of t q xs ys (queuetail q) i.chain))
        (link-Chain t q xs ys (queuetail q) pid (ground (arith, i.above))
          (ground (arith, outside t q (xs ++ ys) i (queuetail q) (omega (arith, i.above))))
          (outside t q (xs ++ ys) i q i.above, i.no_repeat) i.chain);
  procs =
      λ x e. ground (arith, i.procs x, contains-append x xs ys, contains-append x xs (pid ∷ ys));
  no_repeat = NoRepeat-insert xs ys i.no_repeat new;
  above = i.above;
  known = i.known;
  tail_key = link_qkey pid _ _ t (queuetail q) ∙ i.tail_key;
}
  where
    NoRepeat-insert :
        (cs bs : List ℕ)
        → NoRepeat (cs ++ bs)
        → contains pid (cs ++ bs) ≡ false
        → NoRepeat (cs ++ pid ∷ bs)
    NoRepeat-insert [] bs r e = (e, r)
    NoRepeat-insert (a ∷ cs) bs (f, r) e = (
      ground (arith, contains-append a cs bs, contains-append a cs (pid ∷ bs)),
      NoRepeat-insert cs bs r (ground arith),
    )

pub getitem_qkey : (x : ℕ) (t : Queuetab) (y : ℕ) → (getitem x t y).qkey ≡ (t y).qkey
unfolding getitem
getitem_qkey x t y = ground arith

-- Linking in between two entries of a queue changes no entry but those of the queue and the process.
pub link-same :
    (t : Queuetab) (q : ℕ) (us vs : List ℕ) (pid p y : ℕ)
    → p ≡ last_or q us
    → contains y (pid ∷ q ∷ queuetail q ∷ us ++ vs) ≡ false
    → link pid p (head_or vs (queuetail q)) t y ≡ t y
link-same t q us vs pid p y e h = ground (
  arith,
  absent_left y us vs (ground arith),
  absent_ne y (last_or q us) (q ∷ us) (ground (arith, absent_left y us vs)) (last_in q us),
  absent_ne y (head_or vs (queuetail q)) (queuetail q ∷ vs) (ground (arith, absent_left y us vs))
      (head_in vs (queuetail q)),
)
