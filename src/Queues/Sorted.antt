-- ===== src/Queues/Sorted.antt =====
-- insert() keeps a queue in descending order of its keys.
use operating_systems_paging.Prelude.{
  ℕ, zero, suc, ◌+◌, ◌-◌, ◌≤◌, ◌<◌, ◌≡◌, refl, sym, ap, ◌∙◌, inl, inr, Bool, true, false, Option,
  some, List, [], ◌∷◌, ◌++◌, arith, ◌==◌, Bool-cases, update, if◌then◌else◌, contains, NoRepeat,
  head_or, last_or, contains-append, contains-split, NoRepeat-middle, Apart, length, length-append,
  leb, lt→leb, ==_refl,
}
use operating_systems_paging.Queues.{
  Queuetab, nproc, nqent, queuetail, link, find_place, insert, min_key, set_qkey,
}
use operating_systems_paging.Queues.Chain.{Chain, Chain-same, absent_ne}
use operating_systems_paging.Queues.Order.{IsQueue, link-IsQueue, link_qkey, link-same, prev_of}

-- Distinct numbers up to `n`, one of them `n`: the others are below `n`.
others-below :
    (n : ℕ) (us vs : List ℕ)
    → NoRepeat (us ++ n ∷ vs)
    → ((x : ℕ) → contains x (us ++ n ∷ vs) ≡ true → x < suc n)
    → NoRepeat (us ++ vs) × ((x : ℕ) → contains x (us ++ vs) ≡ true → x < n)
others-below n us vs r b = (m.2, small)
  where
    m : (contains n us ≡ false) × (contains n vs ≡ false) × NoRepeat (us ++ vs) × Apart us vs
    m = NoRepeat-middle us n vs r

    small : (x : ℕ) → contains x (us ++ vs) ≡ true → x < n
    small x h = ground (
      arith,
      b x (ground (arith, contains-append x us vs, contains-append x us (n ∷ vs))),
      absent_ne n x (us ++ vs) (ground (arith, m.0, m.1, contains-append n us vs)) h,
    )

-- Distinct numbers below `n` are at most `n`.
pub length-bound :
    (n : ℕ) (xs : List ℕ) → NoRepeat xs → ((x : ℕ) → contains x xs ≡ true → x < n) → length xs ≤ n
length-bound zero [] r b = omega arith
length-bound zero (x ∷ xs) r b = absurd (omega (arith, b x (ground arith)))
length-bound (suc n) xs r b = elim (Bool-cases (contains n xs)) [
  | inr e ↦ omega (arith, length-bound n xs r (λ x h. ground (arith, b x h)))
  | inl e ↦
      let (us, vs, f) = contains-split n xs e in
      let (r', b') = others-below n us vs (rw f at r) (λ x h. b x (ap (contains x) f ∙ h)) in
      omega (
        arith,
        ap length f,
        length-append us (n ∷ vs),
        length-append us vs,
        length-bound n (us ++ vs) r' b',
      )
]

-- the processes with at least the given key at the front of the queue, and the rest
abbrev pub before : (ℕ → ℕ) → ℕ → List ℕ → List ℕ
before k key [] = []
before k key (x ∷ xs) = if leb key (k x) then x ∷ before k key xs else []

abbrev pub after : (ℕ → ℕ) → ℕ → List ℕ → List ℕ
after k key [] = []
after k key (x ∷ xs) = if leb key (k x) then after k key xs else x ∷ xs

pub before-after : (k : ℕ → ℕ) (key : ℕ) (xs : List ℕ) → before k key xs ++ after k key xs ≡ xs
before-after k key [] = refl
before-after k key (x ∷ xs) = elim (Bool-cases (leb key (k x))) [
  | inl e ↦ rw e (ap (λ l. x ∷ l) (before-after k key xs))
  | inr e ↦ rw e refl
]

abbrev pub keys : Queuetab → ℕ → ℕ
keys t x = (t x).qkey

-- The search stops at the first process with a smaller key, or at the tail.
find_place_lem :
    (t : Queuetab) (key p n fuel : ℕ) (ys : List ℕ)
    → Chain t p ys n
    → (t n).qkey < key
    → length ys < fuel
    → find_place fuel key (head_or ys n) t ≡ some (head_or (after (keys t) key ys) n)
unfolding find_place
find_place_lem t key p n zero ys c lo h = absurd (omega arith)
find_place_lem t key p n (suc fuel) [] c lo h = rw (find_place, lt→leb key ((t n).qkey) lo) refl
find_place_lem t key p n (suc fuel) (y ∷ ys) (a, b, c) lo h =
    elim (Bool-cases (leb key ((t y).qkey))) [
      | inl e ↦
          rw (find_place, e, follows ys c) (find_place_lem t key y n fuel ys c lo (omega arith))
      | inr e ↦ rw (find_place, e) refl
    ]
  where
    follows : (zs : List ℕ) → Chain t y zs n → (t y).qnext ≡ head_or zs n
    follows [] d = d.0
    follows (z ∷ zs) d = d.0

-- The keys of the queue do not ascend, and none is above `hi`.
abbrev pub Descending : (ℕ → ℕ) → ℕ → List ℕ → Type 0
Descending k hi [] = Unit
Descending k hi (x ∷ xs) = (k x ≤ hi) × Descending k (k x) xs

abbrev pub placed : (ℕ → ℕ) → ℕ → ℕ → List ℕ → List ℕ
placed k key pid xs = before k key xs ++ pid ∷ after k key xs

abbrev with_key : ℕ → ℕ → (ℕ → ℕ) → ℕ → ℕ
with_key pid key k = update k pid key

Descending-other :
    (k : ℕ → ℕ) (key pid hi : ℕ) (xs : List ℕ)
    → contains pid xs ≡ false
    → Descending k hi xs
    → Descending (with_key pid key k) hi xs
Descending-other k key pid hi [] e d = tt
Descending-other k key pid hi (x ∷ xs) e (a, b) =
    let ne : (pid == x) ≡ false = ground arith in
    rw ne (a, Descending-other k key pid (k x) xs (ground arith) b)

placed-Descending :
    (k : ℕ → ℕ) (key pid hi : ℕ) (xs : List ℕ)
    → contains pid xs ≡ false
    → key ≤ hi
    → Descending k hi xs
    → Descending (with_key pid key k) hi (placed k key pid xs)
placed-Descending k key pid hi [] e h d = rw (==_refl pid) (h, tt)
placed-Descending k key pid hi (x ∷ xs) e h (a, b) = elim (Bool-cases (leb key (k x))) [
  | inl f ↦ rw (f, ne) (a, placed-Descending k key pid (k x) xs (ground arith) (ground arith) b)
  | inr f ↦
      rw (f, ==_refl pid, ne)
        (h, (ground arith, Descending-other k key pid (k x) xs (ground arith) b))
]
  where
    ne : (pid == x) ≡ false
    ne = ground arith

pub keyed-IsQueue :
    (t : Queuetab) (q : ℕ) (xs : List ℕ) (pid key : ℕ)
    → IsQueue t q xs
    → pid < nproc
    → IsQueue (set_qkey pid key t) q xs
keyed-IsQueue t q xs pid key i lt = record {
  chain =
      Chain-same t (set_qkey pid key t) q xs (queuetail q) (λ x e. ground arith)
        (λ x e. ground arith) i.chain;
  procs = i.procs;
  no_repeat = i.no_repeat;
  above = i.above;
  known = i.known;
  tail_key = ground (arith, i.above, i.tail_key);
}

-- insert() has put `pid` in behind the processes with at least its key: queue, keys and order,
-- and no entry but its own and those of the queue has changed.
pub record Inserted (t : Queuetab) (q hi pid key : ℕ) (xs : List ℕ) (out : Option (Bool × Queuetab))
    : Type 0 where
  pub table : Queuetab
  pub returns : out ≡ some (true, table)
  pub queue : IsQueue table q (placed (keys t) key pid xs)
  pub key_set : (table pid).qkey ≡ key
  pub others : (x : ℕ) → (pid == x) ≡ false → keys table x ≡ keys t x
  pub same : (y : ℕ) → contains y (pid ∷ q ∷ queuetail q ∷ xs) ≡ false → table y ≡ t y
  pub descending : Descending (keys table) hi (placed (keys t) key pid xs)

-- Equal keys on the list are enough for its order.
Descending-same :
    (k l : ℕ → ℕ) (hi : ℕ) (xs : List ℕ)
    → ((x : ℕ) → l x ≡ k x)
    → Descending k hi xs
    → Descending l hi xs
Descending-same k l hi [] f d = tt
Descending-same k l hi (x ∷ xs) f (a, b) =
    (omega (arith, f x), Descending-same k l (l x) xs f (rw (sym (f x)) at b))

-- On a well-formed queue whose keys do not ascend and are at most `hi`, insert() of a live process that is not in the
-- queue, with a key above MINKEY and at most `hi`, returns OK: the process stands behind those with at
-- least its key and before the others, has its key, no other key changes, and the keys still do not
-- ascend.
pub insert-Inserted :
    (free : ℕ → Bool) (t : Queuetab) (q hi pid key : ℕ) (xs : List ℕ)
    → IsQueue t q xs
    → pid < nproc
    → free pid ≡ false
    → contains pid xs ≡ false
    → min_key < key
    → key ≤ hi
    → Descending (keys t) hi xs
    → Inserted t q hi pid key xs (insert free pid q key t)
unfolding insert
insert-Inserted free t q hi pid key xs i lt live new lo le d = record {
  table = table;
  returns =
      rw
        (
          lt→leb (nqent - 1) q i.known,
          lt→leb nproc pid lt,
          live,
          first xs i.chain,
          find_place_lem t key q (queuetail q) (nproc + 1) xs i.chain (omega (arith, i.tail_key))
              (omega (arith, length-bound nproc xs i.no_repeat i.procs)),
        )
        (ap (λ p. some (true, link pid p curr keyed)) (same_prev curr));
  queue =
      link-IsQueue keyed q (before (keys t) key xs) (after (keys t) key xs) pid
        (rw (before-after (keys t) key xs) (keyed-IsQueue t q xs pid key i lt)) lt
        (rw (before-after (keys t) key xs) new);
  key_set = link_qkey pid _ _ keyed pid ∙ ground (arith, ==_refl pid);
  others = λ x e. link_qkey pid _ _ keyed x ∙ ground arith;
  same = same;
  descending =
      Descending-same (with_key pid key (keys t)) (keys table) hi (placed (keys t) key pid xs)
        (λ x. link_qkey pid _ _ keyed x ∙ ground arith)
        (placed-Descending (keys t) key pid hi xs new le d);
}
  where
    keyed : Queuetab
    keyed = set_qkey pid key t

    curr : ℕ
    curr = head_or (after (keys t) key xs) (queuetail q)

    table : Queuetab
    table = link pid ((keyed curr).qprev) curr keyed

    first : (zs : List ℕ) → Chain t q zs (queuetail q) → (t q).qnext ≡ head_or zs (queuetail q)
    first [] c = c.0
    first (z ∷ zs) c = c.0

    same_prev : (x : ℕ) → (t x).qprev ≡ (set_qkey pid key t x).qprev
    same_prev x = ground arith

    before_curr : (keyed curr).qprev ≡ last_or q (before (keys t) key xs)
    before_curr =
        prev_of keyed q (before (keys t) key xs) (after (keys t) key xs) (queuetail q)
          (rw (before-after (keys t) key xs) (keyed-IsQueue t q xs pid key i lt).chain)

    same : (y : ℕ) → contains y (pid ∷ q ∷ queuetail q ∷ xs) ≡ false → table y ≡ t y
    same y h =
        link-same keyed q (before (keys t) key xs) (after (keys t) key xs) pid ((keyed curr).qprev)
          y before_curr (rw (before-after (keys t) key xs) h)
        ∙ ground arith
