-- ===== src/Frames/Fifo.antt =====
-- The frames in the FIFO queue, from the newest to the oldest, and what the queue's functions do to
-- them.
use operating_systems_paging.Prelude.{
  ℕ, ◌<◌, ◌≡◌, refl, sym, ◌∙◌, ap, inl, inr, true, false, List, [], ◌∷◌, ◌++◌, some, none, arith,
  ==_ne, Bool-cases, update, ◌≢◌,
}
use operating_systems_paging.Outcome.{done, Returns}
use operating_systems_paging.Frames.{
  Ipt, fifo, page, is_fifo, nframes, empty, fresh, init_frame, init_frame_fifo, pick_frame_fifo,
  pick_frame, set_next, set_prev,
}
use operating_systems_paging.Prelude.{
  head_or, last_or, contains, NoRepeat, contains-append, last_or-append, Snoc-cases, NoRepeat-split,
  NoRepeat-middle,
}
use operating_systems_paging.Frames.Links.{
  Links, Links-split, Links-update, Links-set_prev, Links-set_next,
}

-- The queue of `s` is `xs`, newest first: flistHead and flistTail are its ends, the links agree in
-- both directions, and no frame stands in it twice.
pub record IsQueue (s : Ipt) (xs : List ℕ) : Type 0 where
  pub policy : s.currpolicy ≡ fifo
  pub links : Links s.ipt empty xs empty
  pub head : s.flist_head ≡ head_or xs empty
  pub tail : s.flist_tail ≡ last_or empty xs
  pub no_repeat : NoRepeat xs
  pub range : (f : ℕ) → contains f xs ≡ true → f < nframes

head_in : (x : ℕ) (xs : List ℕ) → contains (last_or x xs) (x ∷ xs) ≡ true
head_in x [] = ground arith
head_in x (y ∷ xs) = ground (arith, head_in y xs)

-- The empty queue is the one whose head or tail is EMPTY.
ends_of_cons :
    (s : Ipt) (x : ℕ) (xs : List ℕ)
    → IsQueue s (x ∷ xs)
    → (s.flist_head ≢ empty) × (s.flist_tail ≢ empty)
ends_of_cons s x xs q = (
  ground (arith, q.range x, q.head),
  ground (arith, q.range (last_or x xs), head_in x xs, q.tail),
)

init_frame_fifo-IsQueue :
    (fr : ℕ) (s : Ipt) (xs : List ℕ)
    → IsQueue s xs
    → fr < nframes
    → contains fr xs ≡ false
    → (s.ipt fr).next_frame ≡ empty
    → (s.ipt fr).prev_frame ≡ empty
    → IsQueue (init_frame_fifo fr s) (fr ∷ xs)
unfolding init_frame_fifo
init_frame_fifo-IsQueue fr s [] q lt new n p =
    rw (q.head, q.tail)
      (record {
        policy = q.policy;
        links = (p, n, tt);
        head = refl;
        tail = refl;
        no_repeat = (refl, tt);
        range = λ f e. ground arith;
      })
init_frame_fifo-IsQueue fr s (x ∷ xs) q lt new n p =
    let h = (ends_of_cons s x xs q).0 in
    let t = set_prev fr empty (set_next fr x s.ipt) in
    rw (==_ne s.flist_head empty h, q.head)
      (record {
        policy = q.policy;
        links = (
          ground arith,
          ground arith,
          Links-set_prev t empty fr x xs empty q.no_repeat.0 (
              Links-update _ empty (x ∷ xs) empty fr _ new
                (Links-update s.ipt empty (x ∷ xs) empty fr _ new q.links)),
        );
        head = refl;
        tail = q.tail;
        no_repeat = (new, q.no_repeat);
        range = λ f e. ground (arith, q.range f);
      })

-- Initialising an unused frame for a page puts it at the head of the queue.
pub init_frame-IsQueue :
    (fr pid vpn : ℕ) (s : Ipt) (xs : List ℕ)
    → IsQueue s xs
    → fr < nframes
    → contains fr xs ≡ false
    → IsQueue (init_frame fr page pid vpn s) (fr ∷ xs)
unfolding init_frame
init_frame-IsQueue fr pid vpn s xs q lt new =
    let t = record s { ipt = update s.ipt fr (fresh page pid vpn) } in
    let q' : IsQueue t xs = record {
      policy = q.policy;
      links = Links-update s.ipt empty xs empty fr _ new q.links;
      head = q.head;
      tail = q.tail;
      no_repeat = q.no_repeat;
      range = q.range;
    } in
    rw (ap is_fifo q.policy)
      (init_frame_fifo-IsQueue fr t xs q' lt new (ground arith) (ground arith))

pick_frame-nil :
    (s : Ipt)
    → s.currpolicy ≡ fifo
    → s.flist_head ≡ empty
    → s.flist_tail ≡ empty
    → pick_frame s ≡ done (none, s)
unfolding pick_frame pick_frame_fifo
pick_frame-nil s p h t = ground arith

pick_frame-one :
    (s : Ipt)
    → s.currpolicy ≡ fifo
    → s.flist_head ≡ s.flist_tail
    → s.flist_tail ≢ empty
    → pick_frame s ≡ done (some s.flist_tail, record s { flist_tail = empty; flist_head = empty })
unfolding pick_frame pick_frame_fifo
pick_frame-one s p h t = ground arith

pick_frame-more :
    (s : Ipt)
    → s.currpolicy ≡ fifo
    → s.flist_head ≢ s.flist_tail
    → s.flist_tail ≢ empty
    → let p = (s.ipt s.flist_tail).prev_frame in
      pick_frame s
      ≡ done (some s.flist_tail, record s { flist_tail = p; ipt = set_next p empty s.ipt })
unfolding pick_frame pick_frame_fifo
pick_frame-more s p h t = ground arith

-- With an empty queue there is nothing to evict: the result is SYSERR.
pub pick_frame-empty : (s : Ipt) → IsQueue s [] → pick_frame s ≡ done (none, s)
pick_frame-empty s q = pick_frame-nil s q.policy q.head q.tail

pub contains_last : (x : ℕ) (xs : List ℕ) → contains x (xs ++ x ∷ []) ≡ true
contains_last x xs = ground (arith, contains-append x xs (x ∷ []), Bool-cases (contains x xs))

-- The head of a list with a last element `a`, whatever follows.
pub head_front :
    (zs ys : List ℕ) (a n m : ℕ) → head_or ((zs ++ a ∷ []) ++ ys) n ≡ head_or (zs ++ a ∷ []) m
head_front [] ys a n m = refl
head_front (z ∷ zs) ys a n m = refl

pub head_member :
    (zs : List ℕ) (a n : ℕ) → contains (head_or (zs ++ a ∷ []) n) (zs ++ a ∷ []) ≡ true
head_member [] a n = ground arith
head_member (z ∷ zs) a n = ground arith

pub contains_front : (f : ℕ) (xs ys : List ℕ) → contains f xs ≡ true → contains f (xs ++ ys) ≡ true
contains_front f xs ys h = ground (arith, contains-append f xs ys)

pick-IsQueue_one :
    (s : Ipt) (x : ℕ)
    → IsQueue s (x ∷ [])
    → Returns (pick_frame s) (λ out. (out.0 ≡ some x) × IsQueue out.1 [])
pick-IsQueue_one s x q =
    rw (pick_frame-one s q.policy (q.head ∙ sym q.tail) (ends_of_cons s x [] q).1) (
      ap some q.tail,
      record {
        policy = q.policy;
        links = tt;
        head = refl;
        tail = refl;
        no_repeat = tt;
        range = λ f e. absurd (cc);
      },
    )

module _ (s : Ipt) (zs : List ℕ) (a x : ℕ) (q : IsQueue s ((zs ++ a ∷ []) ++ x ∷ [])) where
  abbrev front : List ℕ
  front = zs ++ a ∷ []

  at_end : s.flist_tail ≡ x
  at_end = q.tail ∙ last_or-append empty front (x ∷ [])

  parts : Links s.ipt empty front x × Links s.ipt (last_or empty front) (x ∷ []) empty
  parts = Links-split s.ipt empty front (x ∷ []) empty q.links

  before_end : (s.ipt s.flist_tail).prev_frame ≡ a
  before_end = rw at_end (parts.1.0 ∙ last_or-append empty zs (a ∷ []))

  x_new : contains x front ≡ false
  x_new = (NoRepeat-middle front x [] q.no_repeat).0

  head_in_front : contains s.flist_head front ≡ true
  head_in_front = rw (q.head, head_front zs (x ∷ []) a empty empty) (head_member zs a empty)

  pick-IsQueue_more : Returns (pick_frame s) (λ out. (out.0 ≡ some x) × IsQueue out.1 front)
  pick-IsQueue_more =
      rw
        (
          pick_frame-more s q.policy (ground (arith, head_in_front, x_new, at_end))
              (ground (arith, at_end, q.range x, contains_last x front)),
          before_end,
        )
        (
          ap some at_end,
          record {
            policy = q.policy;
            links =
                Links-set_next s.ipt empty zs a x empty
                  (NoRepeat-middle zs a [] (NoRepeat-split front (x ∷ []) q.no_repeat).0).0 parts.0;
            head = q.head ∙ head_front zs (x ∷ []) a empty empty;
            tail = sym (last_or-append empty zs (a ∷ []));
            no_repeat = (NoRepeat-split front (x ∷ []) q.no_repeat).0;
            range = λ f e. q.range f (contains_front f front (x ∷ []) e);
          },
        )

-- The frame chosen for eviction is the oldest one in the queue, and the rest stays queued in order.
pub pick_frame-IsQueue :
    (s : Ipt) (xs : List ℕ) (x : ℕ)
    → IsQueue s (xs ++ x ∷ [])
    → Returns (pick_frame s) (λ out. (out.0 ≡ some x) × IsQueue out.1 xs)
pick_frame-IsQueue s xs x q = elim (Snoc-cases xs) [
  | inl e ↦ rw e (pick-IsQueue_one s x (rw e at q))
  | inr (zs, a, e) ↦ rw e (pick-IsQueue_more s zs a x (rw e at q))
]
