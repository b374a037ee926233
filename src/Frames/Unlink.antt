-- ===== src/Frames/Unlink.antt =====
-- Taking a frame out of the FIFO queue, wherever it stands.
use operating_systems_paging.Prelude.{
  ℕ, ◌<◌, ◌≡◌, refl, sym, ◌∙◌, inl, inr, true, false, List, [], ◌∷◌, ◌++◌, arith, Bool-cases, ◌≢◌,
}
use operating_systems_paging.Frames.{Ipt, nframes, empty, free_frame_fifo, set_next, set_prev}
use operating_systems_paging.Prelude.{
  head_or, last_or, contains, NoRepeat, Apart, contains-append, last_or-append, Snoc-cases,
  NoRepeat-split, NoRepeat-middle,
}
use operating_systems_paging.Frames.Links.{
  Links, Links-split, Links-append, Links-update, Links-set_prev, Links-set_next,
}
use operating_systems_paging.Frames.Fifo.{
  IsQueue, head_front, head_member, contains_front, contains_last,
}
use mathlib.Core.List.{append-nil}

unlink_only :
    (s : Ipt) (x : ℕ)
    → s.flist_head ≡ x
    → s.flist_tail ≡ x
    → free_frame_fifo x s ≡ record s { flist_head = empty; flist_tail = empty }
unfolding free_frame_fifo
unlink_only s x h t = ground arith

unlink_first :
    (s : Ipt) (x : ℕ)
    → s.flist_head ≡ x
    → s.flist_tail ≢ x
    → free_frame_fifo x s ≡ record s {
      ipt = set_prev ((s.ipt x).next_frame) empty s.ipt;
      flist_head = (s.ipt x).next_frame;
    }
unfolding free_frame_fifo
unlink_first s x h t = ground arith

unlink_last :
    (s : Ipt) (x : ℕ)
    → s.flist_head ≢ x
    → s.flist_tail ≡ x
    → free_frame_fifo x s ≡ record s {
      ipt = set_next ((s.ipt x).prev_frame) empty s.ipt;
      flist_tail = (s.ipt x).prev_frame;
    }
unfolding free_frame_fifo
unlink_last s x h t = ground arith

unlink_inner :
    (s : Ipt) (x : ℕ)
    → s.flist_head ≢ x
    → s.flist_tail ≢ x
    → free_frame_fifo x s ≡ record s {
      ipt =
          set_prev
            ((s.ipt x).next_frame)
            ((s.ipt x).prev_frame)
            (set_next ((s.ipt x).prev_frame) ((s.ipt x).next_frame) s.ipt);
    }
unfolding free_frame_fifo
unlink_inner s x h t = ground arith

last_member : (p b : ℕ) (ys : List ℕ) → contains (last_or p (b ∷ ys)) (b ∷ ys) ≡ true
last_member p b [] = ground arith
last_member p b (y ∷ ys) = ground (arith, last_member b y ys)

-- What the positions of `x` and its neighbours say, in a queue `xs ++ x ∷ ys`.
module _ (s : Ipt) (x : ℕ) (xs ys : List ℕ) (q : IsQueue s (xs ++ x ∷ ys)) where
  around : Links s.ipt empty xs x × Links s.ipt (last_or empty xs) (x ∷ ys) empty
  around = Links-split s.ipt empty xs (x ∷ ys) empty q.links

  rest : (contains x xs ≡ false) × (contains x ys ≡ false) × NoRepeat (xs ++ ys) × Apart xs ys
  rest = NoRepeat-middle xs x ys q.no_repeat

  rest_range : (f : ℕ) → contains f (xs ++ ys) ≡ true → f < nframes
  rest_range f e =
      q.range f (ground (arith, contains-append f xs ys, contains-append f xs (x ∷ ys)))

  tail_of : s.flist_tail ≡ last_or x ys
  tail_of = q.tail ∙ last_or-append empty xs (x ∷ ys)

tail-ne :
    (s : Ipt) (x : ℕ) (xs : List ℕ) (b : ℕ) (ys : List ℕ)
    → IsQueue s (xs ++ x ∷ b ∷ ys)
    → s.flist_tail ≢ x
tail-ne s x xs b ys q e =
    ground (arith, last_member x b ys, rest s x xs (b ∷ ys) q, tail_of s x xs (b ∷ ys) q)

head-ne :
    (s : Ipt) (x : ℕ) (zs : List ℕ) (a : ℕ) (ys : List ℕ)
    → IsQueue s ((zs ++ a ∷ []) ++ x ∷ ys)
    → s.flist_head ≢ x
head-ne s x zs a ys q e =
    let e' : head_or (zs ++ a ∷ []) empty ≡ x =
      sym (q.head ∙ head_front zs (x ∷ ys) a empty empty) ∙ e in
    cc (sym (rw e' at (head_member zs a empty)) ∙ (rest s x (zs ++ a ∷ []) ys q).0)

remove_only : (s : Ipt) (x : ℕ) → IsQueue s (x ∷ []) → IsQueue (free_frame_fifo x s) []
remove_only s x q = rw (unlink_only s x q.head q.tail) (record {
  policy = q.policy;
  links = tt;
  head = refl;
  tail = refl;
  no_repeat = tt;
  range = λ f e. absurd (cc);
})

remove_first :
    (s : Ipt) (x b : ℕ) (ys : List ℕ)
    → IsQueue s (x ∷ b ∷ ys)
    → IsQueue (free_frame_fifo x s) (b ∷ ys)
remove_first s x b ys q =
    rw (unlink_first s x q.head (tail-ne s x [] b ys q), q.links.1)
      (record {
        policy = q.policy;
        links = Links-set_prev s.ipt x empty b ys empty q.no_repeat.1.0 q.links.2;
        head = refl;
        tail = q.tail;
        no_repeat = q.no_repeat.1;
        range = rest_range s x [] (b ∷ ys) q;
      })

remove_last :
    (s : Ipt) (x : ℕ) (zs : List ℕ) (a : ℕ)
    → IsQueue s ((zs ++ a ∷ []) ++ x ∷ [])
    → IsQueue (free_frame_fifo x s) (zs ++ a ∷ [])
remove_last s x zs a q =
    let front = zs ++ a ∷ [] in
    let (l, r) = around s x front [] q in
    let n = (NoRepeat-split front (x ∷ []) q.no_repeat).0 in
    rw
      (
        unlink_last s x (head-ne s x zs a [] q) (tail_of s x front [] q),
        r.0 ∙ last_or-append empty zs (a ∷ []),
      )
      (record {
        policy = q.policy;
        links = Links-set_next s.ipt empty zs a x empty (NoRepeat-middle zs a [] n).0 l;
        head = q.head ∙ head_front zs (x ∷ []) a empty empty;
        tail = sym (last_or-append empty zs (a ∷ []));
        no_repeat = n;
        range = λ f e. q.range f (contains_front f front (x ∷ []) e);
      })

remove_inner :
    (s : Ipt) (x : ℕ) (zs : List ℕ) (a b : ℕ) (ys : List ℕ)
    → IsQueue s ((zs ++ a ∷ []) ++ x ∷ b ∷ ys)
    → IsQueue (free_frame_fifo x s) ((zs ++ a ∷ []) ++ b ∷ ys)
remove_inner s x zs a b ys q =
    let front = zs ++ a ∷ [] in
    let (l, r) = around s x front (b ∷ ys) q in
    let (_, _, nr, apart) = rest s x front (b ∷ ys) q in
    let (nf, nb, _) = NoRepeat-split front (b ∷ ys) nr in
    let a_last : last_or empty front ≡ a = last_or-append empty zs (a ∷ []) in
    let t1 = set_next a b s.ipt in
    rw
      (unlink_inner s x (head-ne s x zs a (b ∷ ys) q) (tail-ne s x front b ys q), r.0 ∙ a_last, r.1)
      (record {
        policy = q.policy;
        links =
            Links-append (set_prev b a t1) empty front (b ∷ ys) empty
              (Links-update t1 empty front b b (record (t1 b) { prev_frame = a })
                (ground (arith, apart b, Bool-cases (contains b front)))
                (Links-set_next s.ipt empty zs a x b (NoRepeat-middle zs a [] nf).0 l))
              (rw a_last (
                Links-set_prev t1 x a b ys empty nb.0 (
                  Links-update s.ipt x (b ∷ ys) empty a (record (s.ipt a) { next_frame = b })
                    (apart a (contains_last a zs)) r.2)));
        head =
            q.head
            ∙ head_front zs (x ∷ b ∷ ys) a empty empty
            ∙ sym (head_front zs (b ∷ ys) a empty empty);
        tail = tail_of s x front (b ∷ ys) q ∙ sym (last_or-append empty front (b ∷ ys));
        no_repeat = nr;
        range = rest_range s x front (b ∷ ys) q;
      })

-- freeFrameFIFO() of a frame anywhere in a well-formed FIFO queue leaves the queue well-formed, with the
-- other frames in their order.
pub free_frame_fifo-IsQueue :
    (s : Ipt) (xs : List ℕ) (x : ℕ) (ys : List ℕ)
    → IsQueue s (xs ++ x ∷ ys)
    → IsQueue (free_frame_fifo x s) (xs ++ ys)
free_frame_fifo-IsQueue s xs x [] q = elim (Snoc-cases xs) [
  | inl e ↦ rw e (remove_only s x (rw e at q))
  | inr (zs, a, e) ↦ rw (append-nil, e) (remove_last s x zs a (rw e at q))
]
free_frame_fifo-IsQueue s xs x (b ∷ ys) q = elim (Snoc-cases xs) [
  | inl e ↦ rw e (remove_first s x b ys (rw e at q))
  | inr (zs, a, e) ↦ rw e (remove_inner s x zs a b ys (rw e at q))
]
