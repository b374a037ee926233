-- ===== src/Frames/Free.antt =====
-- Freeing a frame, and freeing the frames of a process.
use operating_systems_paging.Prelude.{
  ℕ, zero, suc, ◌<◌, ◌≤◌, ◌≡◌, refl, sym, ◌∙◌, ap, inl, inr, Option, some, true, false, not, ◌&&◌,
  List, [], ◌∷◌, ◌++◌, arith, ◌==◌, ==_refl, Bool-cases, if◌then◌else◌, update, ◌≢◌,
}
use mathlib.Core.Path.{subst}
use operating_systems_paging.Frames.{
  Ipt, Frame, is_page, is_fifo, nframes, empty, no_process, cleared, clear_frame, free_frame,
  free_frame_fifo, free_proc_loop, free_proc_frames, Status, fresh, init_frame, init_frame_fifo,
  pick_frame, pick_frame_fifo,
}
use operating_systems_paging.Outcome.{done, Returns-done}
use operating_systems_paging.Prelude.{
  contains, contains-append, contains-split, NoRepeat, NoRepeat-middle,
}
use operating_systems_paging.Frames.Links.{Links-update}
use operating_systems_paging.Frames.Fifo.{IsQueue, pick_frame-IsQueue}
use operating_systems_paging.Frames.Unlink.{free_frame_fifo-IsQueue}

-- The queue of `s` is `xs`, and the frames in it are exactly those that hold a page.
pub record IsFifo (s : Ipt) (xs : List ℕ) : Type 0 where
  pub queue : IsQueue s xs
  pub paged : (f : ℕ) → f < nframes → is_page ((s.ipt f).status) ≡ contains f xs

unfoldable pub without : ℕ → List ℕ → List ℕ
without a [] = []
without a (x ∷ xs) = let rest = without a xs in if a == x then xs else x ∷ rest

without-split :
    (a : ℕ) (xs ys : List ℕ) → contains a xs ≡ false → without a (xs ++ a ∷ ys) ≡ xs ++ ys
unfolding without
without-split a [] ys h = ground arith
without-split a (x ∷ xs) ys h = ground (arith, without-split a xs ys)

without-absent : (a : ℕ) (xs : List ℕ) → contains a xs ≡ false → without a xs ≡ xs
unfolding without
without-absent a [] h = refl
without-absent a (x ∷ xs) h = ground (arith, without-absent a xs)

pub contains-without :
    (f a : ℕ) (xs : List ℕ)
    → NoRepeat xs
    → contains f (without a xs) ≡ (contains f xs && not (a == f))
unfolding without
contains-without f a [] h = refl
contains-without f a (x ∷ xs) h = ground (arith, contains-without f a xs h.1)

-- Two entries that differ in their queue links at most.
abbrev pub SameUse : Frame → Frame → Type 0
SameUse a b =
    (b.status ≡ a.status) × (b.pid ≡ a.pid) × (b.vpn ≡ a.vpn) × (b.ref_count ≡ a.ref_count)

-- The queue's links apart, unlinking changes no frame.
free_frame_fifo-same :
    (x : ℕ) (s : Ipt) (f : ℕ) → let t = (free_frame_fifo x s).ipt f in SameUse (s.ipt f) t
unfolding free_frame_fifo
free_frame_fifo-same x s f = ground arith

clear_frame-IsQueue :
    (fr : ℕ) (s : Ipt) (xs : List ℕ)
    → IsQueue s xs
    → contains fr xs ≡ false
    → IsQueue (clear_frame fr s) xs
unfolding clear_frame
clear_frame-IsQueue fr s xs q h = record {
  policy = q.policy;
  links = Links-update s.ipt empty xs empty fr cleared h q.links;
  head = q.head;
  tail = q.tail;
  no_repeat = q.no_repeat;
  range = q.range;
}

free_frame-IsQueue :
    (fr : ℕ) (s : Ipt) (zs : List ℕ)
    → IsFifo s zs
    → fr < nframes
    → IsQueue (free_frame fr s) (without fr zs)
unfolding free_frame
free_frame-IsQueue fr s zs v lt = elim (Bool-cases (contains fr zs)) [
  | inr out ↦
      rw (without-absent fr zs out, v.paged fr lt, out, ap is_fifo v.queue.policy)
        (clear_frame-IsQueue fr s zs v.queue out)
  | inl queued ↦
      let (xs, ys, e) = contains-split fr zs queued in
      let q = subst (IsQueue s) e v.queue in
      let (l, r, _, _) = NoRepeat-middle xs fr ys q.no_repeat in
      rw (v.paged fr lt, queued, ap is_fifo v.queue.policy, e, without-split fr xs ys l)
        (clear_frame-IsQueue fr (free_frame_fifo fr s) (xs ++ ys)
          (free_frame_fifo-IsQueue s xs fr ys q) (ground (arith, contains-append fr xs ys)))
]

free_frame-status :
    (fr : ℕ) (s : Ipt) (f : ℕ)
    → is_page (((free_frame fr s).ipt f).status) ≡ (is_page ((s.ipt f).status) && not (fr == f))
unfolding free_frame clear_frame
free_frame-status fr s f = ground (arith, free_frame_fifo-same fr s f)

-- When the FIFO queue holds exactly the frames with a page, freeFrame() of any frame takes it out of the
-- queue, if it is there, keeps the others in order, and the queue again holds exactly the frames
-- with a page.
pub free_frame-IsFifo :
    (fr : ℕ) (s : Ipt) (zs : List ℕ)
    → IsFifo s zs
    → fr < nframes
    → IsFifo (free_frame fr s) (without fr zs)
free_frame-IsFifo fr s zs v lt = record {
  queue = free_frame-IsQueue fr s zs v lt;
  paged = λ f h.
      free_frame-status fr s f
      ∙ ap (λ b. b && not (fr == f)) (v.paged f h)
      ∙ sym (contains-without f fr zs v.queue.no_repeat);
}

-- Freeing a frame leaves the use of every other frame alone.
free_frame-other : (fr : ℕ) (s : Ipt) (f : ℕ) → fr ≢ f → SameUse (s.ipt f) ((free_frame fr s).ipt f)
unfolding free_frame clear_frame
free_frame-other fr s f h = ground (arith, free_frame_fifo-same fr s f)

pub free_frame_self : (fr : ℕ) (s : Ipt) → (free_frame fr s).ipt fr ≡ cleared
unfolding free_frame clear_frame
free_frame_self fr s = ground (arith, ==_refl fr)

-- What freeProcFrames() has done to `s` after the first `n` frames.
pub record Released (n pid : ℕ) (s t : Ipt) : Type 0 where
  pub queued : (ws : List ℕ) × IsFifo t ws
  pub gone : (f : ℕ) → f < n → (t.ipt f).pid ≢ pid
  pub others : (f : ℕ) → (s.ipt f).pid ≢ pid → SameUse (s.ipt f) (t.ipt f)

free_proc_loop-Released :
    (n pid : ℕ) (s : Ipt) (zs : List ℕ)
    → IsFifo s zs
    → n ≤ nframes
    → pid ≢ no_process
    → Released n pid s (free_proc_loop n pid s)
unfolding free_proc_loop
free_proc_loop-Released zero pid s zs v le ne = record {
  queued = (zs, v);
  gone = λ f h. absurd (omega arith);
  others = λ f h. (refl, refl, refl, refl);
}
free_proc_loop-Released (suc n) pid s zs v le ne =
    let r = free_proc_loop-Released n pid s zs v (omega arith) ne in
    let t = free_proc_loop n pid s in
    elim (Bool-cases ((t.ipt n).pid == pid)) [
      | inl own ↦ rw own (record {
        queued = (without n r.queued.0, free_frame-IsFifo n t r.queued.0 r.queued.1 (omega arith));
        gone = λ f h. ground (arith, free_frame_self n t, free_frame-other n t f, r.gone f);
        others = λ f h. ground (arith, free_frame-other n t f, r.others f h);
      })
      | inr other ↦
          rw other (record {
            queued = r.queued;
            gone = λ f h. ground (arith, r.gone f);
            others = r.others;
          })
    ]

-- When the FIFO queue holds exactly the frames with a page, freeProcFrames() of a process with a virtual
-- heap leaves it no frame, leaves the frames of other processes as they were, their queue links
-- apart, and the queue holds exactly the frames with a page again.
pub free_proc_frames-Released :
    (pid : ℕ) (s : Ipt) (zs : List ℕ)
    → IsFifo s zs
    → pid ≢ no_process
    → Released nframes pid s (free_proc_frames true pid s)
unfolding free_proc_frames
free_proc_frames-Released pid s zs v ne =
    free_proc_loop-Released nframes pid s zs v (omega arith) ne

init_frame_fifo-same : (fr : ℕ) (s : Ipt) (f : ℕ) → SameUse (s.ipt f) ((init_frame_fifo fr s).ipt f)
unfolding init_frame_fifo
init_frame_fifo-same fr s f = ground arith

-- Queue links apart, init_frame() sets the entry of its frame to the given use, with reference count 0,
-- and changes no other entry.
pub init_frame-SameUse :
    (fr : ℕ) (type : Status) (pid vpn : ℕ) (s : Ipt) (f : ℕ)
    → SameUse
        (if fr == f then fresh type pid vpn else s.ipt f)
        ((init_frame fr type pid vpn s).ipt f)
unfolding init_frame
init_frame-SameUse fr type pid vpn s f =
    let t = record s { ipt = update s.ipt fr (fresh type pid vpn) } in
    elim (Bool-cases (is_page type && is_fifo s.currpolicy)) [
      | inl queued ↦ rw queued (init_frame_fifo-same fr t f)
      | inr not_queued ↦ rw not_queued (refl, refl, refl, refl)
    ]

-- Picking a frame changes queue links at most.
pick_frame-same :
    (s : Ipt) (r : Option ℕ) (t : Ipt) (f : ℕ)
    → pick_frame s ≡ done (r, t)
    → SameUse (s.ipt f) (t.ipt f)
unfolding pick_frame pick_frame_fifo
pick_frame-same s r t f h = ground arith

-- With a well-formed FIFO queue that is not empty, pickFrame() returns the frame that was queued first,
-- the rest stays queued in order, and every frame keeps its status, process, page and count.
pub pick_frame-oldest :
    (s : Ipt) (xs : List ℕ) (x : ℕ)
    → IsQueue s (xs ++ x ∷ [])
    → (t : Ipt) × (pick_frame s ≡ done (some x, t))
      × IsQueue t xs
      × ((f : ℕ) → SameUse (s.ipt f) (t.ipt f))
pick_frame-oldest s xs x q =
    let (out, e, h) = Returns-done (pick_frame s) (pick_frame-IsQueue s xs x q) in
    let e' : pick_frame s ≡ done (some x, out.1) = e ∙ ap (λ r. done (r, out.1)) h.0 in
    (out.1, e', h.1, λ f. pick_frame-same s (some x) out.1 f e')
