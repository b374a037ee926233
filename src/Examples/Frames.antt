-- ===== src/Examples/Frames.antt =====
-- The theorems on the frames at a table with up to two resident pages.
use operating_systems_paging.Prelude.{ℕ, ◌≡◌, refl, true, some, [], ◌∷◌, arith}
use operating_systems_paging.Outcome.{done}
use operating_systems_paging.Frames.{
  Ipt, Frame, cleared, empty, fifo, page, fresh, nframes, init_frame, init_frame_fifo, pick_frame,
  free_frame, free_proc_frames,
}
use operating_systems_paging.Frames.Fifo.{IsQueue}
use operating_systems_paging.Frames.Free.{
  IsFifo, without, SameUse, Released, free_frame-IsFifo, free_proc_frames-Released,
  pick_frame-oldest,
}
use operating_systems_paging.Frames.Admit.{init_frame-IsFifo}

abbrev pub no_pages : Ipt
no_pages = record {
  ipt = λ f. cleared;
  flist_head = empty;
  flist_tail = empty;
  currpolicy = fifo;
  next_fifo = 0;
  next_gca = 0;
}

no_pages-IsFifo : IsFifo no_pages []
no_pages-IsFifo = record {
  queue = record {
    policy = refl;
    links = tt;
    head = refl;
    tail = refl;
    no_repeat = tt;
    range = λ f e. absurd (ground arith);
  };
  paged = λ f h. refl;
}

abbrev one_page : Ipt
one_page = init_frame 3 page 50 4096 no_pages

init_frame-IsFifo_example : IsFifo one_page (3 ∷ [])
init_frame-IsFifo_example =
    init_frame-IsFifo 3 50 4096 no_pages [] no_pages-IsFifo (omega arith) refl

one_page-IsFifo : IsFifo one_page (3 ∷ [])
one_page-IsFifo = init_frame-IsFifo 3 50 4096 no_pages [] no_pages-IsFifo (omega arith) refl

abbrev two_pages : Ipt
two_pages = init_frame 5 page 51 4097 one_page

two_pages-IsFifo : IsFifo two_pages (5 ∷ 3 ∷ [])
unfolding init_frame init_frame_fifo
two_pages-IsFifo = init_frame-IsFifo 5 51 4097 one_page (3 ∷ []) one_page-IsFifo (omega arith) refl

pick_frame-oldest_example :
    (t : Ipt) × (pick_frame two_pages ≡ done (some 3, t))
    × IsQueue t (5 ∷ [])
    × ((f : ℕ) → SameUse (two_pages.ipt f) (t.ipt f))
pick_frame-oldest_example = pick_frame-oldest two_pages (5 ∷ []) 3 two_pages-IsFifo.queue

free_frame-IsFifo_example : IsFifo (free_frame 3 two_pages) (without 3 (5 ∷ 3 ∷ []))
free_frame-IsFifo_example =
    free_frame-IsFifo 3 two_pages (5 ∷ 3 ∷ []) two_pages-IsFifo (omega arith)

free_proc_frames-Released_example :
    Released nframes 50 two_pages (free_proc_frames true 50 two_pages)
free_proc_frames-Released_example =
    free_proc_frames-Released 50 two_pages (5 ∷ 3 ∷ []) two_pages-IsFifo (omega arith)

abbrev full_table : ℕ → Frame
full_table f = fresh page 50 f
