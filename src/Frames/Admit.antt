-- ===== src/Frames/Admit.antt =====
-- init_frame() for a page keeps the FIFO queue and the table of frames in step.
use operating_systems_paging.Prelude.{
  ℕ, ◌<◌, ◌≡◌, ap, sym, ◌∙◌, false, List, ◌∷◌, arith, ◌==◌, if◌then◌else◌,
}
use operating_systems_paging.Frames.{Ipt, page, is_page, nframes, fresh, init_frame}
use operating_systems_paging.Prelude.{contains}
use operating_systems_paging.Frames.Fifo.{init_frame-IsQueue}
use operating_systems_paging.Frames.Free.{IsFifo, init_frame-SameUse}

-- When the FIFO queue holds exactly the frames with a page, giving a frame without one to a page puts
-- that frame at the head of the queue, the others behind it in their order, and the queue again
-- holds exactly the frames with a page.
pub init_frame-IsFifo :
    (fr pid vpn : ℕ) (s : Ipt) (xs : List ℕ)
    → IsFifo s xs
    → fr < nframes
    → is_page ((s.ipt fr).status) ≡ false
    → IsFifo (init_frame fr page pid vpn s) (fr ∷ xs)
init_frame-IsFifo fr pid vpn s xs v lt new = record {
  queue = init_frame-IsQueue fr pid vpn s xs v.queue lt (sym (v.paged fr lt) ∙ new);
  paged = λ f h. ap is_page ((init_frame-SameUse fr page pid vpn s f).0) ∙ paged_after f h;
}
  where
    paged_after :
        (f : ℕ)
        → f < nframes
        → is_page ((if fr == f then fresh page pid vpn else s.ipt f).status) ≡ contains f (fr ∷ xs)
    paged_after f h = ground (arith, v.paged f h)
