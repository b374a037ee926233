-- ===== src/Processes/Kill.antt =====
-- kill() takes back what create() gave.
use mathlib.Core.Path.{subst}
use operating_systems_paging.Prelude.{
  ℕ, ◌-◌, ◌^◌, ◌<◌, ◌≤◌, ◌≡◌, ◌≢◌, Bool, refl, sym, ap, ◌∙◌, inl, inr, true, false, true≢false,
  some, List, arith, Bool-cases, ltb, ◌%◌, ◌+◌, ==_ne, lt→leb, if◌then◌else◌,
}
use operating_systems_paging.Kernel.Message.{send}
use operating_systems_paging.Kernel.Deliver.{Delivered, send-Delivered}
use operating_systems_paging.Partial.{◌>>=◌, Ends, Ends-bind}
use operating_systems_paging.Heap.{getstk, freestk}
use operating_systems_paging.Heap.Order.{IsHeap}
use operating_systems_paging.Heap.Stack.{freestk-getstk}
use operating_systems_paging.Frames.{free_proc_frames}
use operating_systems_paging.BackingStore.Process.{free_proc_bs}
use operating_systems_paging.Queues.{nproc, max_key}
use operating_systems_paging.Kernel.{Kernel, pr_free, pr_susp, is_free, state_of}
use operating_systems_paging.Kernel.System.{InOrder}
use operating_systems_paging.Kernel.Kill.{end_process, is_waiting, end_process-Ended}
use operating_systems_paging.Processes.{
  System, Image, create, kill_start, kill_end, kill, is_last, stack_size, minstk,
}
use operating_systems_paging.Processes.Create.{Created, not_null, create-Created}

-- What is to be left when a process is gone: the heap, the frames and the stores of before, and no process.
abbrev pub Undone : {S : Type 0} → ℕ → System S → System S → Type 0
Undone pid w v =
    InOrder v.kernel
    × (state_of pid v.kernel ≡ pr_free)
    × (v.heap ≡ w.heap)
    × (v.frames ≡ w.frames)
    × (v.stores ≡ w.stores)
    × (v.prcount ≡ w.prcount)

size_bounds :
    (ssize : ℕ) → ssize ≤ 2 ^ 32 - 12 → (1 ≤ stack_size ssize) × (stack_size ssize ≤ 2 ^ 32 - 8)
size_bounds ssize h = elim (Bool-cases (ltb ssize minstk)) [
  | inl b ↦ rw b (omega arith, omega arith)
  | inr b ↦
      rw b (let l : 400 ≤ ssize = ground (arith, b) in (omega (arith, h, l), omega (arith, h, l)))
]

module _ {S : Type 0} (im : Image) (close : ℕ → S → S) (pid : ℕ) (w : System S)
    (o : InOrder w.kernel) where
  -- a process without a virtual heap that is suspended
  kill_end-susp :
      pid < nproc
      → pid ≢ 0
      → state_of pid w.kernel ≡ pr_susp
      → (w.life pid).vh ≡ false
      → Ends (kill_end im close pid w) (λ v.
        InOrder v.kernel
        × (state_of pid v.kernel ≡ pr_free)
        × (v.heap
            ≡ (freestk im.minheap im.maxheap (w.life pid).prstkbase (w.life pid).prstklen w.heap).1)
        × (v.frames ≡ w.frames)
        × (v.stores ≡ w.stores)
        × (v.prcount ≡ w.prcount))
  unfolding kill_end free_proc_bs free_proc_frames
  kill_end-susp lt nz st vh =
      rw (kill_end, vh)
        (Ends-bind _ (end_process pid w.kernel) _
          (end_process-Ended w.kernel pid o lt nz (ap is_free st)
            (λ q. absurd (true≢false (sym q ∙ ap is_waiting st))))
          (λ k d. (d.0, d.1, refl, ap (λ b. free_proc_frames b pid w.frames) vh, refl, refl)))

-- The message goes to the current process, which is the parent: no other process runs.
kill_start-current :
    {S : Type 0} (pid : ℕ) (w : System S)
    → InOrder w.kernel
    → pid < nproc
    → pid ≢ 0
    → is_free (state_of pid w.kernel) ≡ false
    → (w.life pid).prparent ≡ w.kernel.currpid
    → is_last ((w.prcount + 2 ^ 32 - 1) % 2 ^ 32) ≡ false
    → Ends (kill_start pid w) (λ out.
      (k : Kernel) × (out
        ≡ (true, record w { prcount = (w.prcount + 2 ^ 32 - 1) % 2 ^ 32; kernel = k }))
      × Delivered w.kernel k)
unfolding kill_start
kill_start-current pid w o lt nz live parent more =
    rw (lt→leb nproc pid lt, live, ==_ne pid 0 nz, more, parent)
      (Ends-bind _ (send w.kernel.currpid pid w.kernel)
        (λ out.
          some (true, record w { prcount = (w.prcount + 2 ^ 32 - 1) % 2 ^ 32; kernel = out.1 }))
        (send-Delivered w.kernel pid o) (λ out d. (out.1, refl, d)))

-- A process that create() has made, with at most 2^32 - 12 bytes of stack on a heap in order and another user process
-- in the system, is killed by its parent while it is suspended: kill() ends and returns OK, the heap is that from which
-- the stack was taken, the frames and stores are untouched, the process is free again, the number of processes is
-- that of before and the scheduler is in order.
pub kill-create :
    {S : Type 0} (im : Image) (close : ℕ → S → S) (funcaddr ssize priority pid : ℕ) (args : List ℕ)
    (w w' : System S)
    → InOrder w.kernel
    → priority ≤ max_key
    → IsHeap im.minheap im.maxheap w.heap
    → ssize ≤ 2 ^ 32 - 12
    → 1 < w.prcount
    → w.prcount < 2 ^ 31
    → create im funcaddr ssize priority args w ≡ (some pid, w')
    → Ends (kill im close pid w') (λ out. (out.0 ≡ true) × Undone pid w out.1)
unfolding kill
kill-create {S} im close funcaddr ssize priority pid args w w' o top hp small many few h =
    let (lt, f, st, pr, stack, len, parent, vh, frames, stores, count, current, o') = made in
    Ends-bind (λ out. (out.0 ≡ true) × Undone pid w out.1) (kill_start pid w')
      (λ out.
        if out.0
        then kill_end im close pid out.1 >>= (λ v'. some (true, v'))
        else some (false, out.1))
      (kill_start-current pid w' o' lt (not_null w.kernel o pid f) (ap is_free st)
        (parent ∙ sym current) (more count))
      (λ out (k, e, (o'', same)).
        subst
          (λ r.
            Ends {A = Bool × System S}
              (if r.0
                then kill_end im close pid r.1 >>= (λ v'. some (true, v'))
                else some (false, r.1))
              (λ out. (out.0 ≡ true) × Undone pid w out.1))
          (sym e)
          (Ends-bind (λ out. (out.0 ≡ true) × Undone pid w out.1) (kill_end im close pid (told k))
            (λ v'. some (true, v'))
            (kill_end-susp im close pid (told k) o'' lt (not_null w.kernel o pid f) (same pid ∙ st)
              vh)
            (λ v (a, b, heap, d, e, c). (
              refl,
              (
                a,
                b,
                heap ∙ ap (λ r. r.1) (restored stack len),
                d ∙ frames,
                e ∙ stores,
                c ∙ back count,
              ),
            ))))
  where
    told : Kernel → System S
    told k = record w' { prcount = (w'.prcount + 2 ^ 32 - 1) % 2 ^ 32; kernel = k }

    made : Created ssize priority w (some pid, w')
    made =
        subst (Created ssize priority w) h (create-Created im funcaddr ssize priority args w o top)

    back : w'.prcount ≡ (w.prcount + 1) % 2 ^ 32 → (w'.prcount + 2 ^ 32 - 1) % 2 ^ 32 ≡ w.prcount
    back e = omega (arith, e, few)

    more :
        w'.prcount ≡ (w.prcount + 1) % 2 ^ 32 → is_last ((w'.prcount + 2 ^ 32 - 1) % 2 ^ 32) ≡ false
    more e = ap is_last (back e) ∙ ground (arith, many, few)

    restored :
        getstk (stack_size ssize) w.heap ≡ (some (w'.life pid).prstkbase, w'.heap)
        → (w'.life pid).prstklen ≡ stack_size ssize
        → freestk im.minheap im.maxheap (w'.life pid).prstkbase (w'.life pid).prstklen w'.heap
          ≡ (true, w.heap)
    restored g len =
        ap (λ n. freestk im.minheap im.maxheap (w'.life pid).prstkbase n w'.heap) len
        ∙ freestk-getstk im.minheap im.maxheap (stack_size ssize) (w'.life pid).prstkbase w.heap
            w'.heap hp (size_bounds ssize small).0 (size_bounds ssize small).1 g
