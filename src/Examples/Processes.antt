-- ===== src/Examples/Processes.antt =====
-- The theorems on processes at concrete inputs: a process with two arguments.
use operating_systems_paging.Prelude.{
  ℕ, ◌+◌, ◌^◌, ◌≡◌, refl, true, false, Option, some, List, [], ◌∷◌, arith,
}
use operating_systems_paging.Partial.{Ends}
use operating_systems_paging.Heap.{getstk, take_last}
use operating_systems_paging.Kernel.Kill.{end_process, Ended, end_process-Ended}
use operating_systems_paging.Processes.{System, Image, Life, newpid, create, kill, make_stack}
use operating_systems_paging.Processes.Create.{Created, create-Created}
use operating_systems_paging.Processes.Kill.{Undone, kill-create}
use operating_systems_paging.Processes.Stack.{Stands, saved_words, make_stack-Stands}
use operating_systems_paging.Examples.Heap.{two_blocks, two_blocks-IsHeap}
use operating_systems_paging.Examples.Kernel.{booted, booted-InOrder}
use operating_systems_paging.Examples.Stores.{one_taken}
use operating_systems_paging.Examples.Frames.{no_pages}

abbrev image : Image
image = record { minheap = 0x1000; maxheap = 0x4000; initret = 0x11000; wconsole = 0; gpd = 1029 }

abbrev no_life : Life
no_life = record {
  prstkptr = 0;
  prstkbase = 0;
  prstklen = 0;
  prparent = 0;
  prdesc = λ i. 0;
  vh = false;
  hsize = 0;
  vmeminit = false;
  pbsd = λ i. 0;
}

-- the devices count the descriptors that are closed
abbrev idle : System ℕ
idle = record {
  kernel = booted;
  life = λ pid. no_life;
  heap = two_blocks;
  words = λ a. 0;
  frames = no_pages;
  stores = one_taken;
  prcount = 2;
  nextpid = 1;
  devices = 0;
}

abbrev args : List ℕ
args = 5 ∷ 6 ∷ []

abbrev created : Option ℕ × System ℕ
created = create image 0x12000 500 (2 ^ 31 + 20) args idle

create-Created_example : Created 500 (2 ^ 31 + 20) idle created
create-Created_example =
    create-Created image 0x12000 500 (2 ^ 31 + 20) args idle booted-InOrder (omega arith)

created_pid : created.0 ≡ some 1
unfolding create newpid getstk take_last
created_pid = refl

kill-create_example :
    Ends (kill image (λ d n. n + 1) 1 created.1) (λ out. (out.0 ≡ true) × Undone 1 idle out.1)
kill-create_example =
    kill-create image (λ d n. n + 1) 0x12000 500 (2 ^ 31 + 20) 1 args idle created.1 booted-InOrder
      (omega arith) two_blocks-IsHeap (omega arith) (omega arith) (omega arith)
      (λ i. (created_pid i, created.1))

end_process-Ended_example : Ends (end_process 3 booted) (Ended 3 booted)
end_process-Ended_example =
    end_process-Ended booted 3 booted-InOrder (omega arith) (λ e. omega (arith, e)) refl
      (λ e. omega arith)

make_stack-Stands_example :
    Stands 14 0x2ffc
      (saved_words 0x11000 0x12000 0x2ffc (make_stack 0x11000 0x12000 0x2ffc args (λ a. 0)).0 args)
      (make_stack 0x11000 0x12000 0x2ffc args (λ a. 0))
make_stack-Stands_example =
    make_stack-Stands 0x11000 0x12000 0x2ffc args (λ a. 0) (omega arith) (omega arith)
