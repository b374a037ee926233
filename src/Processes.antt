-- ===== src/Processes.antt =====
-- The life of a process: system/create.c, kill.c, userret.c and getpid.c, over the scheduler, the heap, the
-- frames and the backing stores. The name of a process, which only listings read, and the messages on the
-- console are left out. The devices, and close() on them, are parameters.
pub mod Newpid
pub mod Create
pub mod Kill
pub mod Stack
use operating_systems_paging.Prelude.{
  ℕ, zero, suc, ◌+◌, ◌-◌, ◌*◌, ◌/◌, ◌%◌, ◌^◌, Bool, true, false, not, ◌||◌, Option, none, some,
  List, [], ◌∷◌, ◌++◌, leb, ltb, ◌==◌, if◌then◌else◌, update,
}
use operating_systems_paging.Outcome.{Outcome, done, blocked, panic}
use operating_systems_paging.Partial.{◌>>=◌}
use operating_systems_paging.Heap.{FreeList, getstk, freestk, sub32}
use operating_systems_paging.Frames.{Ipt, free_proc_frames}
use operating_systems_paging.BackingStore.{Stores}
use operating_systems_paging.BackingStore.Process.{free_proc_bs}
use operating_systems_paging.Queues.{nproc, is_bad_pid}
use operating_systems_paging.Kernel.{Kernel, Proc, pr_susp, is_free, state_of, free_in, set_proc}
use operating_systems_paging.Kernel.Message.{send}
use operating_systems_paging.Kernel.Kill.{end_process}

-- The other fields of struct procent that creation and exit use.
pub record Life : Type 0 where
  pub prstkptr : ℕ
  pub prstkbase : ℕ
  pub prstklen : ℕ
  pub prparent : ℕ
  pub prdesc : ℕ → ℕ
  pub vh : Bool
  pub hsize : ℕ
  pub vmeminit : Bool
  pub pbsd : ℕ → ℕ

-- `words` is the memory of the stacks by address, `nextpid` the static variable of newpid(), `devices` the
-- state of the devices.
pub record System (S : Type 0) : Type 0 where
  pub kernel : Kernel
  pub life : ℕ → Life
  pub heap : FreeList
  pub words : ℕ → ℕ
  pub frames : Ipt
  pub stores : Stores
  pub prcount : ℕ
  pub nextpid : ℕ
  pub devices : S

-- What the linker and the configuration fix: minheap and maxheap, the address INITRET, WCONSOLE and gpd.
pub record Image : Type 0 where
  pub minheap : ℕ
  pub maxheap : ℕ
  pub initret : ℕ
  pub wconsole : ℕ
  pub gpd : ℕ

-- MINSTK and STACKMAGIC
abbrev pub minstk : ℕ
minstk = 400

abbrev pub stackmagic : ℕ
stackmagic = 0x0A0AAAA9

-- roundew(x)
abbrev pub roundew : ℕ → ℕ
roundew x = (x + 3) % 2 ^ 32 / 4 * 4

-- The loop of newpid() with `n` rounds left.
unfoldable pub newpid : ℕ → (ℕ → Proc) → ℕ → Option ℕ × ℕ
newpid zero proctab nextpid = (none, nextpid)
newpid (suc n) proctab nextpid =
    let pid = nextpid % nproc in
    let rest = newpid n proctab (pid + 1) in
    if is_free (proctab pid).prstate then (some pid, pid + 1) else rest

-- `*--saddr = v` for the values `vs`
unfoldable pub push_all : List ℕ → ℕ × (ℕ → ℕ) → ℕ × (ℕ → ℕ)
push_all [] (saddr, words) = (saddr, words)
push_all (v ∷ vs) (saddr, words) = let sp = sub32 saddr 4 in push_all vs (sp, update words sp v)

abbrev pub backwards : List ℕ → List ℕ
backwards [] = []
backwards (v ∷ vs) = backwards vs ++ v ∷ []

-- The stack of a process that is to call `funcaddr` with `args`: the saved stack pointer and the memory.
unfoldable pub make_stack : (initret funcaddr saddr : ℕ) → List ℕ → (ℕ → ℕ) → ℕ × (ℕ → ℕ)
make_stack initret funcaddr saddr args words =
    let frame =
      push_all (backwards args ++ initret ∷ funcaddr ∷ saddr ∷ [])
        (saddr, update words saddr stackmagic) in
    let pushsp = push_all (0x200 ∷ 0 ∷ 0 ∷ 0 ∷ 0 ∷ 0 ∷ []) frame in
    let (sp, w) = push_all (frame.0 ∷ 0 ∷ 0 ∷ []) pushsp in (sp, update w pushsp.0 sp)

-- create() once the stack and the identifier are there
unfoldable pub start_process :
    {S : Type 0} → Image → (pid saddr ssize funcaddr priority : ℕ) → List ℕ → System S → System S
start_process im pid saddr ssize funcaddr priority args w =
    let (sp, words) = make_stack im.initret funcaddr saddr args w.words in
    record w {
      prcount = (w.prcount + 1) % 2 ^ 32;
      kernel =
          set_proc pid
            (record (w.kernel.proctab pid) {
              prstate = pr_susp;
              prprio = priority;
              prsem = 2 ^ 32 - 1;
              prhasmsg = false;
              pd = im.gpd;
            })
            w.kernel;
      life = update w.life pid (record (w.life pid) {
        vh = false;
        hsize = 0;
        vmeminit = false;
        prstkbase = saddr;
        prstklen = ssize;
        prstkptr = sp;
        prparent = w.kernel.currpid;
        prdesc = λ i. if ltb i 3 then im.wconsole else (w.life pid).prdesc i;
      });
      words = words;
    }

-- the bytes that create() asks for
abbrev pub stack_size : ℕ → ℕ
stack_size ssize = roundew (if ltb ssize minstk then minstk else ssize)

-- SYSERR is `none`; `args` are the nargs arguments.
unfoldable pub create :
    {S : Type 0} → Image → (funcaddr ssize priority : ℕ) → List ℕ → System S → Option ℕ × System S
create im funcaddr ssize priority args w =
    let (r, heap) = getstk (stack_size ssize) w.heap in
    let w' = record w { heap = heap } in
    let (q, nextpid) = newpid nproc w.kernel.proctab w.nextpid in
    let w'' = record w' { nextpid = nextpid } in
    elim r [
      | none ↦ (none, w')
      | some saddr ↦ elim q [
        | none ↦ (none, w'')
        | some pid ↦ if ltb priority (2 ^ 31 + 1) then (none, w'') else (
          some pid,
          start_process im pid saddr (stack_size ssize) funcaddr priority args w'',
        )
      ]
    ]

abbrev pub getpid : {S : Type 0} → System S → ℕ
getpid w = w.kernel.currpid

-- prcount <= 1
abbrev pub is_last : ℕ → Bool
is_last n = leb n 1 || leb (2 ^ 31) n

-- kill() up to the message to the parent, which may run first; false is SYSERR, and `none` is xdone(), which
-- halts the processor.
unfoldable pub kill_start : {S : Type 0} → ℕ → System S → Option (Bool × System S)
kill_start pid w =
    if is_bad_pid (free_in w.kernel) pid || pid == 0 || is_free (state_of pid w.kernel)
    then some (false, w)
    else (let n = (w.prcount + 2 ^ 32 - 1) % 2 ^ 32 in
        if is_last n then none else do
          (ok, k) ← send ((w.life pid).prparent) pid w.kernel
          some (true, record w { prcount = n; kernel = k }))

-- `for (i=0; i<3; i++) close(prptr->prdesc[i])`
abbrev pub close_all : {S : Type 0} → (ℕ → S → S) → (ℕ → ℕ) → S → S
close_all close prdesc s = close (prdesc 2) (close (prdesc 1) (close (prdesc 0) s))

-- the rest of kill(); `none` is a queue that does not end, or a semaphore of a store that blocks
unfoldable pub kill_end : {S : Type 0} → Image → (ℕ → S → S) → ℕ → System S → Option (System S)
kill_end im close pid w =
    let l = w.life pid in
    elim (free_proc_bs l.vh l.hsize l.pbsd w.stores) [
      | blocked ↦ none
      | panic ↦ none
      | done stores ↦ do
        k ← end_process pid w.kernel
        some (record w {
          devices = close_all close l.prdesc w.devices;
          heap = (freestk im.minheap im.maxheap l.prstkbase l.prstklen w.heap).1;
          frames = free_proc_frames l.vh pid w.frames;
          stores = stores;
          kernel = k;
        })
    ]

-- kill(), when no process that the message to the parent makes ready runs before it goes on
unfoldable pub kill : {S : Type 0} → Image → (ℕ → S → S) → ℕ → System S → Option (Bool × System S)
kill im close pid w = do
  (ok, v) ← kill_start pid w
  if ok then kill_end im close pid v >>= (λ v'. some (true, v')) else some (false, v)

-- A process that returns from its first function kills itself.
abbrev pub userret_start : {S : Type 0} → System S → Option (Bool × System S)
userret_start w = kill_start (getpid w) w
