-- ===== src/Ports/Calls.antt =====
-- The calls on ports, over the ports and the scheduler with its semaphores. What a process does after
-- wait(), signal(), semreset() or semdelete() has perhaps let another run is a function of its own, on the
-- state in which it is resumed. `none` is a panic, or a queue of the scheduler that does not end.
use operating_systems_paging.Prelude.{
  ℕ, zero, suc, ◌+◌, ◌-◌, ◌^◌, ◌%◌, Bool, true, false, not, ◌||◌, Option, none, some, List, leb,
  ◌==◌, if◌then◌else◌,
}
use operating_systems_paging.Partial.{◌>>=◌}
use operating_systems_paging.Semaphores.{semcreate, semcount}
use operating_systems_paging.Kernel.{Kernel}
use operating_systems_paging.Kernel.Wait.{negative, wait, signal, semreset, semdelete}
use operating_systems_paging.Ports.{
  Ports, Ptentry, Ptstate, pt_free, pt_limbo, pt_alloc, nports, is_port_free, is_alloc,
  is_bad_or_unused, set_entry, put_msg, take_msg, dispose_all, drop_msgs,
}

pub record Messaging : Type 0 where
  pub ports : Ports
  pub kernel : Kernel

-- the entry of a port
abbrev pub entry : ℕ → Messaging → Ptentry
entry portid w = w.ports.porttab portid

abbrev pub with_entry : ℕ → Ptentry → Messaging → Messaging
with_entry portid e w = record w { ports = set_entry portid e w.ports }

-- a result as an int32: SYSERR is -1
abbrev pub to_int32 : Option ℕ → ℕ
to_int32 none = 2 ^ 32 - 1
to_int32 (some sem) = sem

-- ++ptnextid, which starts again at NPORTS
abbrev pub next_port : ℕ → ℕ
next_port ptnum = if leb nports (ptnum + 1) then 0 else ptnum + 1

-- what ptcreate() does to a port that is free
unfoldable pub open_port : ℕ → ℕ → Messaging → Messaging
open_port ptnum count w =
    let (ssem, s) = semcreate count w.kernel.semtab in
    let (rsem, t) = semcreate 0 s in
    let e = entry ptnum w in
    record (with_entry ptnum
      (record e {
        ptstate = pt_alloc;
        ptssem = to_int32 ssem;
        ptrsem = to_int32 rsem;
        pthead = 0;
        pttail = 0;
        ptseq = (e.ptseq + 1) % 2 ^ 32;
        ptmaxcnt = count % 2 ^ 16;
      })
      w) { kernel = record w.kernel { semtab = t } }

-- the loop of ptcreate() with `n` rounds left
unfoldable pub find_port : ℕ → ℕ → Messaging → Option ℕ × Messaging
find_port zero count w = (none, w)
find_port (suc n) count w =
    let ptnum = w.ports.ptnextid in
    let w' = record w { ports = record w.ports { ptnextid = next_port ptnum } } in
    let rest = find_port n count w' in
    if is_port_free (entry ptnum w).ptstate then (some ptnum, open_port ptnum count w') else rest

unfoldable pub ptcreate : ℕ → Messaging → Option ℕ × Messaging
ptcreate count w = if negative count then (none, w) else find_port nports count w

-- ptsend() up to wait(): SYSERR, or the sequence number that it keeps
unfoldable pub ptsend_start : ℕ → Messaging → Option (Option ℕ × Messaging)
ptsend_start portid w = if is_bad_or_unused portid w.ports then some (none, w) else do
  (ok, k) ← wait (entry portid w).ptssem w.kernel
  some (if ok then some (entry portid w).ptseq else none, record w { kernel = k })

-- ptstate != PT_ALLOC || ptseq != seq
abbrev pub is_stale : ℕ → ℕ → Messaging → Bool
is_stale portid seq w =
    not (is_alloc (entry portid w).ptstate) || not ((entry portid w).ptseq == seq)

-- the rest of ptsend()
unfoldable pub ptsend_end : ℕ → ℕ → ℕ → Messaging → Option (Bool × Messaging)
ptsend_end portid msg seq w = if is_stale portid seq w then some (false, w) else do
  p ← put_msg portid msg w.ports
  (ok, k) ← signal (entry portid w).ptrsem w.kernel
  some (true, record { ports = p; kernel = k })

-- ptrecv() up to wait()
unfoldable pub ptrecv_start : ℕ → Messaging → Option (Option ℕ × Messaging)
ptrecv_start portid w = if is_bad_or_unused portid w.ports then some (none, w) else do
  (ok, k) ← wait (entry portid w).ptrsem w.kernel
  some (if ok then some (entry portid w).ptseq else none, record w { kernel = k })

-- the rest of ptrecv(): SYSERR or the message
unfoldable pub ptrecv_end : ℕ → ℕ → Messaging → Option (Option ℕ × Messaging)
ptrecv_end portid seq w =
    if is_stale portid seq w
    then some (none, w)
    else let (msg, p) = take_msg portid w.ports in
      do
        (ok, k) ← signal (entry portid w).ptssem w.kernel
        some (some msg, record { ports = p; kernel = k })

-- The result is an int32: SYSERR is -1.
unfoldable pub ptcount : ℕ → Messaging → ℕ
ptcount portid w =
    let count = to_int32 (semcount (entry portid w).ptrsem w.kernel.semtab) in
    let sndcnt = to_int32 (semcount (entry portid w).ptssem w.kernel.semtab) in
    if is_bad_or_unused portid w.ports
    then 2 ^ 32 - 1
    else if negative count
    then count
    else if negative sndcnt
    then (count + (2 ^ 32 - sndcnt)) % 2 ^ 32
    else count

-- _ptclear() up to its first call that frees processes; the messages are those given to the disposal
-- function, and `n` is the bound on the rounds of the walk.
unfoldable pub ptclear_start : ℕ → ℕ → Ptstate → Messaging → Option (List ℕ × Messaging)
ptclear_start n portid newstate w =
    let e = record (entry portid w) {
      ptstate = pt_limbo;
      ptseq = ((entry portid w).ptseq + 1) % 2 ^ 32;
    } in
    let p = drop_msgs portid (set_entry portid e w.ports) in
    let p' =
      if is_alloc newstate then set_entry portid (record e { pttail = 0; pthead = 0 }) p else p in
    do
      ms ← dispose_all n e.pthead w.ports.node
      (ok, k) ←
          if is_alloc newstate
          then semreset e.ptssem e.ptmaxcnt w.kernel
          else semdelete e.ptssem w.kernel
      some (ms, record { ports = p'; kernel = k })

-- the second call that frees processes
unfoldable pub ptclear_next : ℕ → Ptstate → Messaging → Option Messaging
ptclear_next portid newstate w = do
  (ok, k) ←
      if is_alloc newstate
      then semreset (entry portid w).ptrsem 0 w.kernel
      else semdelete (entry portid w).ptrsem w.kernel
  some (record w { kernel = k })

-- the end of _ptclear()
unfoldable pub ptclear_end : ℕ → Ptstate → Messaging → Messaging
ptclear_end portid newstate w = with_entry portid (record (entry portid w) { ptstate = newstate }) w

-- ptreset() and ptdelete() up to the first call of _ptclear() that frees processes; `none` inside is SYSERR
unfoldable pub ptreset_start : ℕ → ℕ → Messaging → Option (Option (List ℕ) × Messaging)
ptreset_start n portid w =
    if is_bad_or_unused portid w.ports
    then some (none, w)
    else do (ms, w') ← ptclear_start n portid pt_alloc w; some (some ms, w')

unfoldable pub ptdelete_start : ℕ → ℕ → Messaging → Option (Option (List ℕ) × Messaging)
ptdelete_start n portid w =
    if is_bad_or_unused portid w.ports
    then some (none, w)
    else do (ms, w') ← ptclear_start n portid pt_free w; some (some ms, w')

-- the ends of the two calls
unfoldable pub ptreset_end : ℕ → Messaging → Messaging
ptreset_end portid w = ptclear_end portid pt_alloc w

unfoldable pub ptdelete_end : ℕ → Messaging → Messaging
ptdelete_end portid w =
    let w' = ptclear_end portid pt_free w in
    record w' { ports = record w'.ports { ptnextid = portid } }
