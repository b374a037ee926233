-- ===== src/Ports.antt =====
-- Ports, on which processes exchange messages: system/ptinit.c, ptcreate.c, ptsend.c, ptrecv.c, ptcount.c,
-- ptdelete.c, ptreset.c, ptclear.c and include/ports.h. A message node is its address, and NULL is 0.
-- A port identifier and a count are the bit patterns of an int32. A call that may block is two
-- functions, before and after wait() returns.
pub mod Chain
pub mod Rep
pub mod Fifo
pub mod Put
pub mod Move
pub mod Take
pub mod Calls
pub mod Flow
pub mod Clear
pub mod Open
pub mod Stale
pub mod Count
use operating_systems_paging.Prelude.{
  ℕ, zero, suc, ◌+◌, ◌-◌, ◌*◌, ◌^◌, ◌%◌, Bool, true, false, not, ◌&&◌, ◌||◌, Option, none, some,
  List, [], ◌∷◌, leb, ltb, ◌==◌, if◌then◌else◌, update,
}

-- PT_FREE and the like
pub data Ptstate : Type 0 where
  pt_free pt_limbo pt_alloc : Ptstate

-- struct ptnode
pub record Ptnode : Type 0 where
  pub ptmsg : ℕ
  pub ptnext : ℕ

-- struct ptentry
pub record Ptentry : Type 0 where
  pub ptssem : ℕ
  pub ptrsem : ℕ
  pub ptstate : Ptstate
  pub ptmaxcnt : ℕ
  pub ptseq : ℕ
  pub pthead : ℕ
  pub pttail : ℕ

-- ptfree, porttab, ptnextid and the memory of the nodes
pub record Ports : Type 0 where
  pub ptfree : ℕ
  pub porttab : ℕ → Ptentry
  pub ptnextid : ℕ
  pub node : ℕ → Ptnode

-- NPORTS
abbrev pub nports : ℕ
nports = 30

-- isbadport(portid)
abbrev pub is_bad_port : ℕ → Bool
is_bad_port portid = leb nports portid

abbrev pub is_alloc : Ptstate → Bool
is_alloc pt_alloc = true
is_alloc pt_free = false
is_alloc pt_limbo = false

abbrev pub is_port_free : Ptstate → Bool
is_port_free pt_free = true
is_port_free pt_alloc = false
is_port_free pt_limbo = false

-- isbadport(portid) || porttab[portid].ptstate != PT_ALLOC
abbrev pub is_bad_or_unused : ℕ → Ports → Bool
is_bad_or_unused portid p = is_bad_port portid || not (is_alloc ((p.porttab portid).ptstate))

abbrev pub set_entry : ℕ → Ptentry → Ports → Ports
set_entry portid e p = record p { porttab = update p.porttab portid e }

abbrev pub set_ptnext : ℕ → ℕ → (ℕ → Ptnode) → ℕ → Ptnode
set_ptnext a next node = update node a (record (node a) { ptnext = next })

-- `for (curr=next=ptfree; --maxmsgs > 0; curr=next) curr->ptnext = ++next;` and the NULL at the end, where
-- `n` rounds are left and a node has eight bytes
unfoldable pub link_free : ℕ → ℕ → (ℕ → Ptnode) → ℕ → Ptnode
link_free zero curr node = set_ptnext curr 0 node
link_free (suc n) curr node = link_free n (curr + 8) (set_ptnext curr (curr + 8) node)

-- ptinit() once getmem() has returned `mem` for `maxmsgs` nodes, at least one
unfoldable pub ptinit : ℕ → ℕ → Ports → Ports
ptinit maxmsgs mem p = record {
  ptfree = mem;
  porttab = λ i.
      if ltb i nports then record (p.porttab i) { ptstate = pt_free; ptseq = 0 } else p.porttab i;
  ptnextid = 0;
  node = link_free (maxmsgs - 1) mem p.node;
}

-- ptsend() from the test of ptfree to the link into the port's list; `none` is the panic.
unfoldable pub put_msg : ℕ → ℕ → Ports → Option Ports
put_msg portid msg p =
    if p.ptfree == 0
    then none
    else (let msgnode = p.ptfree in
        let node = update p.node msgnode (record { ptmsg = msg; ptnext = 0 }) in
        let e = p.porttab portid in
        let p' = record p { ptfree = (p.node msgnode).ptnext } in
        some (
          if e.pttail == 0
          then set_entry portid (record e { pttail = msgnode; pthead = msgnode })
              (record p' { node = node })
          else set_entry portid (record e { pttail = msgnode })
              (record p' { node = set_ptnext e.pttail msgnode node })))

-- ptrecv() from the read of the first node to its return to the free list
unfoldable pub take_msg : ℕ → Ports → ℕ × Ports
take_msg portid p =
    let e = p.porttab portid in
    let msgnode = e.pthead in
    let e' =
      if e.pthead == e.pttail
      then record e { pthead = 0; pttail = 0 }
      else record e { pthead = (p.node msgnode).ptnext } in
    (
      (p.node msgnode).ptmsg,
      set_entry portid e'
          (record p { node = set_ptnext msgnode p.ptfree p.node; ptfree = msgnode }),
    )

-- The walk of _ptclear(), with `n` rounds left: the messages in the order in which they are disposed of, or
-- `none` for a walk that goes on.
unfoldable pub dispose_all : ℕ → ℕ → (ℕ → Ptnode) → Option (List ℕ)
dispose_all zero walk node = none
dispose_all (suc n) walk node =
    let later : Option (List ℕ) = dispose_all n ((node walk).ptnext) node in
    if walk == 0
    then some []
    else elim later [ none ↦ none | some ms ↦ some ((node walk).ptmsg ∷ ms) ]

-- The messages' nodes go to the free list.
unfoldable pub drop_msgs : ℕ → Ports → Ports
drop_msgs portid p =
    let e = p.porttab portid in
    if e.pthead == 0
    then p
    else record p { node = set_ptnext e.pttail p.ptfree p.node; ptfree = e.pthead }
