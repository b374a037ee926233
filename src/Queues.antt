-- ===== src/Queues.antt =====
-- The table of process queues: system/queue.c, newqueue.c, insert.c, insertd.c, getitem.c and
-- include/queue.h. An int32 key stands as its value plus 2^31, so that keys compare as numbers; an index
-- is the bit pattern of its int16 or int32. NPROC and NSEM are those of config/conf.h.
pub mod Chain
pub mod Order
pub mod Fifo
pub mod Sorted
pub mod Table
pub mod Local
pub mod Delay
pub mod Linked
pub mod Search
pub mod Shrink
pub mod Insertd
pub mod Walk
use operating_systems_paging.Prelude.{
  ℕ, zero, suc, ◌+◌, ◌-◌, ◌^◌, ◌%◌, Bool, true, false, not, ◌&&◌, ◌||◌, Option, none, some, ltb,
  leb, if◌then◌else◌, update, ◌==◌,
}

-- struct qentry
pub record Qentry : Type 0 where
  pub qkey : ℕ
  pub qnext : ℕ
  pub qprev : ℕ

-- queuetab
abbrev pub Queuetab : Type 0
Queuetab = ℕ → Qentry

abbrev pub nproc : ℕ
nproc = 100

-- NPROC + 4 + NSEM + NSEM
abbrev pub nqent : ℕ
nqent = 304

-- EMPTY, -1 as an int16
abbrev pub empty : ℕ
empty = 2 ^ 16 - 1

-- MAXKEY and MINKEY
abbrev pub max_key : ℕ
max_key = 2 ^ 32 - 1

abbrev pub min_key : ℕ
min_key = 0

abbrev pub set_qnext : ℕ → ℕ → Queuetab → Queuetab
set_qnext i n t = update t i (record (t i) { qnext = n })

abbrev pub set_qprev : ℕ → ℕ → Queuetab → Queuetab
set_qprev i p t = update t i (record (t i) { qprev = p })

abbrev pub set_qkey : ℕ → ℕ → Queuetab → Queuetab
set_qkey i k t = update t i (record (t i) { qkey = k })

-- queuetail(q), q + 1; queuehead(q) is q.
abbrev pub queuetail : ℕ → ℕ
queuetail q = q + 1

-- isempty(q): the first index, an int16, is at least NPROC.
abbrev pub is_empty : ℕ → Queuetab → Bool
is_empty q t = leb nproc ((t q).qnext) && ltb ((t q).qnext) (2 ^ 15)

-- isbadqid(q)
abbrev pub is_bad_qid : ℕ → Bool
is_bad_qid q = leb (nqent - 1) q

-- isbadpid(pid); `free` says for which entries of proctab prstate is PR_FREE.
abbrev pub is_bad_pid : (ℕ → Bool) → ℕ → Bool
is_bad_pid free pid = leb nproc pid || free pid

-- Link `pid` in between the entries `prev` and `next`.
abbrev pub link : ℕ → ℕ → ℕ → Queuetab → Queuetab
link pid prev next t =
    set_qprev next pid (set_qnext prev pid (set_qprev pid prev (set_qnext pid next t)))

-- SYSERR is `none`.
unfoldable pub enqueue : (ℕ → Bool) → ℕ → ℕ → Queuetab → Option ℕ × Queuetab
enqueue free pid q t =
    if is_bad_qid q || is_bad_pid free pid
    then (none, t)
    else (some pid, link pid ((t (queuetail q)).qprev) (queuetail q) t)

unfoldable pub getitem : ℕ → Queuetab → Queuetab
getitem pid t =
    let next = (t pid).qnext in
    let prev = (t pid).qprev in set_qprev next prev (set_qnext prev next t)

-- EMPTY is `none`.
unfoldable pub getfirst : ℕ → Queuetab → Option ℕ × Queuetab
getfirst q t = if is_empty q t then (none, t) else (some ((t q).qnext), getitem ((t q).qnext) t)

unfoldable pub getlast : ℕ → Queuetab → Option ℕ × Queuetab
getlast q t =
    if is_empty q t
    then (none, t)
    else (some ((t (queuetail q)).qprev), getitem ((t (queuetail q)).qprev) t)

-- SYSERR and EMPTY, both -1, are `none`.
unfoldable pub dequeue : ℕ → Queuetab → Option ℕ × Queuetab
dequeue q t =
    if is_bad_qid q
    then (none, t)
    else if is_empty q t
    then (none, t)
    else (let (r, t') = getfirst q t in
        elim r [
          | none ↦ (none, t')
          | some pid ↦ (some pid, set_qnext pid empty (set_qprev pid empty t'))
        ])

-- The static variable nextqid goes in and comes out beside the table.
unfoldable pub newqueue : ℕ → Queuetab → Option ℕ × ℕ × Queuetab
newqueue nextqid t =
    let q = nextqid in
    if ltb nqent q then (none, nextqid, t) else (
      some q,
      (nextqid + 2) % 2 ^ 16,
      set_qkey (queuetail q) min_key (
          set_qprev (queuetail q) q (
            set_qnext (queuetail q) empty
              (set_qkey q max_key (set_qprev q empty (set_qnext q (queuetail q) t))))),
    )

-- `while(queuetab[curr].qkey >= key)`, with `n` rounds left; `none` is a search that goes on.
unfoldable pub find_place : ℕ → ℕ → ℕ → Queuetab → Option ℕ
find_place zero key curr t = none
find_place (suc n) key curr t =
    let further : Option ℕ = find_place n key ((t curr).qnext) t in
    if leb key ((t curr).qkey) then further else some curr

-- A queue has at most NPROC processes, so that NPROC + 1 rounds reach its tail. SYSERR is `some false`,
-- and `none` means that the search runs off the queue.
unfoldable pub insert : (ℕ → Bool) → ℕ → ℕ → ℕ → Queuetab → Option (Bool × Queuetab)
insert free pid q key t =
    if is_bad_qid q || is_bad_pid free pid
    then some (false, t)
    else elim (find_place (nproc + 1) key ((t q).qnext) t) [
      | none ↦ none
      | some curr ↦ some (true, link pid ((t curr).qprev) curr (set_qkey pid key t))
    ]

-- The difference and the sum of two int32 keys, which wrap.
abbrev pub sub_key : ℕ → ℕ → ℕ
sub_key a b = (a + 2 ^ 31 + 2 ^ 32 - b) % 2 ^ 32

abbrev pub add_key : ℕ → ℕ → ℕ
add_key a b = (a + b + 2 ^ 31) % 2 ^ 32

-- The walk of insertd(), with `n` rounds left: the key that remains, and the entries to go between.
unfoldable pub find_delay : ℕ → ℕ → ℕ → ℕ → ℕ → Queuetab → Option (ℕ × ℕ × ℕ)
find_delay zero q key prev next t = none
find_delay (suc n) q key prev next t =
    let further : Option (ℕ × ℕ × ℕ) =
      find_delay n q (sub_key key ((t next).qkey)) next ((t next).qnext) t in
    if not (next == queuetail q) && leb ((t next).qkey) key then further else some (key, prev, next)

-- The end of insertd(), between `prev` and `next`.
abbrev pub link_delay : ℕ → ℕ → ℕ → ℕ → ℕ → Queuetab → Queuetab
link_delay pid q key prev next t =
    let u = link pid prev next (set_qkey pid key t) in
    if next == queuetail q then u else set_qkey next (sub_key ((u next).qkey) key) u

unfoldable pub insertd : (ℕ → Bool) → ℕ → ℕ → ℕ → Queuetab → Option (Bool × Queuetab)
insertd free pid q key t =
    if is_bad_qid q || is_bad_pid free pid
    then some (false, t)
    else elim (find_delay (nproc + 1) q key q ((t q).qnext) t) [
      | none ↦ none
      | some (key', prev, next) ↦ some (true, link_delay pid q key' prev next t)
    ]
