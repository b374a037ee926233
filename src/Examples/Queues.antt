-- ===== src/Examples/Queues.antt =====
-- The theorems on queues at queue 100 of a table, with process 7 in it.
use operating_systems_paging.Prelude.{ℕ, Bool, ◌^◌, ◌+◌, refl, false, [], ◌∷◌, arith}
use operating_systems_paging.Queues.{Queuetab, empty, min_key, enqueue, newqueue, insertd, set_qkey}
use operating_systems_paging.Queues.Order.{IsQueue}
use operating_systems_paging.Queues.Fifo.{enqueue-IsQueue, newqueue-IsQueue}
use operating_systems_paging.Queues.Sorted.{keyed-IsQueue}
use operating_systems_paging.Queues.Search.{Delays}
use operating_systems_paging.Queues.Insertd.{Delayed, insertd-Delayed}

abbrev blank : Queuetab
blank x = record { qkey = min_key; qnext = empty; qprev = empty }

abbrev no_processes : Queuetab
no_processes = (newqueue 100 blank).2

abbrev live : ℕ → Bool
live x = false

no_processes-IsQueue : IsQueue no_processes 100 []
no_processes-IsQueue = (newqueue-IsQueue blank 100 (omega arith) (omega arith)).2

abbrev one_process : Queuetab
one_process = (enqueue live 7 100 no_processes).1

one_process-IsQueue : IsQueue one_process 100 (7 ∷ [])
one_process-IsQueue =
    (enqueue-IsQueue live no_processes 100 [] 7 no_processes-IsQueue (omega arith) refl refl).1

-- process 7 sleeps for 50 ms
abbrev one_delay : Queuetab
one_delay = set_qkey 7 (2 ^ 31 + 50) one_process

one_delay-Delays : Delays one_delay (7 ∷ [])
unfolding newqueue enqueue
one_delay-Delays x e = ground arith

insertd-Delayed_example :
    Delayed one_delay 100 9 20 (7 ∷ []) (insertd live 9 100 (2 ^ 31 + 20) one_delay)
insertd-Delayed_example =
    insertd-Delayed live one_delay 100 9 20 (7 ∷ [])
      (keyed-IsQueue one_process 100 (7 ∷ []) 7 (2 ^ 31 + 50) one_process-IsQueue (omega arith))
      (omega arith) refl refl one_delay-Delays (omega arith)
