-- ===== src/Examples/Stores.antt =====
-- The theorems on the backing stores at a table with store 0 taken, and on the disk at one that never
-- fails.
use operating_systems_paging.Prelude.{ℕ, ◌+◌, refl, true, some, arith, update}
use operating_systems_paging.Outcome.{◌>>=◌, Returns}
use operating_systems_paging.BackingStore.{Stores, Env, cleared, count_free}
use operating_systems_paging.BackingStore.Laws.{IsReady, taken}
use operating_systems_paging.BackingStore.Process.{bs_init, free_proc_bs, bs_req}
use operating_systems_paging.BackingStore.Process.Account.{
  IsCounted, Took, Restored, bs_init-Took, free_proc_bs-bs_init,
}
use operating_systems_paging.Disk.{Device, Memory, read_bs}
use operating_systems_paging.Disk.Read.{Reliable, Loaded, read_bs_lem}

abbrev working : Env
working = record { opened = true; created = true }

abbrev pub one_taken : Stores
one_taken = record {
  active = true;
  init_sem = 1;
  bs_sem = 1;
  bstab = update (λ i. cleared) 0 (taken 150);
  free_bs_count = 7;
}

one_taken-IsReady : IsReady one_taken
one_taken-IsReady = record {
  active = refl;
  init_free = refl;
  bs_free = refl;
  agree = λ i. ground arith;
}

one_taken-IsCounted : IsCounted one_taken
unfolding count_free
one_taken-IsCounted = record { ready = one_taken-IsReady; counted = refl }

bs_init-Took_example :
    Returns (bs_init working 450 (λ i. 0) one_taken) (Took one_taken (bs_req 450) (bs_req 450))
unfolding bs_req
bs_init-Took_example =
    bs_init-Took working 450 (λ i. 0) one_taken one_taken-IsCounted (omega arith) (omega arith)

free_proc_bs-bs_init_example :
    Returns
      (do (p, t) ← bs_init working 450 (λ i. 0) one_taken; free_proc_bs true 450 p t)
      (Restored one_taken)
unfolding bs_req
free_proc_bs-bs_init_example =
    free_proc_bs-bs_init working 450 (λ i. 0) one_taken one_taken-IsCounted (omega arith)
      (omega arith)

-- a disk whose blocks are the words of its state
abbrev pub sound_disk : Device (ℕ → ℕ → ℕ)
sound_disk = record {
  read = λ blk d. (some (d blk), d);
  write = λ blk buf d. (true, update d blk buf);
}

abbrev pub sound_disk-Reliable : Reliable sound_disk
sound_disk-Reliable = record { contents = λ d. d; reads = λ blk d. refl; keeps = λ blk d. refl }

abbrev zeros : Memory
zeros p j = 0

read_bs_lem_example :
    Returns
      (read_bs sound_disk 1030 0 149 zeros one_taken (λ blk k. blk + k))
      (Loaded sound_disk sound_disk-Reliable 1030 0 149 zeros one_taken (λ blk k. blk + k))
read_bs_lem_example =
    read_bs_lem sound_disk sound_disk-Reliable 1030 0 149 zeros one_taken (λ blk k. blk + k)
      (record { active = refl; unlocked = refl; known = omega arith; within = refl })
