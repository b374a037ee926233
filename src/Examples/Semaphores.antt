-- ===== src/Examples/Semaphores.antt =====
-- The theorem on semaphores at a table whose first entry is used.
use operating_systems_paging.Prelude.{◌+◌, ◌*◌, arith, leb}
use operating_systems_paging.Semaphores.{Semtab, semcreate}
use operating_systems_paging.Semaphores.Create.{Created, semcreate-Created}

abbrev one_used : Semtab
one_used = record {
  semtab = λ i. record { used = leb i 0; scount = 0; squeue = 102 + 2 * i };
  nextsem = 0;
}

semcreate-Created_example : Created 5 one_used (semcreate 5 one_used)
semcreate-Created_example = semcreate-Created 5 one_used (omega arith) (omega arith)
