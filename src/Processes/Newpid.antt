-- ===== src/Processes/Newpid.antt =====
-- newpid(): the search for a free entry of the process table.
use operating_systems_paging.Prelude.{
  ℕ, zero, suc, ◌+◌, ◌-◌, ◌%◌, ◌<◌, ◌≡◌, ap, ◌∙◌, inl, inr, true, false, Option, none, some, arith,
  Bool-cases,
}
use operating_systems_paging.Queues.{nproc}
use operating_systems_paging.Kernel.{Proc, is_free}
use operating_systems_paging.Processes.{newpid}

-- A search of `n` rounds: a free entry, or none of those tried is free.
abbrev Searched : ℕ → (ℕ → Proc) → ℕ → Option ℕ → Type 0
Searched n proctab nextpid none =
    (i : ℕ) → i < n → is_free (proctab ((nextpid + i) % nproc)).prstate ≡ false
Searched n proctab nextpid (some pid) = (pid < nproc) × (is_free (proctab pid).prstate ≡ true)

newpid-Searched :
    (n : ℕ) (proctab : ℕ → Proc) (nextpid : ℕ)
    → Searched n proctab nextpid (newpid n proctab nextpid).0
unfolding newpid
newpid-Searched zero proctab nextpid = λ i l. absurd (omega (arith, l))
newpid-Searched (suc n) proctab nextpid =
    elim (Bool-cases (is_free (proctab (nextpid % nproc)).prstate)) [
      | inl u ↦ rw u (omega arith, u)
      | inr u ↦ rw u (
          later (newpid n proctab (nextpid % nproc + 1)).0 u
            (newpid-Searched n proctab (nextpid % nproc + 1)))
    ]
  where
    later :
        (out : Option ℕ)
        → is_free (proctab (nextpid % nproc)).prstate ≡ false
        → Searched n proctab (nextpid % nproc + 1) out
        → Searched (suc n) proctab nextpid out
    later none u f = seen
      where
        seen : (i : ℕ) → i < suc n → is_free (proctab ((nextpid + i) % nproc)).prstate ≡ false
        seen zero m = ap (λ j. is_free (proctab j).prstate) (omega arith) ∙ u
        seen (suc i) m =
            ap (λ j. is_free (proctab j).prstate) (omega arith) ∙ f i (omega (arith, m))
    later (some pid) u g = g

-- The search finds a free entry of the table, or no entry is free.
abbrev pub Chosen : (ℕ → Proc) → Option ℕ → Type 0
Chosen proctab none = (x : ℕ) → x < nproc → is_free (proctab x).prstate ≡ false
Chosen proctab (some pid) = (pid < nproc) × (is_free (proctab pid).prstate ≡ true)

pub newpid-Chosen :
    (proctab : ℕ → Proc) (nextpid : ℕ) → Chosen proctab (newpid nproc proctab nextpid).0
newpid-Chosen proctab nextpid =
    chosen (newpid nproc proctab nextpid).0 (newpid-Searched nproc proctab nextpid)
  where
    chosen : (out : Option ℕ) → Searched nproc proctab nextpid out → Chosen proctab out
    chosen none f = λ x l.
        ap (λ j. is_free (proctab j).prstate) (omega (arith, l))
        ∙ f ((x + nproc - nextpid % nproc) % nproc) (omega arith)
    chosen (some pid) g = g
