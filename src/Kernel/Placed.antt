-- ===== src/Kernel/Placed.antt =====
-- Which processes are in which queue: a process is in the queue that its state puts it in, and in no other.
use mathlib.Core.Path.{subst}
use operating_systems_paging.Prelude.{
  ℕ, ◌<◌, ◌≡◌, sym, ap, ◌∙◌, ◌⊎◌, inl, inr, Bool, false, true≢false, Option, some, none, List, ◌∷◌,
  arith, ◌==◌, ==→≡, Bool-cases, update, contains,
}
use operating_systems_paging.Queues.{Queuetab, nproc, queuetail}
use operating_systems_paging.Queues.Order.{IsQueue}
use operating_systems_paging.Queues.Table.{IsList, IsTable, Same, Changed, change-IsTable}

abbrev pub at_queue : Option ℕ → ℕ → Bool
at_queue none q = false
at_queue (some r) q = r == q

-- Each process is in the queue that `home` names for it, if any, and in no other.
pub record Placed (t : Queuetab) (view : ℕ → List ℕ) (home : ℕ → Option ℕ) : Type 0 where
  pub table : IsTable t view
  pub placed : (x q : ℕ) → x < nproc → IsList q → contains x (view q) ≡ at_queue (home x) q

-- The process `pid` goes into or out of queue `q`, which then holds `ys`.
pub record Move (t u : Queuetab) (view : ℕ → List ℕ) (home home' : ℕ → Option ℕ) (q pid : ℕ)
    (ys : List ℕ) : Type 0 where
  pub list : IsList q
  pub queue : IsQueue u q ys
  pub same : Same t u (pid ∷ q ∷ queuetail q ∷ view q)
  pub small : pid < nproc
  pub was : (home pid ≡ none) ⊎ (home pid ≡ some q)
  pub becomes : (home' pid ≡ none) ⊎ (home' pid ≡ some q)
  pub others : (x : ℕ) → x < nproc → (pid == x) ≡ false → home' x ≡ home x
  pub here : contains pid ys ≡ at_queue (home' pid) q
  pub there : (x : ℕ) → (pid == x) ≡ false → contains x ys ≡ contains x (view q)

at_other :
    (o : Option ℕ) (q r : ℕ) → (o ≡ none) ⊎ (o ≡ some q) → (q == r) ≡ false → at_queue o r ≡ false
at_other o q r (inl e) ne = ap (λ p. at_queue p r) e
at_other o q r (inr e) ne = ap (λ p. at_queue p r) e ∙ ne

module _ (t u : Queuetab) (view : ℕ → List ℕ) (home home' : ℕ → Option ℕ) (q pid : ℕ) (ys : List ℕ)
    (p : Placed t view home) (m : Move t u view home home' q pid ys) where
  move-Changed : Changed t u view q pid ys
  move-Changed = record {
    queue = m.queue;
    same = m.same;
    small = m.small;
    only = λ r l h. elim (Bool-cases (q == r)) [
      | inl e ↦ ==→≡ q r e
      | inr e ↦
          absurd (true≢false (sym h ∙ p.placed pid r m.small l ∙ at_other (home pid) q r m.was e))
    ];
    within = λ x h. elim (Bool-cases (pid == x)) [
      | inl e ↦ ground arith
      | inr e ↦ ground (arith, m.there x e)
    ];
  }

  placed_here : (x : ℕ) → x < nproc → contains x ys ≡ at_queue (home' x) q
  placed_here x lt = elim (Bool-cases (pid == x)) [
    | inl e ↦ subst (λ y. contains y ys ≡ at_queue (home' y) q) (==→≡ pid x e) m.here
    | inr e ↦ m.there x e ∙ p.placed x q lt m.list ∙ ap (λ o. at_queue o q) (sym (m.others x lt e))
  ]

  placed_there :
      (x r : ℕ)
      → x < nproc
      → IsList r
      → (q == r) ≡ false
      → contains x (view r) ≡ at_queue (home' x) r
  placed_there x r lt l ne = elim (Bool-cases (pid == x)) [
    | inl e ↦
        subst (λ y. contains y (view r) ≡ at_queue (home' y) r) (==→≡ pid x e)
          (p.placed pid r m.small l
            ∙ at_other (home pid) q r m.was ne
            ∙ sym (at_other (home' pid) q r m.becomes ne))
    | inr e ↦ p.placed x r lt l ∙ ap (λ o. at_queue o r) (sym (m.others x lt e))
  ]

  pub move-Placed : Placed u (update view q ys) home'
  move-Placed = record {
    table = change-IsTable t u view q pid ys p.table move-Changed m.list;
    placed = λ x r lt l. elim (Bool-cases (q == r)) [
      | inl e ↦
          rw e (subst (λ s. contains x ys ≡ at_queue (home' x) s) (==→≡ q r e) (placed_here x lt))
      | inr e ↦ rw e (placed_there x r lt l e)
    ];
  }
