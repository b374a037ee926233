-- ===== src/Pools/Cycle.antt =====
-- freebuf() takes back what getbuf() gave.
use mathlib.Core.Path.{fun_ext}
use operating_systems_paging.Prelude.{
  ℕ, ◌-◌, ◌^◌, ◌<◌, ◌≡◌, ◌≢◌, refl, sym, ap, ◌∙◌, inl, inr, true, false, some, arith, ◌==◌, ==→≡,
  ==_refl, Bool-cases, update,
}
use operating_systems_paging.Partial.{◌>>=◌, Ends, Ends-bind}
use operating_systems_paging.Heap.{add32, sub32}
use operating_systems_paging.Kernel.Wait.{sentry, signal}
use operating_systems_paging.Kernel.System.{InOrder}
use operating_systems_paging.Kernel.Signal.{signal-InOrder}
use operating_systems_paging.Pools.{Pools, is_no_pool, getbuf_end, freebuf}

-- an assignment that is undone
restored : {A : Type 0} (f : ℕ → A) (a : ℕ) (b c : A) → f a ≡ c → update (update f a b) a c ≡ f
restored f a b c h =
    fun_ext λ i. elim (Bool-cases (a == i)) [
      | inl e ↦ rw e (sym h ∙ ap f (==→≡ a i e))
      | inr e ↦ rw e refl
    ]

-- freebuf() of a buffer of the pool `poolid`
freebuf_lem :
    (a buf poolid : ℕ) (v : Pools)
    → sub32 a 4 ≡ buf
    → v.word buf ≡ poolid
    → is_no_pool poolid v ≡ false
    → freebuf a v ≡ (do
      (ok, k) ← signal (v.buftab poolid).bpsem v.kernel
      some (
        true,
        record v {
          word = update v.word buf (v.buftab poolid).bpnext;
          buftab = update v.buftab poolid (record (v.buftab poolid) { bpnext = buf });
          kernel = k;
        },
      ))
unfolding freebuf
freebuf_lem a buf poolid v e f g = rw (e, f, g) refl

-- The buffer that getbuf() takes from a pool in use is given back: freebuf() finds its pool, and the free list
-- of every pool, the words of the buffers and the number of pools are those of before; the scheduler is in order.
pub freebuf-getbuf :
    (poolid : ℕ) (w : Pools)
    → InOrder w.kernel
    → is_no_pool poolid w ≡ false
    → (w.buftab poolid).bpnext < 2 ^ 32
    → (sentry (w.buftab poolid).bpsem w.kernel).scount ≢ 2 ^ 31 - 1
    → Ends (freebuf (getbuf_end poolid w).0 (getbuf_end poolid w).1) (λ out.
      (out.0 ≡ true)
      × (out.1.buftab ≡ w.buftab)
      × (out.1.word ≡ w.word)
      × (out.1.nbpools ≡ w.nbpools)
      × InOrder out.1.kernel)
unfolding getbuf_end
freebuf-getbuf poolid w o known small ne =
    rw (freebuf_lem (add32 b 4) b poolid (getbuf_end poolid w).1 same (rw (==_refl b) refl) known) (
      Ends-bind _ (signal ((getbuf_end poolid w).1.buftab poolid).bpsem w.kernel) _
        (signal-InOrder w.kernel ((getbuf_end poolid w).1.buftab poolid).bpsem o count)
        (λ out d. (refl, table, words, refl, d.1)))
  where
    b : ℕ
    b = (w.buftab poolid).bpnext

    count : (sentry ((getbuf_end poolid w).1.buftab poolid).bpsem w.kernel).scount ≢ 2 ^ 31 - 1
    count = rw (==_refl poolid) ne

    table :
        update
          (getbuf_end poolid w).1.buftab
          poolid
          (record ((getbuf_end poolid w).1.buftab poolid) { bpnext = b })
        ≡ w.buftab
    table = restored w.buftab poolid _ _ (rw (==_refl poolid) refl)

    words :
        update (getbuf_end poolid w).1.word b ((getbuf_end poolid w).1.buftab poolid).bpnext
        ≡ w.word
    words = restored w.word b _ _ (rw (==_refl poolid) refl)

    same : sub32 (add32 b 4) 4 ≡ b
    same = omega (arith, small)
