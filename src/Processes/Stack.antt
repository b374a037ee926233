-- ===== src/Processes/Stack.antt =====
-- The stack that create() makes is the one that ctxsw() takes the process's state from.
use mathlib.Core.Path.{subst}
use mathlib.Core.List.{append-nil, append_assoc}
use operating_systems_paging.Prelude.{
  ℕ, ◌+◌, ◌-◌, ◌*◌, ◌^◌, ◌<◌, ◌≤◌, ◌≡◌, refl, sym, ap, ◌∙◌, List, [], ◌∷◌, ◌++◌, arith, ==_refl,
  ==_ne, length, length-append, update,
}
use operating_systems_paging.Heap.{sub32}
use operating_systems_paging.Processes.{push_all, make_stack, backwards, stackmagic}

-- The words `vs` stand from the address `a` upwards.
abbrev pub Holds : (ℕ → ℕ) → ℕ → List ℕ → Type 0
Holds words a [] = Unit
Holds words a (v ∷ vs) = (words a ≡ v) × Holds words (a + 4) vs

Holds-above :
    (words : ℕ → ℕ) (a b v : ℕ) (vs : List ℕ)
    → b < a
    → Holds words a vs
    → Holds (update words b v) a vs
Holds-above words a b v [] l h = tt
Holds-above words a b v (x ∷ xs) l (e, h) = (
  rw (==_ne b a (λ q. omega (arith, q, l))) e,
  Holds-above words (a + 4) b v xs (omega (arith, l)) h,
)

-- One of the words is written again.
Holds-set :
    (words : ℕ → ℕ) (a b v y : ℕ) (xs ys : List ℕ)
    → a + 4 * length xs ≡ b
    → Holds words a (xs ++ y ∷ ys)
    → Holds (update words b v) a (xs ++ v ∷ ys)
Holds-set words a b v y [] ys q (e, h) =
    let same : b ≡ a = omega (arith, q) in
    (rw (same, ==_refl a) refl, Holds-above words (a + 4) b v ys (omega (arith, q)) h)
Holds-set words a b v y (x ∷ xs) ys q (e, h) = (
  rw (==_ne b a (λ z. omega (arith, z, q))) e,
  Holds-set words (a + 4) b v y xs ys (omega (arith, q)) h,
)

backwards-append : (xs ys : List ℕ) → backwards (xs ++ ys) ≡ backwards ys ++ backwards xs
backwards-append [] ys = sym (append-nil (backwards ys))
backwards-append (x ∷ xs) ys =
    ap (λ l. l ++ x ∷ []) (backwards-append xs ys)
    ∙ append_assoc (backwards ys) (backwards xs) (x ∷ [])

backwards-backwards : (xs : List ℕ) → backwards (backwards xs) ≡ xs
backwards-backwards [] = refl
backwards-backwards (x ∷ xs) =
    backwards-append (backwards xs) (x ∷ []) ∙ ap (λ l. x ∷ l) (backwards-backwards xs)

length-backwards : (xs : List ℕ) → length (backwards xs) ≡ length xs
length-backwards [] = refl
length-backwards (x ∷ xs) =
    length-append (backwards xs) (x ∷ []) ∙ omega (arith, length-backwards xs)

-- From the address where the pushes started, `n` words down, the words `vs` stand upwards.
abbrev pub Stands : ℕ → ℕ → List ℕ → ℕ × (ℕ → ℕ) → Type 0
Stands n sp vs (p, words) = (p + 4 * n ≡ sp) × Holds words p vs

-- Values pushed one after another stand in the opposite order.
push_all-Stands :
    (vs ws : List ℕ) (sp : ℕ) (words : ℕ → ℕ)
    → 4 * length vs ≤ sp
    → sp < 2 ^ 32
    → Holds words sp ws
    → Stands (length vs) sp (backwards vs ++ ws) (push_all vs (sp, words))
unfolding push_all
push_all-Stands [] ws sp words l m h = (omega arith, h)
push_all-Stands (v ∷ vs) ws sp words l m h =
    let below : sub32 sp 4 + 4 ≡ sp = omega (arith, l, m) in
    let (e, d) =
      push_all-Stands vs (v ∷ ws) (sub32 sp 4) (update words (sub32 sp 4) v) (omega (arith, l, m))
        (omega (arith, l, m))
        (
          rw (==_refl (sub32 sp 4)) refl,
          Holds-above words (sub32 sp 4 + 4) (sub32 sp 4) v ws (omega arith)
              (subst (λ a. Holds words a ws) (sym below) h),
        ) in
    (omega (arith, e, below), subst (Holds _ _) (sym (append_assoc (backwards vs) (v ∷ []) ws)) d)

-- What ctxsw() takes off the stack from `sp` upwards, and the words above it.
abbrev pub saved_words : (initret funcaddr saddr sp : ℕ) → List ℕ → List ℕ
saved_words initret funcaddr saddr sp args =
    0
      ∷ 0
      ∷ (saddr - 4 * (length args + 3))
      ∷ sp
      ∷ 0
      ∷ 0
      ∷ 0
      ∷ 0
      ∷ 0x200
      ∷ saddr
      ∷ funcaddr
      ∷ initret
      ∷ args
    ++ stackmagic ∷ []

-- For a stack with room below its highest word, the saved pointer leads to what ctxsw() takes off it: eight
-- registers, of which %esp holds that pointer and %ebp that of the frame, flags that allow interrupts, the
-- frame's link, the function, and then its return address INITRET, the arguments in order and the mark.
pub make_stack-Stands :
    (initret funcaddr saddr : ℕ) (args : List ℕ) (words : ℕ → ℕ)
    → 4 * (length args + 12) ≤ saddr
    → saddr < 2 ^ 32
    → Stands
        (length args + 12)
        saddr
        (saved_words initret funcaddr saddr (make_stack initret funcaddr saddr args words).0 args)
        (make_stack initret funcaddr saddr args words)
unfolding make_stack
make_stack-Stands initret funcaddr saddr args words room top =
    let (e, c) = called in
    let (e', c') =
      push_all-Stands (0x200 ∷ 0 ∷ 0 ∷ 0 ∷ 0 ∷ 0 ∷ [])
        (saddr ∷ funcaddr ∷ initret ∷ args ++ stackmagic ∷ []) frame.0 frame.1
        (omega (arith, e, room)) (omega (arith, e, top)) c in
    let (e'', c'') =
      push_all-Stands (frame.0 ∷ 0 ∷ 0 ∷ [])
        (0 ∷ 0 ∷ 0 ∷ 0 ∷ 0 ∷ 0x200 ∷ saddr ∷ funcaddr ∷ initret ∷ args ++ stackmagic ∷ [])
        registers.0 registers.1 (omega (arith, e, e', room)) (omega (arith, e, e', top)) c' in
    let link : frame.0 ≡ saddr - 4 * (length args + 3) = omega (arith, e) in
    (
      omega (arith, e, e', e''),
      Holds-set (push_all (frame.0 ∷ 0 ∷ 0 ∷ []) registers).1
          (push_all (frame.0 ∷ 0 ∷ 0 ∷ []) registers).0 registers.0
          (push_all (frame.0 ∷ 0 ∷ 0 ∷ []) registers).0 0
          (0 ∷ 0 ∷ (saddr - 4 * (length args + 3)) ∷ [])
          (0 ∷ 0 ∷ 0 ∷ 0 ∷ 0x200 ∷ saddr ∷ funcaddr ∷ initret ∷ args ++ stackmagic ∷ [])
          (omega (arith, e'')) (c''.0, (c''.1.0, (c''.1.1.0 ∙ link, c''.1.1.1))),
    )
  where
    call : List ℕ
    call = backwards args ++ initret ∷ funcaddr ∷ saddr ∷ []

    frame : ℕ × (ℕ → ℕ)
    frame = push_all call (saddr, update words saddr stackmagic)

    registers : ℕ × (ℕ → ℕ)
    registers = push_all (0x200 ∷ 0 ∷ 0 ∷ 0 ∷ 0 ∷ 0 ∷ []) frame

    size : length call ≡ length args + 3
    size =
        length-append (backwards args) (initret ∷ funcaddr ∷ saddr ∷ [])
        ∙ omega (arith, length-backwards args)

    order : backwards call ++ stackmagic ∷ [] ≡ saddr ∷ funcaddr ∷ initret ∷ args ++ stackmagic ∷ []
    order =
        ap (λ l. l ++ stackmagic ∷ [])
          (backwards-append (backwards args) (initret ∷ funcaddr ∷ saddr ∷ [])
            ∙ ap (λ l. saddr ∷ funcaddr ∷ initret ∷ l) (backwards-backwards args))

    called :
        Stands (length args + 3) saddr (saddr ∷ funcaddr ∷ initret ∷ args ++ stackmagic ∷ []) frame
    called =
        let (e, c) =
          push_all-Stands call (stackmagic ∷ []) saddr (update words saddr stackmagic)
            (omega (arith, size, room)) top (rw (==_refl saddr) refl, tt) in
        (omega (arith, e, size), subst (Holds frame.1 frame.0) order c)
