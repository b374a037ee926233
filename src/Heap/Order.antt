-- ===== src/Heap/Order.antt =====
-- Free lists in order, and the bytes that they hold.
use operating_systems_paging.Prelude.{
  ℕ, ◌+◌, ◌≤◌, ◌<◌, ◌^◌, ◌≡◌, refl, sym, ◌∙◌, inl, inr, lt-cases, true≢false, Bool, true, false,
  ◌&&◌, ◌||◌, List, [], ◌∷◌, arith, ltb, leb,
}
use operating_systems_paging.Heap.{Block, block, FreeList}

-- The blocks are not empty, lie between `lo` and `hi` in ascending order, and no two are adjacent.
abbrev pub InOrder : ℕ → ℕ → List Block → Type 0
InOrder lo hi [] = Unit
InOrder lo hi (b ∷ bs) =
    (lo ≤ b.addr) × (0 < b.len) × (b.addr + b.len ≤ hi) × InOrder (b.addr + b.len + 1) hi bs

-- Is byte `x` in a block of the list?
abbrev pub holds : ℕ → List Block → Bool
holds x [] = false
holds x (b ∷ bs) = (leb b.addr x && ltb x (b.addr + b.len)) || holds x bs

abbrev pub within : ℕ → ℕ → ℕ → Bool
within a n x = leb a x && ltb x (a + n)

abbrev pub total : List Block → ℕ
total [] = 0
total (b ∷ bs) = b.len + total bs

-- The heap's free list: in order, with mlength the number of free bytes.
pub record IsHeap (lo hi : ℕ) (l : FreeList) : Type 0 where
  pub order : InOrder lo hi l.blocks
  pub counted : l.mlength ≡ total l.blocks
  pub start : 0 < lo
  pub bounded : lo ≤ hi
  pub fits : hi < 2 ^ 32

pub InOrder-lower :
    (lo lo' hi : ℕ) (bs : List Block) → lo' ≤ lo → InOrder lo hi bs → InOrder lo' hi bs
InOrder-lower lo lo' hi [] h o = tt
InOrder-lower lo lo' hi (b ∷ bs) h (p, q, r, s) = (omega arith, q, r, s)

-- Below the list no byte is free.
pub holds-below : (x lo hi : ℕ) (bs : List Block) → InOrder lo hi bs → x < lo → holds x bs ≡ false
holds-below x lo hi [] o h = refl
holds-below x lo hi (b ∷ bs) (p, q, r, s) h =
    ground (arith, holds-below x (b.addr + b.len + 1) hi bs s)

pub total-le :
    (lo hi : ℕ) (bs : List Block) → lo ≤ hi + 1 → InOrder lo hi bs → total bs + lo ≤ hi + 1
total-le lo hi [] h o = omega arith
total-le lo hi (b ∷ bs) h (p, q, r, s) =
    omega (arith, total-le (b.addr + b.len + 1) hi bs (omega arith) s)

-- Before and right after its first block a list in order holds nothing.
head-start :
    (lo hi : ℕ) (b : Block) (bs : List Block)
    → InOrder lo hi (b ∷ bs)
    → (x : ℕ) → x < b.addr
    → holds x (b ∷ bs) ≡ false
head-start lo hi b bs (p, q, r, s) x h = holds-below x b.addr hi (b ∷ bs) (omega arith, q, r, s) h

head-end :
    (lo hi : ℕ) (b : Block) (bs : List Block)
    → InOrder lo hi (b ∷ bs)
    → holds (b.addr + b.len) (b ∷ bs) ≡ false
head-end lo hi b bs (p, q, r, s) =
    ground (arith, holds-below (b.addr + b.len) (b.addr + b.len + 1) hi bs s (omega arith))

in-head :
    (b : Block) (bs : List Block) (x : ℕ)
    → b.addr ≤ x
    → x < b.addr + b.len
    → holds x (b ∷ bs) ≡ true
in-head b bs x h k = ground arith

module _ (lo hi : ℕ) (b c : Block) (bs cs : List Block) (o : InOrder lo hi (b ∷ bs))
    (p : InOrder lo hi (c ∷ cs)) (same : (x : ℕ) → holds x (b ∷ bs) ≡ holds x (c ∷ cs)) where
  no-earlier : b.addr < c.addr → ⊥
  no-earlier h = true≢false (
      sym (in-head b bs b.addr (omega arith) (omega (arith, o.1)))
      ∙ same b.addr
      ∙ head-start lo hi c cs p b.addr h)

  no-shorter : b.addr ≡ c.addr → b.len < c.len → ⊥
  no-shorter e h = true≢false (
      sym (in-head c cs (b.addr + b.len) (omega arith) (omega arith))
      ∙ sym (same (b.addr + b.len))
      ∙ head-end lo hi b bs o)

  same-tails : b.addr ≡ c.addr → b.len ≡ c.len → (x : ℕ) → holds x bs ≡ holds x cs
  same-tails e f x = elim (lt-cases x (b.addr + b.len + 1)) [
    | inl h ↦
        holds-below x (b.addr + b.len + 1) hi bs o.3 h
        ∙ sym (holds-below x (c.addr + c.len + 1) hi cs p.3 (omega arith))
    | inr h ↦ ground (arith, same x)
  ]

same-start :
    (lo hi : ℕ) (b c : Block) (bs cs : List Block)
    → InOrder lo hi (b ∷ bs)
    → InOrder lo hi (c ∷ cs)
    → ((x : ℕ) → holds x (b ∷ bs) ≡ holds x (c ∷ cs))
    → b.addr ≡ c.addr
same-start lo hi b c bs cs o p h = elim (lt-cases b.addr c.addr) [
  | inl l ↦ absurd (no-earlier lo hi b c bs cs o p h l)
  | inr (inl e) ↦ e
  | inr (inr g) ↦ absurd (no-earlier lo hi c b cs bs p o (λ x. sym (h x)) g)
]

same-len :
    (lo hi : ℕ) (b c : Block) (bs cs : List Block)
    → InOrder lo hi (b ∷ bs)
    → InOrder lo hi (c ∷ cs)
    → ((x : ℕ) → holds x (b ∷ bs) ≡ holds x (c ∷ cs))
    → b.addr ≡ c.addr
    → b.len ≡ c.len
same-len lo hi b c bs cs o p h e = elim (lt-cases b.len c.len) [
  | inl l ↦ absurd (no-shorter lo hi b c bs cs o p h e l)
  | inr (inl f) ↦ f
  | inr (inr g) ↦ absurd (no-shorter lo hi c b cs bs p o (λ x. sym (h x)) (sym e) g)
]

-- Two lists in order that hold the same bytes are the same list.
pub holds_unique :
    (lo hi : ℕ) (xs ys : List Block)
    → InOrder lo hi xs
    → InOrder lo hi ys
    → ((x : ℕ) → holds x xs ≡ holds x ys)
    → xs ≡ ys
holds_unique lo hi [] [] o p h = refl
holds_unique lo hi [] (c ∷ cs) o p h =
    absurd
      (true≢false (sym (in-head c cs c.addr (omega arith) (omega (arith, p.1))) ∙ sym (h c.addr)))
holds_unique lo hi (b ∷ bs) [] o p h =
    absurd (true≢false (sym (in-head b bs b.addr (omega arith) (omega (arith, o.1))) ∙ h b.addr))
holds_unique lo hi (b ∷ bs) (c ∷ cs) o p h =
    (let start = same-start lo hi b c bs cs o p h in
      let len = same-len lo hi b c bs cs o p h start in
      let tails : bs ≡ cs =
        holds_unique (b.addr + b.len + 1) hi bs cs o.3
          (InOrder-lower (c.addr + c.len + 1) (b.addr + b.len + 1) hi cs (omega (arith, start, len))
            p.3)
          (same-tails lo hi b c bs cs o p h start len) in
      λ i. block (start i) (len i) ∷ tails i)
