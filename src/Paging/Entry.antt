-- ===== src/Paging/Entry.antt =====
-- pd_t and pt_t as 32-bit words with bit fields.
use operating_systems_paging.Prelude.{ℕ, ◌+◌, ◌*◌, ◌/◌, ◌%◌, ◌^◌, ◌≡◌, arith}

-- The field of `width` bits from bit `lo`, and its assignment.
abbrev pub field : ℕ → ℕ → ℕ → ℕ
field lo width w = w / 2 ^ lo % 2 ^ width

abbrev pub set_field : ℕ → ℕ → ℕ → ℕ → ℕ
set_field lo width v w =
    w / 2 ^ (lo + width) * 2 ^ (lo + width) + v % 2 ^ width * 2 ^ lo + w % 2 ^ lo

-- the fields that the code reads or sets one at a time: pd_pres and pt_pres, ...
unfoldable pub pres : ℕ → ℕ
pres = field 0 1

unfoldable pub set_pres : ℕ → ℕ → ℕ
set_pres = set_field 0 1

unfoldable pub acc : ℕ → ℕ
acc = field 5 1

unfoldable pub set_acc : ℕ → ℕ → ℕ
set_acc = set_field 5 1

unfoldable pub dirty : ℕ → ℕ
dirty = field 6 1

unfoldable pub set_dirty : ℕ → ℕ → ℕ
set_dirty = set_field 6 1

unfoldable pub avail : ℕ → ℕ
avail = field 9 3

unfoldable pub set_avail : ℕ → ℕ → ℕ
set_avail = set_field 9 3

unfoldable pub base : ℕ → ℕ
base = field 12 20

unfoldable pub set_base : ℕ → ℕ → ℕ
set_base = set_field 12 20

-- set_PTE_addr() and set_PDE_addr(): the base is addr >> 12.
unfoldable pub set_addr : ℕ → ℕ → ℕ
unfolding set_base
set_addr addr w = set_base (addr / 2 ^ 12) w

-- pde2pdi() and pte2pti()
unfoldable pub pde2pdi : ℕ → ℕ
unfolding base
pde2pdi w = base w / 2 ^ 10 * 2 ^ 10 / 2 ^ 10

unfoldable pub pte2pti : ℕ → ℕ
unfolding base
pte2pti w = base w % 2 ^ 10

-- The assignments of newPageTable() to an entry of a page table; pt_base keeps its bits.
unfoldable pub blank_pte : ℕ → ℕ
unfolding set_pres set_acc set_dirty set_avail
blank_pte w = set_avail 0 (
    set_field 8 1 0 (
      set_field 7 1 0 (
        set_dirty 0 (
          set_acc 0 (
            set_field 4 1 0
              (set_field 3 1 0 (set_field 2 1 0 (set_field 1 1 1 (set_pres 0 w)))))))))

-- The assignments of setup_id_paging() before set_PTE_addr(); only pt_pres differs.
unfoldable pub identity_pte : ℕ → ℕ
unfolding set_pres set_acc set_dirty set_avail
identity_pte w = set_avail 0 (
    set_field 8 1 0 (
      set_field 7 1 0 (
        set_dirty 0 (
          set_acc 0 (
            set_field 4 1 0
              (set_field 3 1 0 (set_field 2 1 0 (set_field 1 1 1 (set_pres 1 w)))))))))

-- The first assignments of init_pd() to an entry of a page directory.
unfoldable pub blank_pde : ℕ → ℕ
unfolding set_pres set_acc set_avail set_base
blank_pde w = set_base 0 (
    set_avail 0 (
      set_field 8 1 0 (
        set_field 7 1 0 (
          set_field 6 1 0 (
            set_acc 0 (
              set_field 4 1 0
                (set_field 3 1 0 (set_field 2 1 0 (set_field 1 1 1 (set_pres 0 w))))))))))

-- The assignments of init_pd() to an entry that points at a global page table.
unfoldable pub global_pde : ℕ → ℕ → ℕ
unfolding set_pres set_addr
global_pde addr w = set_field 8 1 1 (set_pres 1 (set_field 1 1 1 (set_addr addr w)))

-- In any entry, setting the present bit reads back and leaves the base alone, and setting the address
-- puts its page number into the base and leaves the present bit alone.
pub entry_fields :
    (w addr : ℕ)
    → (pres (set_pres 1 w) ≡ 1)
      × (pres (set_pres 0 w) ≡ 0)
      × (base (set_pres 1 w) ≡ base w)
      × (base (set_pres 0 w) ≡ base w)
      × (base (set_addr addr w) ≡ addr / 2 ^ 12 % 2 ^ 20)
      × (pres (set_addr addr w) ≡ pres w)
unfolding pres set_pres base set_addr
entry_fields w addr = omega arith
