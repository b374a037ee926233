-- ===== src/Paging.antt =====
-- Virtual addresses and the entries of page tables: include/paging.h and the conversion functions of
-- system/paging.c.
pub mod Address
pub mod Entry
