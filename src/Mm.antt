-- ===== src/Mm.antt =====
-- Physical memory and its page map: mm/memory.c, mm/swap.c and include/linux/mm.h.
-- The functions are in the children `State`, `FreePage`, `Init`, `Protect` and `Tables`.
pub mod State
pub mod Tables
pub mod FreePage
pub mod Init
pub mod Protect
