-- ===== src/Alloc.antt =====
-- src/mm/alloc.c and inc/mm/alloc.h: the allocator of low memory.
-- `Heap` is what `_first_block` leads to: the entries of the blocks of the chain, one block after
-- another, so that `while(block)` with `for(i)` inside is one walk over the list; a pointer to an
-- entry is its index there. Addresses and sizes are `uint32_t`.
pub mod Entries
pub mod Find
pub mod Free
pub mod Cover
pub mod Slots
pub mod Carve
pub mod Fit
pub mod Choose
pub mod Request
pub mod Grow
pub mod Valid
pub mod Progress
pub mod Release
pub mod Near
pub mod Behind
pub mod Freed
pub mod Merged
mod Tests
