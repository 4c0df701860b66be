-- ===== src/Mm.antt =====
-- os/mm: physical frames, page tables and the heap.
pub mod Pmm
pub mod Vmm
pub mod Heap
