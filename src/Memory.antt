-- ===== src/Memory.antt =====
-- src/memory: the block heap, the byte operations on memory, and paging.
pub mod Heap
pub mod Raw
pub mod Kheap
pub mod Paging
