-- ===== src/Memory.antt =====
-- The memory of a buffer: domains, the heap, and class pressio_memory.
pub mod Heap
pub mod Ops
pub mod Ownership
