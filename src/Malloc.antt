-- ===== src/Malloc.antt =====
-- The allocator of exercises/ex11/myMalloc.c: the free list, the operations and their tests.
pub mod FreeList
pub mod Heap
mod Tests
