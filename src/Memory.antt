-- ===== src/Memory.antt =====
-- src/memory: the pooled allocator.
pub mod SizeClass
pub mod Heap
pub mod FreeList
pub mod SpanList
pub mod PageMap
pub mod ObjectPool
pub mod PageCache
pub mod CentralCache
pub mod ThreadCache
