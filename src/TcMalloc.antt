-- ===== src/TcMalloc.antt =====
-- TCmalloc/TCmallocSRC: a three-level memory allocator. Each child models one class of it.
pub mod ClassSize
pub mod Memory
pub mod FreeList
pub mod SpanList
pub mod Os
pub mod ObjectPool
pub mod State
pub mod PageCache
pub mod CentralCache
pub mod ThreadCache
pub mod Concurrent
mod Start
pub mod Sample
mod Tests
