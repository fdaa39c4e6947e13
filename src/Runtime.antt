-- ===== src/Runtime.antt =====
-- packages/core/src/runtime.ts: caches, deduplication of work and limits on concurrency.
pub mod Lru
pub mod Limiter
pub mod InFlight
pub mod MapBounded
pub mod TtlCache
