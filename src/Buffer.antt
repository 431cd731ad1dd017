-- ===== src/Buffer.antt =====
-- internal/buffer/buffer.go: signals in a cache with two indices by time. Eviction is a callback that
-- the cache makes while it adds, deletes or expires entries.
pub mod Libraries
pub mod State
pub mod Split
pub mod Store
pub mod Query
pub mod Coherence
pub mod TraceData
pub mod Removal
pub mod TimeData
pub mod Spans
pub mod Readable
pub mod Locks
