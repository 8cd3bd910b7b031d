-- ===== src/Core.antt =====
-- core/: the runtime of the actors, one module for each part.
pub mod MessageId
pub mod Dedup
pub mod Inflight
pub mod Node
pub mod Clock
pub mod Timer
pub mod Handlers
pub mod Actor
pub mod Factory
