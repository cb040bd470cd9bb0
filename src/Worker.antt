-- ===== src/Worker.antt =====
-- src/shelfwise_backend/worker: the durable step journal and what runs over it.
mod Tests
pub mod Journal
pub mod Cascade
pub mod Plans
pub mod Compaction
