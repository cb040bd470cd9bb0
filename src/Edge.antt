-- ===== src/Edge.antt =====
-- src/shelfwise_edge: provisioned edge devices and their signed batches.
mod Tests
pub mod Registry
