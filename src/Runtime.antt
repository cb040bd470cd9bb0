-- ===== src/Runtime.antt =====
-- src/shelfwise_runtime: the provenance vocabulary.
mod Tests
pub mod Provenance
