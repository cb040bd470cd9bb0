-- ===== src/Action.antt =====
-- src/shelfwise_action: the store of decisions that wait for a reviewer.
mod Tests
pub mod Store
pub mod Access
