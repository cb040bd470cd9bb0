-- ===== src/Inventory.antt =====
-- src/shelfwise_inventory: positions of stock and the events that move them.
mod Tests
pub mod Positions
pub mod Projection
pub mod Application
pub mod Ledger
