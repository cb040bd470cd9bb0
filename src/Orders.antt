-- ===== src/Orders.antt =====
-- src/shelfwise_backend/open_orders.py: orders on their way, as shipments are observed.
mod Tests
pub mod Shipments
pub mod Ledger
pub mod Postgres
