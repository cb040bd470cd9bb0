-- ===== src/Contracts.antt =====
-- src/shelfwise_contracts: the events that the program's parts exchange.
mod Tests
pub mod Json
pub mod Events
