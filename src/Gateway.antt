-- ===== src/Gateway.antt =====
-- src/shelfwise_backend/security/gateway.py: what keeps untrusted text and callers within bounds.
mod Tests
pub mod Spotlight
pub mod Throttle
