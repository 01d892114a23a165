-- ===== src/Integration.antt =====
-- backend/src/erp/modules/integration
pub mod Outbox
pub mod Relay
