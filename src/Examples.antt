-- ===== src/Examples.antt =====
-- Concrete inputs: tests of the definitions, and each theorem at an input where it applies.
pub mod ModuleState
pub mod Outbox
pub mod Modules
pub mod TenantContext
pub mod Router
pub mod Provisioning
pub mod Companies
pub mod Audit
pub mod Migrations
pub mod Requests
