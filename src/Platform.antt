-- ===== src/Platform.antt =====
-- backend/src/erp/modules/platform
pub mod Registry
pub mod ModuleState
pub mod TenantContext
pub mod Requests
pub mod Companies
pub mod Audit
pub mod Router
pub mod Servers
pub mod Provisioning
