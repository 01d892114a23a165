-- ===== src/Core.antt =====
-- backend/src/erp/core
pub mod Controller
pub mod Modules
pub mod Errors
pub mod Databases
pub mod Security
