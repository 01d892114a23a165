-- ===== src/Migrations.antt =====
-- backend/migrations, with backend/src/erp/core/migrations.py and rls.py: the schemas, tables, grants
-- and policies of the registry database and of a tenant database.
pub mod Catalogue
pub mod Execution
pub mod Roles
pub mod Builders
pub mod RegistryTree
pub mod TenantTree
pub mod Frames
pub mod Changes
pub mod Tables
pub mod Beside
pub mod Runs
pub mod RoundTrips
pub mod Protection
