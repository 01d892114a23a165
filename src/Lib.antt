-- ===== src/Lib.antt =====
-- Karmevo ERP, the platform of its backend (backend/src/erp): a catalogue of modules with their
-- dependencies, the modules that each tenant has enabled, the tenant that a request acts in with the
-- token that it bears and the guards that it passes, the pools of connections to tenant databases,
-- how these databases are created and migrated, and what they hold: companies, audit events and a
-- transactional outbox.
--
-- - Prelude: Boolean tests, keys with decidable equality, lists, sorting, Python's dicts in
--   insertion order, results that are returned or raised, ascending lists, and the start of a text.
-- - Core/Modules: backend/src/erp/core/modules.py. `construct` is `ModuleCatalog.__init__`, the
--   functions of the class keep their names. A set is the list of its elements. `_topological_order`
--   runs on the number of modules as fuel, since each round that goes on removes one, and the stack
--   of `dependencies` on the number of declared dependencies; the end of the fuel would raise an error
--   of its own.
-- - Core/Errors and Core/Controller: backend/src/erp/core/errors.py and controller.py. A handler is
--   a function to the response. Logging is not modelled.
-- - Core/Security: backend/src/erp/core/security.py and deps.py. PyJWT and the function that finds a
--   token's key are parameters, which may raise any error, and what PyJWT documents of the claims that
--   it returns is the record `IsJwt`.
-- - Core/Databases: backend/src/erp/core/db.py, from `SqlIdentifier` on. `{value!r}` is the value
--   between quotes, `int()` takes digits only, and a UUID is a number of 128 bits.
-- - Platform/Registry: the tables of backend/src/erp/modules/platform/registry_models.py, the
--   queries of registry_repository.py, the sessions of backend/src/erp/core/db.py and the policies of
--   rls.py. Identifiers are numbers, and times are numbers. A transaction returns the tables after
--   it, which are those before it if it raises.
-- - Platform/ModuleState: backend/src/erp/modules/platform/module_state.py, over the catalogue and
--   the registry.
-- - Platform/TenantContext: backend/src/erp/modules/platform/context.py. The order of text in the
--   database's collation is a parameter of the query that sorts by account number.
-- - Platform/Router: backend/src/erp/modules/platform/tenant_db.py. `for_tenant` takes the lock twice:
--   `find_cached` and `install` are its two blocks. `pop_cached` and `clear_cache` are the blocks of
--   `evict` and `dispose_all`, which close pools after it. A pool of connections is known by a number,
--   and `TenantDbLocator.url` is a parameter.
-- - Platform/Servers and Platform/Provisioning: backend/src/erp/modules/platform/provisioning.py,
--   `TenantDatabaseAdmin` and `TenantMigrator` in the first and `TenantProvisioner` in the second.
--   The world is the registry and the databases of the servers. `Outside` says which statements fail
--   and which revision Alembic reaches; a statement that fails has no other effect, the registry's
--   own statements do not fail, and two keys of servers are two servers.
-- - Platform/Companies: `CompanyRepository` (repository.py), `CompanyService` (service.py) and
--   `CompanyController` (controller.py), over the tables of models.py. The order of UUIDs is that of
--   their numbers, which is PostgreSQL's.
-- - Platform/Audit: backend/src/erp/modules/platform/audit.py. The details are a tree of mappings,
--   lists and other values, of any type; `lower` is Python's `str.lower`.
-- - Platform/Requests: backend/src/erp/modules/platform/dependencies.py, over Core/Security,
--   Platform/TenantContext and Platform/ModuleState. A request is the headers that they read.
-- - Application: backend/src/erp/app.py. The routers are the controllers with their guards, over
--   Platform/Requests.
-- - Cli: backend/src/erp/cli.py, over Platform/Provisioning and Platform/ModuleState. argparse makes
--   the command; what is printed and the exit code are a value.
-- - Migrations: backend/migrations and backend/src/erp/core/migrations.py. Each revision is two lists
--   of statements, which are data; Migrations/Catalogue and Execution say what a statement does to
--   the catalogue of a database, as SQL has it, and Migrations/Roles that it is an error to name a role
--   that the server lacks; a run stops at the first error. The roles are made by
--   deploy/postgres/init/01-roles.sql, and the migrating role may do all that the
--   statements need. Column types, defaults and the conditions of CHECK are kept and not interpreted.
-- - Integration/Outbox: backend/src/erp/modules/integration (models.py, repository.py, outbox.py).
--   `OutboxRelay._dispatch` is `dispatch`, and `EventInbox.consume_once` is `consume_once`. The
--   publisher is a parameter, which may return or raise on each message.
-- - Integration/Relay: `TenantOutboxRelay` of outbox.py, over the calls for one tenant as parameters.
-- - Examples: tests and concrete inputs.
--
-- Not modelled: FastAPI's routing and validation, settings, the engine and pools of SQLAlchemy, the
-- configuration of Alembic, `JwksKeyResolver`, and rounding of money.
pub mod Prelude
pub mod Core
pub mod Platform
pub mod Integration
pub mod Migrations
pub mod Application
pub mod Cli
pub mod Examples
