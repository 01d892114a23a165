-- ===== src/Migrations/RegistryTree.antt =====
-- backend/migrations/registry/versions: what each revision of the registry database executes.
use karmevo_erp.Migrations.Builders.{
  column, with_default, uuid, timestamp, created_at, reference_to, table_ref, registry_tenant_id,
  tenant_policy, identity_read_policy,
}
use karmevo_erp.Migrations.Catalogue.{
  Statement, create_schema, drop_schema_cascade, grant_usage, alter_default_privileges,
  create_table, drop_table, grant_on, revoke_on, Grant, select_rows, insert_rows, update_rows,
  varchar, boolean_type, primary_key, unique_key, check,
}
use karmevo_erp.Prelude.{String, List, [], ◌∷◌, ◌++◌, true, false, Option, none, some}

-- A revision: its name, the one before it, and its two functions.
pub record Revision : Type 0 where
  pub revision : String
  pub down_revision : Option String
  pub upgrade : List Statement
  pub downgrade : List Statement

abbrev pub read_write : Grant
read_write = record { role = "erp_app"; privileges = select_rows ∷ insert_rows ∷ update_rows ∷ [] }

abbrev pub write : Grant
write = record { role = "erp_app"; privileges = insert_rows ∷ update_rows ∷ [] }

unfoldable pub r0001 : Revision
r0001 = record {
  revision = "r0001";
  down_revision = none;
  upgrade =
      create_schema "registry"
      ∷ grant_usage "registry" "erp_app"
      ∷ alter_default_privileges "registry" read_write
      ∷ [];
  downgrade = drop_schema_cascade "registry" ∷ [];
}

unfoldable pub create_tenants : Statement
unfolding uuid created_at
create_tenants =
    create_table (table_ref "registry" "Tenants")
      (uuid "tenantId"
        ∷ column "accountNumber" (varchar 32) false
        ∷ column "tenantName" (varchar 200) false
        ∷ with_default "tenantStatus" (varchar 16) "active"
        ∷ with_default "databaseServer" (varchar 64) "default"
        ∷ column "databaseName" (varchar 63) false
        ∷ with_default "databaseStatus" (varchar 16) "provisioning"
        ∷ column "schemaRevision" (varchar 32) true
        ∷ column "lastMigrationError" (varchar 1000) true
        ∷ created_at
        ∷ [])
      (primary_key ("tenantId" ∷ []) "pk_Tenants"
        ∷ unique_key ("accountNumber" ∷ []) "uq_Tenants_accountNumber"
        ∷ unique_key ("databaseName" ∷ []) "uq_Tenants_databaseName"
        ∷ check "\"tenantStatus\" in ('active', 'suspended')" "ck_Tenants_tenantStatus"
        ∷ check "\"databaseStatus\" in ('provisioning', 'ready', 'failed')"
            "ck_Tenants_databaseStatus"
        ∷ [])

unfoldable pub create_identities : Statement
unfolding uuid created_at
create_identities =
    create_table (table_ref "registry" "Identities")
      (uuid "identityId"
        ∷ column "issuer" (varchar 500) false
        ∷ column "subject" (varchar 255) false
        ∷ created_at
        ∷ [])
      (primary_key ("identityId" ∷ []) "pk_Identities"
        ∷ unique_key ("issuer" ∷ "subject" ∷ []) "uq_Identities_issuer_subject"
        ∷ [])

unfoldable pub create_memberships : Statement
unfolding uuid created_at registry_tenant_id
create_memberships =
    create_table (table_ref "registry" "Memberships")
      (uuid "membershipId"
        ∷ registry_tenant_id "Memberships"
        ∷ reference_to "identityId" "fk_Memberships_identityId_Identities"
            (table_ref "registry" "Identities") "identityId"
        ∷ with_default "membershipKind" (varchar 16) "staff"
        ∷ with_default "membershipStatus" (varchar 16) "active"
        ∷ created_at
        ∷ [])
      (primary_key ("membershipId" ∷ []) "pk_Memberships"
        ∷ unique_key ("tenantId" ∷ "membershipId" ∷ []) "uq_Memberships_tenantId_membershipId"
        ∷ unique_key ("tenantId" ∷ "identityId" ∷ "membershipKind" ∷ [])
            "uq_Memberships_tenantId_identityId_membershipKind"
        ∷ check "\"membershipKind\" in ('staff', 'buyer', 'service')"
            "ck_Memberships_membershipKind"
        ∷ check "\"membershipStatus\" in ('active', 'suspended')" "ck_Memberships_membershipStatus"
        ∷ [])

unfoldable pub r0002 : Revision
unfolding create_tenants create_identities create_memberships tenant_policy identity_read_policy
r0002 = record {
  revision = "r0002";
  down_revision = some "r0001";
  upgrade =
      create_tenants
        ∷ create_identities
        ∷ create_memberships
        ∷ tenant_policy "registry" "Memberships"
      ++ identity_read_policy "registry" "Memberships" ∷ [];
  downgrade =
      drop_table (table_ref "registry" "Memberships")
      ∷ drop_table (table_ref "registry" "Identities")
      ∷ drop_table (table_ref "registry" "Tenants")
      ∷ [];
}

unfoldable pub create_tenant_modules : Statement
unfolding timestamp registry_tenant_id
create_tenant_modules =
    create_table (table_ref "registry" "TenantModules")
      (registry_tenant_id "TenantModules"
        ∷ column "moduleKey" (varchar 64) false
        ∷ column "isEnabled" boolean_type false
        ∷ timestamp "changedAt"
        ∷ [])
      (primary_key ("tenantId" ∷ "moduleKey" ∷ []) "pk_TenantModules" ∷ [])

unfoldable pub r0003 : Revision
unfolding create_tenant_modules tenant_policy
r0003 = record {
  revision = "r0003";
  down_revision = some "r0002";
  upgrade = create_tenant_modules ∷ tenant_policy "registry" "TenantModules";
  downgrade = drop_table (table_ref "registry" "TenantModules") ∷ [];
}

unfoldable pub r0004 : Revision
r0004 = record {
  revision = "r0004";
  down_revision = some "r0003";
  upgrade = revoke_on (table_ref "registry" "Tenants") write ∷ [];
  downgrade = grant_on (table_ref "registry" "Tenants") write ∷ [];
}

abbrev pub registry_revisions : List Revision
registry_revisions = r0001 ∷ r0002 ∷ r0003 ∷ r0004 ∷ []
