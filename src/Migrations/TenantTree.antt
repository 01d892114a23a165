-- ===== src/Migrations/TenantTree.antt =====
-- backend/migrations/tenant/versions: what each revision of a tenant database executes.
use karmevo_erp.Migrations.Builders.{
  column, with_default, uuid, timestamp, created_at, table_ref, owner_tenant_id, tenant_policy,
}
use karmevo_erp.Migrations.Catalogue.{
  Statement, create_schema, drop_schema_cascade, grant_usage, alter_default_privileges,
  create_table, drop_table, grant_on, revoke_on, create_policy, create_index, drop_index,
  select_rows, update_rows, varchar, boolean_type, uuid_type, integer_type, text_type, jsonb_type,
  timestamptz_type, primary_key, unique_key, check, foreign_key, for_all, always,
}
use karmevo_erp.Migrations.RegistryTree.{Revision, read_write, write}
use karmevo_erp.Prelude.{String, List, [], ◌∷◌, ◌++◌, true, false, none, some, reverse}

-- The statements of each element, one after another.
abbrev pub for_each : {A : Type 0} → (A → List Statement) → List A → List Statement
for_each f [] = []
for_each f (x ∷ xs) = f x ++ for_each f xs

abbrev pub schemas : List String
schemas = "platform" ∷ "integration" ∷ []

abbrev pub open_schema : String → List Statement
open_schema schema =
    create_schema schema
    ∷ grant_usage schema "erp_app"
    ∷ alter_default_privileges schema read_write
    ∷ []

unfoldable pub create_database_owners : Statement
create_database_owners =
    create_table (table_ref "platform" "DatabaseOwners")
      (with_default "isSingleton" boolean_type "true" ∷ column "tenantId" uuid_type false ∷ [])
      (primary_key ("isSingleton" ∷ []) "pk_DatabaseOwners"
        ∷ unique_key ("tenantId" ∷ []) "uq_DatabaseOwners_tenantId"
        ∷ check "\"isSingleton\"" "ck_DatabaseOwners_isSingleton"
        ∷ [])

unfoldable pub t0001 : Revision
unfolding create_database_owners
t0001 = record {
  revision = "t0001";
  down_revision = none;
  upgrade =
      for_each open_schema schemas
      ++ grant_usage "integration" "erp_relay"
        ∷ create_database_owners
        ∷ revoke_on (table_ref "platform" "DatabaseOwners") write
        ∷ [];
  downgrade = for_each (λ schema. drop_schema_cascade schema ∷ []) (reverse schemas);
}

unfoldable pub create_companies : Statement
unfolding uuid created_at owner_tenant_id
create_companies =
    create_table (table_ref "platform" "Companies")
      (uuid "companyId"
        ∷ owner_tenant_id "Companies"
        ∷ column "companyName" (varchar 200) false
        ∷ column "countryCode" (varchar 2) false
        ∷ column "baseCurrency" (varchar 3) false
        ∷ column "timeZone" (varchar 64) false
        ∷ created_at
        ∷ [])
      (primary_key ("companyId" ∷ []) "pk_Companies"
        ∷ unique_key ("tenantId" ∷ "companyId" ∷ []) "uq_Companies_tenantId_companyId"
        ∷ [])

unfoldable pub create_branches : Statement
unfolding uuid created_at owner_tenant_id
create_branches =
    create_table (table_ref "platform" "Branches")
      (uuid "branchId"
        ∷ owner_tenant_id "Branches"
        ∷ column "companyId" uuid_type false
        ∷ column "branchCode" (varchar 32) false
        ∷ column "branchName" (varchar 200) false
        ∷ created_at
        ∷ [])
      (primary_key ("branchId" ∷ []) "pk_Branches"
        ∷ unique_key ("tenantId" ∷ "branchId" ∷ []) "uq_Branches_tenantId_branchId"
        ∷ unique_key ("tenantId" ∷ "companyId" ∷ "branchCode" ∷ [])
            "uq_Branches_tenantId_companyId_branchCode"
        ∷ foreign_key (record {
          name = "fk_Branches_tenantId_companyId_Companies";
          columns = "tenantId" ∷ "companyId" ∷ [];
          target = table_ref "platform" "Companies";
          target_columns = "tenantId" ∷ "companyId" ∷ [];
        })
        ∷ [])

unfoldable pub t0002 : Revision
unfolding create_companies create_branches tenant_policy
t0002 = record {
  revision = "t0002";
  down_revision = some "t0001";
  upgrade =
      create_companies
      ∷ create_branches
      ∷ for_each (tenant_policy "platform") ("Companies" ∷ "Branches" ∷ []);
  downgrade =
      drop_table (table_ref "platform" "Branches")
      ∷ drop_table (table_ref "platform" "Companies")
      ∷ [];
}

unfoldable pub create_audit_events : Statement
unfolding uuid timestamp owner_tenant_id
create_audit_events =
    create_table (table_ref "platform" "AuditEvents")
      (uuid "auditEventId"
        ∷ owner_tenant_id "AuditEvents"
        ∷ timestamp "occurredAt"
        ∷ column "actorIdentityId" uuid_type true
        ∷ column "auditAction" (varchar 100) false
        ∷ column "targetType" (varchar 100) false
        ∷ column "targetId" (varchar 100) true
        ∷ column "auditOutcome" (varchar 16) false
        ∷ column "auditReason" text_type true
        ∷ with_default "auditDetails" jsonb_type "'{}'::jsonb"
        ∷ [])
      (primary_key ("auditEventId" ∷ []) "pk_AuditEvents"
        ∷ unique_key ("tenantId" ∷ "auditEventId" ∷ []) "uq_AuditEvents_tenantId_auditEventId"
        ∷ check "\"auditOutcome\" in ('success', 'denied', 'failure')" "ck_AuditEvents_auditOutcome"
        ∷ [])

unfoldable pub t0003 : Revision
unfolding create_audit_events tenant_policy
t0003 = record {
  revision = "t0003";
  down_revision = some "t0002";
  upgrade =
      create_audit_events ∷ tenant_policy "platform" "AuditEvents"
      ++ revoke_on (table_ref "platform" "AuditEvents")
          (record { role = "erp_app"; privileges = update_rows ∷ [] })
        ∷ [];
  downgrade = drop_table (table_ref "platform" "AuditEvents") ∷ [];
}

unfoldable pub create_outbox_events : Statement
unfolding uuid timestamp owner_tenant_id
create_outbox_events =
    create_table (table_ref "integration" "OutboxEvents")
      (uuid "outboxEventId"
        ∷ owner_tenant_id "OutboxEvents"
        ∷ column "eventTopic" (varchar 200) false
        ∷ column "eventPayload" jsonb_type false
        ∷ timestamp "occurredAt"
        ∷ column "dispatchedAt" timestamptz_type true
        ∷ with_default "attemptCount" integer_type "0"
        ∷ column "lastError" (varchar 500) true
        ∷ [])
      (primary_key ("outboxEventId" ∷ []) "pk_OutboxEvents"
        ∷ unique_key ("tenantId" ∷ "outboxEventId" ∷ []) "uq_OutboxEvents_tenantId_outboxEventId"
        ∷ [])

unfoldable pub create_processed_events : Statement
unfolding timestamp owner_tenant_id
create_processed_events =
    create_table (table_ref "integration" "ProcessedEvents")
      (column "consumerName" (varchar 100) false
        ∷ column "eventId" uuid_type false
        ∷ owner_tenant_id "ProcessedEvents"
        ∷ timestamp "processedAt"
        ∷ [])
      (primary_key ("consumerName" ∷ "eventId" ∷ []) "pk_ProcessedEvents" ∷ [])

unfoldable pub t0004 : Revision
unfolding create_outbox_events create_processed_events tenant_policy
t0004 = record {
  revision = "t0004";
  down_revision = some "t0003";
  upgrade =
      create_outbox_events
        ∷ create_index (table_ref "integration" "OutboxEvents") (record {
          name = "ix_OutboxEvents_pending";
          columns = "occurredAt" ∷ [];
          condition = some "\"dispatchedAt\" IS NULL";
        })
        ∷ create_processed_events
        ∷ for_each (tenant_policy "integration") ("OutboxEvents" ∷ "ProcessedEvents" ∷ [])
      ++ grant_on (table_ref "integration" "OutboxEvents")
          (record { role = "erp_relay"; privileges = select_rows ∷ update_rows ∷ [] })
        ∷ create_policy (table_ref "integration" "OutboxEvents") (record {
          name = "relayDispatch";
          command = for_all;
          to_role = some "erp_relay";
          using = always;
          with_check = some always;
        })
        ∷ [];
  downgrade =
      drop_table (table_ref "integration" "ProcessedEvents")
      ∷ drop_index (table_ref "integration" "OutboxEvents") "ix_OutboxEvents_pending"
      ∷ drop_table (table_ref "integration" "OutboxEvents")
      ∷ [];
}

abbrev pub tenant_revisions : List Revision
tenant_revisions = t0001 ∷ t0002 ∷ t0003 ∷ t0004 ∷ []
