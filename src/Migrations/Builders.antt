-- ===== src/Migrations/Builders.antt =====
-- backend/src/erp/core/migrations.py, `MigrationColumns`, and backend/src/erp/core/rls.py, `RlsSql`.
use Prim.Native.String.{◌++◌}
use karmevo_erp.Migrations.Catalogue.{
  Column, ColumnType, uuid_type, timestamptz_type, TableRef, for_all, for_select, is_tenant,
  is_identity, Statement, enable_rls, force_rls, create_policy,
}
use karmevo_erp.Prelude.{String, List, [], ◌∷◌, none, some, false, Bool}

-- `sa.Column(name, kind, nullable=…)`
abbrev pub column : String → ColumnType → Bool → Column
column name kind nullable = record {
  name = name;
  kind = kind;
  reference = none;
  nullable = nullable;
  server_default = none;
}

-- `sa.Column(name, kind, nullable=False, server_default=…)`
abbrev pub with_default : String → ColumnType → String → Column
with_default name kind server_default = record (column name kind false) {
  server_default = some server_default;
}

unfoldable pub uuid : String → Column
uuid name = with_default name uuid_type "uuidv7()"

unfoldable pub timestamp : String → Column
timestamp name = with_default name timestamptz_type "now()"

unfoldable pub created_at : Column
unfolding timestamp
created_at = timestamp "createdAt"

-- A column "tenantId" or the like that refers to a column of another table.
abbrev pub reference_to : String → (name : String) → TableRef → String → Column
reference_to column_name name target target_column = record (column column_name uuid_type false) {
  reference = some (record {
    name = name;
    columns = column_name ∷ [];
    target = target;
    target_columns = target_column ∷ [];
  });
}

-- `RlsSql.table_ref`
abbrev pub table_ref : String → String → TableRef
table_ref schema table = record { schema = schema; table = table }

unfoldable pub registry_tenant_id : String → Column
registry_tenant_id table =
    reference_to "tenantId" ("fk_" ++ (table ++ "_tenantId_Tenants"))
      (table_ref "registry" "Tenants") "tenantId"

unfoldable pub owner_tenant_id : String → Column
owner_tenant_id table =
    reference_to "tenantId" ("fk_" ++ (table ++ "_tenantId_DatabaseOwners"))
      (table_ref "platform" "DatabaseOwners") "tenantId"

unfoldable pub tenant_policy : String → String → List Statement
tenant_policy schema table =
    enable_rls (table_ref schema table)
    ∷ force_rls (table_ref schema table)
    ∷ create_policy (table_ref schema table) (record {
      name = "tenantIsolation";
      command = for_all;
      to_role = none;
      using = is_tenant;
      with_check = some is_tenant;
    })
    ∷ []

unfoldable pub identity_read_policy : String → String → Statement
identity_read_policy schema table = create_policy (table_ref schema table) (record {
  name = "identitySelfRead";
  command = for_select;
  to_role = none;
  using = is_identity;
  with_check = none;
})
