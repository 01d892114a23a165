-- ===== src/Examples/Migrations.antt =====
-- A database with a schema and a table of someone else's.
use karmevo_erp.Migrations.Builders.{column, table_ref}
use karmevo_erp.Migrations.Catalogue.{
  Catalogue, grant_usage, undefined, new_table, uuid_type, primary_key,
}
use karmevo_erp.Migrations.Roles.{execute, run}
use karmevo_erp.Migrations.Frames.{IsApart}
use karmevo_erp.Migrations.Protection.{
  Protects, is_safe, is_safe_registry, tenant_upgrades-Protects, registry_upgrades-Protects,
}
use karmevo_erp.Migrations.RegistryTree.{registry_revisions}
use karmevo_erp.Migrations.Runs.{upgrades, is_registry, is_of_tenant}
use karmevo_erp.Migrations.TenantTree.{tenant_revisions}
use karmevo_erp.Prelude.{
  String, true, List, contains, string_key, [], ◌∷◌, ok, raise, take, false, refl, ◌≡◌, arith,
  string_dec,
}

-- deploy/postgres/init/01-roles.sql
abbrev server_roles : List String
server_roles = "erp_owner" ∷ "erp_app" ∷ "erp_relay" ∷ []

has_app : contains "erp_app" server_roles ≡ true
unfolding contains string_dec
has_app = refl

has_relay : contains "erp_relay" server_roles ≡ true
unfolding contains string_dec
has_relay = refl

abbrev others : Catalogue
others = record {
  schemas = record { name = "public"; usage = []; default_privileges = [] } ∷ [];
  tables =
      new_table [] (table_ref "public" "Notes") (column "noteId" uuid_type false ∷ [])
        (primary_key ("noteId" ∷ []) "pk_Notes" ∷ [])
      ∷ [];
}

no_role : run [] (grant_usage "public" "erp_app" ∷ []) others ≡ raise (undefined "erp_app")
unfolding run execute contains string_dec
no_role = refl

others-IsApart_registry : IsApart is_registry others
unfolding string_dec
others-IsApart_registry = record { schemas_apart = (refl, tt); tables_apart = ((refl, tt), tt) }

others-IsApart_tenant : IsApart is_of_tenant others
unfolding string_dec
others-IsApart_tenant = record { schemas_apart = (refl, tt); tables_apart = ((refl, tt), tt) }

tenant_upgrades-Protects_example :
    (c : Catalogue) × (run server_roles (upgrades (take 4 tenant_revisions)) others ≡ ok c)
    × Protects is_of_tenant is_safe c
tenant_upgrades-Protects_example =
    tenant_upgrades-Protects server_roles 4 others has_app has_relay (omega arith)
      others-IsApart_tenant

registry_upgrades-Protects_example :
    (c : Catalogue) × (run server_roles (upgrades registry_revisions) others ≡ ok c)
    × Protects is_registry is_safe_registry c
registry_upgrades-Protects_example =
    registry_upgrades-Protects server_roles others has_app others-IsApart_registry
