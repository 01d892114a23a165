-- ===== src/Examples/TenantContext.antt =====
-- A person of two tenants, one of which is suspended.
use karmevo_erp.Platform.Registry.{Registry, active, suspended, ready, staff}
use karmevo_erp.Platform.TenantContext.{
  VerifiedToken, RequestContext, find_id, is_visible, is_row, joined, find_tenant, choose,
  active_staff_tenants, active_memberships, resolve,
}
use karmevo_erp.Platform.TenantContext.Resolution.{HasAccess, IsIdentity, Asked, resolve_lem}
use karmevo_erp.Prelude.{
  [], ◌∷◌, none, ◌≡◌, refl, ok, keep, find_first, sort_by, insert_by, string_dec, string_leb,
}
use native.Mathlib.Decide.{ℕ_discrete}

abbrev token : VerifiedToken
token = record { issuer = "idp"; subject = "ann" }

abbrev pub two_tenants : Registry
two_tenants = record {
  tenants =
      record {
        tenant_id = 7;
        account_number = "A-7";
        tenant_name = "Acme";
        tenant_status = active;
        database_server = "db1";
        database_name = "tenant_7";
        database_status = ready;
        schema_revision = none;
        last_migration_error = none;
      }
      ∷ record {
        tenant_id = 8;
        account_number = "A-8";
        tenant_name = "Bolt";
        tenant_status = suspended;
        database_server = "db1";
        database_name = "tenant_8";
        database_status = ready;
        schema_revision = none;
        last_migration_error = none;
      }
      ∷ [];
  identities = record { identity_id = 3; issuer = "idp"; subject = "ann" } ∷ [];
  memberships =
      record {
        membership_id = 1;
        tenant_id = 8;
        identity_id = 3;
        membership_kind = staff;
        membership_status = active;
      }
      ∷ record {
        membership_id = 2;
        tenant_id = 7;
        identity_id = 3;
        membership_kind = staff;
        membership_status = active;
      }
      ∷ [];
  tenant_modules = [];
}

abbrev pub resolved : RequestContext
resolved = record { tenant_id = 7; membership_id = 2; identity_id = 3 }

resolve_ann : resolve string_leb token none two_tenants ≡ ok resolved
unfolding resolve active_memberships active_staff_tenants choose find_tenant joined is_row
    is_visible find_id find_first keep sort_by insert_by string_dec ℕ_discrete
resolve_ann = refl

resolve_example : IsIdentity two_tenants token 3 × HasAccess two_tenants 3 2 7 × Asked none 7
resolve_example = resolve_lem string_leb token two_tenants none resolved resolve_ann
