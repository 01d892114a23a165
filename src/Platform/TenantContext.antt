-- ===== src/Platform/TenantContext.antt =====
-- backend/src/erp/modules/platform/context.py: the tenant that a request acts in, chosen from the
-- memberships of the identity of its token. `before` is the order of text in the database's
-- collation, by which `active_staff_tenants` sorts the account numbers.
pub mod Resolution
pub use karmevo_erp.Core.Security.{VerifiedToken}
use karmevo_erp.Core.Errors.{ErrorClass, base_error, forbidden_error, error_of, error_with}
use karmevo_erp.Platform.Registry.{
  Uuid, Registry, Tenant, Identity, Membership, TenantStatus, MembershipKind, MembershipStatus,
  active, suspended, staff, buyer, service, Failure, domain, Context, platform_session, is_context,
}
use karmevo_erp.Prelude.{
  ℕ, String, Bool, true, false, ◌&&◌, ◌||◌, List, [], ◌∷◌, ◌++◌, map, Option, none, some,
  if◌then◌else◌, ◌==◌, string_key, nat_key, keep, find_first, sort_by, Result, ok, raise, ◌>>=◌,
}

pub record RequestContext : Type 0 where
  pub tenant_id : Uuid
  pub membership_id : Uuid
  pub identity_id : Uuid

pub record TenantChoice : Type 0 where
  pub tenant_id : Uuid
  pub account_number : String
  pub tenant_name : String

pub record ActiveMembership : Type 0 where
  pub membership_id : Uuid
  pub tenant : TenantChoice

abbrev pub tenant_selection_required_error : ErrorClass
tenant_selection_required_error = record base_error {
  status = 400;
  code = "TENANT_SELECTION_REQUIRED";
  title = "Tenant selection required";
}

-- `IdentityRepository.find_id`
unfoldable pub find_id : String → String → Registry → Option Uuid
find_id issuer subject db =
    elim (find_first (λ (i : Identity). i.issuer == issuer && i.subject == subject) db.identities) [
      | none ↦ none
      | some i ↦ some i.identity_id
    ]

abbrev pub is_active_tenant : TenantStatus → Bool
is_active_tenant active = true
is_active_tenant suspended = false

abbrev pub is_staff : MembershipKind → Bool
is_staff staff = true
is_staff buyer = false
is_staff service = false

abbrev pub is_active_membership : MembershipStatus → Bool
is_active_membership active = true
is_active_membership suspended = false

-- The policies "tenantIsolation" and "identitySelfRead" of "Memberships".
unfoldable pub is_visible : Context → Membership → Bool
is_visible ctx m = is_context ctx.tenant m.tenant_id || is_context ctx.identity m.identity_id

abbrev pub row : Membership → Tenant → ActiveMembership
row m t = record {
  membership_id = m.membership_id;
  tenant = record {
    tenant_id = t.tenant_id;
    account_number = t.account_number;
    tenant_name = t.tenant_name;
  };
}

-- The JOIN and the WHERE of `active_staff_tenants`.
unfoldable pub is_row : Context → Membership → Tenant → Bool
unfolding is_visible
is_row ctx m t =
    is_visible ctx m
    && t.tenant_id == m.tenant_id
    && is_staff m.membership_kind
    && is_active_membership m.membership_status
    && is_active_tenant t.tenant_status

unfoldable pub joined : Context → List Tenant → List Membership → List ActiveMembership
unfolding is_row
joined ctx tenants [] = []
joined ctx tenants (m ∷ ms) = map (row m) (keep (is_row ctx m) tenants) ++ joined ctx tenants ms

-- `_choose`
unfoldable pub find_tenant : Uuid → List ActiveMembership → Result Failure ActiveMembership
find_tenant requested [] = raise (
    domain (
      error_with forbidden_error "no active membership for the requested tenant"
        (some "TENANT_ACCESS_DENIED")))
find_tenant requested (m ∷ ms) =
    if m.tenant.tenant_id == requested then ok m else find_tenant requested ms

unfoldable pub choose : List ActiveMembership → Option Uuid → Result Failure ActiveMembership
choose memberships (some requested) = find_tenant requested memberships
choose [] none =
    raise (domain (error_with forbidden_error "no active membership" (some "TENANT_ACCESS_DENIED")))
choose (m ∷ []) none = ok m
choose (m ∷ n ∷ ms) none = raise (
    domain (error_of tenant_selection_required_error "select a tenant with the X-Tenant-Id header"))

module _ (before : String → String → Bool) where
  unfoldable pub active_staff_tenants : Context → Registry → List ActiveMembership
  active_staff_tenants ctx db =
      sort_by
        (λ (a : ActiveMembership) (b : ActiveMembership).
          before a.tenant.account_number b.tenant.account_number)
        (joined ctx db.tenants db.memberships)

  unfoldable pub active_memberships :
      VerifiedToken → Registry → Result Failure (Uuid × List ActiveMembership)
  active_memberships token db = elim (find_id token.issuer token.subject db) [
    | none ↦ raise (
        domain (
          error_with forbidden_error "identity is not provisioned"
            (some "IDENTITY_NOT_PROVISIONED")))
    | some identity_id ↦
        ok (identity_id, active_staff_tenants (platform_session (some identity_id)) db)
  ]

  unfoldable pub choices : VerifiedToken → Registry → Result Failure (List TenantChoice)
  choices token db = do
    (identity_id, memberships) ← active_memberships token db
    ok (map (λ m. m.tenant) memberships)

  unfoldable pub resolve : VerifiedToken → Option Uuid → Registry → Result Failure RequestContext
  resolve token requested db = do
    (identity_id, memberships) ← active_memberships token db
    chosen ← choose memberships requested
    ok (record {
      tenant_id = chosen.tenant.tenant_id;
      membership_id = chosen.membership_id;
      identity_id = identity_id;
    })
