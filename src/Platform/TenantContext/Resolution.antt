-- ===== src/Platform/TenantContext/Resolution.antt =====
-- What a resolved request may count on.
use karmevo_erp.Platform.Registry.{Uuid, Registry, Tenant, Identity, Membership, platform_session}
use karmevo_erp.Platform.TenantContext.{
  VerifiedToken, RequestContext, ActiveMembership, find_id, is_active_tenant, is_staff,
  is_active_membership, is_visible, row, is_row, joined, find_tenant, choose, active_staff_tenants,
  active_memberships, resolve,
}
use karmevo_erp.Prelude.{
  String, Bool, true, ◌&&◌, List, [], ◌∷◌, map, Option, none, some, ◌≡◌, refl, arith, ◌==◌,
  string_key, nat_key, keep, find_first, All, Any, All-map, All-append, All-keep, All-keep_test,
  All-both, All-sort_by, All-Any, Any-map, find_first-All, Option-cases, Bool-cases, inl, inr,
  subst, ap, ◌∙◌, ok, >>=-eq-ok, ok-injective, some-eq,
}

-- The identity has a staff membership, which is active, in an active tenant.
pub record HasAccess (db : Registry) (identity_id membership_id tenant_id : Uuid) : Type 0 where
  pub member :
      Any
        (λ (m : Membership).
          (m.membership_id ≡ membership_id)
          × (m.identity_id ≡ identity_id)
          × (m.tenant_id ≡ tenant_id)
          × (is_staff m.membership_kind ≡ true)
          × (is_active_membership m.membership_status ≡ true))
        db.memberships
  pub tenant :
      Any
        (λ (t : Tenant). (t.tenant_id ≡ tenant_id) × (is_active_tenant t.tenant_status ≡ true))
        db.tenants

-- The identity of a token is one of the table.
abbrev pub IsIdentity : Registry → VerifiedToken → Uuid → Type 0
IsIdentity db token identity_id =
    Any
      (λ (i : Identity).
        (i.issuer ≡ token.issuer) × (i.subject ≡ token.subject) × (i.identity_id ≡ identity_id))
      db.identities

module _ (db : Registry) (identity_id : Uuid) where
  abbrev IsAllowed : ActiveMembership → Type 0
  IsAllowed a = HasAccess db identity_id a.membership_id a.tenant.tenant_id

  row-HasAccess :
      (m : Membership) (t : Tenant)
      → Any (λ x. x ≡ m) db.memberships
      → Any (λ x. x ≡ t) db.tenants
      → is_row (platform_session (some identity_id)) m t ≡ true
      → IsAllowed (row m t)
  unfolding is_row is_visible
  row-HasAccess m t there here h = record {
    member =
        Any-map _ _ db.memberships
          (λ x e.
            rw e (refl, ground (arith, h), ground (arith, h), ground (arith, h), ground (arith, h)))
          there;
    tenant = Any-map _ _ db.tenants (λ x e. rw e (refl, ground (arith, h))) here;
  }

  joined-HasAccess :
      (ms : List Membership)
      → All (λ m. Any (λ x. x ≡ m) db.memberships) ms
      → All IsAllowed (joined (platform_session (some identity_id)) db.tenants ms)
  unfolding joined
  joined-HasAccess [] h = tt
  joined-HasAccess (m ∷ ms) (there, h) =
      All-append IsAllowed
        (map (row m) (keep (is_row (platform_session (some identity_id)) m) db.tenants)) _
        (mapped m (keep (is_row (platform_session (some identity_id)) m) db.tenants) (
          All-map _ _ (keep (is_row (platform_session (some identity_id)) m) db.tenants)
            (λ t (here, fits). row-HasAccess m t there here fits)
            (All-both _ _ (keep (is_row (platform_session (some identity_id)) m) db.tenants)
              (All-keep _ (is_row (platform_session (some identity_id)) m) db.tenants
                (All-Any db.tenants))
              (All-keep_test (is_row (platform_session (some identity_id)) m) db.tenants))))
        (joined-HasAccess ms h)
    where
      mapped :
          (m : Membership) (ts : List Tenant)
          → All (λ t. IsAllowed (row m t)) ts
          → All IsAllowed (map (row m) ts)
      mapped m [] h = tt
      mapped m (t ∷ ts) (p, h) = (p, mapped m ts h)

-- What `_choose` returns is one of the memberships, the one of the tenant asked for.
abbrev pub Asked : Option Uuid → Uuid → Type 0
Asked none t = Unit
Asked (some requested) t = t ≡ requested

find_tenant-All :
    (P : ActiveMembership → Type 0) (requested : Uuid) (ms : List ActiveMembership)
    (a : ActiveMembership)
    → All P ms
    → find_tenant requested ms ≡ ok a
    → P a × (a.tenant.tenant_id ≡ requested)
unfolding find_tenant
find_tenant-All P requested [] a h e = cc
find_tenant-All P requested (m ∷ ms) a (p, h) e =
    elim (Bool-cases (m.tenant.tenant_id == requested)) [
      | inl same ↦
          subst (λ x. P x × (x.tenant.tenant_id ≡ requested)) (ok-injective (rw same at e))
            (p, ground (arith, same))
      | inr other ↦ find_tenant-All P requested ms a h (rw other at e)
    ]

choose-All :
    (P : ActiveMembership → Type 0) (requested : Option Uuid) (ms : List ActiveMembership)
    (a : ActiveMembership)
    → All P ms
    → choose ms requested ≡ ok a
    → P a × Asked requested a.tenant.tenant_id
unfolding choose
choose-All P (some requested) ms a h e = find_tenant-All P requested ms a h e
choose-All P none [] a h e = cc
choose-All P none (m ∷ []) a (p, h) e = (subst P (ok-injective e) p, tt)
choose-All P none (m ∷ n ∷ ms) a h e = cc

module _ (before : String → String → Bool) (token : VerifiedToken) (db : Registry) where
  find_id-IsIdentity :
      (identity_id : Uuid)
      → find_id token.issuer token.subject db ≡ some identity_id
      → IsIdentity db token identity_id
  unfolding find_id
  find_id-IsIdentity identity_id e =
      elim (Option-cases (
        find_first (λ (i : Identity). i.issuer == token.issuer && i.subject == token.subject)
          db.identities)) [
            | inl absent ↦ absurd (ground (arith, absent, e))
            | inr (i, found) ↦
                let (there, fits) =
                  find_first-All (λ (x : Identity). Any (λ y. y ≡ x) db.identities)
                    (λ (x : Identity). x.issuer == token.issuer && x.subject == token.subject)
                    db.identities (All-Any db.identities) found in
                let same : i.identity_id ≡ identity_id = some-eq (rw (found, find_id) at e) in
                Any-map _ _ db.identities
                  (λ x eq. rw eq (ground (arith, fits), ground (arith, fits), same)) there
          ]

  active_memberships-eq-ok :
      (identity_id : Uuid) (ms : List ActiveMembership)
      → active_memberships before token db ≡ ok (identity_id, ms)
      → (find_id token.issuer token.subject db ≡ some identity_id)
        × (active_staff_tenants before (platform_session (some identity_id)) db ≡ ms)
  unfolding active_memberships
  active_memberships-eq-ok identity_id ms e =
      elim (Option-cases (find_id token.issuer token.subject db)) [
        | inl absent ↦ absurd (ground (arith, absent, e))
        | inr (found_id, found) ↦
            let both = ok-injective (rw (found, active_memberships) at e) in
            let same : found_id ≡ identity_id = ap (λ p. p.0) both in
            (found ∙ ap (λ i. some i) same, ground (arith, same, ap (λ p. p.1) both))
      ]

  active_staff_tenants-HasAccess :
      (identity_id : Uuid)
      → All
          (IsAllowed db identity_id)
          (active_staff_tenants before (platform_session (some identity_id)) db)
  unfolding active_staff_tenants
  active_staff_tenants-HasAccess identity_id =
      All-sort_by _ _ (joined (platform_session (some identity_id)) db.tenants db.memberships)
        (joined-HasAccess db identity_id db.memberships (All-Any db.memberships))

  -- A request that is resolved acts in an active tenant in which the identity of its token has an
  -- active staff membership, the one that is returned; if it asks for a tenant, it is that tenant.
  pub resolve_lem :
      (requested : Option Uuid) (c : RequestContext)
      → resolve before token requested db ≡ ok c
      → IsIdentity db token c.identity_id
        × HasAccess db c.identity_id c.membership_id c.tenant_id
        × Asked requested c.tenant_id
  unfolding resolve
  resolve_lem requested c e =
      let ((identity_id, ms), read, rest) = >>=-eq-ok (active_memberships before token db) _ e in
      let (a, chosen, made) = >>=-eq-ok (choose ms requested) _ rest in
      let (found, same) = active_memberships-eq-ok identity_id ms read in
      let (access, asked) =
        choose-All (IsAllowed db identity_id) requested ms a
          (subst (All (IsAllowed db identity_id)) same (active_staff_tenants-HasAccess identity_id))
          chosen in
      subst
        (λ (c : RequestContext).
          IsIdentity db token c.identity_id
          × HasAccess db c.identity_id c.membership_id c.tenant_id
          × Asked requested c.tenant_id)
        (ok-injective made) (find_id-IsIdentity identity_id found, access, asked)
