-- ===== src/Migrations/Protection.antt =====
-- Whose rows the roles of the application may see and write after the migrations.
use karmevo_erp.Migrations.Beside.{run_effects-beside_lem}
use karmevo_erp.Migrations.Builders.{
  uuid, created_at, timestamp, registry_tenant_id, owner_tenant_id, tenant_policy,
  identity_read_policy,
}
use karmevo_erp.Migrations.Catalogue.{
  Catalogue, Statement, SqlError, change_first, add_grant, remove_grant, defaults_of,
}
use karmevo_erp.Migrations.Execution.{
  take_effect, run_effects, add_schema, remove_schema, add_table, remove_table,
}
use karmevo_erp.Migrations.Frames.{IsApart, IsForeign, run_beside, beside}
use karmevo_erp.Migrations.RegistryTree.{
  registry_revisions, r0001, r0002, r0003, r0004, create_tenants, create_identities,
  create_memberships, create_tenant_modules,
}
use karmevo_erp.Migrations.Roles.{run, run-run_effects, names_only, AreRoles}
use karmevo_erp.Migrations.Runs.{
  upgrades, downgrades, empty, is_registry, is_of_tenant, all_within, all_within-AreWithin,
}
use karmevo_erp.Migrations.TenantTree.{
  tenant_revisions, t0001, t0002, t0003, t0004, create_database_owners, create_companies,
  create_branches, create_audit_events, create_outbox_events, create_processed_events,
}
use karmevo_erp.Migrations.Catalogue.{
  Table, Column, Policy, for_all, for_select, is_tenant, is_identity, always, Grant, Privilege,
  insert_rows, update_rows, delete_rows, is_in, same_place,
}
use karmevo_erp.Migrations.Builders.{table_ref}
use karmevo_erp.Prelude.{
  ℕ, zero, suc, String, Bool, true, false, not, ◌&&◌, ◌||◌, List, [], ◌∷◌, ◌++◌, none, some, ◌==◌,
  string_key, if◌then◌else◌, take, Result, ok, raise, ◌≡◌, refl, ◌∙◌, string_dec, any, contains,
  keep, All, All-map, All-append, ◌≤◌, arith,
}

-- What a role may do, by the grants of a table.
abbrev pub privileges_of : String → List Grant → List Privilege
privileges_of role [] = []
privileges_of role (g ∷ gs) =
    if g.role == role then g.privileges ++ privileges_of role gs else privileges_of role gs

abbrev pub may : String → Privilege → Table → Bool
may role privilege t = is_in privilege (privileges_of role t.grants)

-- A policy that shows and takes the rows of the context's tenant, for every command and role.
abbrev pub is_isolation : Policy → Bool
is_isolation p = elim p.command [
  | for_select ↦ false
  | for_all ↦ elim p.to_role [
    | some role ↦ false
    | none ↦ elim p.using [
      | always ↦ false
      | is_identity ↦ false
      | is_tenant ↦ elim p.with_check [
        | some is_tenant ↦ true
        | some always ↦ false
        | some is_identity ↦ false
        | none ↦ false
      ]
    ]
  ]
]

abbrev pub each_policy : (Policy → Bool) → List Policy → Bool
each_policy allowed [] = true
each_policy allowed (p ∷ ps) = allowed p && each_policy allowed ps

abbrev pub is_isolated : (is_exception : Policy → Bool) → Table → Bool
is_isolated is_exception t =
    t.rls_enabled
    && t.rls_forced
    && any is_isolation t.policies
    && each_policy (λ p. is_isolation p || is_exception p) t.policies

-- A policy for the relay alone.
abbrev pub is_relays : Policy → Bool
is_relays p = elim p.to_role [ none ↦ false | some role ↦ role == "erp_relay" ]

-- A policy to read what is the identity's.
abbrev pub is_self_read : Policy → Bool
is_self_read p = elim p.command [
  | for_all ↦ false
  | for_select ↦ elim p.using [ is_tenant ↦ false | is_identity ↦ true | always ↦ false ]
]

abbrev pub refers_to_owner : Column → Bool
refers_to_owner c = c.name == "tenantId" && not c.nullable && (elim c.reference [
  | none ↦ false
  | some fk ↦ same_place fk.target (table_ref "platform" "DatabaseOwners")
])

-- What a table of a tenant database has to have.
abbrev pub is_safe : Table → Bool
is_safe t =
    not (may "erp_app" delete_rows t)
    && (if same_place t.place (table_ref "platform" "DatabaseOwners")
        then not (may "erp_app" insert_rows t) && not (may "erp_app" update_rows t)
        else is_isolated is_relays t && any refers_to_owner t.columns)
    && (if same_place t.place (table_ref "platform" "AuditEvents")
        then not (may "erp_app" update_rows t)
        else true)
    && (if same_place t.place (table_ref "integration" "OutboxEvents")
        then not (may "erp_relay" insert_rows t) && not (may "erp_relay" delete_rows t)
        else (elim (privileges_of "erp_relay" t.grants) [ [] ↦ true | ◌∷◌ _ _ ↦ false ]))

-- What a table of the registry has to have, after the last revision.
abbrev pub is_safe_registry : Table → Bool
is_safe_registry t =
    not (may "erp_app" delete_rows t)
    && (if same_place t.place (table_ref "registry" "Tenants")
        then not (may "erp_app" insert_rows t) && not (may "erp_app" update_rows t)
        else if same_place t.place (table_ref "registry" "Identities")
        then true
        else is_isolated is_self_read t)

-- Of each table in one's schemas.
abbrev pub Protects : (String → Bool) → (Table → Bool) → Catalogue → Type 0
Protects owned safe c = All (λ (t : Table). owned t.place.schema ≡ true → safe t ≡ true) c.tables

abbrev all_safe : (Table → Bool) → List Table → Bool
all_safe safe [] = true
all_safe safe (t ∷ ts) = safe t && all_safe safe ts

abbrev is_protected : (Table → Bool) → Result SqlError Catalogue → Bool
is_protected safe (ok c) = all_safe safe c.tables
is_protected safe (raise e) = false

all_safe-All :
    (owned : String → Bool) (safe : Table → Bool) (ts : List Table)
    → all_safe safe ts ≡ true
    → All (λ (t : Table). owned t.place.schema ≡ true → safe t ≡ true) ts
all_safe-All owned safe [] h = tt
all_safe-All owned safe (t ∷ ts) h =
    (λ _. ground (arith, h), all_safe-All owned safe ts (ground (arith, h)))

protected_beside :
    (owned : String → Bool) (safe : Table → Bool) (d : Catalogue) (call : Result SqlError Catalogue)
    → IsApart owned d
    → is_protected safe call ≡ true
    → (c : Catalogue) × (run_beside d call ≡ ok c) × Protects owned safe c
protected_beside owned safe d (ok c) apart h = (
  beside c d,
  refl,
  All-append (λ (t : Table). owned t.place.schema ≡ true → safe t ≡ true) c.tables d.tables
      (all_safe-All owned safe c.tables h)
      (All-map (IsForeign owned) (λ (t : Table). owned t.place.schema ≡ true → safe t ≡ true)
        d.tables (λ t foreign is_own. absurd (ground (arith, foreign.0, is_own)))
        apart.tables_apart),
)
protected_beside owned safe d (raise e) apart h = absurd (cc h)

protected_run :
    (ss : List Statement) (owned : String → Bool) (safe : Table → Bool) (names roles : List String)
    (d : Catalogue)
    → AreRoles roles names
    → IsApart owned d
    → names_only names ss ≡ true
    → all_within owned ss ≡ true
    → is_protected safe (run_effects ss empty) ≡ true
    → (c : Catalogue) × (run roles ss d ≡ ok c) × Protects owned safe c
protected_run ss owned safe names roles d exist apart named within h =
    let (c, returned, safe_tables) = protected_beside owned safe d (run_effects ss empty) apart h in
    (
      c,
      run-run_effects roles names ss d exist named
          ∙ run_effects-beside_lem owned ss empty d apart (all_within-AreWithin owned ss within)
          ∙ returned,
      safe_tables,
    )

tenant_from_empty :
    (n : ℕ)
    → n ≤ 4
    → (names_only ("erp_app" ∷ "erp_relay" ∷ []) (upgrades (take n tenant_revisions)) ≡ true)
      × (all_within is_of_tenant (upgrades (take n tenant_revisions)) ≡ true)
      × (is_protected is_safe (run_effects (upgrades (take n tenant_revisions)) empty) ≡ true)
unfolding run_effects take_effect contains add_schema remove_schema add_table remove_table
    change_first add_grant remove_grant defaults_of upgrades downgrades uuid created_at timestamp
    tenant_policy string_dec any keep t0001 t0002 t0003 t0004 create_database_owners
    create_companies create_branches create_audit_events create_outbox_events
    create_processed_events owner_tenant_id
tenant_from_empty zero h = (refl, refl, refl)
tenant_from_empty (suc zero) h = (refl, refl, refl)
tenant_from_empty (suc (suc zero)) h = (refl, refl, refl)
tenant_from_empty (suc (suc (suc zero))) h = (refl, refl, refl)
tenant_from_empty (suc (suc (suc (suc zero)))) h = (refl, refl, refl)
tenant_from_empty (suc (suc (suc (suc (suc n))))) h = absurd (omega (arith, h))

registry_from_empty :
    (names_only ("erp_app" ∷ []) (upgrades registry_revisions) ≡ true)
    × (all_within is_registry (upgrades registry_revisions) ≡ true)
    × (is_protected is_safe_registry (run_effects (upgrades registry_revisions) empty) ≡ true)
unfolding run_effects take_effect contains add_schema remove_schema add_table remove_table
    change_first add_grant remove_grant defaults_of upgrades downgrades uuid created_at timestamp
    tenant_policy string_dec any keep r0001 r0002 r0003 r0004 create_tenants create_identities
    create_memberships create_tenant_modules registry_tenant_id identity_read_policy
registry_from_empty = (refl, refl, refl)

-- At each revision of a tenant database, reached where the roles "erp_app" and "erp_relay" exist, in any
-- database that has no schema "platform" or "integration" and no reference to one, each table of these
-- schemas is safe: the runtime role may not delete its rows; the row of "DatabaseOwners" it may only
-- read; every other table has a column that refers to that row and has row-level security enabled and
-- forced, with the tenant's policy and no other but the relay's own; "AuditEvents" the runtime role may
-- not change; and the relay has privileges on "OutboxEvents" alone, and may not insert or delete there.
pub tenant_upgrades-Protects :
    (roles : List String) (n : ℕ) (d : Catalogue)
    → contains "erp_app" roles ≡ true
    → contains "erp_relay" roles ≡ true
    → n ≤ 4
    → IsApart is_of_tenant d
    → (c : Catalogue) × (run roles (upgrades (take n tenant_revisions)) d ≡ ok c)
      × Protects is_of_tenant is_safe c
tenant_upgrades-Protects roles n d app relay h apart =
    let (named, within, safe_tables) = tenant_from_empty n h in
    protected_run (upgrades (take n tenant_revisions)) is_of_tenant is_safe
      ("erp_app" ∷ "erp_relay" ∷ []) roles d (app, (relay, tt)) apart named within safe_tables

-- After the registry's migrations, where the role "erp_app" exists, in any database that has no schema
-- "registry" and no reference to one, the runtime role may not delete from any of its tables and may
-- only read "Tenants"; and each table but "Tenants" and "Identities" has row-level security enabled and
-- forced, with the tenant's policy and no other but that an identity reads its own rows.
pub registry_upgrades-Protects :
    (roles : List String) (d : Catalogue)
    → contains "erp_app" roles ≡ true
    → IsApart is_registry d
    → (c : Catalogue) × (run roles (upgrades registry_revisions) d ≡ ok c)
      × Protects is_registry is_safe_registry c
registry_upgrades-Protects roles d app apart =
    let (named, within, safe_tables) = registry_from_empty in
    protected_run (upgrades registry_revisions) is_registry is_safe_registry ("erp_app" ∷ []) roles
      d (app, tt) apart named within safe_tables
