-- ===== src/Platform/Provisioning/Upgrades.antt =====
-- One run of `upgrade_all`.
use karmevo_erp.Platform.Registry.{
  Uuid, Registry, Tenant, ready, failed, get_tenant, with_database_status, same_status,
}
use karmevo_erp.Platform.Servers.{Outside, Trouble, World}
use karmevo_erp.Platform.Servers.Commands.{Admin, admin_url}
use karmevo_erp.Platform.Servers.Keeping.{Keeps, Keeps-bind, Kept, Kept-trans}
use karmevo_erp.Platform.Servers.Frames.{Kept-IsFrame, admin_url_keeps, upgrade_keeps}
use karmevo_erp.Platform.Servers.Effects.{bind-eq-ok, upgrade-head}
use karmevo_erp.Platform.Provisioning.{
  MigrationOutcome, describe, record_state, upgrade_tenant, outcome_of, upgrade_each, upgrade_all,
}
use karmevo_erp.Platform.Provisioning.Completion.{recorded, get_tenant-record}
use karmevo_erp.Prelude.{
  ◌≤◌, String, false, List, [], ◌∷◌, map, Option, none, some, ◌≡◌, ◌≢◌, refl, arith, if◌then◌else◌,
  ◌==◌, nat_key, contains, count, count-pos, keep, find_first, All, All-map, All-keep, All-sort_by,
  All-Any, Any, Result, ok, raise, Bool-cases, inl, inr, ap, ◌∙◌,
}

abbrev tenant_ids : List Tenant → List Uuid
tenant_ids = map (λ (t : Tenant). t.tenant_id)

abbrev pub IsKnown : Registry → Tenant → Type 0
IsKnown db t = (x : Tenant) × (get_tenant db t.tenant_id ≡ some x)

module _ (out : Outside) (admin : Admin) (show : Uuid → String) where
  -- The registry says of a tenant what its outcome says.
  pub record Agrees (db : Registry) (o : MigrationOutcome) : Type 0 where
    pub row : Tenant
    pub found : get_tenant db o.tenant_id ≡ some row
    pub upgraded :
        o.error ≡ none
        → (row.database_status ≡ ready)
          × (row.schema_revision ≡ some out.head)
          × (o.revision ≡ some out.head)
          × (row.last_migration_error ≡ none)
    pub unchanged :
        (text : String)
        → o.error ≡ some text
        → (row.database_status ≡ failed)
          × (row.last_migration_error ≡ some text)
          × (o.revision ≡ none)

  upgrade_tenant-Kept : (tenant : Tenant) → Keeps Kept (upgrade_tenant out admin show tenant)
  unfolding upgrade_tenant
  upgrade_tenant-Kept tenant =
      Keeps-bind Kept Kept-trans (admin_url admin tenant.database_server tenant.database_name) _
        (admin_url_keeps Kept Kept-IsFrame out admin tenant.database_server tenant.database_name)
        (λ u. upgrade_keeps Kept Kept-IsFrame out tenant.database_server tenant.database_name)

  upgrade_tenant-head :
      (tenant : Tenant) (w : World) {r : Option String} {w' : World}
      → upgrade_tenant out admin show tenant w ≡ (ok r, w')
      → r ≡ some out.head
  unfolding upgrade_tenant
  upgrade_tenant-head tenant w h =
      let (u, w1, url_ok, rest) =
        bind-eq-ok (admin_url admin tenant.database_server tenant.database_name) _ w h in
      upgrade-head out admin tenant.database_server tenant.database_name w1 rest

  -- One round: only the row of the tenant changes, and it agrees with the outcome.
  pub record IsRound (tenant : Tenant) (w : World) (round : MigrationOutcome × World) : Type 0 where
    pub named : round.0.tenant_id ≡ tenant.tenant_id
    pub others :
        (id : Uuid)
        → id ≢ tenant.tenant_id
        → get_tenant round.1.registry id ≡ get_tenant w.registry id
    pub known : (t : Tenant) → IsKnown w.registry t → IsKnown round.1.registry t
    pub agrees : IsKnown w.registry tenant → Agrees round.1.registry round.0

  outcome_of-IsRound :
      (tenant : Tenant) (w : World) (r : Result Trouble (Option String) × World)
      → r.1.registry ≡ w.registry
      → ((v : Option String) → r.0 ≡ ok v → v ≡ some out.head)
      → IsRound tenant w (outcome_of out admin show tenant r)
  unfolding outcome_of record_state
  outcome_of-IsRound tenant w (ok v, w') same head = record {
    named = refl;
    others = λ id ne.
        ground (arith, ne, same, get_tenant-record id tenant.tenant_id ready v none w'.registry);
    known = λ t (x, there). (
      if t.tenant_id == tenant.tenant_id then recorded ready v none x else x,
      ground (
        arith,
        ap (λ db. get_tenant db t.tenant_id) same,
        there,
        get_tenant-record t.tenant_id tenant.tenant_id ready v none w'.registry,
      ),
    );
    agrees = λ (x, there). record {
      row = recorded ready v none x;
      found = ground (
        arith,
        ap (λ db. get_tenant db tenant.tenant_id) same,
        there,
        get_tenant-record tenant.tenant_id tenant.tenant_id ready v none w'.registry,
      );
      upgraded = λ e. (refl, ground (arith, head v refl), head v refl, refl);
      unchanged = λ text e. cc e;
    };
  }
  outcome_of-IsRound tenant w (raise exc, w') same head = record {
    named = refl;
    others = λ id ne. ground (
      arith,
      ne,
      same,
      get_tenant-record id tenant.tenant_id failed none (some (describe show exc)) w'.registry,
    );
    known = λ t (x, there). (
      if t.tenant_id == tenant.tenant_id
          then recorded failed none (some (describe show exc)) x
          else x,
      ground (
        arith,
        ap (λ db. get_tenant db t.tenant_id) same,
        there,
        get_tenant-record t.tenant_id tenant.tenant_id failed none (some (describe show exc))
            w'.registry,
      ),
    );
    agrees = λ (x, there). record {
      row = recorded failed none (some (describe show exc)) x;
      found = ground (
        arith,
        ap (λ db. get_tenant db tenant.tenant_id) same,
        there,
        get_tenant-record tenant.tenant_id tenant.tenant_id failed none (some (describe show exc))
            w'.registry,
      );
      upgraded = λ e. cc e;
      unchanged = λ text e. (refl, e, refl);
    };
  }

  round_lem :
      (tenant : Tenant) (w : World)
      → IsRound tenant w (outcome_of out admin show tenant (upgrade_tenant out admin show tenant w))
  round_lem tenant w =
      outcome_of-IsRound tenant w (upgrade_tenant out admin show tenant w)
        (upgrade_tenant-Kept tenant w).registry
        (λ v e.
          upgrade_tenant-head tenant w {w' = (upgrade_tenant out admin show tenant w).1}
            (λ i. (e i, (upgrade_tenant out admin show tenant w).1)))

  each_others :
      (tenants : List Tenant) (w : World) (id : Uuid)
      → contains id (tenant_ids tenants) ≡ false
      → get_tenant (upgrade_each out admin show tenants w).1.registry id ≡ get_tenant w.registry id
  unfolding upgrade_each contains
  each_others [] w id absent = refl
  each_others (t ∷ tenants) w id absent =
      let round = outcome_of out admin show t (upgrade_tenant out admin show t w) in
      each_others tenants round.1 id (ground (arith, absent))
      ∙ (round_lem t w).others id (ground (arith, absent))

  Agrees-later :
      (db db' : Registry) (o : MigrationOutcome)
      → get_tenant db' o.tenant_id ≡ get_tenant db o.tenant_id
      → Agrees db o
      → Agrees db' o
  Agrees-later db db' o same a = record {
    row = a.row;
    found = same ∙ a.found;
    upgraded = a.upgraded;
    unchanged = a.unchanged;
  }

  each-Agrees :
      (tenants : List Tenant) (w : World)
      → ((i : Uuid) → count i (tenant_ids tenants) ≤ 1)
      → All (IsKnown w.registry) tenants
      → (map (λ (o : MigrationOutcome). o.tenant_id) (upgrade_each out admin show tenants w).0
          ≡ tenant_ids tenants)
        × All
            (Agrees (upgrade_each out admin show tenants w).1.registry)
            (upgrade_each out admin show tenants w).0
  unfolding upgrade_each count
  each-Agrees [] w distinct known = (refl, tt)
  each-Agrees (t ∷ tenants) w distinct (k, known) =
      let round = outcome_of out admin show t (upgrade_tenant out admin show t w) in
      let step = round_lem t w in
      let (same, agree) =
        each-Agrees tenants round.1 (λ i. ground (arith, distinct i))
          (All-map (IsKnown w.registry) (IsKnown round.1.registry) tenants step.known known) in
      let alone : contains round.0.tenant_id (tenant_ids tenants) ≡ false =
        rw step.named (only_once t tenants (distinct t.tenant_id)) in
      (
        rw (step.named, same) refl,
        (
          Agrees-later round.1.registry (upgrade_each out admin show tenants round.1).1.registry
              round.0 (each_others tenants round.1 round.0.tenant_id alone) (step.agrees k),
          agree,
        ),
      )
    where
      only_once :
          (t : Tenant) (ts : List Tenant)
          → count t.tenant_id (tenant_ids (t ∷ ts)) ≤ 1
          → contains t.tenant_id (tenant_ids ts) ≡ false
      only_once t ts le = elim (Bool-cases (contains t.tenant_id (tenant_ids ts))) [
        | inl twice ↦
            absurd (ground (arith, le, count-pos {K = Uuid} t.tenant_id (tenant_ids ts) twice))
        | inr gone ↦ gone
      ]

known_in :
    (rows : List Tenant) (t : Tenant)
    → Any (λ x. x ≡ t) rows
    → (x : Tenant) × (find_first (λ (y : Tenant). y.tenant_id == t.tenant_id) rows ≡ some x)
unfolding find_first
known_in [] t h = absurd h
known_in (x ∷ rows) t (inl same) = (x, ground (arith, ap (λ (y : Tenant). y.tenant_id) same))
known_in (x ∷ rows) t (inr later) = elim (Bool-cases (x.tenant_id == t.tenant_id)) [
  | inl here ↦ (x, rw here)
  | inr other ↦ rw other (known_in rows t later)
]

module _ (out : Outside) (admin : Admin) (show : Uuid → String) (w : World) where
  ready-IsKnown : All (IsKnown w.registry) (with_database_status ready w.registry)
  unfolding with_database_status get_tenant
  ready-IsKnown =
      All-sort_by _ _
        (keep (λ (t : Tenant). same_status t.database_status ready) w.registry.tenants)
        (All-keep _ (λ (t : Tenant). same_status t.database_status ready) w.registry.tenants
          (All-map _ _ w.registry.tenants (known_in w.registry.tenants)
            (All-Any w.registry.tenants)))

  -- `upgrade_all` has an outcome for each ready tenant, in their order, also after others failed. If
  -- no id stands twice, the registry then says of each what its outcome says: ready at the head of the
  -- migrations, or failed with the text of the error. The rows of all other tenants are unchanged.
  pub upgrade_all_lem :
      ((i : Uuid)
        → count i (map (λ (t : Tenant). t.tenant_id) (with_database_status ready w.registry)) ≤ 1)
      → (map (λ (o : MigrationOutcome). o.tenant_id) (upgrade_all out admin show w).0
          ≡ map (λ (t : Tenant). t.tenant_id) (with_database_status ready w.registry))
        × All
            (Agrees out admin show (upgrade_all out admin show w).1.registry)
            (upgrade_all out admin show w).0
        × ((id : Uuid)
            → contains id
                (map (λ (t : Tenant). t.tenant_id) (with_database_status ready w.registry))
              ≡ false
            → get_tenant (upgrade_all out admin show w).1.registry id ≡ get_tenant w.registry id)
  unfolding upgrade_all
  upgrade_all_lem distinct =
      let (same, agree) =
        each-Agrees out admin show (with_database_status ready w.registry) w distinct
          ready-IsKnown in
      (same, agree, each_others out admin show (with_database_status ready w.registry) w)
