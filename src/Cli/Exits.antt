-- ===== src/Cli/Exits.antt =====
-- What the exit code of a command says.
use karmevo_erp.Cli.{
  Command, provision_tenant, upgrade_tenants, enable_module, disable_module, Exit, CliError,
  is_failure,
}
use karmevo_erp.Core.Modules.{ModuleCatalog, CatalogError}
use karmevo_erp.Platform.Provisioning.{MigrationOutcome, provision, upgrade_all}
use karmevo_erp.Platform.Registry.{Uuid, Registry, Failure}
use karmevo_erp.Platform.Servers.{Outside, World}
use karmevo_erp.Platform.Servers.Commands.{Admin}
use karmevo_erp.Prelude.{
  ℕ, String, true, false, List, [], ◌∷◌, ◌≡◌, ◌⊎◌, Result, ok, raise, length, All, Any,
}

-- No tenant failed, or one did and the code is 1.
abbrev pub Reports : Exit → List MigrationOutcome → Type 0
Reports exit outcomes =
    (length exit.out ≡ length outcomes)
    × (((exit.code ≡ 0) × All (λ o. is_failure o ≡ false) outcomes)
        ⊎ ((exit.code ≡ 1) × Any (λ o. is_failure o ≡ true) outcomes))

-- A change that was made, or one that was refused and left everything as it was.
abbrev pub Changes : World → Result CliError Exit × World → Type 0
Changes w (ok exit, after) =
    (exit.code ≡ 0) ⊎ ((exit.code ≡ 2) × (length exit.err ≡ 1) × (after ≡ w))
Changes w (raise e, after) = after ≡ w

module _ (describe_error : Failure → String) where
  module _ (out : Outside) (admin : Admin) (show : Uuid → String)
      (installed : Result CatalogError ModuleCatalog) (new_id : Uuid) (now : ℕ) where
    -- What a run of a command ends with.
    pub Ends : Command → World → Result CliError Exit × World → Type 0
    Ends (provision_tenant account_number name) w (ok exit, after) =
        (exit.code ≡ 0)
        × ((tenant_id : Uuid) × (provision out admin show new_id "default" account_number name w
              ≡ (ok tenant_id, after))
            × (exit.out ≡ show tenant_id ∷ []))
    Ends (provision_tenant account_number name) w (raise e, after) = Unit
    Ends upgrade_tenants w (ok exit, after) = Reports exit (upgrade_all out admin show w).0
    Ends upgrade_tenants w (raise e, after) = ⊥
    Ends (enable_module tenant key deep) w ended = Changes w ended
    Ends (disable_module tenant key) w ended = Changes w ended
