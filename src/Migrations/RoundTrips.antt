-- ===== src/Migrations/RoundTrips.antt =====
-- Upgrades taken back by their downgrades.
use karmevo_erp.Migrations.Catalogue.{Catalogue, Statement, SqlError}
use karmevo_erp.Migrations.Execution.{run_effects}
use karmevo_erp.Migrations.RegistryTree.{Revision}
use karmevo_erp.Migrations.Roles.{names_only}
use karmevo_erp.Migrations.Runs.{upgrades, downgrades, empty, all_within}
use karmevo_erp.Prelude.{
  ℕ, suc, String, Bool, true, false, List, ◌++◌, string_key, take, drop, Result, ok, raise, ◌≡◌,
}

-- The statements that go up to revision `n + 1` and one revision down again.
abbrev pub up_and_down : List Revision → ℕ → List Statement
up_and_down revisions n =
    upgrades (take (suc n) revisions) ++ downgrades (drop n (take (suc n) revisions))

-- Whether a catalogue is returned.
abbrev pub is_ok : Result SqlError Catalogue → Bool
is_ok (ok c) = true
is_ok (raise e) = false

-- From a new database, in the schemas that are one's own and with the roles of these names.
abbrev GoesBack : List Revision → (String → Bool) → List String → ℕ → Type 0
GoesBack revisions owned names n =
    (run_effects (up_and_down revisions n) empty ≡ run_effects (upgrades (take n revisions)) empty)
    × (is_ok (run_effects (upgrades (take n revisions)) empty) ≡ true)
    × (all_within owned (up_and_down revisions n) ≡ true)
    × (all_within owned (upgrades (take n revisions)) ≡ true)
    × (names_only names (up_and_down revisions n) ≡ true)
    × (names_only names (upgrades (take n revisions)) ≡ true)
