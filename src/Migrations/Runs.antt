-- ===== src/Migrations/Runs.antt =====
-- Alembic's way through a chain of revisions: up in their order, and down in the reverse order.
use karmevo_erp.Migrations.Catalogue.{
  Catalogue, ForeignKey, Statement, create_schema, drop_schema_cascade, grant_usage,
  alter_default_privileges, create_table, drop_table, enable_rls, force_rls, create_policy,
  grant_on, revoke_on, create_index, drop_index, foreign_keys,
}
use karmevo_erp.Migrations.Frames.{AreOwned, IsWithin}
use karmevo_erp.Migrations.RegistryTree.{Revision}
use karmevo_erp.Prelude.{
  String, Bool, true, false, ◌&&◌, ◌||◌, List, [], ◌∷◌, ◌++◌, ◌≡◌, refl, ◌==◌, string_key, All,
  arith,
}

unfoldable pub upgrades : List Revision → List Statement
upgrades [] = []
upgrades (r ∷ rs) = r.upgrade ++ upgrades rs

unfoldable pub downgrades : List Revision → List Statement
downgrades [] = []
downgrades (r ∷ rs) = downgrades rs ++ r.downgrade

-- The catalogue of a new database, as far as the migrations see it.
abbrev pub empty : Catalogue
empty = record { schemas = []; tables = [] }

-- The schemas of the two trees.
abbrev pub is_registry : String → Bool
is_registry name = name == "registry"

abbrev pub is_of_tenant : String → Bool
is_of_tenant name = name == "platform" || name == "integration"

-- `IsWithin` as a test
module _ (owned : String → Bool) where
  abbrev all_owned : List ForeignKey → Bool
  all_owned [] = true
  all_owned (fk ∷ fks) = owned fk.target.schema && all_owned fks

  abbrev is_within : Statement → Bool
  is_within (create_schema name) = owned name
  is_within (drop_schema_cascade name) = owned name
  is_within (grant_usage name role) = owned name
  is_within (alter_default_privileges name grant) = owned name
  is_within (create_table place columns constraints) =
      owned place.schema && all_owned (foreign_keys columns constraints)
  is_within (drop_table place) = owned place.schema
  is_within (enable_rls place) = owned place.schema
  is_within (force_rls place) = owned place.schema
  is_within (create_policy place policy) = owned place.schema
  is_within (grant_on place grant) = owned place.schema
  is_within (revoke_on place grant) = owned place.schema
  is_within (create_index place index) = owned place.schema
  is_within (drop_index place name) = owned place.schema

  abbrev pub all_within : List Statement → Bool
  all_within [] = true
  all_within (s ∷ ss) = is_within s && all_within ss

  and_both : (a b : Bool) → (a && b) ≡ true → (a ≡ true) × (b ≡ true)
  and_both true b h = (refl, h)
  and_both false b h = absurd (ground (arith, h))

  all_owned-AreOwned : (fks : List ForeignKey) → all_owned fks ≡ true → AreOwned owned fks
  all_owned-AreOwned [] h = tt
  all_owned-AreOwned (fk ∷ fks) h =
      let (here, rest) = and_both (owned fk.target.schema) (all_owned fks) h in
      (here, all_owned-AreOwned fks rest)

  is_within-IsWithin : (s : Statement) → is_within s ≡ true → IsWithin owned s
  is_within-IsWithin (create_schema name) h = h
  is_within-IsWithin (drop_schema_cascade name) h = h
  is_within-IsWithin (grant_usage name role) h = h
  is_within-IsWithin (alter_default_privileges name grant) h = h
  is_within-IsWithin (create_table place columns constraints) h =
      let (here, keys) =
        and_both (owned place.schema) (all_owned (foreign_keys columns constraints)) h in
      (here, all_owned-AreOwned (foreign_keys columns constraints) keys)
  is_within-IsWithin (drop_table place) h = h
  is_within-IsWithin (enable_rls place) h = h
  is_within-IsWithin (force_rls place) h = h
  is_within-IsWithin (create_policy place policy) h = h
  is_within-IsWithin (grant_on place grant) h = h
  is_within-IsWithin (revoke_on place grant) h = h
  is_within-IsWithin (create_index place index) h = h
  is_within-IsWithin (drop_index place name) h = h

  abbrev pub AreWithin : List Statement → Type 0
  AreWithin ss = All (IsWithin owned) ss

  pub all_within-AreWithin : (ss : List Statement) → all_within ss ≡ true → AreWithin ss
  all_within-AreWithin [] h = tt
  all_within-AreWithin (s ∷ ss) h =
      let (here, rest) = and_both (is_within s) (all_within ss) h in
      (is_within-IsWithin s here, all_within-AreWithin ss rest)
