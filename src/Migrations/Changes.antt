-- ===== src/Migrations/Changes.antt =====
-- Schemas and tables that are changed, and schemas that are added, beside those of others.
use karmevo_erp.Migrations.Catalogue.{
  Catalogue, Schema, Table, TableRef, SqlError, undefined, same_place, change_first, change_schema,
  change_table,
}
use karmevo_erp.Migrations.Execution.{add_schema}
use karmevo_erp.Prelude.{
  String, Bool, true, false, List, ◌++◌, ◌≡◌, refl, ◌==◌, string_key, if◌then◌else◌, any, All,
  All-map, Result, ok, raise, ◌>>=◌,
}
use karmevo_erp.Migrations.Frames.{
  beside, run_beside, any-append_none, change_first-append, IsForeign, IsApart, other_name,
}

bind_beside_schemas :
    (call : Result SqlError (List Schema)) (c d : Catalogue)
    → ((call >>= λ zs. ok (zs ++ d.schemas)) >>= λ schemas.
        ok (record (beside c d) { schemas = schemas }))
      ≡ run_beside d (call >>= λ schemas. ok (record c { schemas = schemas }))
bind_beside_schemas (ok zs) c d = refl
bind_beside_schemas (raise e) c d = refl

bind_beside_tables :
    (call : Result SqlError (List Table)) (c d : Catalogue)
    → ((call >>= λ zs. ok (zs ++ d.tables)) >>= λ tables.
        ok (record (beside c d) { tables = tables }))
      ≡ run_beside d (call >>= λ tables. ok (record c { tables = tables }))
bind_beside_tables (ok zs) c d = refl
bind_beside_tables (raise e) c d = refl

same_place-false : (a b : TableRef) → (a.schema == b.schema) ≡ false → same_place a b ≡ false
same_place-false a b h = rw h refl

module _ (owned : String → Bool) where
  pub no_schema :
      (name : String) (ss : List Schema)
      → owned name ≡ true
      → All (λ (s : Schema). owned s.name ≡ false) ss
      → All (λ (s : Schema). (s.name == name) ≡ false) ss
  no_schema name ss h apart =
      All-map (λ (s : Schema). owned s.name ≡ false) (λ (s : Schema). (s.name == name) ≡ false) ss
        (λ s k. other_name owned name s.name h k) apart

  pub no_table :
      (place : TableRef) (ts : List Table)
      → owned place.schema ≡ true
      → All (IsForeign owned) ts
      → All (λ (t : Table). same_place t.place place ≡ false) ts
  no_table place ts h apart =
      All-map (IsForeign owned) (λ (t : Table). same_place t.place place ≡ false) ts
        (λ t k. same_place-false t.place place (other_name owned place.schema t.place.schema h k.0))
        apart

  pub change_schema-beside :
      (name : String) (change : Schema → Result SqlError Schema) (c d : Catalogue)
      → IsApart owned d
      → owned name ≡ true
      → change_schema name change (beside c d) ≡ run_beside d (change_schema name change c)
  change_schema-beside name change c d apart h =
      rw
        (change_first-append (λ (s : Schema). s.name == name) change (undefined name) c.schemas
          d.schemas (no_schema name d.schemas h apart.schemas_apart))
        (bind_beside_schemas
          (change_first (λ (s : Schema). s.name == name) change (undefined name) c.schemas) c d)

  pub change_table-beside :
      (place : TableRef) (change : Table → Result SqlError Table) (c d : Catalogue)
      → IsApart owned d
      → owned place.schema ≡ true
      → change_table place change (beside c d) ≡ run_beside d (change_table place change c)
  change_table-beside place change c d apart h =
      rw
        (change_first-append (λ (t : Table). same_place t.place place) change
          (undefined place.table) c.tables d.tables (no_table place d.tables h apart.tables_apart))
        (bind_beside_tables
          (change_first (λ (t : Table). same_place t.place place) change (undefined place.table)
            c.tables)
          c d)

  pub if_beside :
      (b : Bool) (d : Catalogue) {x y : Result SqlError Catalogue}
      (x' y' : Result SqlError Catalogue)
      → x ≡ run_beside d x'
      → y ≡ run_beside d y'
      → (if b then x else y) ≡ run_beside d (if b then x' else y')
  if_beside true d x' y' h k = h
  if_beside false d x' y' h k = k

  pub add_schema-beside :
      (name : String) (c d : Catalogue)
      → IsApart owned d
      → owned name ≡ true
      → add_schema name (beside c d) ≡ run_beside d (add_schema name c)
  unfolding add_schema
  add_schema-beside name c d apart h =
      rw
        (any-append_none (λ (s : Schema). s.name == name) c.schemas d.schemas
          (no_schema name d.schemas h apart.schemas_apart))
        (if_beside (any (λ (s : Schema). s.name == name) c.schemas) d _ _ refl refl)
