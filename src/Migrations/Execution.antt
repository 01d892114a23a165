-- ===== src/Migrations/Execution.antt =====
-- What a statement does to a catalogue once the role that it names is known to exist (Migrations/Roles
-- adds this), and the effects of a list of statements, which stop at the first error.
use karmevo_erp.Migrations.Catalogue.{
  TableRef, Column, Constraint, Policy, Index, Schema, Table, Catalogue, Statement, create_schema,
  drop_schema_cascade, grant_usage, alter_default_privileges, create_table, drop_table, enable_rls,
  force_rls, create_policy, grant_on, revoke_on, create_index, drop_index, SqlError, duplicate,
  undefined, invalid_foreign_key, dependent_objects, same_place, foreign_keys, all_valid, refers_to,
  add_grant, remove_grant, defaults_of, change_schema, change_table, cut_loose, new_table,
}
use karmevo_erp.Prelude.{
  String, true, not, List, [], ◌∷◌, ◌++◌, map, ◌==◌, string_key, if◌then◌else◌, keep, any, Result,
  ok, raise, ◌>>=◌,
}

abbrev pub add_policy : Policy → Table → Result SqlError Table
add_policy policy t =
    if any (λ (p : Policy). p.name == policy.name) t.policies
    then raise (duplicate policy.name)
    else ok (record t { policies = t.policies ++ policy ∷ [] })

abbrev pub add_index : Index → Table → Result SqlError Table
add_index index t =
    if any (λ (i : Index). i.name == index.name) t.indexes
    then raise (duplicate index.name)
    else ok (record t { indexes = t.indexes ++ index ∷ [] })

abbrev pub remove_index : String → Table → Result SqlError Table
remove_index name t =
    if any (λ (i : Index). i.name == name) t.indexes
    then ok (record t { indexes = keep (λ (i : Index). not (i.name == name)) t.indexes })
    else raise (undefined name)

unfoldable pub add_schema : String → Catalogue → Result SqlError Catalogue
add_schema name c =
    if any (λ (s : Schema). s.name == name) c.schemas
    then raise (duplicate name)
    else ok (record c {
      schemas = record { name = name; usage = []; default_privileges = [] } ∷ c.schemas;
    })

unfoldable pub remove_schema : String → Catalogue → Result SqlError Catalogue
remove_schema name c =
    if any (λ (s : Schema). s.name == name) c.schemas
    then ok (record {
      schemas = keep (λ (s : Schema). not (s.name == name)) c.schemas;
      tables = map (cut_loose name) (keep (λ (t : Table). not (t.place.schema == name)) c.tables);
    })
    else raise (undefined name)

unfoldable pub add_table :
    TableRef → List Column → List Constraint → Catalogue → Result SqlError Catalogue
add_table place columns constraints c =
    if not (any (λ (s : Schema). s.name == place.schema) c.schemas)
    then raise (undefined place.schema)
    else if any (λ (t : Table). same_place t.place place) c.tables
    then raise (duplicate place.table)
    else if not (all_valid c.tables (foreign_keys columns constraints))
    then raise (invalid_foreign_key place.table)
    else ok (record c {
      tables = new_table (defaults_of place.schema c.schemas) place columns constraints ∷ c.tables;
    })

unfoldable pub remove_table : TableRef → Catalogue → Result SqlError Catalogue
remove_table place c =
    if not (any (λ (t : Table). same_place t.place place) c.tables)
    then raise (undefined place.table)
    else if any (refers_to place) c.tables
    then raise (dependent_objects place.table)
    else ok (record c { tables = keep (λ (t : Table). not (same_place t.place place)) c.tables })

unfoldable pub take_effect : Statement → Catalogue → Result SqlError Catalogue
unfolding add_schema remove_schema add_table remove_table
take_effect (create_schema name) c = add_schema name c
take_effect (drop_schema_cascade name) c = remove_schema name c
take_effect (grant_usage name role) c =
    change_schema name (λ (s : Schema). ok (record s { usage = s.usage ++ role ∷ [] })) c
take_effect (alter_default_privileges name grant) c =
    change_schema name
      (λ (s : Schema). ok (record s { default_privileges = add_grant grant s.default_privileges }))
      c
take_effect (create_table place columns constraints) c = add_table place columns constraints c
take_effect (drop_table place) c = remove_table place c
take_effect (enable_rls place) c =
    change_table place (λ (t : Table). ok (record t { rls_enabled = true })) c
take_effect (force_rls place) c =
    change_table place (λ (t : Table). ok (record t { rls_forced = true })) c
take_effect (create_policy place policy) c = change_table place (add_policy policy) c
take_effect (grant_on place grant) c =
    change_table place (λ (t : Table). ok (record t { grants = add_grant grant t.grants })) c
take_effect (revoke_on place grant) c =
    change_table place (λ (t : Table). ok (record t { grants = remove_grant grant t.grants })) c
take_effect (create_index place index) c = change_table place (add_index index) c
take_effect (drop_index place name) c = change_table place (remove_index name) c

unfoldable pub run_effects : List Statement → Catalogue → Result SqlError Catalogue
unfolding take_effect
run_effects [] c = ok c
run_effects (s ∷ ss) c = take_effect s c >>= run_effects ss
