-- ===== src/Migrations/Beside.antt =====
-- Each statement does the same to its schemas whatever stands beside them.
use karmevo_erp.Migrations.Catalogue.{
  Catalogue, Schema, Table, ForeignKey, Column, Constraint, foreign_key, primary_key, unique_key,
  check, Statement, create_schema, drop_schema_cascade, grant_usage, alter_default_privileges,
  create_table, drop_table, enable_rls, force_rls, create_policy, grant_on, revoke_on, create_index,
  drop_index, SqlError, column_keys, constraint_keys, cut_loose, without_reference, is_cut,
  add_grant, remove_grant,
}
use karmevo_erp.Migrations.Execution.{
  take_effect, run_effects, remove_schema, add_policy, add_index, remove_index,
}
use mathlib.Core.List.{map-append}
use karmevo_erp.Prelude.{
  All-split, String, Bool, true, false, not, List, [], ◌∷◌, ◌++◌, map, Option, none, some, ◌≡◌,
  refl, ap, ◌==◌, string_key, if◌then◌else◌, keep, any, All, All-map, Result, ok, raise, ◌>>=◌,
}
use karmevo_erp.Migrations.Frames.{
  beside, run_beside, any-append_none, keep-append_every, AreForeign, IsForeign, IsApart, IsWithin,
  other_name,
}
use karmevo_erp.Migrations.Changes.{
  no_schema, if_beside, change_schema-beside, change_table-beside, add_schema-beside,
}
use karmevo_erp.Migrations.Tables.{add_table-beside, remove_table-beside}

module _ (owned : String → Bool) where
  column_foreign :
      (name : String) (c : Column) (reference : Option ForeignKey) (rest : List ForeignKey)
      → owned name ≡ true
      → AreForeign owned
          (elim reference as (λ _. List ForeignKey) [ none ↦ rest | some fk ↦ fk ∷ rest ])
      → ((elim reference as (λ _. Column) [
        | none ↦ c
        | some fk ↦ if fk.target.schema == name then record c { reference = none } else c
      ])
          ≡ c)
        × AreForeign owned rest
  column_foreign name c none rest h apart = (refl, apart)
  column_foreign name c (some fk) rest h apart =
      (rw (other_name owned name fk.target.schema h apart.0) refl, apart.1)

  without_reference_foreign :
      (name : String) (cs : List Column)
      → owned name ≡ true
      → AreForeign owned (column_keys cs)
      → map (without_reference name) cs ≡ cs
  without_reference_foreign name [] h apart = refl
  without_reference_foreign name (c ∷ cs) h apart =
      let (kept, rest) = column_foreign name c c.reference (column_keys cs) h apart in
      rw (kept, without_reference_foreign name cs h rest) refl

  is_cut_foreign :
      (name : String) (cs : List Constraint)
      → owned name ≡ true
      → AreForeign owned (constraint_keys cs)
      → keep (λ c. not (is_cut name c)) cs ≡ cs
  unfolding keep
  is_cut_foreign name [] h apart = refl
  is_cut_foreign name (foreign_key fk ∷ cs) h apart =
      rw (other_name owned name fk.target.schema h apart.0)
        (ap (λ rest. foreign_key fk ∷ rest) (is_cut_foreign name cs h apart.1))
  is_cut_foreign name (primary_key ns n ∷ cs) h apart =
      ap (λ rest. primary_key ns n ∷ rest) (is_cut_foreign name cs h apart)
  is_cut_foreign name (unique_key ns n ∷ cs) h apart =
      ap (λ rest. unique_key ns n ∷ rest) (is_cut_foreign name cs h apart)
  is_cut_foreign name (check condition n ∷ cs) h apart =
      ap (λ rest. check condition n ∷ rest) (is_cut_foreign name cs h apart)

  cut_loose_foreign :
      (name : String) (ts : List Table)
      → owned name ≡ true
      → All (IsForeign owned) ts
      → map (cut_loose name) ts ≡ ts
  cut_loose_foreign name [] h apart = refl
  cut_loose_foreign name (t ∷ ts) h apart =
      let (in_columns, in_constraints) =
        All-split (λ (fk : ForeignKey). owned fk.target.schema ≡ false) (column_keys t.columns)
          (constraint_keys t.constraints) apart.0.1 in
      rw
        (
          without_reference_foreign name t.columns h in_columns,
          is_cut_foreign name t.constraints h in_constraints,
          cut_loose_foreign name ts h apart.1,
        )
        refl

  remove_schema-beside :
      (name : String) (c d : Catalogue)
      → IsApart owned d
      → owned name ≡ true
      → remove_schema name (beside c d) ≡ run_beside d (remove_schema name c)
  unfolding remove_schema
  remove_schema-beside name c d apart h =
      rw
        (
          any-append_none (λ (s : Schema). s.name == name) c.schemas d.schemas none_there,
          keep-append_every (λ (s : Schema). not (s.name == name)) c.schemas d.schemas
              (All-map (λ (s : Schema). (s.name == name) ≡ false)
                (λ (s : Schema). not (s.name == name) ≡ true) d.schemas (λ s k. rw k refl)
                none_there),
          keep-append_every (λ (t : Table). not (t.place.schema == name)) c.tables d.tables
              (All-map (IsForeign owned) (λ (t : Table). not (t.place.schema == name) ≡ true)
                d.tables (λ t k. rw (other_name owned name t.place.schema h k.0) refl)
                apart.tables_apart),
          map-append (cut_loose name) (keep (λ (t : Table). not (t.place.schema == name)) c.tables)
              d.tables,
          cut_loose_foreign name d.tables h apart.tables_apart,
        )
        (if_beside owned (any (λ (s : Schema). s.name == name) c.schemas) d _ _ refl refl)
    where
      none_there : All (λ (s : Schema). (s.name == name) ≡ false) d.schemas
      none_there = no_schema owned name d.schemas h apart.schemas_apart

  pub take_effect-beside :
      (s : Statement) (c d : Catalogue)
      → IsApart owned d
      → IsWithin owned s
      → take_effect s (beside c d) ≡ run_beside d (take_effect s c)
  unfolding take_effect
  take_effect-beside (create_schema name) c d apart h = add_schema-beside owned name c d apart h
  take_effect-beside (drop_schema_cascade name) c d apart h = remove_schema-beside name c d apart h
  take_effect-beside (grant_usage name role) c d apart h =
      change_schema-beside owned name
        (λ (s : Schema). ok (record s { usage = s.usage ++ role ∷ [] })) c d apart h
  take_effect-beside (alter_default_privileges name grant) c d apart h =
      change_schema-beside owned name
        (λ (s : Schema).
          ok (record s { default_privileges = add_grant grant s.default_privileges }))
        c d apart h
  take_effect-beside (create_table place columns constraints) c d apart h =
      add_table-beside owned place columns constraints c d apart h.0 h.1
  take_effect-beside (drop_table place) c d apart h = remove_table-beside owned place c d apart h
  take_effect-beside (enable_rls place) c d apart h =
      change_table-beside owned place (λ (t : Table). ok (record t { rls_enabled = true })) c d
        apart h
  take_effect-beside (force_rls place) c d apart h =
      change_table-beside owned place (λ (t : Table). ok (record t { rls_forced = true })) c d apart
        h
  take_effect-beside (create_policy place policy) c d apart h =
      change_table-beside owned place (add_policy policy) c d apart h
  take_effect-beside (grant_on place grant) c d apart h =
      change_table-beside owned place
        (λ (t : Table). ok (record t { grants = add_grant grant t.grants })) c d apart h
  take_effect-beside (revoke_on place grant) c d apart h =
      change_table-beside owned place
        (λ (t : Table). ok (record t { grants = remove_grant grant t.grants })) c d apart h
  take_effect-beside (create_index place index) c d apart h =
      change_table-beside owned place (add_index index) c d apart h
  take_effect-beside (drop_index place name) c d apart h =
      change_table-beside owned place (remove_index name) c d apart h

  run_after :
      (call : Result SqlError Catalogue) (ss : List Statement) (d : Catalogue)
      → ((c : Catalogue) → run_effects ss (beside c d) ≡ run_beside d (run_effects ss c))
      → (run_beside d call >>= run_effects ss) ≡ run_beside d (call >>= run_effects ss)
  run_after (ok c) ss d h = h c
  run_after (raise e) ss d h = refl

  -- A run of statements about one's own schemas.
  pub run_effects-beside_lem :
      (ss : List Statement) (c d : Catalogue)
      → IsApart owned d
      → All (IsWithin owned) ss
      → run_effects ss (beside c d) ≡ run_beside d (run_effects ss c)
  unfolding run_effects
  run_effects-beside_lem [] c d apart h = refl
  run_effects-beside_lem (s ∷ ss) c d apart h =
      rw (take_effect-beside s c d apart h.0)
        (run_after (take_effect s c) ss d (λ c'. run_effects-beside_lem ss c' d apart h.1))
