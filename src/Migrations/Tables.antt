-- ===== src/Migrations/Tables.antt =====
-- Tables that are added and dropped beside those of others.
use karmevo_erp.Migrations.Catalogue.{
  Catalogue, Schema, Table, TableRef, ForeignKey, Column, Constraint, same_place, foreign_keys,
  is_valid, all_valid, is_key_of, refers_to, defaults_of,
}
use karmevo_erp.Migrations.Execution.{add_table, remove_table}
use karmevo_erp.Prelude.{
  String, Bool, true, false, ◌&&◌, not, List, [], ◌∷◌, ◌++◌, ◌≡◌, refl, ◌==◌, string_key, any, All,
  All-map, arith,
}
use karmevo_erp.Migrations.Frames.{
  beside, run_beside, any-append_none, keep-append_every, AreOwned, AreForeign, IsForeign, IsApart,
  other_name,
}
use karmevo_erp.Migrations.Changes.{no_schema, no_table, if_beside}

module _ (owned : String → Bool) where
  is_valid-append :
      (xs ys : List Table) (fk : ForeignKey)
      → All (IsForeign owned) ys
      → owned fk.target.schema ≡ true
      → is_valid (xs ++ ys) fk ≡ is_valid xs fk
  is_valid-append xs ys fk apart h =
      any-append_none
        (λ (t : Table).
          same_place t.place fk.target && any (is_key_of fk.target_columns) t.constraints)
        xs ys
        (All-map (λ (t : Table). same_place t.place fk.target ≡ false)
          (λ (t : Table).
            (same_place t.place fk.target && any (is_key_of fk.target_columns) t.constraints)
            ≡ false)
          ys (λ t k. rw k refl) (no_table owned fk.target ys h apart))

  all_valid-append :
      (xs ys : List Table) (fks : List ForeignKey)
      → All (IsForeign owned) ys
      → AreOwned owned fks
      → all_valid (xs ++ ys) fks ≡ all_valid xs fks
  all_valid-append xs ys [] apart h = refl
  all_valid-append xs ys (fk ∷ fks) apart h =
      rw (is_valid-append xs ys fk apart h.0, all_valid-append xs ys fks apart h.1) refl

  defaults_of_none :
      (name : String) (ss : List Schema)
      → All (λ (s : Schema). (s.name == name) ≡ false) ss
      → defaults_of name ss ≡ []
  unfolding defaults_of
  defaults_of_none name [] h = refl
  defaults_of_none name (s ∷ ss) h = rw h.0 (defaults_of_none name ss h.1)

  defaults_of-append :
      (name : String) (xs ys : List Schema)
      → All (λ (s : Schema). (s.name == name) ≡ false) ys
      → defaults_of name (xs ++ ys) ≡ defaults_of name xs
  unfolding defaults_of
  defaults_of-append name [] ys h = defaults_of_none name ys h
  defaults_of-append name (x ∷ xs) ys h = rw (defaults_of-append name xs ys h) refl

  pub add_table-beside :
      (place : TableRef) (columns : List Column) (constraints : List Constraint) (c d : Catalogue)
      → IsApart owned d
      → owned place.schema ≡ true
      → AreOwned owned (foreign_keys columns constraints)
      → add_table place columns constraints (beside c d)
        ≡ run_beside d (add_table place columns constraints c)
  unfolding add_table
  add_table-beside place columns constraints c d apart h keys =
      rw
        (
          any-append_none (λ (s : Schema). s.name == place.schema) c.schemas d.schemas none_there,
          any-append_none (λ (t : Table). same_place t.place place) c.tables d.tables
              (no_table owned place d.tables h apart.tables_apart),
          all_valid-append c.tables d.tables (foreign_keys columns constraints) apart.tables_apart
              keys,
          defaults_of-append place.schema c.schemas d.schemas none_there,
        )
        (if_beside owned (not (any (λ (s : Schema). s.name == place.schema) c.schemas)) d _ _ refl (
          if_beside owned (any (λ (t : Table). same_place t.place place) c.tables) d _ _ refl (
            if_beside owned (not (all_valid c.tables (foreign_keys columns constraints))) d _ _ refl
              refl)))
    where
      none_there : All (λ (s : Schema). (s.name == place.schema) ≡ false) d.schemas
      none_there = no_schema owned place.schema d.schemas h apart.schemas_apart

  no_reference :
      (place : TableRef) (fks : List ForeignKey)
      → owned place.schema ≡ true
      → AreForeign owned fks
      → any (λ (fk : ForeignKey). same_place fk.target place) fks ≡ false
  unfolding any
  no_reference place [] h apart = refl
  no_reference place (fk ∷ fks) h apart =
      rw (other_name owned place.schema fk.target.schema h apart.0)
        (no_reference place fks h apart.1)

  pub remove_table-beside :
      (place : TableRef) (c d : Catalogue)
      → IsApart owned d
      → owned place.schema ≡ true
      → remove_table place (beside c d) ≡ run_beside d (remove_table place c)
  unfolding remove_table
  remove_table-beside place c d apart h =
      rw
        (
          any-append_none (λ (t : Table). same_place t.place place) c.tables d.tables none_there,
          any-append_none (refers_to place) c.tables d.tables (
              All-map (IsForeign owned) (λ t. refers_to place t ≡ false) d.tables
                (λ t k.
                  ground (arith, no_reference place (foreign_keys t.columns t.constraints) h k.1))
                apart.tables_apart),
          keep-append_every (λ (t : Table). not (same_place t.place place)) c.tables d.tables
              (All-map (λ (t : Table). same_place t.place place ≡ false)
                (λ (t : Table). not (same_place t.place place) ≡ true) d.tables (λ t k. rw k refl)
                none_there),
        )
        (if_beside owned (not (any (λ (t : Table). same_place t.place place) c.tables)) d _ _ refl
          (if_beside owned (any (refers_to place) c.tables) d _ _ refl refl))
    where
      none_there : All (λ (t : Table). same_place t.place place ≡ false) d.tables
      none_there = no_table owned place d.tables h apart.tables_apart
