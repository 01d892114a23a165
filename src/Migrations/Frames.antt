-- ===== src/Migrations/Frames.antt =====
-- Statements about schemas of one's own, run beside the tables of others.
use karmevo_erp.Migrations.Catalogue.{
  Catalogue, Schema, Table, ForeignKey, Statement, create_schema, drop_schema_cascade, grant_usage,
  alter_default_privileges, create_table, drop_table, enable_rls, force_rls, create_policy,
  grant_on, revoke_on, create_index, drop_index, SqlError, foreign_keys, change_first,
}
use karmevo_erp.Prelude.{
  String, Bool, true, false, List, [], ◌∷◌, ◌++◌, ◌≡◌, refl, ◌==◌, string_key, if◌then◌else◌, keep,
  any, All, Result, ok, raise, ◌>>=◌, arith,
}

abbrev pub beside : Catalogue → Catalogue → Catalogue
beside c d = record { schemas = c.schemas ++ d.schemas; tables = c.tables ++ d.tables }

abbrev pub run_beside : Catalogue → Result SqlError Catalogue → Result SqlError Catalogue
run_beside d (ok c) = ok (beside c d)
run_beside d (raise e) = raise e

module _ {A : Type 0} where
  pub any-append_none :
      (p : A → Bool) (xs ys : List A) → All (λ y. p y ≡ false) ys → any p (xs ++ ys) ≡ any p xs
  unfolding any
  any-append_none p [] [] h = refl
  any-append_none p [] (y ∷ ys) (here, h) = rw (here, any) (any-append_none p [] ys h)
  any-append_none p (x ∷ xs) ys h = rw (any-append_none p xs ys h) refl

  pub keep-append_every :
      (p : A → Bool) (xs ys : List A)
      → All (λ y. p y ≡ true) ys
      → keep p (xs ++ ys) ≡ keep p xs ++ ys
  unfolding keep
  keep-append_every p [] [] h = refl
  keep-append_every p [] (y ∷ ys) (here, h) = ground (arith, here, keep-append_every p [] ys h)
  keep-append_every p (x ∷ xs) ys h = ground (arith, keep-append_every p xs ys h)

  change_first_none :
      (found : A → Bool) (change : A → Result SqlError A) (missing : SqlError) (ys : List A)
      → All (λ y. found y ≡ false) ys
      → change_first found change missing ys ≡ raise missing
  unfolding change_first
  change_first_none found change missing [] h = refl
  change_first_none found change missing (y ∷ ys) (here, h) =
      ground (arith, here, change_first_none found change missing ys h)

  bind_cons :
      (call : Result SqlError (List A)) (x : A) (ys : List A)
      → ((call >>= λ zs. ok (zs ++ ys)) >>= λ zs. ok (x ∷ zs))
        ≡ ((call >>= λ zs. ok (x ∷ zs)) >>= λ zs. ok (zs ++ ys))
  bind_cons (ok zs) x ys = refl
  bind_cons (raise e) x ys = refl

  bind_changed :
      (call : Result SqlError A) (xs ys : List A)
      → (call >>= λ z. ok (z ∷ (xs ++ ys))) ≡ ((call >>= λ z. ok (z ∷ xs)) >>= λ zs. ok (zs ++ ys))
  bind_changed (ok z) xs ys = refl
  bind_changed (raise e) xs ys = refl

  pub change_first-append :
      (found : A → Bool) (change : A → Result SqlError A) (missing : SqlError) (xs ys : List A)
      → All (λ y. found y ≡ false) ys
      → change_first found change missing (xs ++ ys)
        ≡ (change_first found change missing xs >>= λ zs. ok (zs ++ ys))
  unfolding change_first
  change_first-append found change missing [] ys h = change_first_none found change missing ys h
  change_first-append found change missing (x ∷ xs) ys h =
      elim (found x)
        as (λ b.
          (if b
            then (change x >>= λ z. ok (z ∷ (xs ++ ys)))
            else (change_first found change missing (xs ++ ys) >>= λ zs. ok (x ∷ zs)))
          ≡ ((if b
                then (change x >>= λ z. ok (z ∷ xs))
                else (change_first found change missing xs >>= λ zs. ok (x ∷ zs)))
              >>= λ zs. ok (zs ++ ys))) [
                | true ↦ bind_changed (change x) xs ys
                | false ↦
                    rw (change_first-append found change missing xs ys h)
                      (bind_cons (change_first found change missing xs) x ys)
              ]

-- The schemas in question.
module _ (owned : String → Bool) where
  abbrev pub AreOwned : List ForeignKey → Type 0
  AreOwned fks = All (λ (fk : ForeignKey). owned fk.target.schema ≡ true) fks

  abbrev pub AreForeign : List ForeignKey → Type 0
  AreForeign fks = All (λ (fk : ForeignKey). owned fk.target.schema ≡ false) fks

  abbrev pub IsForeign : Table → Type 0
  IsForeign t = (owned t.place.schema ≡ false) × AreForeign (foreign_keys t.columns t.constraints)

  -- None of these schemas is there, and no foreign key refers to them.
  pub record IsApart (d : Catalogue) : Type 0 where
    pub schemas_apart : All (λ (s : Schema). owned s.name ≡ false) d.schemas
    pub tables_apart : All IsForeign d.tables

  -- A statement that names only these schemas.
  abbrev pub IsWithin : Statement → Type 0
  IsWithin (create_schema name) = owned name ≡ true
  IsWithin (drop_schema_cascade name) = owned name ≡ true
  IsWithin (grant_usage name role) = owned name ≡ true
  IsWithin (alter_default_privileges name grant) = owned name ≡ true
  IsWithin (create_table place columns constraints) =
      (owned place.schema ≡ true) × AreOwned (foreign_keys columns constraints)
  IsWithin (drop_table place) = owned place.schema ≡ true
  IsWithin (enable_rls place) = owned place.schema ≡ true
  IsWithin (force_rls place) = owned place.schema ≡ true
  IsWithin (create_policy place policy) = owned place.schema ≡ true
  IsWithin (grant_on place grant) = owned place.schema ≡ true
  IsWithin (revoke_on place grant) = owned place.schema ≡ true
  IsWithin (create_index place index) = owned place.schema ≡ true
  IsWithin (drop_index place name) = owned place.schema ≡ true

  pub other_name : (a b : String) → owned a ≡ true → owned b ≡ false → (b == a) ≡ false
  other_name a b h k = ground (arith, h, k)
