-- ===== src/Migrations/Catalogue.antt =====
-- The catalogue of a PostgreSQL database as far as the migrations speak of it, and the statements they
-- make, as data. What a statement needs and does is what SQL says of it: a name is new or is there,
-- a foreign key refers to columns that a key of its table lists in that order, a table that another
-- refers to is not dropped, and a table is created with the default privileges of its schema.
use karmevo_erp.Prelude.{
  ℕ, String, Bool, true, false, ◌&&◌, ◌||◌, not, List, [], ◌∷◌, ◌++◌, map, Option, none, some, ◌==◌,
  string_key, if◌then◌else◌, keep, any, Result, ok, raise, ◌>>=◌,
}

pub data Privilege : Type 0 where
  select_rows insert_rows update_rows delete_rows : Privilege

pub data ColumnType : Type 0 where
  uuid_type boolean_type integer_type text_type jsonb_type timestamptz_type : ColumnType
  varchar : ℕ → ColumnType

pub record TableRef : Type 0 where
  pub schema : String
  pub table : String

pub record ForeignKey : Type 0 where
  pub name : String
  pub columns : List String
  pub target : TableRef
  pub target_columns : List String

pub record Column : Type 0 where
  pub name : String
  pub kind : ColumnType
  pub reference : Option ForeignKey
  pub nullable : Bool
  pub server_default : Option String

pub data Constraint : Type 0 where
  primary_key unique_key : List String → (name : String) → Constraint
  check : (condition name : String) → Constraint
  foreign_key : ForeignKey → Constraint

pub data Condition : Type 0 where
  is_tenant is_identity always : Condition

pub data PolicyCommand : Type 0 where
  for_all for_select : PolicyCommand

-- `to_role` is none for PUBLIC.
pub record Policy : Type 0 where
  pub name : String
  pub command : PolicyCommand
  pub to_role : Option String
  pub using : Condition
  pub with_check : Option Condition

pub record Grant : Type 0 where
  pub role : String
  pub privileges : List Privilege

pub record Index : Type 0 where
  pub name : String
  pub columns : List String
  pub condition : Option String

pub record Schema : Type 0 where
  pub name : String
  pub usage : List String
  pub default_privileges : List Grant

pub record Table : Type 0 where
  pub place : TableRef
  pub columns : List Column
  pub constraints : List Constraint
  pub indexes : List Index
  pub rls_enabled : Bool
  pub rls_forced : Bool
  pub policies : List Policy
  pub grants : List Grant

pub record Catalogue : Type 0 where
  pub schemas : List Schema
  pub tables : List Table

pub data Statement : Type 0 where
  create_schema drop_schema_cascade : String → Statement
  grant_usage : (schema role : String) → Statement
  alter_default_privileges : (schema : String) → Grant → Statement
  create_table : TableRef → List Column → List Constraint → Statement
  drop_table enable_rls force_rls : TableRef → Statement
  create_policy : TableRef → Policy → Statement
  grant_on revoke_on : TableRef → Grant → Statement
  create_index : TableRef → Index → Statement
  drop_index : TableRef → (name : String) → Statement

pub data SqlError : Type 0 where
  duplicate undefined : (name : String) → SqlError
  invalid_foreign_key dependent_objects : (name : String) → SqlError

abbrev pub same_privilege : Privilege → Privilege → Bool
same_privilege select_rows select_rows = true
same_privilege insert_rows insert_rows = true
same_privilege update_rows update_rows = true
same_privilege delete_rows delete_rows = true
same_privilege _ _ = false

abbrev pub is_in : Privilege → List Privilege → Bool
is_in p [] = false
is_in p (q ∷ qs) = same_privilege p q || is_in p qs

abbrev pub same_place : TableRef → TableRef → Bool
same_place a b = a.schema == b.schema && a.table == b.table

abbrev pub same_names : List String → List String → Bool
same_names [] [] = true
same_names (a ∷ more) (b ∷ others) = a == b && same_names more others
same_names _ _ = false

abbrev pub column_keys : List Column → List ForeignKey
column_keys [] = []
column_keys (c ∷ cs) = elim c.reference [ none ↦ column_keys cs | some fk ↦ fk ∷ column_keys cs ]

abbrev pub constraint_keys : List Constraint → List ForeignKey
constraint_keys [] = []
constraint_keys (foreign_key fk ∷ cs) = fk ∷ constraint_keys cs
constraint_keys (primary_key _ _ ∷ cs) = constraint_keys cs
constraint_keys (unique_key _ _ ∷ cs) = constraint_keys cs
constraint_keys (check _ _ ∷ cs) = constraint_keys cs

abbrev pub foreign_keys : List Column → List Constraint → List ForeignKey
foreign_keys columns constraints = column_keys columns ++ constraint_keys constraints

abbrev pub is_key_of : List String → Constraint → Bool
is_key_of columns (primary_key cs name) = same_names columns cs
is_key_of columns (unique_key cs name) = same_names columns cs
is_key_of columns (check condition name) = false
is_key_of columns (foreign_key fk) = false

-- A foreign key that a table may have.
abbrev pub is_valid : List Table → ForeignKey → Bool
is_valid tables fk =
    any
      (λ (t : Table).
        same_place t.place fk.target && any (is_key_of fk.target_columns) t.constraints)
      tables

abbrev pub all_valid : List Table → List ForeignKey → Bool
all_valid tables [] = true
all_valid tables (fk ∷ fks) = is_valid tables fk && all_valid tables fks

abbrev pub refers_to : TableRef → Table → Bool
refers_to place t =
    not (same_place t.place place)
    && any (λ (fk : ForeignKey). same_place fk.target place) (foreign_keys t.columns t.constraints)

-- The first element that passes is changed, and it is an error if none does.
unfoldable pub change_first :
    {A : Type 0}
    → (A → Bool)
    → (A → Result SqlError A)
    → SqlError
    → List A
    → Result SqlError (List A)
change_first found change missing [] = raise missing
change_first found change missing (x ∷ xs) =
    let rest = change_first found change missing xs in
    if found x then (change x >>= λ y. ok (y ∷ xs)) else (rest >>= λ ys. ok (x ∷ ys))

-- The privileges of a role and the ones it gets or loses.
unfoldable pub add_grant : Grant → List Grant → List Grant
add_grant g [] = g ∷ []
add_grant g (h ∷ hs) =
    if h.role == g.role
    then record h {
      privileges = h.privileges ++ keep (λ p. not (is_in p h.privileges)) g.privileges;
    }
      ∷ hs
    else h ∷ add_grant g hs

unfoldable pub remove_grant : Grant → List Grant → List Grant
remove_grant g [] = []
remove_grant g (h ∷ hs) =
    if h.role == g.role
    then record h { privileges = keep (λ p. not (is_in p g.privileges)) h.privileges }
      ∷ remove_grant g hs
    else h ∷ remove_grant g hs

-- The default privileges of the schema with a name.
unfoldable pub defaults_of : String → List Schema → List Grant
defaults_of name [] = []
defaults_of name (s ∷ ss) = if s.name == name then s.default_privileges else defaults_of name ss

abbrev pub change_schema :
    String → (Schema → Result SqlError Schema) → Catalogue → Result SqlError Catalogue
change_schema name change c =
    change_first (λ (s : Schema). s.name == name) change (undefined name) c.schemas >>= λ schemas.
    ok (record c { schemas = schemas })

abbrev pub change_table :
    TableRef → (Table → Result SqlError Table) → Catalogue → Result SqlError Catalogue
change_table place change c =
    change_first (λ (t : Table). same_place t.place place) change (undefined place.table) c.tables
    >>= λ tables. ok (record c { tables = tables })

-- What CASCADE leaves of a table in another schema: its foreign keys into the schema are dropped.
abbrev pub without_reference : String → Column → Column
without_reference schema c = elim c.reference [
  | none ↦ c
  | some fk ↦ if fk.target.schema == schema then record c { reference = none } else c
]

abbrev pub is_cut : String → Constraint → Bool
is_cut schema (foreign_key fk) = fk.target.schema == schema
is_cut schema (primary_key _ _) = false
is_cut schema (unique_key _ _) = false
is_cut schema (check _ _) = false

abbrev pub cut_loose : String → Table → Table
cut_loose schema t = record t {
  columns = map (without_reference schema) t.columns;
  constraints = keep (λ c. not (is_cut schema c)) t.constraints;
}

abbrev pub new_table : List Grant → TableRef → List Column → List Constraint → Table
new_table grants place columns constraints = record {
  place = place;
  columns = columns;
  constraints = constraints;
  indexes = [];
  rls_enabled = false;
  rls_forced = false;
  policies = [];
  grants = grants;
}
