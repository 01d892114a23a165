-- ===== src/Migrations/Roles.antt =====
-- The run of a migration's statements, which is a transaction: an error undoes what came before it. A
-- statement that names a role is an error where the server has no such role. The roles are made apart
-- from the migrations, by deploy/postgres/init/01-roles.sql.
use karmevo_erp.Migrations.Catalogue.{
  Catalogue, Statement, SqlError, undefined, create_schema, drop_schema_cascade, grant_usage,
  alter_default_privileges, create_table, drop_table, enable_rls, force_rls, create_policy,
  grant_on, revoke_on, create_index, drop_index,
}
use karmevo_erp.Migrations.Execution.{take_effect, run_effects}
use karmevo_erp.Prelude.{
  String, Bool, true, false, ◌&&◌, List, [], ◌∷◌, Option, none, some, Result, ok, raise, ◌>>=◌, ◌≡◌,
  refl, ap, ◌∙◌, contains, All, All-contains, string_key, arith,
}

-- The role that a statement names.
abbrev pub role_of : Statement → Option String
role_of (create_schema name) = none
role_of (drop_schema_cascade name) = none
role_of (grant_usage name role) = some role
role_of (alter_default_privileges name grant) = some grant.role
role_of (create_table place columns constraints) = none
role_of (drop_table place) = none
role_of (enable_rls place) = none
role_of (force_rls place) = none
role_of (create_policy place policy) = policy.to_role
role_of (grant_on place grant) = some grant.role
role_of (revoke_on place grant) = some grant.role
role_of (create_index place index) = none
role_of (drop_index place name) = none

abbrev pub has_role : (roles : List String) → Option String → Bool
has_role roles none = true
has_role roles (some role) = contains role roles

abbrev pub text_of_role : Option String → String
text_of_role none = ""
text_of_role (some role) = role

abbrev where_known : Bool → Statement → Catalogue → Result SqlError Catalogue
where_known true s c = take_effect s c
where_known false s c = raise (undefined (text_of_role (role_of s)))

unfoldable pub execute : (roles : List String) → Statement → Catalogue → Result SqlError Catalogue
execute roles s c = where_known (has_role roles (role_of s)) s c

unfoldable pub run : (roles : List String) → List Statement → Catalogue → Result SqlError Catalogue
unfolding execute
run roles [] c = ok c
run roles (s ∷ ss) c = execute roles s c >>= run roles ss

-- Whether statements name none but these roles.
abbrev pub names_only : (roles : List String) → List Statement → Bool
names_only roles [] = true
names_only roles (s ∷ ss) = has_role roles (role_of s) && names_only roles ss

abbrev pub AreRoles : (roles names : List String) → Type 0
AreRoles roles names = All (λ name. contains name roles ≡ true) names

has_role_more :
    (roles names : List String) (role : Option String)
    → AreRoles roles names
    → has_role names role ≡ true
    → has_role roles role ≡ true
has_role_more roles names none exist h = refl
has_role_more roles names (some role) exist h =
    All-contains (λ name. contains name roles ≡ true) role names exist h

bind_run :
    (roles : List String) (ss : List Statement) (call : Result SqlError Catalogue)
    → ((c : Catalogue) → run roles ss c ≡ run_effects ss c)
    → (call >>= run roles ss) ≡ (call >>= run_effects ss)
bind_run roles ss (ok c) h = h c
bind_run roles ss (raise e) h = refl

-- Where the roles that they name exist, statements take effect.
pub run-run_effects :
    (roles names : List String) (ss : List Statement) (c : Catalogue)
    → AreRoles roles names
    → names_only names ss ≡ true
    → run roles ss c ≡ run_effects ss c
unfolding run execute run_effects
run-run_effects roles names [] c exist h = refl
run-run_effects roles names (s ∷ ss) c exist h =
    let here : has_role roles (role_of s) ≡ true =
      has_role_more roles names (role_of s) exist (ground (arith, h)) in
    ap (λ known. where_known known s c >>= run roles ss) here
    ∙ bind_run roles ss (take_effect s c)
        (λ c'. run-run_effects roles names ss c' exist (ground (arith, h)))
