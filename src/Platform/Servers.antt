-- ===== src/Platform/Servers.antt =====
-- The servers on which tenant databases are, as backend/src/erp/modules/platform/provisioning.py uses
-- them. PostgreSQL and Alembic are not part of the program: `Outside` says which statement fails, what
-- the head of the migrations is, and where a migration that fails leaves a database. A statement that
-- fails has no other effect. Two server keys are two servers, and the registry does not fail.
pub mod Commands
pub mod Keeping
pub mod Frames
pub mod Effects
use karmevo_erp.Core.Databases.{ValueError}
use karmevo_erp.Platform.Registry.{Uuid, Registry, Failure}
use karmevo_erp.Prelude.{
  ℕ, String, Bool, true, false, not, ◌&&◌, List, [], ◌∷◌, ◌++◌, map, Option, none, some,
  if◌then◌else◌, ◌==◌, string_key, nat_key, any, find_first, Result, ok, raise,
}

-- The statements that are sent to the servers, and the runs of Alembic.
pub data Op : Type 0 where
  select_database create_database revoke_public upgrade_head read_revision :
      (server name : String) → Op
  grant_role : (server name role : String) → Op
  insert_owner : (server name : String) → Uuid → Op

pub record Outside : Type 0 where
  pub fault : List Op → Op → Option String
  pub head : String
  pub left_at : List Op → Option String → Option String

-- The exceptions that end a step. `server_error` holds the class and the text of those that the
-- driver and Alembic raise.
pub data Trouble : Type 0 where
  not_found : Trouble
  missing_tenant_database : (name : String) → Trouble
  belongs_to : (name : String) → Uuid → Trouble
  value_error server_error : String → Trouble
  not_added : Failure → Trouble

pub record TenantDatabase : Type 0 where
  pub server : String
  pub name : String
  pub owner_role : String
  pub public_connect : Bool
  pub granted : List String
  pub revision : Option String
  pub bound : Option Uuid

pub record World : Type 0 where
  pub registry : Registry
  pub databases : List TenantDatabase
  pub log : List Op

-- A call changes the world, whether it returns or raises.
abbrev pub M : Type 0 → Type 0
M A = World → Result Trouble A × World

abbrev pub after : {A B : Type 0} → (A → M B) → Result Trouble A × World → Result Trouble B × World
after f (ok a, w) = f a w
after f (raise e, w) = (raise e, w)

infixl 5 ◌>>=◌ ◌>>◌
abbrev pub ◌>>=◌ : {A B : Type 0} → M A → (A → M B) → M B
◌>>=◌ m f w = after f (m w)

abbrev pub ◌>>◌ : {A B : Type 0} → M A → M B → M B
◌>>◌ m k w = after (λ ignored. k) (m w)

abbrev pub pure : {A : Type 0} → A → M A
pure a w = (ok a, w)

abbrev pub throw : {A : Type 0} → Trouble → M A
throw e w = (raise e, w)

abbrev pub checked : {A : Type 0} → Result ValueError A → M A
checked (ok a) w = (ok a, w)
checked (raise message) w = (raise (value_error message), w)

abbrev pub is_at : String → String → TenantDatabase → Bool
is_at server name d = d.server == server && d.name == name

unfoldable pub find : String → String → List TenantDatabase → Option TenantDatabase
find server name = find_first (is_at server name)

unfoldable pub change :
    String → String → (TenantDatabase → TenantDatabase) → List TenantDatabase → List TenantDatabase
change server name f = map (λ d. if is_at server name d then f d else d)

module _ (out : Outside) where
  unfoldable pub perform : Op → M (Unit {0})
  perform op w =
      let logged = record w { log = w.log ++ op ∷ [] } in
      elim (out.fault w.log op) [
        | none ↦ (ok tt, logged)
        | some text ↦ (raise (server_error text), logged)
      ]

  -- A statement in, or on, an existing database.
  unfoldable pub alter : String → String → (TenantDatabase → TenantDatabase) → M (Unit {0})
  alter server name f w = elim (find server name w.databases) [
    | none ↦ (raise (server_error "OperationalError: database does not exist"), w)
    | some d ↦ (ok tt, record w { databases = change server name f w.databases })
  ]
