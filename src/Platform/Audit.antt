-- ===== src/Platform/Audit.antt =====
-- backend/src/erp/modules/platform/audit.py with the table "AuditEvents" of models.py and
-- `AuditEventRepository` of repository.py. A value of the details is a text, another value of no
-- parts, a list or a mapping with texts as keys. `lower` is Python's `str.lower`.
pub mod Masking
pub mod Paths
pub mod Trail
use Prim.Native.String.{count as char_count}
use karmevo_erp.Platform.Registry.{Uuid, Failure, database_error, Context, is_context}
use karmevo_erp.Prelude.{
  ℕ, String, Bool, true, false, ◌&&◌, ◌||◌, not, List, [], ◌∷◌, ◌++◌, Option, none, some, ◌==◌,
  nat_key, if◌then◌else◌, any, starts_with, leb, Result, ok, raise,
}

mutual
  pub data Value (X : Type 0) : Type 0 where
    text : String → Value X
    other : X → Value X
    items : Items X → Value X
    mapping : Fields X → Value X

  pub data Items (X : Type 0) : Type 0 where
    nil : Items X
    item : Value X → Items X → Items X

  pub data Fields (X : Type 0) : Type 0 where
    end : Fields X
    field : String → Value X → Fields X → Fields X

-- `Redactor.REDACTED` and `Redactor.MARKERS`
abbrev pub redacted : String
redacted = "[REDACTED]"

abbrev pub markers : List String
markers =
    "password" ∷ "secret" ∷ "token" ∷ "authorization" ∷ "salary" ∷ "bank_account" ∷ "card_number"
    ∷ []

-- `marker in s`
unfoldable pub occurs : String → String → Bool
unfolding starts_with
occurs marker String.[] = starts_with marker String.[]
occurs marker (String.◌∷◌ c cs) = starts_with marker (String.◌∷◌ c cs) || occurs marker cs

module _ (lower : String → String) where
  unfoldable pub is_sensitive : String → Bool
  is_sensitive key = any (λ marker. occurs marker (lower key)) markers

  unfoldable mutual
    pub redact : {X : Type 0} → Value X → Value X
    redact (text s) = text s
    redact (other x) = other x
    redact (items vs) = items (redact_items vs)
    redact (mapping fs) = mapping (redact_fields fs)

    pub redact_items : {X : Type 0} → Items X → Items X
    redact_items nil = nil
    redact_items (item v vs) = item (redact v) (redact_items vs)

    pub redact_fields : {X : Type 0} → Fields X → Fields X
    redact_fields end = end
    redact_fields (field k v fs) =
        let masked = redact v in
        let rest = redact_fields fs in
        field k (if is_sensitive k then text redacted else masked) rest

pub data Outcome : Type 0 where
  success denied failure : Outcome

pub record AuditEvent (X : Type 0) : Type 0 where
  pub audit_event_id : Uuid
  pub tenant_id : Uuid
  pub occurred_at : ℕ
  pub actor_identity_id : Option Uuid
  pub audit_action : String
  pub target_type : String
  pub target_id : Option String
  pub audit_outcome : Outcome
  pub audit_reason : Option String
  pub audit_details : Value X

-- What the caller of `record` says of an event.
pub record Entry (X : Type 0) : Type 0 where
  pub tenant_id : Uuid
  pub actor_identity_id : Option Uuid
  pub action : String
  pub target_type : String
  pub target_id : Option String
  pub outcome : Outcome
  pub reason : Option String
  pub details : Option (Fields X)

abbrev pub fits_in : ℕ → Option String → Bool
fits_in n none = true
fits_in n (some s) = leb (char_count s) n

-- `AuditEventRepository.add`, in a database of the tenant `owner`: the policy's WITH CHECK, the widths
-- of the columns and the constraints of the table.
unfoldable pub add_event :
    {X : Type 0}
    → Context
    → (owner : Uuid) → AuditEvent X
    → List (AuditEvent X)
    → Result Failure (List (AuditEvent X))
add_event {X} ctx owner event events =
    if not (is_context ctx.tenant event.tenant_id)
    then raise (database_error "row-level security")
    else if not (
        leb (char_count event.audit_action) 100
        && leb (char_count event.target_type) 100
        && fits_in 100 event.target_id)
    then raise (database_error "value too long")
    else if any (λ (e : AuditEvent X). e.audit_event_id == event.audit_event_id) events
    then raise (database_error "duplicate key")
    else if not (event.tenant_id == owner)
    then raise (database_error "foreign key")
    else ok (events ++ event ∷ [])

-- `dict(details or {})`
abbrev pub details_of : {X : Type 0} → Option (Fields X) → Fields X
details_of none = end
details_of (some fs) = fs

-- The row that `record` adds; the database makes its key and its time.
unfoldable pub event_of :
    {X : Type 0} → (lower : String → String) → Uuid → ℕ → Entry X → AuditEvent X
event_of lower new_id now entry = record {
  audit_event_id = new_id;
  tenant_id = entry.tenant_id;
  occurred_at = now;
  actor_identity_id = entry.actor_identity_id;
  audit_action = entry.action;
  target_type = entry.target_type;
  target_id = entry.target_id;
  audit_outcome = entry.outcome;
  audit_reason = entry.reason;
  audit_details = redact lower (mapping (details_of entry.details));
}

-- `AuditTrail.record`
unfoldable pub record_event :
    {X : Type 0}
    → (lower : String → String) → (new_id : Uuid) → (now : ℕ) → Context
    → (owner : Uuid) → Entry X
    → List (AuditEvent X)
    → Result Failure (Uuid × List (AuditEvent X))
unfolding add_event event_of
record_event lower new_id now ctx owner entry events =
    elim (add_event ctx owner (event_of lower new_id now entry) events) [
      | ok after ↦ ok (new_id, after)
      | raise e ↦ raise e
    ]
