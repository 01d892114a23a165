-- ===== src/Integration/Outbox.antt =====
-- backend/src/erp/modules/integration: the transactional outbox (outbox.py, repository.py and the
-- tables of models.py). Each tenant database has a table of events to publish and a table of the
-- events that its consumers have handled. The payload, a JSON value, is the type `P`.
-- The publisher is not part of the program: it is a function `publish sent message` of the
-- messages passed to it before, which returns (`none`) or raises (`some text`). What it was given
-- stays given, also where the transaction of the relay is lost.
pub mod Runs
pub mod Attempts
pub mod Counts
pub mod Steps
pub mod Inbox
use Prim.Native.String.{count as char_count}
use karmevo_erp.Platform.Registry.{
  Uuid, Failure, database_error, Context, tenant_session, platform_session, is_context, transaction,
}
use karmevo_erp.Prelude.{
  ℕ, ◌+◌, String, Bool, true, false, not, ◌&&◌, ◌||◌, List, [], ◌∷◌, ◌++◌, map, Option, none, some,
  if◌then◌else◌, ◌==◌, nat_key, string_key, ltb, leb, keep, any, find_first, take, sort_by,
  contains, take_chars, Result, ok, raise, ◌>>=◌,
}

pub record OutboxEvent (P : Type 0) : Type 0 where
  pub outbox_event_id : Uuid
  pub tenant_id : Uuid
  pub event_topic : String
  pub event_payload : P
  pub occurred_at : ℕ
  pub dispatched_at : Option ℕ
  pub attempt_count : ℕ
  pub last_error : Option String

pub record ProcessedEvent : Type 0 where
  pub consumer_name : String
  pub event_id : Uuid
  pub tenant_id : Uuid
  pub processed_at : ℕ

pub record OutboxMessage (P : Type 0) : Type 0 where
  pub event_id : Uuid
  pub tenant_id : Uuid
  pub topic : String
  pub payload : P

-- The tables of one tenant database, and the tenant that it is bound to.
pub record TenantDb (P : Type 0) : Type 0 where
  pub owner : Uuid
  pub outbox : List (OutboxEvent P)
  pub processed : List ProcessedEvent

-- What the publisher does with a message, after the messages `sent`.
abbrev pub Publisher : Type 0 → Type 0
Publisher P = (sent : List (OutboxMessage P)) → OutboxMessage P → Option String

abbrev pub is_none : {A : Type 0} → Option A → Bool
is_none none = true
is_none (some a) = false

-- The primary key of "ProcessedEvents" is the pair (consumer, event).
unfoldable pub is_key : String → Uuid → ProcessedEvent → Bool
is_key consumer event_id r = r.consumer_name == consumer && r.event_id == event_id

module _ {P : Type 0} where
  -- `Outbox.enqueue` in a session with context `ctx`: the row is written if it belongs to the
  -- context (row-level security) and to the database's owner (foreign key), and its topic fits.
  unfoldable pub enqueue :
      Context
      → (new_id now : ℕ) → (tenant_id : Uuid) → String
      → P
      → TenantDb P
      → Result Failure (Uuid × TenantDb P)
  enqueue ctx new_id now tenant_id topic payload db =
      if not (is_context ctx.tenant tenant_id)
      then raise (database_error "row-level security")
      else if not (leb (char_count topic) 200)
      then raise (database_error "value too long")
      else if not (tenant_id == db.owner)
      then raise (database_error "foreign key")
      else ok (
        new_id,
        record db {
          outbox =
              db.outbox
              ++ record {
                outbox_event_id = new_id;
                tenant_id = tenant_id;
                event_topic = topic;
                event_payload = payload;
                occurred_at = now;
                dispatched_at = none;
                attempt_count = 0;
                last_error = none;
              }
                ∷ [];
        },
      )

  -- `ORDER BY "occurredAt", "outboxEventId"`
  unfoldable pub older : OutboxEvent P → OutboxEvent P → Bool
  older a b =
      if a.occurred_at == b.occurred_at
      then leb a.outbox_event_id b.outbox_event_id
      else leb a.occurred_at b.occurred_at

  -- The WHERE of `claim_pending`, and FOR UPDATE SKIP LOCKED: `locked` are the rows that other
  -- transactions hold.
  unfoldable pub is_pending : ℕ → OutboxEvent P → Bool
  is_pending max_attempts e = is_none e.dispatched_at && ltb e.attempt_count max_attempts

  unfoldable pub claim_pending :
      (locked : List Uuid) (batch_size max_attempts : ℕ)
      → List (OutboxEvent P)
      → List (OutboxEvent P)
  unfolding is_pending older
  claim_pending locked batch_size max_attempts rows = take batch_size (
      sort_by older
        (keep (λ e. is_pending max_attempts e && not (contains e.outbox_event_id locked)) rows))

  abbrev pub message : OutboxEvent P → OutboxMessage P
  message e = record {
    event_id = e.outbox_event_id;
    tenant_id = e.tenant_id;
    topic = e.event_topic;
    payload = e.event_payload;
  }

  -- `_dispatch`: the event as it leaves the method, and whether it was published.
  unfoldable pub dispatch :
      Publisher P → ℕ → List (OutboxMessage P) → OutboxEvent P → OutboxEvent P × Bool
  dispatch publish now sent e =
      let tried = record e { attempt_count = e.attempt_count + 1 } in
      elim (publish sent (message e)) [
        | none ↦ (record tried { dispatched_at = some now }, true)
        | some exc ↦ (record tried { last_error = some (take_chars 500 exc) }, false)
      ]

  -- The `for` loop of `run_once`: the events as they are left, the number published, and the
  -- messages handed to the publisher.
  unfoldable pub dispatch_all :
      Publisher P
      → ℕ
      → List (OutboxMessage P)
      → List (OutboxEvent P)
      → List (OutboxEvent P) × ℕ × List (OutboxMessage P)
  dispatch_all publish now sent [] = ([], 0, sent)
  dispatch_all publish now sent (e ∷ es) =
      let (e', done) = dispatch publish now sent e in
      let (es', published, sent') = dispatch_all publish now (sent ++ message e ∷ []) es in
      (e' ∷ es', (if done then published + 1 else published), sent')

  -- The commit writes each changed event to the row of its id.
  unfoldable pub written : List (OutboxEvent P) → OutboxEvent P → OutboxEvent P
  written changed row = elim (find_first (λ e. e.outbox_event_id == row.outbox_event_id) changed) [
    | none ↦ row
    | some e ↦ e
  ]

  unfoldable pub run_once :
      Publisher P
      → ℕ
      → (locked : List Uuid) (batch_size max_attempts : ℕ) → List (OutboxMessage P)
      → TenantDb P
      → ℕ × List (OutboxMessage P) × TenantDb P
  run_once publish now locked batch_size max_attempts sent db =
      let events = claim_pending locked batch_size max_attempts db.outbox in
      let (changed, published, sent') = dispatch_all publish now sent events in
      (published, sent', record db { outbox = map (written changed) db.outbox })

  -- `EventInbox.consume_once`, the INSERT … ON CONFLICT DO NOTHING of the key (consumer, event):
  -- whether a row was inserted.
  unfoldable pub consume_once :
      Context → ℕ → String → OutboxMessage P → TenantDb P → Result Failure (Bool × TenantDb P)
  unfolding is_key
  consume_once ctx now consumer m db =
      if not (is_context ctx.tenant m.tenant_id)
      then raise (database_error "row-level security")
      else if not (leb (char_count consumer) 100)
      then raise (database_error "value too long")
      else if any (is_key consumer m.event_id) db.processed
      then ok (false, db)
      else if not (m.tenant_id == db.owner)
      then raise (database_error "foreign key")
      else ok (
        true,
        record db {
          processed =
              db.processed
              ++ record {
                consumer_name = consumer;
                event_id = m.event_id;
                tenant_id = m.tenant_id;
                processed_at = now;
              }
                ∷ [];
        },
      )
