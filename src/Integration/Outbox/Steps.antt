-- ===== src/Integration/Outbox/Steps.antt =====
-- The outbox over time: events are enqueued, and runs of the relay are committed, or lost after the
-- publisher has been given their messages.
use karmevo_erp.Integration.Outbox.Counts.{IsCounted, IsSound, committed-IsSound, lost-IsSound}
use karmevo_erp.Integration.Outbox.Runs.{ids}
use karmevo_erp.Integration.Outbox.{
  OutboxEvent, OutboxMessage, TenantDb, Publisher, enqueue, run_once,
}
use Prim.Native.String.{count as char_count}
use karmevo_erp.Platform.Registry.{Uuid, Context, is_context}
use karmevo_erp.Prelude.{
  leb, ℕ, ◌+◌, ◌≤◌, String, true, false, List, [], ◌∷◌, ◌++◌, none, ◌≡◌, inl, inr, refl, arith,
  ◌&&◌, ◌==◌, nat_key, contains, count, count-append, contains_of-count, All-append, Bool-cases,
  subst, sym, ap, ok,
}

-- The messages handed to the publisher, those of them that committed runs handed over, and the tenant
-- database.
abbrev pub State : Type 0 → Type 0
State P = List (OutboxMessage P) × List (OutboxMessage P) × TenantDb P

module _ {P : Type 0} where
  -- What happens, one step at a time.
  pub data Step (max_attempts : ℕ) : State P → State P → Type 0 where
    enqueued :
        (ctx : Context) (new_id now : ℕ) (tenant_id : Uuid) (topic : String) (payload : P)
        (sent acked : List (OutboxMessage P)) (db db' : TenantDb P)
        → contains new_id (ids db.outbox) ≡ false
        → enqueue ctx new_id now tenant_id topic payload db ≡ ok (new_id, db')
        → Step max_attempts (sent, acked, db) (sent, acked, db')
    committed :
        (publish : Publisher P) (now : ℕ) (locked : List Uuid) (batch_size : ℕ)
        (sent acked handed : List (OutboxMessage P)) (db : TenantDb P)
        → (run_once publish now locked batch_size max_attempts sent db).1 ≡ sent ++ handed
        → Step max_attempts
            (sent, acked, db)
            (
              sent ++ handed,
              acked ++ handed,
              (run_once publish now locked batch_size max_attempts sent db).2,
            )
    lost :
        (publish : Publisher P) (now : ℕ) (locked : List Uuid) (batch_size : ℕ)
        (sent acked handed : List (OutboxMessage P)) (db : TenantDb P)
        → (run_once publish now locked batch_size max_attempts sent db).1 ≡ sent ++ handed
        → Step max_attempts (sent, acked, db) (sent ++ handed, acked, db)

  pub data Steps (max_attempts : ℕ) : State P → State P → Type 0 where
    start : (s : State P) → Steps max_attempts s s
    then_step :
        {s s' s'' : State P}
        → Steps max_attempts s s'
        → Step max_attempts s' s''
        → Steps max_attempts s s''

  abbrev new_event : (new_id now : ℕ) (tenant_id : Uuid) → String → P → OutboxEvent P
  new_event new_id now tenant_id topic payload = record {
    outbox_event_id = new_id;
    tenant_id = tenant_id;
    event_topic = topic;
    event_payload = payload;
    occurred_at = now;
    dispatched_at = none;
    attempt_count = 0;
    last_error = none;
  }

  -- An event that is enqueued is the one new row, of the session's tenant, which owns the database.
  pub enqueue-eq-ok :
      (ctx : Context) (new_id now : ℕ) (tenant_id : Uuid) (topic : String) (payload : P)
      (db db' : TenantDb P) (i : Uuid)
      → enqueue ctx new_id now tenant_id topic payload db ≡ ok (i, db')
      → (db'
          ≡ record db { outbox = db.outbox ++ new_event new_id now tenant_id topic payload ∷ [] })
        × (i ≡ new_id)
        × (is_context ctx.tenant tenant_id ≡ true)
        × (tenant_id ≡ db.owner)
  unfolding enqueue
  enqueue-eq-ok ctx new_id now tenant_id topic payload db db' i h =
      elim (Bool-cases
        (is_context ctx.tenant tenant_id && leb (char_count topic) 200 && tenant_id == db.owner)) [
          | inl fits ↦ (
            ground (arith, h, fits),
            ground (arith, h, fits),
            ground (arith, fits),
            ground (arith, fits),
          )
          | inr not_fit ↦ absurd (ground (arith, h, not_fit))
        ]

  ids-append : (xs ys : List (OutboxEvent P)) → ids (xs ++ ys) ≡ ids xs ++ ids ys
  ids-append [] ys = refl
  ids-append (x ∷ xs) ys = ap (λ l. x.outbox_event_id ∷ l) (ids-append xs ys)

  unused :
      (i : Uuid) (rows : List (OutboxEvent P))
      → contains i (ids rows) ≡ false
      → count i (ids rows) ≡ 0
  unused i rows fresh = ground (arith, fresh, contains_of-count {K = Uuid} i (ids rows))

  one_more :
      (i new_id : Uuid) (rows : List (OutboxEvent P))
      → count new_id (ids rows) ≡ 0
      → count i (ids rows) ≤ 1
      → count i (ids rows) + count i (new_id ∷ []) ≤ 1
  unfolding count
  one_more i new_id rows zero le = elim (nat_key.dec i new_id) [
    | yes same ↦ ground (arith, zero, ap (λ j. count j (ids rows)) same)
    | no other ↦ ground (arith, le)
  ]

  added-IsSound :
      (max_attempts : ℕ) (sent acked : List (OutboxMessage P)) (db : TenantDb P) (new_id now : ℕ)
      (tenant_id : Uuid) (topic : String) (payload : P)
      → contains new_id (ids db.outbox) ≡ false
      → IsSound max_attempts sent acked db
      → IsSound max_attempts sent acked
          (record db { outbox = db.outbox ++ new_event new_id now tenant_id topic payload ∷ [] })
  unfolding count
  added-IsSound max_attempts sent acked db new_id now tenant_id topic payload fresh s =
      let e = new_event new_id now tenant_id topic payload in
      record {
        keyed = λ i.
            rw (ids-append db.outbox (e ∷ []), count-append i (ids db.outbox) (new_id ∷ []))
              (one_more i new_id db.outbox (unused new_id db.outbox fresh) (s.keyed i));
        known = λ i.
            rw (ids-append db.outbox (e ∷ []), count-append i (ids db.outbox) (new_id ∷ []))
              (λ none_left. s.known i (omega (arith, none_left)));
        sent_first = s.sent_first;
        rows = All-append (IsCounted max_attempts acked) db.outbox (e ∷ []) s.rows (
          record {
            bounded = ground arith;
            counted = sym (s.known new_id (unused new_id db.outbox fresh));
            dispatched = λ c. absurd (ground (arith, c));
          },
          tt,
        );
      }

  Step-IsSound :
      (max_attempts : ℕ) (s s' : State P)
      → Step max_attempts s s'
      → IsSound max_attempts s.0 s.1 s.2
      → IsSound max_attempts s'.0 s'.1 s'.2
  Step-IsSound max_attempts _ _ (enqueued ctx new_id now t topic payload sent acked db db' fresh e)
        sound =
      let (left, same, mine, owned) =
        enqueue-eq-ok ctx new_id now t topic payload db db' new_id e in
      subst (IsSound max_attempts sent acked) (sym left)
        (added-IsSound max_attempts sent acked db new_id now t topic payload fresh sound)
  Step-IsSound max_attempts _ _ (committed publish now locked batch_size sent acked handed db split)
        sound =
      committed-IsSound publish now locked batch_size max_attempts sent acked handed db split sound
  Step-IsSound max_attempts _ _ (lost publish now locked batch_size sent acked handed db split)
        sound =
      lost-IsSound max_attempts sent acked handed db sound

  started : (max_attempts : ℕ) (db : TenantDb P) → db.outbox ≡ [] → IsSound max_attempts [] [] db
  unfolding count
  started max_attempts db empty = record {
    keyed = λ i. rw empty (ground arith);
    known = λ i _. refl;
    sent_first = λ i. ground arith;
    rows = rw empty tt;
  }

  from_start :
      (max_attempts : ℕ) (s s' : State P)
      → Steps max_attempts s s'
      → IsSound max_attempts s.0 s.1 s.2
      → IsSound max_attempts s'.0 s'.1 s'.2
  from_start max_attempts _ _ (start s) sound = sound
  from_start max_attempts s _ (then_step {s' = m} {s'' = s''} before last) sound =
      Step-IsSound max_attempts m s'' last (from_start max_attempts s m before sound)

  -- Whatever events are enqueued under unused ids and whatever runs of the relay are committed or
  -- lost, from a tenant database with an empty outbox, before anything is handed over: ids stay unique;
  -- each row counts just as many attempts as committed runs handed its event to the publisher, whether
  -- that succeeded or not, and no more than `max_attempts`; the publisher was given an event at least as
  -- often; an event marked as dispatched has an attempt; and nothing but events of the table is handed
  -- over by committed runs.
  pub Steps-IsSound :
      (max_attempts : ℕ) (db : TenantDb P) (s' : State P)
      → Steps max_attempts ([], [], db) s'
      → db.outbox ≡ []
      → IsSound max_attempts s'.0 s'.1 s'.2
  Steps-IsSound max_attempts db s' steps empty =
      from_start max_attempts ([], [], db) s' steps (started max_attempts db empty)
