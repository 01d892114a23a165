-- ===== src/Integration/Outbox/Inbox.antt =====
-- The consumers of the events: the effects of a delivery are applied in the transaction of its
-- `consume_once`, when that returns true.
use karmevo_erp.Integration.Outbox.{OutboxMessage, TenantDb, ProcessedEvent, is_key, consume_once}
use Prim.Native.String.{count as char_count}
use karmevo_erp.Platform.Registry.{Uuid, Failure, Context, is_context}
use karmevo_erp.Prelude.{
  leb, ℕ, ◌+◌, String, Bool, true, false, not, ◌&&◌, ◌||◌, List, [], ◌∷◌, ◌++◌, ◌≡◌, refl, arith,
  if◌then◌else◌, ◌==◌, nat_key, string_key, any, Bool-cases, ◌⊎◌, inl, inr, subst, ap, Result, ok,
  raise,
}

any-append :
    {A : Type 0} → (p : A → Bool) (xs ys : List A) → any p (xs ++ ys) ≡ any p xs || any p ys
unfolding any
any-append p [] ys = refl
any-append p (x ∷ xs) ys = ground (arith, any-append p xs ys)

same_key :
    (c consumer : String) (i event_id : Uuid) (rows : List ProcessedEvent)
    → (consumer == c && event_id == i) ≡ true
    → any (is_key c i) rows ≡ any (is_key consumer event_id) rows
same_key c consumer i event_id rows h =
    let same_c : consumer ≡ c = ground (arith, h) in
    let same_i : event_id ≡ i = ground (arith, h) in rw (same_c, same_i)

Result-cases : {E A : Type 0} (m : Result E A) → ((a : A) × (m ≡ ok a)) ⊎ ((e : E) × (m ≡ raise e))
Result-cases (ok a) = inl (a, refl)
Result-cases (raise e) = inr (e, refl)

one_row_key :
    (c : String) (i : Uuid) (row : ProcessedEvent) (rows : List ProcessedEvent)
    → (any (is_key c i) rows || any (is_key c i) (row ∷ []))
      ≡ any (is_key c i) rows || (row.consumer_name == c && row.event_id == i)
unfolding any is_key
one_row_key c i row rows = ground arith

module _ {P : Type 0} (ctx : Context) (now : ℕ) where
  -- How often the effects of event `i` are applied for consumer `c` over deliveries, each in its
  -- own transaction: one that raises leaves the database as it was.
  unfoldable pub applied : String → Uuid → List (String × OutboxMessage P) → TenantDb P → ℕ
  applied c i [] db = 0
  applied c i ((consumer, m) ∷ deliveries) db = elim (consume_once ctx now consumer m db) [
    | ok (fresh, db') ↦
        let rest = applied c i deliveries db' in
        if fresh && (consumer == c && m.event_id == i) then rest + 1 else rest
    | raise failure ↦ applied c i deliveries db
  ]

  -- A delivery of the event to the consumer that the database accepts.
  abbrev pub is_delivery : Uuid → String → Uuid → String × OutboxMessage P → Bool
  is_delivery owner c i (consumer, m) =
      consumer == c
      && m.event_id == i
      && leb (char_count consumer) 100
      && is_context ctx.tenant m.tenant_id
      && m.tenant_id == owner

  -- What a delivery does to the record of what is handled.
  pub record IsConsumed (consumer : String) (m : OutboxMessage P) (db db' : TenantDb P)
      (fresh : Bool) : Type 0 where
    pub owner : db'.owner ≡ db.owner
    pub accepted :
        fresh ≡ true
        → (leb (char_count consumer) 100
            && is_context ctx.tenant m.tenant_id
            && m.tenant_id == db.owner)
          ≡ true
    pub answer : fresh ≡ not (any (is_key consumer m.event_id) db.processed)
    pub marked :
        (c : String) (i : Uuid)
        → any (is_key c i) db'.processed
          ≡ any (is_key c i) db.processed || (consumer == c && m.event_id == i)

  consume_once_lem :
      (consumer : String) (m : OutboxMessage P) (db db' : TenantDb P) (fresh : Bool)
      → consume_once ctx now consumer m db ≡ ok (fresh, db')
      → IsConsumed consumer m db db' fresh
  unfolding consume_once
  consume_once_lem consumer m db db' fresh h =
      elim (Bool-cases (any (is_key consumer m.event_id) db.processed)) [
        | inl handled ↦
            let left : db' ≡ db = ground (arith, h, handled) in
            record {
              owner = ap (λ d. d.owner) left;
              accepted = λ f. absurd (ground (arith, f, h, handled));
              answer = ground (arith, h, handled);
              marked = λ c i.
                  rw left (ground (arith, handled, same_key c consumer i m.event_id db.processed));
            }
        | inr first ↦
            let row : ProcessedEvent = record {
              consumer_name = consumer;
              event_id = m.event_id;
              tenant_id = m.tenant_id;
              processed_at = now;
            } in
            let left : db'.processed ≡ db.processed ++ row ∷ [] = ground (arith, h, first) in
            record {
              owner = ground (arith, h, first);
              accepted = λ f. ground (arith, f, h, first);
              answer = ground (arith, h, first);
              marked = λ c i.
                  rw (left, any-append (is_key c i) db.processed (row ∷ []))
                    (one_row_key c i row db.processed);
            }
      ]

  consume_once-raise :
      (consumer : String) (m : OutboxMessage P) (db : TenantDb P) (f : Failure)
      → consume_once ctx now consumer m db ≡ raise f
      → (leb (char_count consumer) 100
          && is_context ctx.tenant m.tenant_id
          && m.tenant_id == db.owner)
        ≡ false
  unfolding consume_once
  consume_once-raise consumer m db f h = ground (arith, h)

  -- Exactly-once effects: over any deliveries, the effects of an event are applied for a consumer
  -- not at all if the event was handled before, and else once if the database accepts one of the
  -- deliveries of the event to that consumer, however often it is delivered.
  pub applied_lem :
      (c : String) (i : Uuid) (deliveries : List (String × OutboxMessage P)) (db : TenantDb P)
      → applied c i deliveries db ≡ (
          if not (any (is_key c i) db.processed) && any (is_delivery db.owner c i) deliveries
          then 1
          else 0)
  unfolding applied any
  applied_lem c i [] db = ground arith
  applied_lem c i ((consumer, m) ∷ deliveries) db =
      elim (Result-cases (consume_once ctx now consumer m db)) [
        | inl ((fresh, db'), done) ↦
            let step = consume_once_lem consumer m db db' fresh done in
            rw (applied, done)
              (ground (
                arith,
                step.answer,
                step.accepted,
                step.marked c i,
                same_key c consumer i m.event_id db.processed,
                subst
                    (λ o. applied c i deliveries db' ≡ (
                      if not (any (is_key c i) db'.processed) && any (is_delivery o c i) deliveries
                      then 1
                      else 0))
                    step.owner (applied_lem c i deliveries db'),
              ))
        | inr (failure, refused) ↦
            rw (applied, refused)
              (ground (
                arith,
                consume_once-raise consumer m db failure refused,
                applied_lem c i deliveries db,
              ))
      ]
