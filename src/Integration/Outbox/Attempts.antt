-- ===== src/Integration/Outbox/Attempts.antt =====
-- One run of the relay as a whole: the messages it hands over, and what it leaves of each row.
use karmevo_erp.Integration.Outbox.Runs.{ids, dispatch-id, IsKeyed, has_id, RowRun, written-RowRun}
use karmevo_erp.Integration.Outbox.{
  OutboxEvent, OutboxMessage, TenantDb, Publisher, message, is_pending, claim_pending, dispatch_all,
  older, written, run_once,
}
use karmevo_erp.Platform.Registry.{Uuid}
use mathlib.Core.List.{append-nil, append_assoc}
use karmevo_erp.Prelude.{
  ℕ, ◌≤◌, List, [], ◌∷◌, ◌++◌, map, ◌≡◌, inl, inr, refl, arith, nat_key, keep, any, length,
  contains, All, All-map, All-Any, Bool-cases, sym, ◌∙◌, length-take, sort_by, ◌&&◌, not,
}

module _ {P : Type 0} where
  pub dispatch_all-sent :
      (publish : Publisher P) (now : ℕ) (sent : List (OutboxMessage P)) (es : List (OutboxEvent P))
      → (dispatch_all publish now sent es).2 ≡ sent ++ map message es
  unfolding dispatch_all
  dispatch_all-sent publish now sent [] = sym (append-nil sent)
  dispatch_all-sent publish now sent (e ∷ es) =
      dispatch_all-sent publish now (sent ++ message e ∷ []) es
      ∙ append_assoc sent (message e ∷ []) (map message es)

  claimed_at_most :
      (locked : List Uuid) (batch_size max_attempts : ℕ) (rows : List (OutboxEvent P))
      → length (claim_pending locked batch_size max_attempts rows) ≤ batch_size
  unfolding claim_pending
  claimed_at_most locked batch_size max_attempts rows = ground (
    arith,
    length-take batch_size (
        sort_by older
          (keep (λ e. is_pending max_attempts e && not (contains e.outbox_event_id locked)) rows)),
  )

  pub ids_kept :
      (f : OutboxEvent P → OutboxEvent P) (rows : List (OutboxEvent P))
      → All (λ r. (f r).outbox_event_id ≡ r.outbox_event_id) rows
      → ids (map f rows) ≡ ids rows
  ids_kept f [] h = refl
  ids_kept f (r ∷ rows) (e, h) = rw (e, ids_kept f rows h)

  pub run-id :
      (publish : Publisher P) (now : ℕ) (locked : List Uuid) (max_attempts : ℕ)
      (events : List (OutboxEvent P)) (r r' : OutboxEvent P)
      → RowRun publish now locked max_attempts events r r'
      → r'.outbox_event_id ≡ r.outbox_event_id
  run-id publish now locked max_attempts events r r' row =
      elim (Bool-cases (any (has_id r.outbox_event_id) events)) [
        | inl there ↦
            let (pending, free, before, left) = row.claimed there in
            rw left (dispatch-id publish now before r)
        | inr gone ↦ rw (row.unclaimed gone)
      ]

  -- What one run of the relay does: the messages of the claimed events are handed to the
  -- publisher in order, and each row is left as `RowRun` says.
  pub record IsRun (publish : Publisher P) (now : ℕ) (locked : List Uuid)
      (batch_size max_attempts : ℕ) (sent : List (OutboxMessage P)) (db : TenantDb P)
      (sent' : List (OutboxMessage P)) (db' : TenantDb P) : Type 0 where
    pub update : OutboxEvent P → OutboxEvent P
    pub sends : sent' ≡ sent ++ map message (claim_pending locked batch_size max_attempts db.outbox)
    pub at_most : length (claim_pending locked batch_size max_attempts db.outbox) ≤ batch_size
    pub rest : (db'.owner ≡ db.owner) × (db'.processed ≡ db.processed)
    pub outbox : db'.outbox ≡ map update db.outbox
    pub each :
        All
          (λ r.
            RowRun publish now locked max_attempts
              (claim_pending locked batch_size max_attempts db.outbox)
              r
              (update r))
          db.outbox

  -- A run of the relay over a table with unique ids claims at most `batch_size` rows, hands their
  -- messages to the publisher, and leaves every row as it was or, if it claimed the row (which was
  -- pending, with attempts left, and held by nobody else), as `_dispatch` leaves it.
  pub run_once_lem :
      (publish : Publisher P) (now : ℕ) (locked : List Uuid) (batch_size max_attempts : ℕ)
      (sent : List (OutboxMessage P)) (db : TenantDb P)
      → IsKeyed db.outbox
      → IsRun publish now locked batch_size max_attempts sent db
          (run_once publish now locked batch_size max_attempts sent db).1
          (run_once publish now locked batch_size max_attempts sent db).2
  unfolding run_once
  run_once_lem publish now locked batch_size max_attempts sent db keyed =
      let events = claim_pending locked batch_size max_attempts db.outbox in
      record {
        update = written (dispatch_all publish now sent events).0;
        sends = dispatch_all-sent publish now sent events;
        at_most = claimed_at_most locked batch_size max_attempts db.outbox;
        rest = (refl, refl);
        outbox = refl;
        each =
            All-map _ _ db.outbox
              (λ r there.
                written-RowRun publish now locked batch_size max_attempts sent db.outbox keyed r
                  there)
              (All-Any db.outbox);
      }
