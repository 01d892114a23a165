-- ===== src/Integration/Outbox/Counts.antt =====
-- How often an event was handed to the publisher, and how many attempts its row counts.
use karmevo_erp.Integration.Outbox.Attempts.{run-id, ids_kept, run_once_lem}
use karmevo_erp.Integration.Outbox.Runs.{ids, IsKeyed, has_id, RowRun}
use karmevo_erp.Integration.Outbox.{
  OutboxEvent, OutboxMessage, TenantDb, Publisher, message, is_pending, claim_pending, dispatch,
  older, run_once,
}
use karmevo_erp.Platform.Registry.{Uuid}
use karmevo_erp.Prelude.{
  ℕ, zero, suc, ◌+◌, ◌≤◌, Bool, true, false, List, [], ◌∷◌, ◌++◌, map, none, some, ◌≡◌, inl, inr,
  refl, arith, nat_key, keep, any, count, contains, take, All, All-map, All-both, Bool-cases, subst,
  sym, ap, ◌∙◌, sort_by, insert_by, not, ◌&&◌,
}

All-updated :
    {A : Type 0}
    → (Q : A → Type 0) (f : A → A) (xs : List A) → All (λ x. Q (f x)) xs
    → All Q (map f xs)
All-updated Q f [] h = h
All-updated Q f (x ∷ xs) (p, h) = (p, All-updated Q f xs h)

module _ {P : Type 0} where
  abbrev pub deliveries : Uuid → List (OutboxMessage P) → ℕ
  deliveries i sent = count i (map (λ m. m.event_id) sent)

  abbrev is_dispatched : OutboxEvent P → Bool
  is_dispatched e = elim e.dispatched_at [ none ↦ false | some at ↦ true ]

  pub deliveries-append :
      (i : Uuid) (a b : List (OutboxMessage P))
      → deliveries i (a ++ b) ≡ deliveries i a + deliveries i b
  unfolding count
  deliveries-append i [] b = ground arith
  deliveries-append i (m ∷ a) b = ground (arith, deliveries-append i a b)

  deliveries-messages :
      (i : Uuid) (es : List (OutboxEvent P)) → deliveries i (map message es) ≡ count i (ids es)
  unfolding count
  deliveries-messages i [] = refl
  deliveries-messages i (e ∷ es) = ground (arith, deliveries-messages i es)

  count-ids-insert_by :
      (i : Uuid) (e : OutboxEvent P) (es : List (OutboxEvent P))
      → count i (ids (insert_by older e es)) ≡ count i (ids (e ∷ es))
  unfolding insert_by count
  count-ids-insert_by i e [] = refl
  count-ids-insert_by i e (x ∷ es) = ground (arith, count-ids-insert_by i e es)

  count-ids-sort_by :
      (i : Uuid) (es : List (OutboxEvent P)) → count i (ids (sort_by older es)) ≡ count i (ids es)
  unfolding sort_by count
  count-ids-sort_by i [] = refl
  count-ids-sort_by i (e ∷ es) =
      ground (arith, count-ids-insert_by i e (sort_by older es), count-ids-sort_by i es)

  count-ids-keep-le :
      (i : Uuid) (p : OutboxEvent P → Bool) (es : List (OutboxEvent P))
      → count i (ids (keep p es)) ≤ count i (ids es)
  unfolding keep count
  count-ids-keep-le i p [] = ground arith
  count-ids-keep-le i p (e ∷ es) = ground (arith, count-ids-keep-le i p es)

  count-ids-take-le :
      (i : Uuid) (n : ℕ) (es : List (OutboxEvent P)) → count i (ids (take n es)) ≤ count i (ids es)
  unfolding count
  count-ids-take-le i zero es = ground arith
  count-ids-take-le i (suc n) [] = ground arith
  count-ids-take-le i (suc n) (e ∷ es) = ground (arith, count-ids-take-le i n es)

  -- A run claims a row at most as often as the table has it.
  claimed-le :
      (i : Uuid) (locked : List Uuid) (batch_size max_attempts : ℕ) (rows : List (OutboxEvent P))
      → count i (ids (claim_pending locked batch_size max_attempts rows)) ≤ count i (ids rows)
  unfolding claim_pending
  claimed-le i locked batch_size max_attempts rows =
      let fits : OutboxEvent P → Bool =
        λ e. is_pending max_attempts e && not (contains e.outbox_event_id locked) in
      ground (
        arith,
        count-ids-take-le i batch_size (sort_by older (keep fits rows)),
        count-ids-sort_by i (keep fits rows),
        count-ids-keep-le i fits rows,
      )

  count-any :
      (i : Uuid) (es : List (OutboxEvent P)) → any (has_id i) es ≡ true → 1 ≤ count i (ids es)
  unfolding any count
  count-any i [] h = absurd (ground (arith, h))
  count-any i (e ∷ es) h = elim (Bool-cases (any (has_id i) es)) [
    | inl there ↦ ground (arith, count-any i es there)
    | inr gone ↦ ground (arith, h, gone)
  ]

  count-not_any :
      (i : Uuid) (es : List (OutboxEvent P)) → any (has_id i) es ≡ false → count i (ids es) ≡ 0
  unfolding any count
  count-not_any i [] h = refl
  count-not_any i (e ∷ es) h = ground (arith, h, count-not_any i es)

  -- A row whose attempts are counted, `acked` being the messages that committed runs handed over.
  pub record IsCounted (max_attempts : ℕ) (acked : List (OutboxMessage P)) (r : OutboxEvent P)
      : Type 0 where
    pub bounded : r.attempt_count ≤ max_attempts
    pub counted : r.attempt_count ≡ deliveries r.outbox_event_id acked
    pub dispatched : is_dispatched r ≡ true → 1 ≤ r.attempt_count

  -- A table all of whose rows are, and that has a row for each message; `sent` are the messages of all
  -- runs.
  pub record IsSound (max_attempts : ℕ) (sent acked : List (OutboxMessage P)) (db : TenantDb P)
      : Type 0 where
    pub keyed : IsKeyed db.outbox
    pub known : (i : Uuid) → count i (ids db.outbox) ≡ 0 → deliveries i acked ≡ 0
    pub sent_first : (i : Uuid) → deliveries i acked ≤ deliveries i sent
    pub rows : All (IsCounted max_attempts acked) db.outbox

  -- A row that was handed over once more, and one that was not.
  dispatch-IsCounted :
      (publish : Publisher P) (now max_attempts : ℕ) (before acked more : List (OutboxMessage P))
      (r : OutboxEvent P)
      → is_pending max_attempts r ≡ true
      → deliveries r.outbox_event_id more ≡ 1
      → IsCounted max_attempts acked r
      → IsCounted max_attempts (acked ++ more) (dispatch publish now before r).0
  unfolding dispatch is_pending
  dispatch-IsCounted publish now max_attempts before acked more r pending once s = record {
    bounded = ground (arith, pending);
    counted = ground (arith, s.counted, once, deliveries-append r.outbox_event_id acked more);
    dispatched = ground arith;
  }

  kept-IsCounted :
      (max_attempts : ℕ) (acked more : List (OutboxMessage P)) (r : OutboxEvent P)
      → deliveries r.outbox_event_id more ≡ 0
      → IsCounted max_attempts acked r
      → IsCounted max_attempts (acked ++ more) r
  kept-IsCounted max_attempts acked more r never s = record {
    bounded = s.bounded;
    counted = ground (arith, s.counted, never, deliveries-append r.outbox_event_id acked more);
    dispatched = s.dispatched;
  }

  run-IsCounted :
      (publish : Publisher P) (now : ℕ) (locked : List Uuid) (max_attempts : ℕ)
      (events : List (OutboxEvent P)) (acked handed : List (OutboxMessage P)) (r r' : OutboxEvent P)
      → ((i : Uuid) → deliveries i handed ≡ count i (ids events))
      → ((i : Uuid) → count i (ids events) ≤ 1)
      → RowRun publish now locked max_attempts events r r'
      → IsCounted max_attempts acked r
      → IsCounted max_attempts (acked ++ handed) r'
  run-IsCounted publish now locked max_attempts events acked handed r r' same once row s =
      elim (Bool-cases (any (has_id r.outbox_event_id) events)) [
        | inl there ↦
            let (pending, free, before, left) = row.claimed there in
            subst (IsCounted max_attempts (acked ++ handed)) (sym left) (
              dispatch-IsCounted publish now max_attempts before acked handed r pending
                (omega (
                  arith,
                  same r.outbox_event_id,
                  once r.outbox_event_id,
                  count-any r.outbox_event_id events there,
                ))
                s)
        | inr gone ↦ subst (IsCounted max_attempts (acked ++ handed)) (sym (row.unclaimed gone)) (
            kept-IsCounted max_attempts acked handed r
              (same r.outbox_event_id ∙ count-not_any r.outbox_event_id events gone) s)
      ]

  handed_lem :
      (i : Uuid) (sent handed sent' : List (OutboxMessage P)) (events : List (OutboxEvent P))
      → sent' ≡ sent ++ map message events
      → sent' ≡ sent ++ handed
      → deliveries i handed ≡ count i (ids events)
  handed_lem i sent handed sent' events sends split = omega (
    arith,
    ap (deliveries i) (sym sends ∙ split),
    deliveries-append i sent (map message events),
    deliveries-append i sent handed,
    deliveries-messages i events,
  )

  pub committed-IsSound :
      (publish : Publisher P) (now : ℕ) (locked : List Uuid) (batch_size max_attempts : ℕ)
      (sent acked handed : List (OutboxMessage P)) (db : TenantDb P)
      → (run_once publish now locked batch_size max_attempts sent db).1 ≡ sent ++ handed
      → IsSound max_attempts sent acked db
      → IsSound max_attempts
          (sent ++ handed)
          (acked ++ handed)
          (run_once publish now locked batch_size max_attempts sent db).2
  committed-IsSound publish now locked batch_size max_attempts sent acked handed db split s =
      let events = claim_pending locked batch_size max_attempts db.outbox in
      let run = run_once_lem publish now locked batch_size max_attempts sent db s.keyed in
      let same : (i : Uuid) → deliveries i handed ≡ count i (ids events) =
        λ i. handed_lem i sent handed _ events run.sends split in
      let kept : ids (map run.update db.outbox) ≡ ids db.outbox = ids_kept run.update db.outbox (
        All-map _ _ db.outbox (λ r. run-id publish now locked max_attempts events r (run.update r))
          run.each) in
      record {
        keyed = λ i. rw (run.outbox, kept) (s.keyed i);
        known = λ i.
            rw (run.outbox, kept)
              (λ none_left. omega (
                arith,
                none_left,
                s.known i none_left,
                same i,
                claimed-le i locked batch_size max_attempts db.outbox,
                deliveries-append i acked handed,
              ));
        sent_first = λ i. omega (
          arith,
          s.sent_first i,
          deliveries-append i acked handed,
          deliveries-append i sent handed,
        );
        rows = rw run.outbox (
            All-updated _ run.update db.outbox (
              All-map _ _ db.outbox
                (λ r (row, counted).
                  run-IsCounted publish now locked max_attempts events acked handed r (run.update r)
                    same
                    (λ i.
                      omega
                        (arith, s.keyed i, claimed-le i locked batch_size max_attempts db.outbox))
                    row counted)
                (All-both _ _ db.outbox run.each s.rows)));
      }

  pub lost-IsSound :
      (max_attempts : ℕ) (sent acked handed : List (OutboxMessage P)) (db : TenantDb P)
      → IsSound max_attempts sent acked db
      → IsSound max_attempts (sent ++ handed) acked db
  lost-IsSound max_attempts sent acked handed db s = record {
    keyed = s.keyed;
    known = s.known;
    sent_first = λ i. omega (arith, s.sent_first i, deliveries-append i sent handed);
    rows = s.rows;
  }
