-- ===== src/Integration/Outbox/Runs.antt =====
-- What one run of the relay does to each row of the outbox.
use karmevo_erp.Platform.Registry.{Uuid}
use karmevo_erp.Integration.Outbox.{
  OutboxEvent, OutboxMessage, Publisher, message, older, is_pending, claim_pending, dispatch,
  dispatch_all, written,
}
use karmevo_erp.Prelude.{
  ℕ, ◌≤◌, Bool, true, false, not, ◌&&◌, List, [], ◌∷◌, ◌++◌, map, none, some, ◌≡◌, inl, inr, refl,
  arith, ◌==◌, nat_key, keep, any, find_first, sort_by, count, contains, count-pos, All, Any,
  All-Any, All-keep, All-keep_test, All-both, All-take, All-sort_by, find_first-All, find_first-any,
  Option-cases, Bool-cases, sym, ap, ◌∙◌, some-eq,
}

module _ {P : Type 0} where
  abbrev pub ids : List (OutboxEvent P) → List Uuid
  ids = map (λ e. e.outbox_event_id)

  -- "outboxEventId" is the primary key.
  abbrev pub IsKeyed : List (OutboxEvent P) → Type 0
  IsKeyed rows = (i : Uuid) → count i (ids rows) ≤ 1

  abbrev pub has_id : Uuid → OutboxEvent P → Bool
  has_id i e = e.outbox_event_id == i

  contains_of-Any :
      (rows : List (OutboxEvent P)) (r : OutboxEvent P)
      → Any (λ x. x ≡ r) rows
      → contains r.outbox_event_id (ids rows) ≡ true
  unfolding contains
  contains_of-Any [] r h = absurd h
  contains_of-Any (x ∷ rows) r (inl e) =
      ground (arith, ap (λ (y : OutboxEvent P). y.outbox_event_id) e)
  contains_of-Any (x ∷ rows) r (inr h) = ground (arith, contains_of-Any rows r h)

  clash :
      (x r e : OutboxEvent P) (rows : List (OutboxEvent P))
      → count x.outbox_event_id (ids (x ∷ rows)) ≤ 1
      → x ≡ r
      → Any (λ y. y ≡ e) rows
      → e.outbox_event_id ≡ r.outbox_event_id
      → ⊥
  unfolding count
  clash x r e rows le a b same = ground (
    arith,
    le,
    same,
    ap (λ (y : OutboxEvent P). y.outbox_event_id) a,
    count-pos {K = ℕ} e.outbox_event_id (ids rows) (contains_of-Any rows e b),
  )

  -- Two rows of one id are one row.
  one_row :
      (rows : List (OutboxEvent P)) (r e : OutboxEvent P)
      → IsKeyed rows
      → Any (λ x. x ≡ r) rows
      → Any (λ x. x ≡ e) rows
      → e.outbox_event_id ≡ r.outbox_event_id
      → e ≡ r
  unfolding count
  one_row [] r e keyed hr he same = absurd hr
  one_row (x ∷ rows) r e keyed (inl a) (inl b) same = sym b ∙ a
  one_row (x ∷ rows) r e keyed (inl a) (inr b) same =
      absurd (clash x r e rows (keyed x.outbox_event_id) a b same)
  one_row (x ∷ rows) r e keyed (inr a) (inl b) same =
      absurd (clash x e r rows (keyed x.outbox_event_id) b a (sym same))
  one_row (x ∷ rows) r e keyed (inr a) (inr b) same =
      one_row rows r e (λ i. ground (arith, keyed i)) a b same

  module _ (publish : Publisher P) (now : ℕ) where
    pub dispatch-id :
        (sent : List (OutboxMessage P)) (e : OutboxEvent P)
        → (dispatch publish now sent e).0.outbox_event_id ≡ e.outbox_event_id
    unfolding dispatch
    dispatch-id sent e = ground arith

    has_id-dispatch :
        (i : Uuid) (sent : List (OutboxMessage P)) (e : OutboxEvent P)
        → has_id i (dispatch publish now sent e).0 ≡ has_id i e
    has_id-dispatch i sent e = rw (dispatch-id sent e)

    -- The changed event of an id comes from the claimed event of that id.
    find-dispatch_all :
        (i : Uuid) (sent : List (OutboxMessage P)) (es : List (OutboxEvent P)) (e : OutboxEvent P)
        → find_first (has_id i) es ≡ some e
        → (before : List (OutboxMessage P)) × (find_first
              (has_id i)
              (dispatch_all publish now sent es).0
            ≡ some (dispatch publish now before e).0)
    unfolding dispatch_all find_first
    find-dispatch_all i sent [] e h = cc
    find-dispatch_all i sent (x ∷ es) e h = elim (Bool-cases (has_id i x)) [
      | inl here ↦ (sent, rw (has_id-dispatch i sent x, here) (rw (← some-eq (rw here at h))))
      | inr later ↦
          let (before, found) = find-dispatch_all i (sent ++ message x ∷ []) es e (rw later at h) in
          (before, rw (has_id-dispatch i sent x, later) found)
    ]

    find-dispatch_all-none :
        (i : Uuid) (sent : List (OutboxMessage P)) (es : List (OutboxEvent P))
        → find_first (has_id i) es ≡ none
        → find_first (has_id i) (dispatch_all publish now sent es).0 ≡ none
    unfolding dispatch_all find_first
    find-dispatch_all-none i sent [] h = refl
    find-dispatch_all-none i sent (x ∷ es) h = elim (Bool-cases (has_id i x)) [
      | inl here ↦ absurd (ground (arith, h, here))
      | inr later ↦
          rw (has_id-dispatch i sent x, later)
            (find-dispatch_all-none i (sent ++ message x ∷ []) es (rw later at h))
    ]

  -- What a run leaves of a row: as it was, or as `_dispatch` leaves it, if the run claimed it.
  pub record RowRun (publish : Publisher P) (now : ℕ) (locked : List Uuid) (max_attempts : ℕ)
      (events : List (OutboxEvent P)) (r r' : OutboxEvent P) : Type 0 where
    pub unclaimed : any (has_id r.outbox_event_id) events ≡ false → r' ≡ r
    pub claimed :
        any (has_id r.outbox_event_id) events ≡ true
        → (is_pending max_attempts r ≡ true)
          × (contains r.outbox_event_id locked ≡ false)
          × (before : List (OutboxMessage P)) × (r' ≡ (dispatch publish now before r).0)

  module _ (publish : Publisher P) (now : ℕ) (locked : List Uuid) (batch_size max_attempts : ℕ)
      (sent : List (OutboxMessage P)) (rows : List (OutboxEvent P)) where
    abbrev events : List (OutboxEvent P)
    events = claim_pending locked batch_size max_attempts rows

    abbrev fits : OutboxEvent P → Bool
    fits e = is_pending max_attempts e && not (contains e.outbox_event_id locked)

    -- What is claimed is a pending row that nobody holds.
    pub claim_pending-All : All (λ e. Any (λ x. x ≡ e) rows × (fits e ≡ true)) events
    unfolding claim_pending
    claim_pending-All = All-take _ batch_size (sort_by older (keep fits rows)) (
        All-sort_by older _ (keep fits rows) (
          All-both _ _ (keep fits rows) (All-keep _ fits rows (All-Any rows))
            (All-keep_test fits rows)))

    pub written-RowRun :
        IsKeyed rows
        → (r : OutboxEvent P) → Any (λ x. x ≡ r) rows
        → RowRun publish now locked max_attempts events r
            (written (dispatch_all publish now sent events).0 r)
    unfolding written
    written-RowRun keyed r there =
        elim (Option-cases (find_first (has_id r.outbox_event_id) events)) [
          | inl absent ↦
              let gone = find-dispatch_all-none publish now r.outbox_event_id sent events absent in
              record {
                unclaimed = λ _. rw (written, gone);
                claimed = λ c.
                    absurd
                      (ground (arith, c, absent, find_first-any (has_id r.outbox_event_id) events));
              }
          | inr (e, found) ↦
              let (given, same) =
                find_first-All (λ e. Any (λ x. x ≡ e) rows × (fits e ≡ true))
                  (has_id r.outbox_event_id) events claim_pending-All found in
              let is_r : e ≡ r = one_row rows r e keyed there given.0 (ground (arith, same)) in
              let fits_r : fits r ≡ true = rw is_r at given.1 in
              let (before, left) =
                find-dispatch_all publish now r.outbox_event_id sent events e found in
              record {
                unclaimed = λ c.
                    absurd
                      (ground (arith, c, found, find_first-any (has_id r.outbox_event_id) events));
                claimed = λ _. (
                  ground (arith, fits_r),
                  ground (arith, fits_r),
                  before,
                  rw (written, left, is_r),
                );
              }
        ]
