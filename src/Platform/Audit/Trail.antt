-- ===== src/Platform/Audit/Trail.antt =====
-- The events that a trail comes to hold.
use karmevo_erp.Platform.Audit.{
  AuditEvent, Entry, details_of, mapping, add_event, event_of, record_event,
}
use karmevo_erp.Platform.Audit.Masking.{IsMasked, redact_iff}
use karmevo_erp.Platform.Registry.{Uuid, Failure, Context, is_context}
use karmevo_erp.Prelude.{
  ℕ, String, true, false, List, [], ◌∷◌, ◌++◌, ◌≡◌, sym, subst, Result, ok, raise, All, All-append,
  AllDistinct, AllDistinct-append, any, ◌==◌, nat_key, arith,
}

module _ {X : Type 0} (lower : String → String) where
  -- The events of a trail are the owner's, their details are masked, and their keys unique.
  pub record IsSound (owner : Uuid) (events : List (AuditEvent X)) : Type 0 where
    pub belong : All (λ e. e.tenant_id ≡ owner) events
    pub all_masked : All (λ e. IsMasked lower e.audit_details) events
    pub distinct : AllDistinct (λ e. e.audit_event_id) events

  add_event_lem :
      (ctx : Context) (owner : Uuid) (event : AuditEvent X) (events : List (AuditEvent X))
      {after : List (AuditEvent X)}
      → add_event ctx owner event events ≡ ok after
      → (any (λ (e : AuditEvent X). e.audit_event_id == event.audit_event_id) events ≡ false)
        × (event.tenant_id ≡ owner)
        × (is_context ctx.tenant owner ≡ true)
        × (events ++ event ∷ [] ≡ after)
  unfolding add_event
  add_event_lem ctx owner event events added = ground (arith, added)

  returned_lem :
      (id : Uuid) (call : Result Failure (List (AuditEvent X))) {new : Uuid}
      {after : List (AuditEvent X)}
      → elim call as (λ _. Result Failure (Uuid × List (AuditEvent X))) [
        | ok events ↦ ok (id, events)
        | raise e ↦ raise e
      ]
        ≡ ok (new, after)
      → (call ≡ ok after) × (new ≡ id)
  returned_lem id (ok events) h = (cc h, cc h)
  returned_lem id (raise e) h = cc h

  -- An event that is recorded is added after the others, with its own key returned, in the context of
  -- the tenant that owns the database; and the trail stays one of the owner's events with masked
  -- details and unique keys.
  pub record_event-IsSound :
      (new_id : Uuid) (now : ℕ) (ctx : Context) (owner : Uuid) (entry : Entry X)
      (events : List (AuditEvent X)) {id : Uuid} {after : List (AuditEvent X)}
      → IsSound owner events
      → record_event lower new_id now ctx owner entry events ≡ ok (id, after)
      → IsSound owner after
        × (id ≡ new_id)
        × (is_context ctx.tenant owner ≡ true)
        × (after ≡ events ++ event_of lower new_id now entry ∷ [])
  unfolding record_event event_of
  record_event-IsSound new_id now ctx owner entry events {id} {after} sound returned =
      let (added, e) =
        returned_lem new_id (add_event ctx owner (event_of lower new_id now entry) events)
          returned in
      let (fresh, owned, allowed, kept) =
        add_event_lem ctx owner (event_of lower new_id now entry) events added in
      (
        subst (IsSound owner) kept (record {
          belong =
              All-append (λ e. e.tenant_id ≡ owner) events (event_of lower new_id now entry ∷ [])
                sound.belong (owned, tt);
          all_masked =
              All-append (λ e. IsMasked lower e.audit_details) events
                (event_of lower new_id now entry ∷ []) sound.all_masked
                ((redact_iff lower (mapping (details_of entry.details))).0, tt);
          distinct =
              AllDistinct-append (λ e. e.audit_event_id) events (event_of lower new_id now entry)
                sound.distinct fresh;
        }),
        e,
        allowed,
        sym kept,
      )
