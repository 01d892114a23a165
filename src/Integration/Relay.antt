-- ===== src/Integration/Relay.antt =====
-- `TenantOutboxRelay` of backend/src/erp/modules/integration/outbox.py: a relay pass over all
-- active tenants. `S` is the state of the router, the databases and the publisher, `D` what the
-- router returns for a tenant; both calls change the state also when they raise.
use karmevo_erp.Platform.Registry.{Uuid, Failure}
use karmevo_erp.Prelude.{ℕ, ◌+◌, List, [], ◌∷◌, Result, ok, raise}

module _ {S D : Type 0} (for_tenant : Uuid → S → Result Failure D × S)
    (run_once : D → S → Result Failure ℕ × S) where
  -- The body of the `try`.
  unfoldable pub relay_tenant : Uuid → S → Result Failure ℕ × S
  relay_tenant tenant_id s =
      let (found, opened) = for_tenant tenant_id s in
      elim found [
        | raise failure ↦ (raise failure, opened)
        | ok database ↦ run_once database opened
      ]

  unfoldable pub run_pass : List Uuid → S → ℕ × S
  run_pass [] s = (0, s)
  run_pass (tenant_id ∷ tenant_ids) s =
      let (published, after) = relay_tenant tenant_id s in
      let (total, last) = run_pass tenant_ids after in
      elim published [ raise failure ↦ (total, last) | ok count ↦ (count + total, last) ]
