-- ===== src/Platform/Router.antt =====
-- backend/src/erp/modules/platform/tenant_db.py: one pool of connections for each recently used
-- tenant database. The cache is an ordered dictionary, the oldest entry first. `locate` is
-- `TenantDbLocator.url` with the router's credentials, and `U` the type of its addresses. A pool is known by
-- the order of its creation; `disposed` are the pools that were closed, in that order.
-- What a thread does under the lock is one step, and so is the closing of a pool outside of it; between
-- the steps of a thread others run.
pub mod Pools
pub mod Threads
use karmevo_erp.Core.Errors.{
  ErrorClass, service_unavailable_error, not_found_error, error_of, error_with,
}
use karmevo_erp.Platform.Registry.{
  Uuid, Registry, Tenant, DatabaseStatus, ready, provisioning, failed, TenantStatus, active,
  suspended, Failure, domain, get_tenant,
}
use karmevo_erp.Prelude.{
  ℕ, ◌+◌, String, Bool, true, false, not, ◌&&◌, List, [], ◌∷◌, ◌++◌, map, Option, none, some,
  if◌then◌else◌, nat_key, keep, ltb, leb, length, sort_by, Dict, lookup, put, delete, keys, values,
  Result, ok, raise, ◌>>=◌,
}

abbrev pub tenant_unavailable_error : ErrorClass
tenant_unavailable_error = record service_unavailable_error { code = "TENANT_UNAVAILABLE" }

pub record Pool (U : Type 0) : Type 0 where
  pub pool_id : ℕ
  pub url : U

pub record Router (U : Type 0) : Type 0 where
  pub max_cached : ℕ
  pub cache : Dict Uuid (Pool U)
  pub created : ℕ
  pub disposed : List ℕ

abbrev pub is_ready : DatabaseStatus → Bool
is_ready provisioning = false
is_ready ready = true
is_ready failed = false

abbrev pub is_active : TenantStatus → Bool
is_active active = true
is_active suspended = false

-- `TenantRepository.active_ids`
unfoldable pub active_ids : Registry → List Uuid
active_ids db = sort_by leb (
    map (λ (t : Tenant). t.tenant_id)
      (keep (λ (t : Tenant). is_active t.tenant_status && is_ready t.database_status) db.tenants))

-- `_placement`
unfoldable pub placement : Uuid → Registry → Result Failure (String × String)
placement tenant_id db = elim (get_tenant db tenant_id) [
  | none ↦ raise (domain (error_with not_found_error "unknown tenant" (some "TENANT_NOT_FOUND")))
  | some t ↦
      if not (is_ready t.database_status)
      then raise (domain (error_of tenant_unavailable_error "the tenant database is not available"))
      else ok (t.database_server, t.database_name)
]

module _ {U : Type 0} where
  abbrev pub new_router : ℕ → Router U
  new_router max_cached = record { max_cached = max_cached; cache = []; created = 0; disposed = [] }

  -- `move_to_end`
  unfoldable pub move_to_end : Uuid → Pool U → Dict Uuid (Pool U) → Dict Uuid (Pool U)
  move_to_end tenant_id pool cache = delete tenant_id cache ++ (tenant_id, pool) ∷ []

  -- The first block under the lock of `for_tenant`.
  unfoldable pub find_cached : Uuid → Router U → Option (Pool U) × Router U
  unfolding move_to_end
  find_cached tenant_id r = elim (lookup tenant_id r.cache) [
    | none ↦ (none, r)
    | some cached ↦ (some cached, record r { cache = move_to_end tenant_id cached r.cache })
  ]

  -- `Database(url, …)`
  abbrev pub open_pool : U → Router U → Pool U × Router U
  open_pool url r =
      (record { pool_id = r.created; url = url }, record r { created = r.created + 1 })

  -- `while len(self._cache) > self._max_cached`: what stays, and what is evicted.
  unfoldable pub trim : ℕ → Dict Uuid (Pool U) → Dict Uuid (Pool U) × List ℕ
  trim max_cached [] = ([], [])
  trim max_cached (e ∷ cache) =
      let (kept, evicted) = trim max_cached cache in
      if ltb max_cached (length (e ∷ cache)) then (kept, e.1.pool_id ∷ evicted) else (e ∷ cache, [])

  -- The second block under the lock of `for_tenant`.
  unfoldable pub install : Uuid → Pool U → Router U → Pool U × Router U
  install tenant_id database r = elim (lookup tenant_id r.cache) [
    | some existing ↦ (existing, record r { disposed = r.disposed ++ database.pool_id ∷ [] })
    | none ↦
        let (kept, evicted) = trim r.max_cached (put tenant_id database r.cache) in
        (database, record r { cache = kept; disposed = r.disposed ++ evicted })
  ]

  -- `Database.dispose`
  unfoldable pub close : ℕ → Router U → Router U
  close pool_id r = record r { disposed = r.disposed ++ pool_id ∷ [] }

  -- The block under the lock of `evict`.
  unfoldable pub pop_cached : Uuid → Router U → Option (Pool U) × Router U
  pop_cached tenant_id r = elim (lookup tenant_id r.cache) [
    | none ↦ (none, r)
    | some evicted ↦ (some evicted, record r { cache = delete tenant_id r.cache })
  ]

  -- `evict` of a thread that no other comes between.
  unfoldable pub evict : Uuid → Router U → Router U
  unfolding pop_cached close
  evict tenant_id r =
      let (popped, after) = pop_cached tenant_id r in
      elim popped [ none ↦ after | some evicted ↦ close evicted.pool_id after ]

  -- The block under the lock of `dispose_all`.
  unfoldable pub clear_cache : Router U → List (Pool U) × Router U
  clear_cache r = (values r.cache, record r { cache = [] })

  -- The loop of `dispose_all`.
  unfoldable pub close_all : List (Pool U) → Router U → Router U
  unfolding close
  close_all [] r = r
  close_all (database ∷ databases) r = close_all databases (close database.pool_id r)

  -- `dispose_all` of a thread that no other comes between.
  unfoldable pub dispose_all : Router U → Router U
  unfolding clear_cache close_all
  dispose_all r = let (databases, cleared) = clear_cache r in close_all databases cleared

  -- `for_tenant` of a thread that no other comes between.
  unfoldable pub for_tenant :
      (locate : String → String → Result Failure U)
      → Uuid
      → Registry
      → Router U
      → Result Failure (Pool U) × Router U
  unfolding find_cached placement
  for_tenant locate tenant_id db r =
      let (hit, looked_up) = find_cached tenant_id r in
      elim hit [
        | some cached ↦ (ok cached, looked_up)
        | none ↦ elim (placement tenant_id db >>= λ (server, name). locate server name) [
          | raise failure ↦ (raise failure, looked_up)
          | ok url ↦
              let (database, opened) = open_pool url looked_up in
              let (used, after) = install tenant_id database opened in (ok used, after)
        ]
      ]
