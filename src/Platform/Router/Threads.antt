-- ===== src/Platform/Router/Threads.antt =====
-- Any threads that use one router, in any interleaving of their steps: the blocks under the lock, the
-- opening of a pool, and the closing of one that `evict` or `dispose_all` took out of the cache.
use karmevo_erp.Platform.Registry.{Uuid}
use karmevo_erp.Platform.Router.{
  Pool, Router, new_router, find_cached, open_pool, install, close, pop_cached, clear_cache,
}
use karmevo_erp.Platform.Router.Pools.{
  IsSound, taken, find_cached-IsSound, open-IsSound, install-IsSound, pop_cached-IsSound,
  clear_cache-IsSound, close-IsSound,
}
use karmevo_erp.Prelude.{ℕ, List, [], ◌∷◌, ◌++◌, map, arith, count, count-append, nat_key}

-- The pools that threads have opened and not yet installed, those that they have taken out of the cache
-- and not yet closed, and the router.
abbrev pub Threads : Type 0 → Type 0
Threads U = List ℕ × List ℕ × Router U

module _ {U : Type 0} where
  pub data Act : Threads U → Threads U → Type 0 where
    looks :
        (tenant_id : Uuid) (held closing : List ℕ) (r : Router U)
        → Act (held, closing, r) (held, closing, (find_cached tenant_id r).1)
    opens :
        (url : U) (held closing : List ℕ) (r : Router U)
        → Act (held, closing, r) ((open_pool url r).0.pool_id ∷ held, closing, (open_pool url r).1)
    installs :
        (tenant_id : Uuid) (pool : Pool U) (left right closing : List ℕ) (r : Router U)
        → Act
            (left ++ pool.pool_id ∷ right, closing, r)
            (left ++ right, closing, (install tenant_id pool r).1)
    pops :
        (tenant_id : Uuid) (held closing : List ℕ) (r : Router U)
        → Act
            (held, closing, r)
            (held, taken (pop_cached tenant_id r).0 ++ closing, (pop_cached tenant_id r).1)
    clears :
        (held closing : List ℕ) (r : Router U)
        → Act
            (held, closing, r)
            (held, map (λ p. p.pool_id) (clear_cache r).0 ++ closing, (clear_cache r).1)
    closes :
        (held : List ℕ) (pool_id : ℕ) (left right : List ℕ) (r : Router U)
        → Act (held, left ++ pool_id ∷ right, r) (held, left ++ right, close pool_id r)

  pub data Run (max_cached : ℕ) : Threads U → Type 0 where
    begin : Run max_cached ([], [], new_router max_cached)
    act :
        {before after : Threads U} → Run max_cached before → Act before after → Run max_cached after

  opened_first :
      (i : ℕ) (left right closing : List ℕ) (r : Router U)
      → IsSound (left ++ i ∷ right) closing r
      → IsSound (i ∷ (left ++ right)) closing r
  unfolding count
  opened_first i left right closing r s = record {
    keyed = s.keyed;
    bounded = s.bounded;
    once =
        λ j. ground (arith, s.once j, count-append j left (i ∷ right), count-append j left right);
  }

  taken_first :
      (held : List ℕ) (i : ℕ) (left right : List ℕ) (r : Router U)
      → IsSound held (left ++ i ∷ right) r
      → IsSound held (i ∷ (left ++ right)) r
  unfolding count
  taken_first held i left right r s = record {
    keyed = s.keyed;
    bounded = s.bounded;
    once =
        λ j. ground (arith, s.once j, count-append j left (i ∷ right), count-append j left right);
  }

  Act-IsSound :
      {before after : Threads U}
      → Act before after
      → IsSound before.0 before.1 before.2
      → IsSound after.0 after.1 after.2
  Act-IsSound (looks t held closing r) s = find_cached-IsSound held closing t r s
  Act-IsSound (opens url held closing r) s = open-IsSound held closing url r s
  Act-IsSound (installs t pool left right closing r) s =
      install-IsSound (left ++ right) closing t pool r
        (opened_first pool.pool_id left right closing r s)
  Act-IsSound (pops t held closing r) s = pop_cached-IsSound held closing t r s
  Act-IsSound (clears held closing r) s = clear_cache-IsSound held closing r s
  Act-IsSound (closes held i left right r) s =
      close-IsSound held (left ++ right) i r (taken_first held i left right r s)

  -- Whatever threads do with a new router, in any interleaving of their steps, those outside the lock
  -- among them: a tenant has at most one cached pool, at most `max_cached` pools are cached, and each
  -- pool that was opened is in exactly one place: held by one thread that is about to install it, in the
  -- cache once, taken out of it by one thread that is about to close it, or closed once.
  pub Run-IsSound :
      (max_cached : ℕ) (now : Threads U) → Run max_cached now → IsSound now.0 now.1 now.2
  unfolding count
  Run-IsSound max_cached _ begin = record {
    keyed = λ t. ground arith;
    bounded = ground arith;
    once = λ i. ground arith;
  }
  Run-IsSound max_cached _ (act {before = before} run last) =
      Act-IsSound last (Run-IsSound max_cached before run)
