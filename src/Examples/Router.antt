-- ===== src/Examples/Router.antt =====
-- Two threads race for the pool of one tenant, in a router that holds one pool.
use karmevo_erp.Platform.Router.{
  Pool, Router, new_router, find_cached, move_to_end, trim, install, close, pop_cached, clear_cache,
  close_all, evict, dispose_all,
}
use karmevo_erp.Platform.Router.Pools.{IsSound}
use karmevo_erp.Platform.Router.Threads.{
  Run, begin, act, opens, installs, pops, closes, Run-IsSound,
}
use karmevo_erp.Prelude.{ℕ, String, [], ◌∷◌, ◌≡◌, refl, lookup, put, delete}
use native.Mathlib.Decide.{ℕ_discrete}

unfoldable router_program : Unit {0}
unfolding find_cached move_to_end trim install close pop_cached evict clear_cache close_all
    dispose_all lookup put delete ℕ_discrete
router_program = tt

abbrev pool : ℕ → Pool String
pool i = record { pool_id = i; url = "db1/tenant_7" }

abbrev opened : Router String
opened = record (new_router 1) { created = 2 }

abbrev raced : Router String
raced = (install 7 (pool 1) (install 7 (pool 0) opened).1).1

raced_once :
    raced ≡ record { max_cached = 1; cache = (7, pool 0) ∷ []; created = 2; disposed = 1 ∷ [] }
unfolding router_program
raced_once = refl

abbrev both_open : Run 1 (1 ∷ 0 ∷ [], [], opened)
both_open =
    act (act begin (opens "db1/tenant_7" [] [] (new_router 1)))
      (opens "db1/tenant_7" (0 ∷ []) [] (record (new_router 1) { created = 1 }))

abbrev race : Run 1 ([], [], raced)
race =
    act (act both_open (installs 7 (pool 0) (1 ∷ []) [] [] opened))
      (installs 7 (pool 1) [] [] [] (install 7 (pool 0) opened).1)

-- The tenant is evicted, and the pool closed in the next step.
abbrev between : Router String
between = (pop_cached 7 raced).1

abbrev evicted : Run 1 ([], [], close 0 between)
unfolding router_program
evicted = act (act race (pops 7 [] [] raced)) (closes [] 0 [] [] between)

evict_steps : evict 7 raced ≡ close 0 between
unfolding router_program
evict_steps = refl

dispose_all_closes : (dispose_all raced).disposed ≡ 1 ∷ 0 ∷ []
unfolding router_program
dispose_all_closes = refl

Run-IsSound_example : IsSound [] [] (close 0 between)
Run-IsSound_example = Run-IsSound 1 ([], [], close 0 between) evicted
