-- ===== src/Platform/Router/Pools.antt =====
-- Where the pools of a router are, over each step that a thread takes.
use karmevo_erp.Platform.Registry.{Uuid}
use karmevo_erp.Platform.Router.{
  Pool, Router, find_cached, move_to_end, open_pool, trim, install, close, pop_cached, clear_cache,
}
use karmevo_erp.Prelude.{
  ℕ, ◌+◌, ◌≤◌, false, List, [], ◌∷◌, ◌++◌, map, none, some, ◌≡◌, refl, arith, ite, if◌then◌else◌,
  nat_key, ltb, length, length-append, contains, count, count-append, count-keys-delete,
  count-keys-put, contains_of-count, Dict, lookup, put, delete, keys, values, Option, length-delete,
  length-delete-le, contains_of-lookup, lookup_of-contains, Option-cases, Bool-cases, inl, inr, ap,
}

module _ {U : Type 0} where
  abbrev pub pools : Dict Uuid (Pool U) → List ℕ
  pools = map (λ e. e.1.pool_id)

  -- The pools that a thread took out of the cache.
  abbrev pub taken : Option (Pool U) → List ℕ
  taken none = []
  taken (some p) = p.pool_id ∷ []

  -- `held` are the pools that threads have opened and not yet installed, and `closing` those that they
  -- took out of the cache and have not yet closed.
  pub record IsSound (held closing : List ℕ) (r : Router U) : Type 0 where
    pub keyed : (t : Uuid) → count t (keys r.cache) ≤ 1
    pub bounded : length r.cache ≤ r.max_cached
    pub once :
        (i : ℕ)
        → count i held + count i closing + count i (pools r.cache) + count i r.disposed
          ≡ (if ltb i r.created then 1 else 0)

  pools-append : (xs ys : Dict Uuid (Pool U)) → pools (xs ++ ys) ≡ pools xs ++ pools ys
  pools-append [] ys = refl
  pools-append (x ∷ xs) ys = ap (λ l. x.1.pool_id ∷ l) (pools-append xs ys)

  keys-append : (xs ys : Dict Uuid (Pool U)) → keys (xs ++ ys) ≡ keys xs ++ keys ys
  keys-append [] ys = refl
  keys-append (x ∷ xs) ys = ap (λ l. x.0 ∷ l) (keys-append xs ys)

  count-pools-delete :
      (t : Uuid) (p : Pool U) (i : ℕ) (d : Dict Uuid (Pool U))
      → lookup t d ≡ some p
      → count i (pools d) ≡ count i (pools (delete t d)) + count i (p.pool_id ∷ [])
  unfolding lookup delete count
  count-pools-delete t p i [] h = cc
  count-pools-delete t p i ((s, q) ∷ d) h = elim (nat_key.dec t s) [
    | yes same ↦
        let found : q ≡ p = ground (arith, h, same) in
        ground (arith, same, ap (λ (x : Pool U). x.pool_id) found)
    | no other ↦ ground (arith, other, count-pools-delete t p i d (ground (arith, h, other)))
  ]

  count-pools-put :
      (t : Uuid) (p : Pool U) (i : ℕ) (d : Dict Uuid (Pool U))
      → contains t (keys d) ≡ false
      → count i (pools (put t p d)) ≡ count i (pools d) + count i (p.pool_id ∷ [])
  unfolding put count contains
  count-pools-put t p i [] h = ground arith
  count-pools-put t p i ((s, q) ∷ d) h = ground (arith, h, count-pools-put t p i d)

  -- The loop evicts down to the bound; what it evicts and what stays are all there was.
  trim-count :
      (max_cached i : ℕ) (t : Uuid) (d : Dict Uuid (Pool U))
      → (count i (pools (trim max_cached d).0) + count i (trim max_cached d).1 ≡ count i (pools d))
        × (count t (keys (trim max_cached d).0) ≤ count t (keys d))
        × (length (trim max_cached d).0 ≤ max_cached)
  unfolding trim count
  trim-count max_cached i t [] = (ground arith, ground arith, ground arith)
  trim-count max_cached i t (e ∷ d) =
      let (same, fewer, fits) = trim-count max_cached i t d in
      (ground (arith, same), ground (arith, fewer), ground (arith, fits))

  not_there : (t : Uuid) (d : Dict Uuid (Pool U)) → lookup t d ≡ none → contains t (keys d) ≡ false
  not_there t d absent = elim (Bool-cases (contains t (keys d))) [
    | inl there ↦
        let (p, found) = lookup_of-contains t d there in absurd (ground (arith, absent, found))
    | inr gone ↦ gone
  ]

  one_new :
      (t u : Uuid) (d : Dict Uuid (Pool U))
      → contains t (keys d) ≡ false
      → count u (keys d) ≤ 1
      → count u (keys d) + ite (nat_key.dec u t) 1 0 ≤ 1
  one_new t u d gone le = elim (nat_key.dec u t) as (λ x. count u (keys d) + ite x 1 0 ≤ 1) [
    | yes same ↦
        ground
          (arith, gone, ap (λ i. count i (keys d)) same, contains_of-count {K = Uuid} t (keys d))
    | no other ↦ ground (arith, le)
  ]

  count-end :
      (i : ℕ) (t : Uuid) (p : Pool U) (d : Dict Uuid (Pool U))
      → count i (pools (d ++ (t, p) ∷ [])) ≡ count i (pools d) + count i (p.pool_id ∷ [])
  count-end i t p d = rw (pools-append d ((t, p) ∷ []), count-append i (pools d) (p.pool_id ∷ []))

  pub find_cached-IsSound :
      (held closing : List ℕ) (t : Uuid) (r : Router U)
      → IsSound held closing r
      → IsSound held closing (find_cached t r).1
  unfolding find_cached move_to_end count
  find_cached-IsSound held closing t r s = elim (Option-cases (lookup t r.cache)) [
    | inl absent ↦ rw (absent, find_cached) s
    | inr (p, found) ↦
        rw (found, find_cached)
          (record {
            keyed = λ u.
                rw
                  (
                    keys-append (delete t r.cache) ((t, p) ∷ []),
                    count-append u (keys (delete t r.cache)) (t ∷ []),
                  )
                  (ground (arith, s.keyed u, count-keys-delete t u r.cache));
            bounded = ground (
              arith,
              s.bounded,
              length-append (delete t r.cache) ((t, p) ∷ []),
              length-delete t r.cache (contains_of-lookup t p r.cache found),
            );
            once = λ i. ground (
              arith,
              s.once i,
              count-end i t p (delete t r.cache),
              count-pools-delete t p i r.cache found,
            );
          })
  ]

  pub open-IsSound :
      (held closing : List ℕ) (url : U) (r : Router U)
      → IsSound held closing r
      → IsSound ((open_pool url r).0.pool_id ∷ held) closing (open_pool url r).1
  unfolding count
  open-IsSound held closing url r s = record {
    keyed = s.keyed;
    bounded = s.bounded;
    once = λ i. ground (arith, s.once i);
  }

  pub pop_cached-IsSound :
      (held closing : List ℕ) (t : Uuid) (r : Router U)
      → IsSound held closing r
      → IsSound held (taken (pop_cached t r).0 ++ closing) (pop_cached t r).1
  unfolding pop_cached count
  pop_cached-IsSound held closing t r s = elim (Option-cases (lookup t r.cache)) [
    | inl absent ↦ rw (absent, pop_cached) s
    | inr (p, found) ↦
        rw (found, pop_cached)
          (record {
            keyed = λ u. ground (arith, s.keyed u, count-keys-delete t u r.cache);
            bounded = ground (arith, s.bounded, length-delete-le t r.cache);
            once = λ i. ground (arith, s.once i, count-pools-delete t p i r.cache found);
          })
  ]

  ids_of_values : (d : Dict Uuid (Pool U)) → map (λ (p : Pool U). p.pool_id) (values d) ≡ pools d
  ids_of_values [] = refl
  ids_of_values (e ∷ d) = ap (λ l. e.1.pool_id ∷ l) (ids_of_values d)

  pub clear_cache-IsSound :
      (held closing : List ℕ) (r : Router U)
      → IsSound held closing r
      → IsSound held (map (λ p. p.pool_id) (clear_cache r).0 ++ closing) (clear_cache r).1
  unfolding clear_cache count
  clear_cache-IsSound held closing r s = record {
    keyed = λ u. ground arith;
    bounded = ground arith;
    once = λ i.
        rw (ids_of_values r.cache)
          (ground (arith, s.once i, count-append i (pools r.cache) closing));
  }

  pub close-IsSound :
      (held closing : List ℕ) (i : ℕ) (r : Router U)
      → IsSound held (i ∷ closing) r
      → IsSound held closing (close i r)
  unfolding close count
  close-IsSound held closing i r s = record {
    keyed = s.keyed;
    bounded = s.bounded;
    once = λ j. ground (arith, s.once j, count-append j r.disposed (i ∷ []));
  }

  pub install-IsSound :
      (held closing : List ℕ) (t : Uuid) (p : Pool U) (r : Router U)
      → IsSound (p.pool_id ∷ held) closing r
      → IsSound held closing (install t p r).1
  unfolding install count
  install-IsSound held closing t p r s = elim (Option-cases (lookup t r.cache)) [
    | inl absent ↦
        rw (absent, install)
          (record {
            keyed = λ u. ground (
              arith,
              (trim-count r.max_cached 0 u (put t p r.cache)).1,
              one_new t u r.cache (not_there t r.cache absent) (s.keyed u),
              count-keys-put t u p r.cache (not_there t r.cache absent),
            );
            bounded = (trim-count r.max_cached 0 t (put t p r.cache)).2;
            once = λ i. ground (
              arith,
              s.once i,
              (trim-count r.max_cached i 0 (put t p r.cache)).0,
              count-pools-put t p i r.cache (not_there t r.cache absent),
              count-append i r.disposed (trim r.max_cached (put t p r.cache)).1,
            );
          })
    | inr (q, found) ↦
        rw (found, install)
          (record {
            keyed = s.keyed;
            bounded = s.bounded;
            once = λ i. ground (arith, s.once i, count-append i r.disposed (p.pool_id ∷ []));
          })
  ]
