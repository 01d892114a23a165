-- ===== src/Core/Modules.antt =====
-- backend/src/erp/core/modules.py: the catalogue of installed modules, validated as a DAG.
-- A set of dependencies is the list it is made from: the code asks it only whether it is empty
-- and what it contains. The `while` loops take fuel, whose end would raise an
-- error of its own.
pub mod Rounds
pub mod Order
pub mod Cycles
pub mod Faults
pub mod Acceptance
pub mod Catalogue
pub mod Closure
pub mod Dependencies
use karmevo_erp.Core.Controller.{Controller}
use karmevo_erp.Prelude.{
  ℕ, zero, suc, ◌+◌, String, Bool, true, false, not, ◌&&◌, List, [], ◌∷◌, ◌++◌, map, reverse,
  Option, none, some, if◌then◌else◌, contains, keep, length, Dict, lookup, put, delete, keys,
  values, string_leb, sort_by, string_dec, string_key, Result, ok, raise, ◌>>=◌, ◌>>◌,
}

pub record ModuleManifest : Type 0 where
  pub key : String
  pub name : String
  pub depends_on : List String
  pub core : Bool
  pub controllers : List Controller

-- The messages of `ModuleCatalogError`, the `KeyError` of `self._modules[k]`, and the end of the
-- model's fuel.
pub data CatalogError : Type 0 where
  duplicate_key unknown_module key_error : String → CatalogError
  unknown_dependency core_on_optional : String → String → CatalogError
  dependency_cycle : List String → CatalogError
  fuel_exhausted : CatalogError

pub record ModuleCatalog : Type 0 where
  pub modules : Dict String ModuleManifest
  pub order : List String

abbrev pub Graph : Type 0
Graph = Dict String (List String)

-- `self._modules[key]`
unfoldable pub at_key : Dict String ModuleManifest → String → Result CatalogError ModuleManifest
at_key modules key = elim (lookup key modules) [ none ↦ raise (key_error key) | some m ↦ ok m ]

-- The first loop of `__init__`.
unfoldable pub index_manifests :
    Dict String ModuleManifest
    → List ModuleManifest
    → Result CatalogError (Dict String ModuleManifest)
index_manifests modules [] = ok modules
index_manifests modules (m ∷ ms) =
    let rest = index_manifests (put m.key m modules) ms in
    if contains m.key (keys modules) then raise (duplicate_key m.key) else rest

-- `_validate_dependencies`
unfoldable pub validate_dependencies :
    Dict String ModuleManifest → ModuleManifest → List String → Result CatalogError (Unit {0})
validate_dependencies modules manifest [] = ok tt
validate_dependencies modules manifest (d ∷ ds) = elim (lookup d modules) [
  | none ↦ raise (unknown_dependency manifest.key d)
  | some dependency ↦
      if manifest.core && not dependency.core
      then raise (core_on_optional manifest.key d)
      else validate_dependencies modules manifest ds
]

-- The second loop of `__init__`.
unfoldable pub validate_all :
    Dict String ModuleManifest → List ModuleManifest → Result CatalogError (Unit {0})
validate_all modules [] = ok tt
validate_all modules (m ∷ ms) = do
  validate_dependencies modules m m.depends_on
  validate_all modules ms

-- `remaining` of `_topological_order`
unfoldable pub dependency_sets : Dict String ModuleManifest → Graph
dependency_sets modules = map (λ e. (e.0, e.1.depends_on)) modules

abbrev pub is_empty : List String → Bool
is_empty [] = true
is_empty (x ∷ xs) = false

unfoldable pub unblocked : Graph → List String
unblocked [] = []
unblocked ((k, deps) ∷ g) = if is_empty deps then k ∷ unblocked g else unblocked g

-- `sorted(k for k, deps in remaining.items() if not deps)`
unfoldable pub ready : Graph → List String
unfolding unblocked
ready remaining = sort_by string_leb (unblocked remaining)

-- `for key in ready: del remaining[key]`
unfoldable pub delete_all : List String → Graph → Graph
delete_all [] g = g
delete_all (k ∷ ks) g = delete_all ks (delete k g)

-- `deps.difference_update(ready)`
unfoldable pub difference : List String → List String → List String
difference deps done = keep (λ d. not (contains d done)) deps

unfoldable pub difference_update : List String → Graph → Graph
unfolding difference
difference_update done [] = []
difference_update done ((k, deps) ∷ g) = (k, difference deps done) ∷ difference_update done g

-- What a round leaves of `remaining`.
unfoldable pub after_round : Graph → Graph
after_round remaining =
    let done = ready remaining in difference_update done (delete_all done remaining)

-- The `while` loop of `_topological_order`.
unfoldable pub order_loop : ℕ → Graph → List String → Result CatalogError (List String)
order_loop fuel [] order = ok order
order_loop zero (e ∷ remaining) order = raise fuel_exhausted
order_loop (suc fuel) (e ∷ remaining) order =
    let done = ready (e ∷ remaining) in
    let rest = order_loop fuel (after_round (e ∷ remaining)) (order ++ done) in
    if is_empty done
    then raise (dependency_cycle (sort_by string_leb (keys (e ∷ remaining))))
    else rest

unfoldable pub topological_order : Dict String ModuleManifest → Result CatalogError (List String)
topological_order modules =
    let remaining = dependency_sets modules in order_loop (length remaining) remaining []

-- `ModuleCatalog(manifests)`
unfoldable pub construct : List ModuleManifest → Result CatalogError ModuleCatalog
construct manifests = do
  modules ← index_manifests [] manifests
  validate_all modules (values modules)
  order ← topological_order modules
  ok (record { modules = modules; order = order })

-- `__iter__`
unfoldable pub iterate_from :
    Dict String ModuleManifest → List String → Result CatalogError (List ModuleManifest)
iterate_from modules [] = ok []
iterate_from modules (k ∷ ks) = do m ← at_key modules k; ms ← iterate_from modules ks; ok (m ∷ ms)

unfoldable pub iterate : ModuleCatalog → Result CatalogError (List ModuleManifest)
iterate c = iterate_from c.modules c.order

unfoldable pub get : ModuleCatalog → String → Result CatalogError ModuleManifest
get c key = elim (lookup key c.modules) [ none ↦ raise (unknown_module key) | some m ↦ ok m ]

unfoldable pub core_from : Dict String ModuleManifest → List String
core_from [] = []
core_from ((k, m) ∷ d) = if m.core then k ∷ core_from d else core_from d

unfoldable pub core_keys : ModuleCatalog → List String
unfolding core_from
core_keys c = core_from c.modules

-- The `while stack` loop of `dependencies`. The top of the stack is the head of the list, so
-- `extend` puts the new names on top in reverse.
unfoldable pub collect :
    ℕ → Dict String ModuleManifest → List String → List String → Result CatalogError (List String)
collect fuel modules [] needed = ok needed
collect zero modules (d ∷ stack) needed = raise fuel_exhausted
collect (suc fuel) modules (d ∷ stack) needed =
    let seen = collect fuel modules stack needed in
    let new = (do
      m ← at_key modules d
      collect fuel modules (reverse m.depends_on ++ stack) (d ∷ needed)) in
    if contains d needed then seen else new

unfoldable pub edges : Dict String ModuleManifest → ℕ
edges [] = 0
edges ((k, m) ∷ d) = length m.depends_on + edges d

unfoldable pub dependencies : ModuleCatalog → String → Result CatalogError (List String)
dependencies c key = do
  m ← get c key
  needed ← collect (length m.depends_on + edges c.modules) c.modules (reverse m.depends_on) []
  ok (keep (λ k. contains k needed) c.order)

-- `[k for k in self._order if key in self.dependencies(k)]`
unfoldable pub dependents_among :
    ModuleCatalog → String → List String → Result CatalogError (List String)
dependents_among c key [] = ok []
dependents_among c key (k ∷ ks) = do
  needed ← dependencies c k
  rest ← dependents_among c key ks
  ok (if contains key needed then k ∷ rest else rest)

unfoldable pub dependents : ModuleCatalog → String → Result CatalogError (List String)
dependents c key = get c key >> dependents_among c key c.order
