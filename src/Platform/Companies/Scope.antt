-- ===== src/Platform/Companies/Scope.antt =====
-- Which companies an answer holds, and how many.
use karmevo_erp.Platform.Companies.{
  Company, CompanyOut, CompanyPage, id_of, is_shown, is_after, validate, select, page_of, page,
  list_page, list_companies,
}
use karmevo_erp.Core.Errors.{ErrorItem}
use karmevo_erp.Platform.Registry.{Uuid, Context, tenant_session}
use karmevo_erp.Platform.TenantContext.{RequestContext}
use karmevo_erp.Prelude.{
  ℕ, suc, List, [], ◌∷◌, map, Option, none, some, ◌≡◌, refl, ok, >>=-eq-ok, ok-injective, take,
  length, length-take, All, All-map, true, ap, sym, subst, ◌∙◌, All-both, All-Any, All-keep,
  All-keep_test, All-take, All-sort_by, Any, Any-map, keep, sort_by, by_number, ◌≤◌, arith,
}

-- A row of the table that is the context's tenant's.
abbrev IsOwn : RequestContext → List Company → Company → Type 0
IsOwn context table c = Any (λ row. row ≡ c) table × (c.tenant_id ≡ context.tenant_id)

select-IsOwn :
    (context : RequestContext) (n : ℕ) (after : Option Uuid) (table : List Company)
    → All (IsOwn context table) (select (tenant_session context.tenant_id) n after table)
unfolding select
select-IsOwn context n after table =
    All-take (IsOwn context table) (suc n) (sort_by (by_number id_of) rows) (
      All-sort_by (by_number id_of) (IsOwn context table) rows (
        All-keep (IsOwn context table) (is_after after) shown (
          All-map (λ c. Any (λ row. row ≡ c) table × (is_shown ctx c ≡ true)) (IsOwn context table)
            shown (λ c h. (h.0, ground (arith, h.1)))
            (All-both (λ c. Any (λ row. row ≡ c) table) (λ c. is_shown ctx c ≡ true) shown
              (All-keep (λ c. Any (λ row. row ≡ c) table) (is_shown ctx) table (All-Any table))
              (All-keep_test (is_shown ctx) table)))))
  where
    ctx : Context
    ctx = tenant_session context.tenant_id

    shown : List Company
    shown = keep (is_shown ctx) table

    rows : List Company
    rows = keep (is_after after) shown

page_of-items :
    (n : ℕ) (rows : List Company) {items : List Company} {next : Option Uuid}
    → page_of n rows ≡ ok (items, next)
    → items ≡ take n rows
unfolding page_of
page_of-items n [] returned = ground arith
page_of-items n (c ∷ cs) returned = ground arith

-- What the tenant of a context may be told: the companies of its own rows.
abbrev pub IsListed : RequestContext → List Company → CompanyOut → Type 0
IsListed context table out = Any (λ c. (validate c ≡ out) × (c.tenant_id ≡ context.tenant_id)) table

All-IsListed :
    (context : RequestContext) (table cs : List Company)
    → All (IsOwn context table) cs
    → All (IsListed context table) (map validate cs)
All-IsListed context table [] own = tt
All-IsListed context table (c ∷ cs) ((here, is_own), own) = (
  Any-map (λ row. row ≡ c)
      (λ row. (validate row ≡ validate c) × (row.tenant_id ≡ context.tenant_id)) table
      (λ row p. (ap validate p, ap (λ (z : Company). z.tenant_id) p ∙ is_own)) here,
  All-IsListed context table cs own,
)

length-validated : (cs : List Company) → length (map validate cs) ≡ length cs
length-validated [] = refl
length-validated (c ∷ cs) = ap suc (length-validated cs)

list_page-items :
    (context : RequestContext) (n : ℕ) (cursor : Option Uuid) (table : List Company)
    {answer : CompanyPage}
    → list_page context n cursor table ≡ ok answer
    → map validate (take n (select (tenant_session context.tenant_id) n cursor table))
      ≡ answer.items
unfolding list_page page
list_page-items context n cursor table {answer} returned =
    let ((items, next), paged, e) =
      >>=-eq-ok (page (tenant_session context.tenant_id) n cursor table)
        (λ (companies, next). ok (record { items = map validate companies; next_cursor = next }))
        returned in
    ap (map validate)
      (sym (page_of-items n (select (tenant_session context.tenant_id) n cursor table) paged))
    ∙ ap (λ (p : CompanyPage). p.items) (ok-injective e)

list_page-IsListed :
    (context : RequestContext) (n : ℕ) (cursor : Option Uuid) (table : List Company)
    {answer : CompanyPage}
    → list_page context n cursor table ≡ ok answer
    → (length answer.items ≤ n) × All (IsListed context table) answer.items
list_page-IsListed context n cursor table {answer} returned =
    subst (λ items. (length items ≤ n) × All (IsListed context table) items)
      (list_page-items context n cursor table returned)
      (
        omega (arith, length-validated (take n selected), length-take n selected),
        All-IsListed context table (take n selected)
            (All-take (IsOwn context table) n selected (select-IsOwn context n cursor table)),
      )
  where
    selected : List Company
    selected = select (tenant_session context.tenant_id) n cursor table

-- The limit that the endpoint uses, if it accepts the one it is asked for.
abbrev pub limit_of : Option ℕ → ℕ
limit_of none = 50
limit_of (some limit) = limit

-- Whatever the table holds, an answer of the endpoint has no more companies than the limit asked
-- for, or 50 if none is, which is at most 200, and each is what a row of the table shows that
-- belongs to the tenant of the request.
pub list_companies-IsListed :
    (errors : List ErrorItem) (context : RequestContext) (limit : Option ℕ) (cursor : Option Uuid)
    (table : List Company) {answer : CompanyPage}
    → list_companies errors context limit cursor table ≡ ok answer
    → (length answer.items ≤ limit_of limit)
      × (limit_of limit ≤ 200)
      × All (IsListed context table) answer.items
unfolding list_companies
list_companies-IsListed errors context none cursor table returned =
    let (short, listed) = list_page-IsListed context 50 cursor table returned in
    (short, omega arith, listed)
list_companies-IsListed errors context (some limit) cursor table {answer} returned =
    let (accepted, paged) : (limit ≤ 200) × (list_page context limit cursor table ≡ ok answer) =
      ground (arith, returned) in
    let (short, listed) = list_page-IsListed context limit cursor table paged in
    (short, accepted, listed)
