-- ===== src/Examples/Companies.antt =====
-- A database with three companies, one of which another tenant's context does not see.
use karmevo_erp.Platform.Companies.{
  Company, Companies, CompanyPage, id_of, add, select, page_of, page, list_page, list_companies,
  validate,
}
use karmevo_erp.Platform.Companies.Pages.{listing}
use karmevo_erp.Platform.Companies.Scope.{IsListed, limit_of, list_companies-IsListed}
use karmevo_erp.Platform.Companies.Storage.{IsAdded, is_acceptable, add-walk}
use karmevo_erp.Platform.Companies.Walks.{walk, walk_lem}
use karmevo_erp.Platform.Registry.{tenant_session}
use karmevo_erp.Platform.TenantContext.{RequestContext}
use native.Mathlib.Decide.{ℕ_discrete}
use karmevo_erp.Prelude.{
  List, ℕ, [], ◌∷◌, none, some, map, length, ◌≡◌, refl, ok, All, AllDistinct, arith, keep, sort_by,
  insert_by, any, ◌≤◌, true, false, Outcome,
}

abbrev company : ℕ → ℕ → Company
company company_id tenant_id = record {
  company_id = company_id;
  tenant_id = tenant_id;
  company_name = "Alpha";
  country_code = "BD";
  base_currency = "BDT";
  time_zone = "Asia/Dhaka";
  created_at = 0;
}

abbrev context : RequestContext
context = record { tenant_id = 7; membership_id = 2; identity_id = 3 }

abbrev table : List Company
table = company 5 7 ∷ company 3 7 ∷ company 9 8 ∷ company 4 7 ∷ []

second_page :
    list_companies [] context (some 2) (some 4) table
    ≡ ok (record { items = validate (company 5 7) ∷ []; next_cursor = none })
unfolding list_companies list_page page page_of select keep sort_by insert_by ℕ_discrete
second_page = refl

first_page :
    list_companies [] context (some 2) none table
    ≡ ok (record {
      items = validate (company 3 7) ∷ validate (company 4 7) ∷ [];
      next_cursor = some 4;
    })
unfolding list_companies list_page page page_of select keep sort_by insert_by ℕ_discrete
first_page = refl

table-AllDistinct : AllDistinct id_of table
table-AllDistinct = (
  (omega arith, (omega arith, (omega arith, tt))),
  ((omega arith, (omega arith, tt)), ((omega arith, tt), (tt, tt))),
)

walk_example :
    walk (length table) context 2 none table
    ≡ ok (map validate (listing (tenant_session context.tenant_id) table), none)
walk_example = walk_lem context 2 table (omega arith) (omega arith) table-AllDistinct

abbrev first_answer : CompanyPage
first_answer = record {
  items = validate (company 3 7) ∷ validate (company 4 7) ∷ [];
  next_cursor = some 4;
}

list_companies-IsListed_example :
    (length first_answer.items ≤ limit_of (some 2))
    × (limit_of (some 2) ≤ 200)
    × All (IsListed context table) first_answer.items
list_companies-IsListed_example = list_companies-IsListed [] context (some 2) none table first_page

abbrev stored : Companies
stored = record {
  owners = record { is_singleton = true; tenant_id = 7 } ∷ [];
  rows = company 5 7 ∷ [];
}

abbrev stored_after : Companies
stored_after = record stored { rows = company 5 7 ∷ company 3 7 ∷ [] }

abbrev other_context : RequestContext
other_context = record { tenant_id = 8; membership_id = 4; identity_id = 5 }

added : add (tenant_session 7) (company 3 7) stored ≡ ok stored_after
unfolding add any ℕ_discrete
added = refl

add-walk_example :
    Outcome
      (λ (after : Companies). IsAdded context other_context 2 (company 3 7) stored.rows after.rows)
      (λ _. is_acceptable 7 (company 3 7) stored ≡ false)
      (add (tenant_session 7) (company 3 7) stored)
add-walk_example =
    add-walk context other_context 2 (company 3 7) stored (omega arith) (omega arith) (tt, tt)
      (omega arith)
