-- ===== src/Platform/Companies.antt =====
-- The companies of a tenant: the tables "DatabaseOwners", "Companies" and "Branches" of
-- backend/src/erp/modules/platform/models.py, `CompanyRepository` (repository.py), `CompanyService`
-- (service.py) and the endpoint of controller.py with its schemas. FastAPI checks the limit of the
-- query and makes the errors that it answers with, `invalid_limit`.
pub mod Pages
pub mod Walks
pub mod Scope
pub mod Storage
use Prim.Native.String.{count as char_count}
use karmevo_erp.Core.Errors.{ErrorItem}
use karmevo_erp.Platform.Registry.{
  Uuid, Failure, database_error, Context, tenant_session, is_context,
}
use karmevo_erp.Platform.TenantContext.{RequestContext}
use karmevo_erp.Prelude.{
  ℕ, suc, String, Bool, true, false, ◌&&◌, ◌||◌, not, List, [], ◌∷◌, ◌++◌, map, Option, none, some,
  ◌==◌, nat_key, if◌then◌else◌, keep, any, sort_by, by_number, take, length, get_last_or, ltb, leb,
  Result, ok, raise, ◌>>=◌,
}

pub record DatabaseOwner : Type 0 where
  pub is_singleton : Bool
  pub tenant_id : Uuid

pub record Company : Type 0 where
  pub company_id : Uuid
  pub tenant_id : Uuid
  pub company_name : String
  pub country_code : String
  pub base_currency : String
  pub time_zone : String
  pub created_at : ℕ

-- The tables of a tenant database that companies are stored in.
pub record Companies : Type 0 where
  pub owners : List DatabaseOwner
  pub rows : List Company

-- `row.company_id`
abbrev pub id_of : Company → Uuid
id_of c = c.company_id

-- The rows that the policy "tenantIsolation" shows.
abbrev pub is_shown : Context → Company → Bool
is_shown ctx c = is_context ctx.tenant c.tenant_id

abbrev pub fits : Company → Bool
fits c =
    leb (char_count c.company_name) 200
    && leb (char_count c.country_code) 2
    && leb (char_count c.base_currency) 3
    && leb (char_count c.time_zone) 64

-- `CompanyRepository.add`, under the policy's WITH CHECK and the constraints of the table.
unfoldable pub add : Context → Company → Companies → Result Failure Companies
add ctx company db =
    if not (is_context ctx.tenant company.tenant_id)
    then raise (database_error "row-level security")
    else if not (fits company)
    then raise (database_error "value too long")
    else if any (λ (c : Company). c.company_id == company.company_id) db.rows
    then raise (database_error "duplicate key")
    else if not (any (λ (o : DatabaseOwner). o.tenant_id == company.tenant_id) db.owners)
    then raise (database_error "foreign key")
    else ok (record db { rows = db.rows ++ company ∷ [] })

-- `"companyId" > :after`, if a cursor is given
abbrev pub is_after : Option Uuid → Company → Bool
is_after none c = true
is_after (some after) c = ltb after c.company_id

-- The statement of `page`.
unfoldable pub select : Context → ℕ → Option Uuid → List Company → List Company
select ctx limit after rows =
    take (suc limit) (sort_by (by_number id_of) (keep (is_after after) (keep (is_shown ctx) rows)))

-- What a call raises: `IndexError`, and `RequestValidationError` of FastAPI.
pub data PageError : Type 0 where
  list_index_out_of_range : PageError
  invalid : List ErrorItem → PageError

-- `items[-1].company_id`
abbrev pub last_id : List Company → Result PageError Uuid
last_id [] = raise list_index_out_of_range
last_id (c ∷ cs) = ok ((get_last_or c cs).company_id)

-- What `page` returns for the rows selected, one more than the limit if there are so many.
unfoldable pub page_of : ℕ → List Company → Result PageError (List Company × Option Uuid)
page_of limit rows =
    let items = take limit rows in
    if ltb limit (length rows)
    then (last_id items >>= λ last. ok (items, some last))
    else ok (items, none)

-- `CompanyRepository.page`
unfoldable pub page :
    Context → ℕ → Option Uuid → List Company → Result PageError (List Company × Option Uuid)
unfolding select page_of
page ctx limit after table = page_of limit (select ctx limit after table)

pub record CompanyOut : Type 0 where
  pub company_id : Uuid
  pub company_name : String
  pub country_code : String
  pub base_currency : String
  pub time_zone : String

pub record CompanyPage : Type 0 where
  pub items : List CompanyOut
  pub next_cursor : Option Uuid

-- `CompanyOut.model_validate`
abbrev pub validate : Company → CompanyOut
validate c = record {
  company_id = c.company_id;
  company_name = c.company_name;
  country_code = c.country_code;
  base_currency = c.base_currency;
  time_zone = c.time_zone;
}

-- `CompanyService.list_page`
unfoldable pub list_page :
    RequestContext → ℕ → Option Uuid → List Company → Result PageError CompanyPage
list_page context limit cursor table = do
  (companies, next_cursor) ← page (tenant_session context.tenant_id) limit cursor table
  ok (record { items = map validate companies; next_cursor = next_cursor })

-- `CompanyController.list_companies`, with `Query(ge=1, le=200)` and its default
unfoldable pub list_companies :
    List ErrorItem
    → RequestContext
    → Option ℕ
    → Option Uuid
    → List Company
    → Result PageError CompanyPage
list_companies invalid_limit context none cursor table = list_page context 50 cursor table
list_companies invalid_limit context (some limit) cursor table =
    if leb 1 limit && leb limit 200
    then list_page context limit cursor table
    else raise (invalid invalid_limit)
