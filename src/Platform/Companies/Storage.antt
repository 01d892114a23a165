-- ===== src/Platform/Companies/Storage.antt =====
-- What is listed once a company is added, for its tenant and for the others.
use karmevo_erp.Platform.Companies.{
  DatabaseOwner, Company, Companies, id_of, is_shown, fits, validate, add,
}
use karmevo_erp.Platform.Companies.Pages.{listing}
use karmevo_erp.Platform.Companies.Walks.{walk, walk_lem}
use karmevo_erp.Platform.Registry.{Uuid, Failure, tenant_session}
use karmevo_erp.Platform.TenantContext.{RequestContext}
use karmevo_erp.Prelude.{
  ℕ, Bool, true, false, not, ◌&&◌, List, [], ◌∷◌, ◌++◌, map, length, none, ◌≡◌, ◌≢◌, refl, subst,
  ap, ◌∙◌, ok, raise, Outcome, All-keep, AllDistinct, AllDistinct-append, not_any-All,
  sort_by-append, any, keep, insert_by, by_number, ◌==◌, arith, nat_key, ◌≤◌, sym,
}

-- What an accepted row has passed.
add-eq-ok :
    (tenant_id : Uuid) (company : Company) (db : Companies) {after : Companies}
    → add (tenant_session tenant_id) company db ≡ ok after
    → (company.tenant_id ≡ tenant_id)
      × (any (λ (c : Company). c.company_id == company.company_id) db.rows ≡ false)
      × (record db { rows = db.rows ++ company ∷ [] } ≡ after)
unfolding add
add-eq-ok tenant_id company db added = ground (arith, added)

keep_last :
    (p : Company → Bool) (cs : List Company) (c : Company)
    → p c ≡ true
    → keep p (cs ++ c ∷ []) ≡ keep p cs ++ c ∷ []
unfolding keep
keep_last p [] c h = ground (arith, h)
keep_last p (x ∷ xs) c h = ground (arith, keep_last p xs c h)

keep_not_last :
    (p : Company → Bool) (cs : List Company) (c : Company)
    → p c ≡ false
    → keep p (cs ++ c ∷ []) ≡ keep p cs
unfolding keep
keep_not_last p [] c h = ground (arith, h)
keep_not_last p (x ∷ xs) c h = ground (arith, keep_not_last p xs c h)

-- A row of the tenant's own, under a new key, is listed where its key puts it.
listing_own :
    (tenant_id : Uuid) (company : Company) (rows : List Company)
    → company.tenant_id ≡ tenant_id
    → any (λ (c : Company). c.company_id == company.company_id) rows ≡ false
    → listing (tenant_session tenant_id) (rows ++ company ∷ [])
      ≡ insert_by (by_number id_of) company (listing (tenant_session tenant_id) rows)
listing_own tenant_id company rows own fresh =
    rw (keep_last (is_shown (tenant_session tenant_id)) rows company (ground (arith, own))) (
      sort_by-append id_of (keep (is_shown (tenant_session tenant_id)) rows) company (
        All-keep (λ c. c.company_id ≢ company.company_id) (is_shown (tenant_session tenant_id)) rows
          (not_any-All id_of company.company_id rows fresh)))

listing_others :
    (tenant_id : Uuid) (company : Company) (rows : List Company)
    → company.tenant_id ≢ tenant_id
    → listing (tenant_session tenant_id) (rows ++ company ∷ [])
      ≡ listing (tenant_session tenant_id) rows
listing_others tenant_id company rows other =
    rw (keep_not_last (is_shown (tenant_session tenant_id)) rows company (ground (arith, other)))
      refl

-- What the database takes from a tenant: a company of its own, whose texts fit, under a new key, where
-- the tenant owns the database.
abbrev pub is_acceptable : Uuid → Company → Companies → Bool
is_acceptable tenant_id company db =
    (company.tenant_id == tenant_id)
    && fits company
    && not (any (λ (c : Company). c.company_id == company.company_id) db.rows)
    && any (λ (o : DatabaseOwner). o.tenant_id == tenant_id) db.owners

-- What two tenants' walks find in the tables after, beside those before.
pub record IsAdded (own other : RequestContext) (limit : ℕ) (company : Company)
    (before after : List Company) : Type 0 where
  pub shown :
      walk (length after) own limit none after
      ≡ ok (
        map validate
            (insert_by (by_number id_of) company (listing (tenant_session own.tenant_id) before)),
        none,
      )
  pub unseen :
      walk (length after) other limit none after ≡ walk (length before) other limit none before

add-IsAdded :
    (own other : RequestContext) (limit : ℕ) (company : Company) (db : Companies)
    {after : Companies}
    → 1 ≤ limit
    → limit ≤ 200
    → AllDistinct id_of db.rows
    → other.tenant_id ≢ own.tenant_id
    → add (tenant_session own.tenant_id) company db ≡ ok after
    → IsAdded own other limit company db.rows after.rows
add-IsAdded own other limit company db h k distinct differs added =
    let (is_own, fresh, e) = add-eq-ok own.tenant_id company db added in
    let now_distinct = AllDistinct-append id_of db.rows company distinct fresh in
    subst (λ (after : Companies). IsAdded own other limit company db.rows after.rows) e
      (record {
        shown =
            walk_lem own limit (db.rows ++ company ∷ []) h k now_distinct
            ∙ ap (λ cs. ok (map validate cs, none))
                (listing_own own.tenant_id company db.rows is_own fresh);
        unseen =
            walk_lem other limit (db.rows ++ company ∷ []) h k now_distinct
            ∙ ap (λ cs. ok (map validate cs, none))
                (listing_others other.tenant_id company db.rows (λ e. differs (sym e ∙ is_own)))
            ∙ sym (walk_lem other limit db.rows h k distinct);
      })

refused :
    (tenant_id : Uuid) (company : Company) (db : Companies) {e : Failure}
    → add (tenant_session tenant_id) company db ≡ raise e
    → is_acceptable tenant_id company db ≡ false
unfolding add
refused tenant_id company db h = ground (arith, h)

-- A company added in a tenant's context: if `add` returns, a walk through the pages in this context, of
-- any size the endpoint takes, from 1 to 200, finds the company in its place by key among those that
-- were listed before, and a walk in any other tenant's context finds what it found before. It raises an
-- error only if the company is not the tenant's, its texts are too long, its key is taken or the tenant
-- does not own the database. Keys are unique before.
pub add-walk :
    (own other : RequestContext) (limit : ℕ) (company : Company) (db : Companies)
    → 1 ≤ limit
    → limit ≤ 200
    → AllDistinct id_of db.rows
    → other.tenant_id ≢ own.tenant_id
    → Outcome
        (λ (after : Companies). IsAdded own other limit company db.rows after.rows)
        (λ _. is_acceptable own.tenant_id company db ≡ false)
        (add (tenant_session own.tenant_id) company db)
add-walk own other limit company db h k distinct differs =
    (elim (add (tenant_session own.tenant_id) company db)
        as (λ call.
          add (tenant_session own.tenant_id) company db ≡ call
          → Outcome (λ (after : Companies). IsAdded own other limit company db.rows after.rows)
              (λ _. is_acceptable own.tenant_id company db ≡ false) call) [
                | ok after ↦ add-IsAdded own other limit company db h k distinct differs
                | raise e ↦ refused own.tenant_id company db
              ])
      refl
