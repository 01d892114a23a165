-- ===== src/Platform/Companies/Walks.antt =====
-- The pages of the companies, followed from cursor to cursor by a client.
use karmevo_erp.Platform.Companies.{
  Company, CompanyOut, PageError, id_of, is_shown, validate, list_page, list_companies,
}
use karmevo_erp.Platform.Companies.Pages.{listing, left, Leaves, page_lem}
use karmevo_erp.Platform.Registry.{Uuid, tenant_session}
use karmevo_erp.Platform.TenantContext.{RequestContext}
use mathlib.Core.List.{map-append}
use karmevo_erp.Prelude.{
  ℕ, zero, suc, List, [], ◌++◌, map, Option, none, some, ◌≡◌, refl, sym, ap, ◌∙◌, Result, ok, ◌>>=◌,
  AllDistinct, take, drop, length, append-take-drop, length-drop, length-keep-le, keep-every,
  All-always, keep, by_number, true, length-sort_by, take-all, ◌≤◌, arith,
}

-- The companies of up to `more` pages after a first one, and the cursor of the last of them.
unfoldable pub walk :
    (more : ℕ)
    → RequestContext
    → ℕ
    → Option Uuid
    → List Company
    → Result PageError (List CompanyOut × Option Uuid)
walk zero context limit cursor table = do
  answer ← list_companies [] context (some limit) cursor table
  ok (answer.items, answer.next_cursor)
walk (suc more) context limit cursor table = do
  answer ← list_companies [] context (some limit) cursor table
  elim answer.next_cursor [
    | none ↦ ok (answer.items, none)
    | some last ↦ do
      (items, next) ← walk more context limit (some last) table
      ok (answer.items ++ items, next)
  ]

-- A limit that the endpoint accepts.
list_companies-page :
    (context : RequestContext) (limit : ℕ) (cursor : Option Uuid) (table : List Company)
    → 1 ≤ limit
    → limit ≤ 200
    → list_companies [] context (some limit) cursor table ≡ list_page context limit cursor table
unfolding list_companies
list_companies-page context limit cursor table h k = ground (arith, h, k)

-- The endpoint answers with the first `n` companies after the cursor.
abbrev Answers : RequestContext → ℕ → Option Uuid → List Company → Option Uuid → Type 0
Answers context n cursor table next =
    list_companies [] context (some n) cursor table
    ≡ ok (record {
      items = map validate (take n (left (tenant_session context.tenant_id) cursor table));
      next_cursor = next;
    })

-- A page of the endpoint, and where it leaves the listing.
answer_lem :
    (context : RequestContext) (n : ℕ) (cursor : Option Uuid) (table : List Company)
    → suc n ≤ 200
    → AllDistinct id_of table
    → (next : Option Uuid) × Answers context (suc n) cursor table next
      × Leaves (tenant_session context.tenant_id) (suc n) cursor table next
unfolding list_page
answer_lem context n cursor table h d =
    let (next, returned, leaves) = page_lem (tenant_session context.tenant_id) n cursor table d in
    (
      next,
      list_companies-page context (suc n) cursor table (omega arith) h ∙ rw returned refl,
      leaves,
    )

map-take-drop :
    (n : ℕ) (cs : List Company)
    → map validate (take n cs) ++ map validate (drop n cs) ≡ map validate cs
map-take-drop n cs =
    sym (map-append validate (take n cs) (drop n cs)) ∙ ap (map validate) (append-take-drop n cs)

-- What a walk still owes after the page that `answer_lem` describes.
Walks : ℕ → RequestContext → ℕ → Option Uuid → List Company → Type 0
Walks more context n cursor table =
    walk more context (suc n) cursor table
    ≡ ok (map validate (left (tenant_session context.tenant_id) cursor table), none)

last_page :
    (more : ℕ) (context : RequestContext) (n : ℕ) (cursor : Option Uuid) (table : List Company)
    → Answers context (suc n) cursor table none
    → length (left (tenant_session context.tenant_id) cursor table) ≤ suc n
    → Walks more context n cursor table
unfolding walk Walks
last_page zero context n cursor table returned short =
    rw (returned, take-all (suc n) (left (tenant_session context.tenant_id) cursor table) short)
      refl
last_page (suc more) context n cursor table returned short =
    rw (returned, take-all (suc n) (left (tenant_session context.tenant_id) cursor table) short)
      refl

next_page :
    (more : ℕ) (context : RequestContext) (n : ℕ) (cursor : Option Uuid) (last : Uuid)
    (table : List Company)
    → Answers context (suc n) cursor table (some last)
    → left (tenant_session context.tenant_id) (some last) table
      ≡ drop (suc n) (left (tenant_session context.tenant_id) cursor table)
    → Walks more context n (some last) table
    → Walks (suc more) context n cursor table
unfolding walk Walks
next_page more context n cursor last table returned rest walked =
    rw (returned, walked, rest)
      (ap (λ items. ok (items, none))
        (map-take-drop (suc n) (left (tenant_session context.tenant_id) cursor table)))

walk_from :
    (more : ℕ) (context : RequestContext) (n : ℕ) (cursor : Option Uuid) (table : List Company)
    → suc n ≤ 200
    → AllDistinct id_of table
    → length (left (tenant_session context.tenant_id) cursor table) ≤ more
    → Walks more context n cursor table
walk_from zero context n cursor table h d enough =
    let (next, returned, leaves) = answer_lem context n cursor table h d in
    (elim next
        as (λ next.
          Answers context (suc n) cursor table next
          → Leaves (tenant_session context.tenant_id) (suc n) cursor table next
          → Walks zero context n cursor table) [
            | none ↦ last_page zero context n cursor table
            | some last ↦ λ returned (rest, more). absurd (omega (arith, more, enough))
          ])
      returned leaves
walk_from (suc more) context n cursor table h d enough =
    let (next, returned, leaves) = answer_lem context n cursor table h d in
    (elim next
        as (λ next.
          Answers context (suc n) cursor table next
          → Leaves (tenant_session context.tenant_id) (suc n) cursor table next
          → Walks (suc more) context n cursor table) [
            | none ↦ last_page (suc more) context n cursor table
            | some last ↦ λ returned (rest, longer).
                next_page more context n cursor last table returned rest (
                  walk_from more context n (some last) table h d (
                    rw rest (
                      omega (
                        arith,
                        longer,
                        enough,
                        length-drop (suc n) (left (tenant_session context.tenant_id) cursor table),
                      ))))
          ])
      returned leaves

-- A client that asks for pages of any size the endpoint takes, from 1 to 200, and follows the
-- cursors of the answers, gets every company that its tenant is shown, once each and in the order of
-- the keys, and comes to the last page after at most as many more pages as the table has companies;
-- keys are unique.
pub walk_lem :
    (context : RequestContext) (limit : ℕ) (table : List Company)
    → 1 ≤ limit
    → limit ≤ 200
    → AllDistinct id_of table
    → walk (length table) context limit none table
      ≡ ok (map validate (listing (tenant_session context.tenant_id) table), none)
unfolding Walks
walk_lem context zero table h k d = absurd (omega (arith, h))
walk_lem context (suc n) table h k d =
    walk_from (length table) context n none table k d (omega (arith, length-left))
    ∙ ap (λ cs. ok (map validate cs, none)) all_left
  where
    all_left :
        left (tenant_session context.tenant_id) none table
        ≡ listing (tenant_session context.tenant_id) table
    all_left =
        keep-every (λ c. true) (listing (tenant_session context.tenant_id) table)
          (All-always (λ c. refl) (listing (tenant_session context.tenant_id) table))

    length-left : length (left (tenant_session context.tenant_id) none table) ≤ length table
    length-left = rw all_left (
        omega (
          arith,
          length-sort_by (by_number id_of)
              (keep (is_shown (tenant_session context.tenant_id)) table),
          length-keep-le (is_shown (tenant_session context.tenant_id)) table,
        ))
