-- ===== src/Platform/Companies/Pages.antt =====
-- What one page of companies holds, and where it says that the next one starts.
use karmevo_erp.Platform.Companies.{Company, id_of, is_shown, is_after, select, page, page_of}
use karmevo_erp.Platform.Registry.{Uuid, Context}
use karmevo_erp.Prelude.{
  ℕ, suc, List, [], ◌∷◌, Option, none, some, ◌≡◌, refl, ok, Bool-cases, inl, inr, keep, sort_by,
  by_number, take, drop, length, AllDistinct, IsAscending, sort_by-IsAscending, keep-sort_by,
  keep-AllDistinct, keep-IsAscending, keep-after, keep-keep, take-take-suc, length-take,
  get_last_or, ltb, arith, ◌≤◌, ◌<◌, All, All-take, All-get_last_or, All-keep_test, true, ap, sym,
  subst, ◌∙◌,
}

-- The companies that a context shows, in the order of their keys.
abbrev pub listing : Context → List Company → List Company
listing ctx table = sort_by (by_number id_of) (keep (is_shown ctx) table)

pub listing-IsAscending :
    (ctx : Context) (table : List Company)
    → AllDistinct id_of table
    → IsAscending id_of (listing ctx table)
listing-IsAscending ctx table d =
    sort_by-IsAscending id_of (keep (is_shown ctx) table)
      (keep-AllDistinct id_of (is_shown ctx) table d)

-- What is left of the listing after a cursor.
abbrev pub left : Context → Option Uuid → List Company → List Company
left ctx after table = keep (is_after after) (listing ctx table)

pub select_lem :
    (ctx : Context) (n : ℕ) (after : Option Uuid) (table : List Company)
    → AllDistinct id_of table
    → select ctx n after table ≡ take (suc n) (left ctx after table)
unfolding select
select_lem ctx n after table d = ap (take (suc n)) (
    sym (
      keep-sort_by id_of (is_after after) (keep (is_shown ctx) table)
        (keep-AllDistinct id_of (is_shown ctx) table d)))

is_after_trans :
    (after : Option Uuid) (c d : Company)
    → is_after after c ≡ true
    → is_after (some c.company_id) d ≡ true
    → is_after after d ≡ true
is_after_trans none c d h k = refl
is_after_trans (some after) c d h k = ground arith

-- The last of the first elements of a list, after a cursor: what is left after it.
cut :
    (after : Option Uuid) (n : ℕ) (c : Company) (cs all : List Company)
    → IsAscending id_of all
    → keep (is_after after) all ≡ c ∷ cs
    → keep (is_after (some ((get_last_or c (take n cs)).company_id))) all ≡ drop n cs
cut after n c cs all ascending e =
    sym (
      keep-keep (is_after after) (is_after (some last)) all (λ x h.
        is_after_trans after last_company x
          (All-get_last_or (λ y. is_after after y ≡ true) c (take n cs) tests.0
            (All-take (λ y. is_after after y ≡ true) n cs tests.1))
          h))
    ∙ ap (keep (is_after (some last))) e
    ∙ keep-after id_of n c cs
        (subst (IsAscending id_of) e (keep-IsAscending id_of (is_after after) all ascending))
  where
    last_company : Company
    last_company = get_last_or c (take n cs)

    last : Uuid
    last = last_company.company_id

    tests : All (λ y. is_after after y ≡ true) (c ∷ cs)
    tests = subst (All (λ y. is_after after y ≡ true)) e (All-keep_test (is_after after) all)

-- Where a page of `n` elements leaves the listing.
abbrev pub Leaves : Context → ℕ → Option Uuid → List Company → Option Uuid → Type 0
Leaves ctx n after table none = length (left ctx after table) ≤ n
Leaves ctx n after table (some last) =
    (left ctx (some last) table ≡ drop n (left ctx after table))
    × (n < length (left ctx after table))

page_of-more :
    (n : ℕ) (c : Company) (cs : List Company)
    → n < length cs
    → page_of (suc n) (take (suc (suc n)) (c ∷ cs))
      ≡ ok (take (suc n) (c ∷ cs), some ((get_last_or c (take n cs)).company_id))
unfolding page_of
page_of-more n c cs h = ground (arith, length-take (suc n) cs, take-take-suc n cs)

page_of-all :
    (n : ℕ) (c : Company) (cs : List Company)
    → length cs ≤ n
    → page_of (suc n) (take (suc (suc n)) (c ∷ cs)) ≡ ok (take (suc n) (c ∷ cs), none)
unfolding page_of
page_of-all n c cs h = ground (arith, length-take (suc n) cs, take-take-suc n cs)

page_of_lem :
    (ctx : Context) (n : ℕ) (after : Option Uuid) (table rows : List Company)
    → AllDistinct id_of table
    → left ctx after table ≡ rows
    → (next : Option Uuid) × (page_of (suc n) (take (suc (suc n)) rows)
        ≡ ok (take (suc n) rows, next))
      × Leaves ctx (suc n) after table next
unfolding page_of
page_of_lem ctx n after table [] d e = (none, ground arith, rw e (omega arith))
page_of_lem ctx n after table (c ∷ cs) d e = elim (Bool-cases (ltb (suc n) (length (c ∷ cs)))) [
  | inl h ↦ (
    some ((get_last_or c (take n cs)).company_id),
    page_of-more n c cs (ground arith),
    (
      cut after n c cs (listing ctx table) (listing-IsAscending ctx table d) e
          ∙ ap (drop (suc n)) (sym e),
      rw e (ground arith),
    ),
  )
  | inr h ↦ (none, page_of-all n c cs (ground arith), rw e (ground arith))
]

-- A page whose limit is not zero ends the listing, or says which company it ends with.
pub page_lem :
    (ctx : Context) (n : ℕ) (after : Option Uuid) (table : List Company)
    → AllDistinct id_of table
    → (next : Option Uuid) × (page ctx (suc n) after table
        ≡ ok (take (suc n) (left ctx after table), next))
      × Leaves ctx (suc n) after table next
unfolding page
page_lem ctx n after table d =
    rw (select_lem ctx (suc n) after table d)
      (page_of_lem ctx n after table (left ctx after table) d refl)
