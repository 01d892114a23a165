-- ===== src/Platform/Servers/Effects.antt =====
-- What a step on the servers that returns has done to the database that it is for.
use karmevo_erp.Core.Databases.{ValueError, Url, safe, url}
use karmevo_erp.Core.Databases.Identifiers.{safe_iff}
use karmevo_erp.Platform.Registry.{Uuid}
use karmevo_erp.Platform.Servers.{
  Op, revoke_public, upgrade_head, read_revision, grant_role, insert_owner, Outside, Trouble,
  TenantDatabase, World, M, after, ◌>>=◌, checked, is_at, find, change, perform, alter,
}
use karmevo_erp.Platform.Servers.Commands.{
  Admin, connect, admin_url, grant_all, grant_connect, insert_bound, read_bound, bind_owner,
  revision_of, current_revision, run_migrations, upgrade,
}
use karmevo_erp.Platform.Servers.Keeping.{find-change}
use mathlib.Core.List.{append-nil, append_assoc}
use karmevo_erp.Prelude.{
  String, true, false, List, [], ◌∷◌, ◌++◌, Option, some, ◌≡◌, refl, arith, string_key, nat_key,
  find_first, Result, ok, raise, Bool-cases, Option-cases, inl, inr, sym, ap, ◌∙◌, subst, some-eq,
}

-- What a successful chain went through.
after-eq-ok :
    {A B : Type 0} (f : A → M B) (r : Result Trouble A × World) {b : B} {w' : World}
    → after f r ≡ (ok b, w')
    → (a : A) × (w : World) × (r ≡ (ok a, w)) × (f a w ≡ (ok b, w'))
after-eq-ok f (ok a, w) h = (a, w, refl, h)
after-eq-ok f (raise e, w) h = cc

pub bind-eq-ok :
    {A B : Type 0} (m : M A) (f : A → M B) (w : World) {b : B} {w' : World}
    → (m >>= f) w ≡ (ok b, w')
    → (a : A) × (mid : World) × (m w ≡ (ok a, mid)) × (f a mid ≡ (ok b, w'))
bind-eq-ok m f w h = after-eq-ok f (m w) h

pub checked-eq-ok :
    {A : Type 0} (r : Result ValueError A) (w : World) {a : A} {w' : World}
    → checked r w ≡ (ok a, w')
    → (r ≡ ok a) × (w' ≡ w)
checked-eq-ok (ok a) w h = (cc h, cc h)
checked-eq-ok (raise e) w h = cc

pub admin_url-eq-ok :
    (admin : Admin) (s n : String) (w : World) {u : Url} {w' : World}
    → admin_url admin s n w ≡ (ok u, w')
    → w' ≡ w
unfolding admin_url
admin_url-eq-ok admin s n w {u} {w'} h =
    let (name, w1, safe_ok, rest) =
      bind-eq-ok (checked (safe n)) (λ name. checked (url admin.locator s name admin.owner)) w h in
    (checked-eq-ok (url admin.locator s name admin.owner) w1 rest).1
    ∙ (checked-eq-ok (safe n) w safe_ok).1

find-is_at :
    (s n : String) (ds : List TenantDatabase) (d : TenantDatabase)
    → find s n ds ≡ some d
    → is_at s n d ≡ true
unfolding find find_first
find-is_at s n [] d h = cc
find-is_at s n (x ∷ ds) d h = elim (Bool-cases (is_at s n x)) [
  | inl here ↦ rw (← some-eq (rw here at h)) here
  | inr later ↦ find-is_at s n ds d (rw later at h)
]

module _ (out : Outside) where
  pub perform-eq-ok :
      (op : Op) (w : World) {u : Unit {0}} {w' : World}
      → perform out op w ≡ (ok u, w')
      → (w'.databases ≡ w.databases) × (w'.registry ≡ w.registry)
  unfolding perform
  perform-eq-ok op w h = ground (arith, h)

  pub alter-eq-ok :
      (s n : String) (f : TenantDatabase → TenantDatabase)
      → ((d : TenantDatabase) → is_at s n (f d) ≡ is_at s n d)
      → (w : World) {u : Unit {0}} {w' : World} → alter out s n f w ≡ (ok u, w')
      → (d : TenantDatabase) × (find s n w.databases ≡ some d)
        × (find s n w'.databases ≡ some (f d))
  unfolding alter
  alter-eq-ok s n f placed w {u} {w'} h = elim (Option-cases (find s n w.databases)) [
    | inl absent ↦ absurd (ground (arith, h, absent))
    | inr (d, there) ↦
        let left : change s n f w.databases ≡ w'.databases = ground (arith, h, there) in
        let here = find-is_at s n w.databases d there in
        (d, there, rw (← left) (rw here at (find-change s n s n f placed w.databases d there)))
  ]

  alter_at :
      (s n : String) (f : TenantDatabase → TenantDatabase)
      → ((d : TenantDatabase) → is_at s n (f d) ≡ is_at s n d)
      → (w : World) {u : Unit {0}} {w' : World} (d : TenantDatabase) → find s n w.databases ≡ some d
      → alter out s n f w ≡ (ok u, w')
      → find s n w'.databases ≡ some (f d)
  alter_at s n f placed w d there h =
      let (x, found, left) = alter-eq-ok s n f placed w h in
      left ∙ ap (λ y. some (f y)) (some-eq (sym found ∙ there))

  performed_at :
      (op : Op) (s n : String) (w : World) {u : Unit {0}} {w' : World} (d : TenantDatabase)
      → find s n w.databases ≡ some d
      → perform out op w ≡ (ok u, w')
      → find s n w'.databases ≡ some d
  performed_at op s n w d there h = rw (perform-eq-ok op w h).0 there

  revision_of-eq-ok :
      (s n : String) (w : World) {r : Option String} {w' : World} (d : TenantDatabase)
      → find s n w.databases ≡ some d
      → revision_of out s n w ≡ (ok r, w')
      → (w ≡ w') × (r ≡ d.revision)
  unfolding revision_of
  revision_of-eq-ok s n w d there h = (ground (arith, h, there), ground (arith, h, there))

  migrated_at :
      (s n : String) (w : World) {u : Unit {0}} {w' : World} (d : TenantDatabase)
      → find s n w.databases ≡ some d
      → run_migrations out s n w ≡ (ok u, w')
      → find s n w'.databases ≡ some (record d { revision = some out.head })
  unfolding run_migrations
  migrated_at s n w {u} {w'} d there h = elim (Option-cases (out.fault w.log (upgrade_head s n))) [
    | inl fine ↦
        alter_at s n (λ d. record d { revision = some out.head }) (λ d. refl)
          (record w { log = w.log ++ upgrade_head s n ∷ [] }) {w' = w'} d there
          (ground (arith, h, fine))
    | inr (text, down) ↦ absurd (ground (arith, h, down))
  ]

  read_bound-eq-ok :
      (admin : Admin) (s n : String) (t : Uuid) (w : World) {u : Unit {0}} {w' : World}
      (d : TenantDatabase)
      → find s n w.databases ≡ some d
      → read_bound out admin s n t w ≡ (ok u, w')
      → (w ≡ w') × (d.bound ≡ some t)
  unfolding read_bound
  read_bound-eq-ok admin s n t w d there h = (ground (arith, h, there), ground (arith, h, there))

  module _ (admin : Admin) where
    grant_all-eq-ok :
        (s n : String) (roles : List String) (w : World) {u : Unit {0}} {w' : World}
        (d : TenantDatabase)
        → find s n w.databases ≡ some d
        → grant_all out admin s n roles w ≡ (ok u, w')
        → find s n w'.databases ≡ some (record d { granted = d.granted ++ roles })
    unfolding grant_all
    grant_all-eq-ok s n [] w {u} {w'} d there h =
        let same : w ≡ w' = ground (arith, h) in
        rw (← same) (there ∙ ap (λ g. some (record d { granted = g })) (sym (append-nil d.granted)))
    grant_all-eq-ok s n (role ∷ roles) w {u} {w'} d there h =
        let (u1, w1, sent, rest) = bind-eq-ok (perform out (grant_role s n role)) _ w h in
        let (u2, w2, granted, rest2) =
          bind-eq-ok (alter out s n (λ x. record x { granted = x.granted ++ role ∷ [] })) _ w1
            rest in
        let d1 = record d { granted = d.granted ++ role ∷ [] } in
        let at1 =
          alter_at s n (λ x. record x { granted = x.granted ++ role ∷ [] }) (λ x. refl) w1 d
            (performed_at (grant_role s n role) s n w d there sent) granted in
        grant_all-eq-ok s n roles w2 d1 at1 rest2
        ∙ ap (λ g. some (record d { granted = g })) (append_assoc d.granted (role ∷ []) roles)

    -- `grant_connect` returns only for a database that is there; it then takes CONNECT from PUBLIC
    -- and gives it to the runtime roles.
    pub grant_connect-eq-ok :
        (s n : String) (w : World) {u : Unit {0}} {w' : World}
        → grant_connect out admin s n w ≡ (ok u, w')
        → (d : TenantDatabase) × (find s n w'.databases
            ≡ some
                (record d { public_connect = false; granted = d.granted ++ admin.runtime_roles }))
          × (find s n w.databases ≡ some d)
    unfolding grant_connect
    grant_connect-eq-ok s n w {u} {w'} h =
        let (name, w1, safe_ok, rest) = bind-eq-ok (checked (safe n)) _ w h in
        let (named, same1) = checked-eq-ok (safe n) w safe_ok in
        let is_n : name ≡ n = ((safe_iff n name).0 named).0 in
        let (c, w2, connected, rest2) = bind-eq-ok (connect admin s) _ w1 rest in
        let (_, same2) = checked-eq-ok (url admin.locator s "postgres" admin.owner) w1 connected in
        let (u3, w3, revoked, rest3) = bind-eq-ok (perform out (revoke_public s name)) _ w2 rest2 in
        let (u4, w4, altered, rest4) =
          bind-eq-ok (alter out s name (λ d. record d { public_connect = false })) _ w3 rest3 in
        let (d, there, left) =
          alter-eq-ok s name (λ d. record d { public_connect = false }) (λ d. refl) w3 altered in
        let last =
          grant_all-eq-ok s name admin.runtime_roles w4 (record d { public_connect = false }) left
            rest4 in
        let unchanged : w3.databases ≡ w.databases =
          (perform-eq-ok (revoke_public s name) w2 revoked).0
          ∙ ap (λ x. x.databases) (same2 ∙ same1) in
        (
          d,
          subst
              (λ x.
                find s x w'.databases
                ≡ some (record d {
                  public_connect = false;
                  granted = d.granted ++ admin.runtime_roles;
                }))
              is_n last,
          subst (λ x. find s x w.databases ≡ some d) is_n
              (subst (λ ds. find s name ds ≡ some d) unchanged there),
        )

    -- `upgrade` returns the head, to which the database is brought.
    pub upgrade-eq-ok :
        (s n : String) (w : World) {r : Option String} {w' : World} (d : TenantDatabase)
        → find s n w.databases ≡ some d
        → upgrade out s n w ≡ (ok r, w')
        → (find s n w'.databases ≡ some (record d { revision = some out.head }))
          × (r ≡ some out.head)
    unfolding upgrade current_revision
    upgrade-eq-ok s n w {r} {w'} d there h =
        let (u1, w1, ran, rest) = bind-eq-ok (run_migrations out s n) _ w h in
        let (u2, w2, read, rest2) = bind-eq-ok (perform out (read_revision s n)) _ w1 rest in
        let at1 = migrated_at s n w d there ran in
        let at2 =
          performed_at (read_revision s n) s n w1 (record d { revision = some out.head }) at1
            read in
        let (same, result) =
          revision_of-eq-ok s n w2 (record d { revision = some out.head }) at2 rest2 in
        (
          subst (λ x. find s n x.databases ≡ some (record d { revision = some out.head })) same at2,
          result,
        )

    -- `bind_owner` returns only if the database belongs to the tenant.
    pub bind_owner-eq-ok :
        (s n : String) (t : Uuid) (w : World) {u : Unit {0}} {w' : World} (d : TenantDatabase)
        → find s n w.databases ≡ some d
        → bind_owner out admin s n t w ≡ (ok u, w')
        → (find s n w'.databases ≡ some (insert_bound out admin t d))
          × ((insert_bound out admin t d).bound ≡ some t)
    unfolding bind_owner
    bind_owner-eq-ok s n t w {u} {w'} d there h =
        let (u1, w1, url_ok, rest) = bind-eq-ok (admin_url admin s n) _ w h in
        let (u2, w2, sent, rest2) = bind-eq-ok (perform out (insert_owner s n t)) _ w1 rest in
        let (u3, w3, altered, rest3) =
          bind-eq-ok (alter out s n (insert_bound out admin t)) _ w2 rest2 in
        let at1 =
          subst (λ x. find s n x.databases ≡ some d) (sym (admin_url-eq-ok admin s n w url_ok))
            there in
        let at3 =
          alter_at s n (insert_bound out admin t) (λ d. ground arith) w2 d
            (performed_at (insert_owner s n t) s n w1 d at1 sent) altered in
        let (same, owned) =
          read_bound-eq-ok admin s n t w3 (insert_bound out admin t d) at3 rest3 in
        (subst (λ x. find s n x.databases ≡ some (insert_bound out admin t d)) same at3, owned)

module _ (out : Outside) (admin : Admin) where
  -- An upgrade that returns, returns the head.
  pub upgrade-head :
      (s n : String) (w : World) {r : Option String} {w' : World}
      → upgrade out s n w ≡ (ok r, w')
      → r ≡ some out.head
  unfolding upgrade run_migrations
  upgrade-head s n w {r} {w'} h =
      let (u1, w1, ran, rest) = bind-eq-ok (run_migrations out s n) _ w h in
      elim (Option-cases (out.fault w.log (upgrade_head s n))) [
        | inl fine ↦
            let (d, there, left) =
              alter-eq-ok out s n (λ d. record d { revision = some out.head }) (λ d. refl)
                (record w { log = w.log ++ upgrade_head s n ∷ [] }) {u = tt} {w' = w1}
                (ground (arith, ran, fine)) in
            (upgrade-eq-ok out admin s n w d there h).1
        | inr (text, down) ↦ absurd (ground (arith, ran, down))
      ]
