-- ===== src/Platform/Servers/Frames.antt =====
-- The steps on the servers, for every relation of worlds that a change of one database keeps.
use karmevo_erp.Platform.Registry.{Uuid}
use karmevo_erp.Platform.Servers.{
  Op, select_database, create_database, revoke_public, upgrade_head, read_revision, grant_role,
  insert_owner, Outside, TenantDatabase, World, M, ◌>>=◌, checked, is_at, find, change, perform,
  alter,
}
use karmevo_erp.Platform.Servers.Commands.{
  Admin, connect, admin_url, exists, new_database, add_database, create, grant_all, grant_connect,
  insert_bound, read_bound, bind_owner, revision_of, current_revision, run_migrations, upgrade,
}
use karmevo_erp.Core.Databases.{safe, url}
use karmevo_erp.Platform.Servers.Keeping.{
  Keeps, Keeps-bind, Keeps-checked, any-change, find-change, find-append, Kept, Kept-refl,
  Kept-trans, SamePlaces, SamePlaces-trans,
}
use karmevo_erp.Prelude.{
  String, true, false, List, [], ◌∷◌, ◌++◌, some, ◌≡◌, refl, arith, if◌then◌else◌, string_key,
  nat_key, any, Bool-cases, Option-cases, inl, inr, sym, subst,
}

-- A change that leaves a database where it is, and its owner.
pub record IsMild (f : TenantDatabase → TenantDatabase) : Type 0 where
  pub placed : (s n : String) (d : TenantDatabase) → is_at s n (f d) ≡ is_at s n d
  pub owner : (d : TenantDatabase) (u : Uuid) → d.bound ≡ some u → (f d).bound ≡ some u

pub record IsFrame (R : World → World → Type 0) : Type 0 where
  pub same : (w : World) → R w w
  pub trans : (a b c : World) → R a b → R b c → R a c
  pub logged : (w : World) (ops : List Op) → R w (record w { log = ops })
  pub altered :
      (w : World) (s n : String) (f : TenantDatabase → TenantDatabase)
      → IsMild f
      → R w (record w { databases = change s n f w.databases })

pub Kept-IsFrame : IsFrame Kept
Kept-IsFrame = record {
  same = Kept-refl;
  trans = Kept-trans;
  logged = λ w ops. record { registry = refl; databases = λ s n d h. (d, h, λ u e. e) };
  altered = λ w server name f mild. record {
    registry = refl;
    databases = λ s n d h. (
      if is_at server name d then f d else d,
      find-change server name s n f (mild.placed s n) w.databases d h,
      λ u e. elim (is_at server name d) as (λ b. (if b then f d else d).bound ≡ some u) [
        | true ↦ mild.owner d u e
        | false ↦ e
      ],
    );
  };
}

pub SamePlaces-IsFrame : IsFrame SamePlaces
SamePlaces-IsFrame = record {
  same = λ w s n. refl;
  trans = SamePlaces-trans;
  logged = λ w ops s n. refl;
  altered = λ w server name f mild s n. any-change server name s n f (mild.placed s n) w.databases;
}

module _ (R : World → World → Type 0) (frame : IsFrame R) (out : Outside) where
  perform_keeps : (op : Op) → Keeps R (perform out op)
  unfolding perform
  perform_keeps op w = elim (Option-cases (out.fault w.log op)) [
    | inl fine ↦ rw (fine, perform) (frame.logged w (w.log ++ op ∷ []))
    | inr (text, down) ↦ rw (down, perform) (frame.logged w (w.log ++ op ∷ []))
  ]

  alter_keeps :
      (s n : String) (f : TenantDatabase → TenantDatabase) → IsMild f → Keeps R (alter out s n f)
  unfolding alter
  alter_keeps s n f mild w = elim (Option-cases (find s n w.databases)) [
    | inl absent ↦ rw (absent, alter) (frame.same w)
    | inr (d, there) ↦ rw (there, alter) (frame.altered w s n f mild)
  ]

  abbrev bound_by :
      {A B : Type 0} (m : M A) (f : A → M B)
      → Keeps R m
      → ((a : A) → Keeps R (f a))
      → Keeps R (m >>= f)
  bound_by = Keeps-bind R frame.trans

  module _ (admin : Admin) where
    connect_keeps : (s : String) → Keeps R (connect admin s)
    connect_keeps s = Keeps-checked R frame.same (url admin.locator s "postgres" admin.owner)

    pub admin_url_keeps : (s n : String) → Keeps R (admin_url admin s n)
    unfolding admin_url
    admin_url_keeps s n =
        bound_by (checked (safe n)) _ (Keeps-checked R frame.same (safe n))
          (λ name. Keeps-checked R frame.same (url admin.locator s name admin.owner))

    pub exists_keeps : (s n : String) → Keeps R (exists out admin s n)
    unfolding exists
    exists_keeps s n = bound_by (connect admin s) _ (connect_keeps s) (λ u.
        bound_by (perform out (select_database s n)) _ (perform_keeps (select_database s n))
          (λ u. frame.same))

    grant_all_keeps : (s n : String) (roles : List String) → Keeps R (grant_all out admin s n roles)
    unfolding grant_all
    grant_all_keeps s n [] = frame.same
    grant_all_keeps s n (role ∷ roles) =
        bound_by (perform out (grant_role s n role)) _ (perform_keeps (grant_role s n role)) (λ u.
          bound_by (alter out s n (λ d. record d { granted = d.granted ++ role ∷ [] })) _
            (alter_keeps s n _ (record { placed = λ s n d. refl; owner = λ d u e. e }))
            (λ u. grant_all_keeps s n roles))

    pub grant_connect_keeps : (s n : String) → Keeps R (grant_connect out admin s n)
    unfolding grant_connect
    grant_connect_keeps s n =
        bound_by (checked (safe n)) _ (Keeps-checked R frame.same (safe n)) (λ name.
          bound_by (connect admin s) _ (connect_keeps s) (λ u.
            bound_by (perform out (revoke_public s name)) _ (perform_keeps (revoke_public s name))
              (λ u.
                bound_by (alter out s name (λ d. record d { public_connect = false })) _
                  (alter_keeps s name _ (record { placed = λ s n d. refl; owner = λ d u e. e }))
                  (λ u. grant_all_keeps s name admin.runtime_roles))))

    insert_bound-IsMild : (t : Uuid) → IsMild (insert_bound out admin t)
    insert_bound-IsMild t = record {
      placed = λ s n d. ground arith;
      owner = λ d u e. ground (arith, e);
    }

    read_bound_keeps : (s n : String) (t : Uuid) → Keeps R (read_bound out admin s n t)
    unfolding read_bound
    read_bound_keeps s n t w =
        let left : (read_bound out admin s n t w).1 ≡ w = ground arith in
        subst (R w) (sym left) (frame.same w)

    pub bind_owner_keeps : (s n : String) (t : Uuid) → Keeps R (bind_owner out admin s n t)
    unfolding bind_owner
    bind_owner_keeps s n t = bound_by (admin_url admin s n) _ (admin_url_keeps s n) (λ u.
        bound_by (perform out (insert_owner s n t)) _ (perform_keeps (insert_owner s n t)) (λ u.
          bound_by (alter out s n (insert_bound out admin t)) _
            (alter_keeps s n _ (insert_bound-IsMild t)) (λ u. read_bound_keeps s n t)))

  revision_of_keeps : (s n : String) → Keeps R (revision_of out s n)
  unfolding revision_of
  revision_of_keeps s n w = elim (Option-cases (find s n w.databases)) [
    | inl absent ↦ rw (absent, revision_of) (frame.same w)
    | inr (d, there) ↦ rw (there, revision_of) (frame.same w)
  ]

  run_migrations_keeps : (s n : String) → Keeps R (run_migrations out s n)
  unfolding run_migrations
  run_migrations_keeps s n w =
      let logged = record w { log = w.log ++ upgrade_head s n ∷ [] } in
      elim (Option-cases (out.fault w.log (upgrade_head s n))) [
        | inl fine ↦
            rw (fine, run_migrations)
              (frame.trans w logged _ (frame.logged w (w.log ++ upgrade_head s n ∷ []))
                (alter_keeps s n _ (record { placed = λ s n d. refl; owner = λ d u e. e }) logged))
        | inr (text, down) ↦
            rw (down, run_migrations)
              (frame.trans w logged _ (frame.logged w (w.log ++ upgrade_head s n ∷ [])) (
                frame.altered logged s n _ (record { placed = λ s n d. refl; owner = λ d u e. e })))
      ]

  pub upgrade_keeps : (s n : String) → Keeps R (upgrade out s n)
  unfolding upgrade current_revision
  upgrade_keeps s n = bound_by (run_migrations out s n) _ (run_migrations_keeps s n) (λ u.
      bound_by (perform out (read_revision s n)) _ (perform_keeps (read_revision s n))
        (λ u. revision_of_keeps s n))

module _ (out : Outside) (admin : Admin) where
  add_database-Kept : (d : TenantDatabase) → Keeps Kept (add_database out admin d)
  unfolding add_database
  add_database-Kept d w = elim (Bool-cases (any (is_at d.server d.name) w.databases)) [
    | inl there ↦ rw (there, add_database) (Kept-refl w)
    | inr absent ↦
        rw (absent, add_database)
          (record {
            registry = refl;
            databases = λ s n d' h. (d', find-append s n w.databases d d' h, λ u e. e);
          })
  ]

  pub create-Kept : (s n : String) → Keeps Kept (create out admin s n)
  unfolding create
  create-Kept s n =
      Keeps-bind Kept Kept-trans (checked (safe n)) _ (Keeps-checked Kept Kept-refl (safe n))
        (λ name.
          Keeps-bind Kept Kept-trans (connect admin s) _
            (connect_keeps Kept Kept-IsFrame out admin s)
            (λ u.
              Keeps-bind Kept Kept-trans (perform out (create_database s name)) _
                (perform_keeps Kept Kept-IsFrame out (create_database s name))
                (λ u. add_database-Kept (new_database out admin s name))))
