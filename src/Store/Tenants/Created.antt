-- ===== src/Store/Tenants/Created.antt =====
-- What the statements that set a project up leave for those that use it.
use slay_push.Base.Text.{str_eq_refl}
use slay_push.Store.Success.{query_ok}
use slay_push.Base.{
  refl, suc, ==_refl, some, String, find_where, true, sym, ap, false, if◌then◌else◌, Bool, ◌∷◌, ◌≡◌,
}
use slay_push.Errors.{violation, err, ok, Result}
use slay_push.Store.Tenants.{project_has_id, has_slug, new_project, insert_project, create_project}
use slay_push.Store.{World, Project}

project_or : Project → Result Project → Project
project_or p (ok q) = q
project_or p (err e) = p

insert_project_ok :
    (p q : Project) (w v : World)
    → insert_project p w ≡ (ok q, v)
    → (p ≡ q) × (v.projects ≡ p ∷ w.projects)
unfolding insert_project project_or
insert_project_ok p q w v h = go _ _ h
  where
    go :
        (a b : Bool)
        → ◌≡◌ {A = Result Project × World}
            (if a
              then (err (violation "projects_pkey"), w)
              else if b
              then (err (violation "projects_slug_key"), w)
              else (ok p, record w { projects = p ∷ w.projects }))
            (ok q, v)
        → (p ≡ q) × (v.projects ≡ p ∷ w.projects)
    go true b k = cc
    go false true k = cc
    go false false k = (ap (λ z. project_or p z.0) k, sym (ap (λ z. z.1.projects) k))

-- A project that was created is the one found by its slug and by its id, and it is active.
pub create_project_ok :
    (name slug : String) (w v : World) (p : Project)
    → create_project name slug w ≡ (ok p, v)
    → (find_where (has_slug slug) v.projects ≡ some p)
      × (find_where (project_has_id p.id) v.projects ≡ some p)
      × (p.status ≡ "active")
unfolding create_project new_project find_where
create_project_ok name slug w v p h =
    let (same, rows) = insert_project_ok _ p _ v (query_ok _ w p v h) in
    rw (sym same, rows)
      (rw (str_eq_refl slug) refl, rw (==_refl (w.env.gen_random_uuid (suc w.tick))) refl, refl)
