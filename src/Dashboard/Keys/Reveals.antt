-- ===== src/Dashboard/Keys/Reveals.antt =====
-- The key that the page reveals.
use slay_push.Store.Projects.{has_project}
use slay_push.Store.Notifications.{one_row}
use slay_push.Store.Fates.{read_cases}
use slay_push.Base.Text.{str_eq_refl, str_eq}
use slay_push.Apikey.{generate, scope_text, hash, RawKey, parse_scope, Scope, KeyCodec}
use slay_push.Store.Monad.{advance, pure}
use slay_push.Store.Success.{query_ok, ok_eq, bind_ok}
use slay_push.Dashboard.Projects.{current_user_email, or_internal}
use slay_push.Store.Tenants.{get_project_by_id, project_has_id, list_projects}
use slay_push.Store.ApiKeys.{
  key_has_id, new_api_key, has_key_hash, create_api_key, insert_api_key, list_api_keys_by_project,
}
use slay_push.Store.Users.{get_user_by_id}
use slay_push.Store.{ApiKey, Project, World}
use slay_push.Base.{
  Option-cases, any_where, inr, inl, ◌||◌, not, find_where, Bool-cases, ◌≢◌, ◌∷◌, refl, ap, ◌∙◌,
  sym, some, none, ◌≡◌, String, ℕ, Option,
}
use slay_push.Dashboard.Keys.{
  key_params, with_key_form, with_project, create_key, with_scope, on_project, created_key,
  handle_create_api_key, KeyForm, render_keys_tab, keys_of,
}
use slay_push.Errors.{Result-cases, err, ok, Result}
use slay_push.Dashboard.{not_found, internal_error, answer, keys_page, Answer, Page}

abbrev pub revealed_key : Page → Option String
revealed_key (keys_page email project projects keys revealed message) = some revealed
revealed_key _ = none

abbrev Shows : Result Answer × World → String → World → Type 0
Shows x raw v = (a : Answer) × (x ≡ (ok a, v)) × (revealed_key a.page ≡ some raw)

no-key :
    {C : Type 0} (page : Page) (u v : World) (raw : String)
    → revealed_key page ≡ none
    → Shows (ok (answer page), u) raw v
    → C
no-key page u v raw n (a, e, s) =
    let same = ok_eq (answer page) a u v e in
    let k : none ≡ some raw = sym n ∙ ap (λ x. revealed_key x.page) same ∙ s in cc

keys_shown :
    (user_id : ℕ) (project : Project) (revealed message : String) (w v : World) (a : Answer)
    → keys_of user_id project revealed message w ≡ (ok a, v)
    → (v.api_keys ≡ w.api_keys) × (revealed_key a.page ≡ some revealed)
unfolding keys_of get_user_by_id list_api_keys_by_project list_projects
keys_shown user_id project revealed message w v a h =
    let (email, w1, s1, h1) = bind_ok (current_user_email user_id w) _ a v h in
    let (user, w0, s0, h0) = bind_ok (get_user_by_id user_id w) (λ u. pure u.email) email w1 s1 in
    let (keys, w2, s2, h2) = bind_ok (list_api_keys_by_project project.id w1) _ a v h1 in
    let (projects, w3, s3, h3) = bind_ok (list_projects w2) _ a v h2 in
    let q0 = query_ok _ w user w0 s0 in
    let q2 = query_ok _ w1 keys w2 s2 in
    let q3 = query_ok _ w2 projects w3 s3 in
    (
      ap (λ x. x.1.api_keys) (sym h3)
          ∙ ap (λ x. x.1.api_keys) (sym q3)
          ∙ ap (λ x. x.1.api_keys) (sym q2)
          ∙ ap (λ x. x.1.api_keys) (sym h0)
          ∙ ap (λ x. x.1.api_keys) (sym q0),
      ap (λ x. revealed_key x.page) (sym (ok_eq _ a w3 v h3)),
    )

or_internal-Shows :
    (x : Result Answer × World) (raw : String) (v : World)
    → Shows (or_internal x) raw v
    → Shows x raw v
or_internal-Shows (ok a, u) raw v k = k
or_internal-Shows (err e, u) raw v k = no-key internal_error u v raw refl k

render-Shows :
    (user_id : ℕ) (project : Project) (revealed message raw : String) (w v : World)
    → Shows (render_keys_tab user_id project revealed message w) raw v
    → (v.api_keys ≡ w.api_keys) × (revealed ≡ raw)
unfolding render_keys_tab
render-Shows user_id project revealed message raw w v k =
    let (a, e, s) = or_internal-Shows (keys_of user_id project revealed message w) raw v k in
    let (kept, shown) = keys_shown user_id project revealed message w v a e in
    let same : some revealed ≡ some raw = sym shown ∙ s in (kept, cc)

key_inserted :
    (k t : ApiKey) (w v : World) → insert_api_key k w ≡ (ok t, v) → v.api_keys ≡ k ∷ w.api_keys
unfolding insert_api_key
key_inserted k t w v h = elim (Bool-cases (not (str_eq k.scope "read" || str_eq k.scope "send"))) [
  | inl odd ↦ let e = rw (insert_api_key, odd) at h in cc
  | inr fine ↦ elim (Bool-cases (any_where (key_has_id k.id) w.api_keys)) [
    | inl taken ↦ let e = rw (insert_api_key, fine, taken) at h in cc
    | inr a ↦ elim (Bool-cases (any_where (has_key_hash k.key_hash) w.api_keys)) [
      | inl taken ↦ let e = rw (insert_api_key, fine, a, taken) at h in cc
      | inr b ↦ elim (Bool-cases (has_project k.project_id w)) [
        | inr gone ↦ let e = rw (insert_api_key, fine, a, b, gone) at h in cc
        | inl there ↦
            let e = rw (insert_api_key, fine, a, b, there) at h in ap (λ x. x.1.api_keys) (sym e)
      ]
    ]
  ]
]

-- The key in the table of what the page reveals: it is the project's, has the scope of the form, and
-- is not revoked.
pub record IsRevealed (c : KeyCodec) (id : ℕ) (form : KeyForm) (raw : String) (w v : World)
    : Type 0 where
  pub project : Project
  pub key : ApiKey
  pub scope : Scope
  pub of_id : find_where (project_has_id id) w.projects ≡ some project
  pub held : find_where (has_key_hash (hash c raw)) v.api_keys ≡ some key
  pub owner : key.project_id ≡ project.id
  pub asked : parse_scope form.scope ≡ some scope
  pub granted : key.scope ≡ scope_text scope
  pub unrevoked : key.revoked_at ≡ none

module _ (c : KeyCodec) (user_id id : ℕ) (form : KeyForm) (raw : String) (w v : World)
    (shown : raw ≢ "") where
  no-reveal :
      {C : Type 0} (project : Project) (message : String) (u : World)
      → Shows (render_keys_tab user_id project "" message u) raw v
      → C
  no-reveal project message u k =
      absurd (shown (sym (render-Shows user_id project "" message raw u v k).1))

  made_reveals :
      (project : Project) (scope : Scope) (key : RawKey) (x : Result ApiKey × World)
      → find_where (project_has_id id) w.projects ≡ some project
      → parse_scope form.scope ≡ some scope
      → create_api_key (key_params c project form.name scope key) (advance w) ≡ x
      → Shows (created_key user_id project key.raw x.0 x.1) raw v
      → IsRevealed c id form raw w v
  unfolding created_key create_api_key new_api_key find_where
  made_reveals project scope key (err e, u) found asked made k =
      no-reveal project "failed to create api key" u k
  made_reveals project scope key (ok t, u) found asked made k =
      let (kept, same) = render-Shows user_id project key.raw "" raw u v k in
      let w' = advance (advance w) in
      let row = new_api_key (key_params c project form.name scope key) w' in
      let stored = key_inserted row t w' u (query_ok _ (advance w) t u made) in
      let after : v.api_keys ≡ row ∷ w.api_keys = kept ∙ stored in
      record {
        project = project;
        key = row;
        scope = scope;
        of_id = found;
        held = rw (after, sym same) (rw (str_eq_refl (hash c key.raw)) refl);
        owner = refl;
        asked = asked;
        granted = refl;
        unrevoked = refl;
      }

  scope_reveals :
      (project : Project) (o : Option Scope)
      → find_where (project_has_id id) w.projects ≡ some project
      → parse_scope form.scope ≡ o
      → Shows (with_scope c user_id project form.name o (advance w)) raw v
      → IsRevealed c id form raw w v
  unfolding with_scope create_key
  scope_reveals project none found asked k =
      no-reveal project "name is required and scope must be read or send" (advance w) k
  scope_reveals project (some scope) found asked k = elim (Bool-cases (str_eq form.name "")) [
    | inl empty ↦
        no-reveal project "name is required and scope must be read or send" (advance w)
          (rw (with_scope, empty) at k)
    | inr named ↦ elim (Result-cases (generate c)) [
      | inl (e, bad) ↦
          no-key internal_error (advance w) v raw refl
            (rw (with_scope, named, create_key, bad) at k)
      | inr (key, good) ↦
          made_reveals project scope key _ found asked refl
            (rw (with_scope, named, create_key, good) at k)
    ]
  ]

  form_reveals :
      Shows (handle_create_api_key c user_id (some id) (some form) w) raw v
      → IsRevealed c id form raw w v
  unfolding handle_create_api_key on_project with_project with_key_form get_project_by_id
  form_reveals k = elim (read_cases (λ u. one_row (find_where (project_has_id id) u.projects)) w) [
    | inr (s, q) ↦
        no-key (not_found "project not found") (advance w) v raw refl
          (rw (handle_create_api_key, q) at k)
    | inl q ↦ elim (Option-cases (find_where (project_has_id id) w.projects)) [
      | inl gone ↦
          no-key (not_found "project not found") (advance w) v raw refl
            (rw (handle_create_api_key, q, gone) at k)
      | inr (project, found) ↦
          scope_reveals project _ found refl (rw (handle_create_api_key, q, found) at k)
    ]
  ]

-- A key that the page reveals after a creation is in the table under its hash, as a key of the
-- project, with the scope that the form asked for, and not revoked.
pub handle_create_api_key-IsRevealed :
    (c : KeyCodec) (user_id id : ℕ) (form : KeyForm) (w v : World) (a : Answer) (raw : String)
    → handle_create_api_key c user_id (some id) (some form) w ≡ (ok a, v)
    → revealed_key a.page ≡ some raw
    → raw ≢ ""
    → IsRevealed c id form raw w v
handle_create_api_key-IsRevealed c user_id id form w v a raw h s shown =
    form_reveals c user_id id form raw w v shown (a, h, s)
