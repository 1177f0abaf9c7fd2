-- ===== src/Dashboard/Providers/Saved.antt =====
-- What the page of credentials reports, and what is behind its reports.
use slay_push.Store.Notifications.{one_row}
use slay_push.Store.Tenants.Active.{upsert-env, upsert-IsActiveCredential}
use slay_push.Store.Fates.{read_cases}
use slay_push.Store.Credentials.{is_active_for}
use slay_push.Dashboard.Keys.{with_project, on_project}
use slay_push.Store.Monad.{pure, advance}
use slay_push.Store.Success.{query_ok, ok_eq, bind_ok}
use slay_push.Crypto.{open_envelope, seal_envelope, Bytes}
use slay_push.Store.Tenants.{
  get_project_by_id, upsert_provider_credential, project_has_id, list_projects,
}
use slay_push.Dashboard.Projects.{current_user_email, or_internal}
use slay_push.Store.Listings.{list_provider_credentials_by_project}
use slay_push.Crypto.RoundTrip.{open-seal, OpensSealed, FillsBuffers}
use slay_push.Store.Users.{get_user_by_id}
use slay_push.Store.{Env, ProviderCredential, World, Project}
use slay_push.Base.{
  List, Option-cases, inl, inr, true, refl, Bool-cases, ◌∙◌, sym, ap, some, none, find_where, ◌≡◌,
  String, Option, ℕ,
}
use slay_push.Errors.{err, ok, Result}
use slay_push.Dashboard.Providers.{
  default_credential_environment, credential_params, upsert_credential, is_known, saved,
  save_sealed, save_credential, handle_upsert_provider_credential, CredentialForm,
  render_providers_tab, providers_of, ProviderCodec,
}
use slay_push.Dashboard.{not_found, internal_error, answer, providers_page, Answer, Page}
use slay_push.Dashboard.Views.{err_msg, ok_msg, Message}

abbrev pub page_message : Page → Option Message
page_message (providers_page email project projects credentials m) = some m
page_message _ = none

abbrev pub Says : Result Answer × World → Message → World → Type 0
Says x m v = (a : Answer) × (x ≡ (ok a, v)) × (page_message a.page ≡ some m)

pub silent :
    {C : Type 0} (page : Page) (u v : World) (m : Message)
    → page_message page ≡ none
    → Says (ok (answer page), u) m v
    → C
silent page u v m n (a, e, s) =
    let same = ok_eq (answer page) a u v e in
    let k : none ≡ some m = sym n ∙ ap (λ x. page_message x.page) same ∙ s in cc

-- What the tab leaves as it is.
abbrev held : World → List ProviderCredential × Env
held w = (w.credentials, w.env)

tab_shown :
    (user_id : ℕ) (project : Project) (m : Message) (w v : World) (a : Answer)
    → providers_of user_id project m w ≡ (ok a, v)
    → (v.credentials ≡ w.credentials) × (v.env ≡ w.env) × (page_message a.page ≡ some m)
unfolding providers_of get_user_by_id list_provider_credentials_by_project list_projects
tab_shown user_id project m w v a h =
    let (email, w1, s1, h1) = bind_ok (current_user_email user_id w) _ a v h in
    let (user, w0, s0, h0) = bind_ok (get_user_by_id user_id w) (λ u. pure u.email) email w1 s1 in
    let (rows, w2, s2, h2) =
      bind_ok (list_provider_credentials_by_project project.id w1) _ a v h1 in
    let (projects, w3, s3, h3) = bind_ok (list_projects w2) _ a v h2 in
    let q0 = query_ok _ w user w0 s0 in
    let q2 = query_ok _ w1 rows w2 s2 in
    let q3 = query_ok _ w2 projects w3 s3 in
    let same : held v ≡ held w =
      ap (λ x. held x.1) (sym h3)
      ∙ ap (λ x. held x.1) (sym q3)
      ∙ ap (λ x. held x.1) (sym q2)
      ∙ ap (λ x. held x.1) (sym h0)
      ∙ ap (λ x. held x.1) (sym q0) in
    (
      ap (λ x. x.0) same,
      ap (λ x. x.1) same,
      ap (λ x. page_message x.page) (sym (ok_eq _ a w3 v h3)),
    )

or_internal-Says :
    (x : Result Answer × World) (m : Message) (v : World) → Says (or_internal x) m v → Says x m v
or_internal-Says (ok a, u) m v k = k
or_internal-Says (err e, u) m v k = silent internal_error u v m refl k

-- The tab says what it is given, and leaves the credentials as they are.
pub render-Says :
    (user_id : ℕ) (project : Project) (m n : Message) (w v : World)
    → Says (render_providers_tab user_id project m w) n v
    → (v.credentials ≡ w.credentials) × (v.env ≡ w.env) × (m ≡ n)
unfolding render_providers_tab
render-Says user_id project m n w v k =
    let (a, e, s) = or_internal-Says (providers_of user_id project m w) n v k in
    let (kept, env, shown) = tab_shown user_id project m w v a e in
    let same : some m ≡ some n = sym shown ∙ s in (kept, env, cc)

-- The tab does not say that all went well where it is given an error.
pub no-success :
    {C : Type 0} (user_id : ℕ) (project : Project) (text good : String) (w v : World)
    → Says (render_providers_tab user_id project (err_msg text) w) (ok_msg good) v
    → C
no-success user_id project text good w v k =
    let same =
      ap (λ m. m.kind) (render-Says user_id project (err_msg text) (ok_msg good) w v k).2 in
    cc

-- The active credential of the project and the form's provider opens to the form's text.
pub record IsSaved (c : ProviderCodec) (id : ℕ) (form : CredentialForm) (w v : World) : Type 0 where
  pub project : Project
  pub row : ProviderCredential
  pub of_id : find_where (project_has_id id) w.projects ≡ some project
  pub known : is_known (w.env.adapters form.provider) ≡ true
  pub valid : c.json_valid (c.bytes_of form.credential) ≡ true
  pub held :
      find_where
        (is_active_for project.id form.provider default_credential_environment)
        v.credentials
      ≡ some row
  pub same_env : v.env ≡ w.env
  pub opened :
      open_envelope w.env.aead w.env.master_key row.wrapped_dek row.credential
      ≡ ok (c.bytes_of form.credential)

abbrev saved_msg : Message
saved_msg = ok_msg "credential saved"

module _ (c : ProviderCodec) (user_id id : ℕ) (form : CredentialForm) (w v : World)
    (fills : FillsBuffers c.random) (opens : OpensSealed w.env.aead) where
  abbrev sealed : Result (Bytes × Bytes)
  sealed = seal_envelope w.env.aead w.env.master_key c.random c.reads (c.bytes_of form.credential)

  made_saves :
      (project : Project) (envelope : Bytes × Bytes) (x : Result ProviderCredential × World)
      → find_where (project_has_id id) w.projects ≡ some project
      → is_known (w.env.adapters form.provider) ≡ true
      → c.json_valid (c.bytes_of form.credential) ≡ true
      → sealed ≡ ok envelope
      → upsert_provider_credential (credential_params project.id form.provider envelope) (advance w)
        ≡ x
      → Says (saved user_id project x.0 x.1) saved_msg v
      → IsSaved c id form w v
  unfolding saved
  made_saves project envelope (err e, u) found known valid s made k =
      no-success user_id project "failed to save credential" "credential saved" u v k
  made_saves project (dek, ct) (ok row, u) found known valid s made k =
      let (kept, env, same) = render-Says user_id project saved_msg saved_msg u v k in
      let (r, here, is_ct, is_dek) =
        upsert-IsActiveCredential (credential_params project.id form.provider (dek, ct)) (advance w)
          u row made in
      record {
        project = project;
        row = r;
        of_id = found;
        known = known;
        valid = valid;
        held = rw kept here;
        same_env =
            env
            ∙ upsert-env (credential_params project.id form.provider (dek, ct)) (advance w) u row
                made;
        opened =
            rw (is_ct, is_dek)
              (open-seal w.env.aead c.random fills opens w.env.master_key c.reads
                (c.bytes_of form.credential) dek ct s);
      }

  sealed_saves :
      (project : Project) (x : Result (Bytes × Bytes))
      → find_where (project_has_id id) w.projects ≡ some project
      → is_known (w.env.adapters form.provider) ≡ true
      → c.json_valid (c.bytes_of form.credential) ≡ true
      → sealed ≡ x
      → Says (save_sealed user_id project form.provider x (advance w)) saved_msg v
      → IsSaved c id form w v
  unfolding save_sealed
  sealed_saves project (err e) found known valid s k =
      silent internal_error (advance w) v saved_msg refl k
  sealed_saves project (ok envelope) found known valid s k =
      made_saves project envelope _ found known valid s refl k

  checked_saves :
      (project : Project)
      → find_where (project_has_id id) w.projects ≡ some project
      → Says (save_credential c user_id project form (advance w)) saved_msg v
      → IsSaved c id form w v
  unfolding save_credential
  checked_saves project found k = elim (Bool-cases (is_known (w.env.adapters form.provider))) [
    | inr odd ↦
        no-success user_id project "unknown provider type" "credential saved" (advance w) v
          (rw (save_credential, odd) at k)
    | inl known ↦ elim (Bool-cases (c.json_valid (c.bytes_of form.credential))) [
      | inr bad ↦
          no-success user_id project "credential must be valid JSON" "credential saved" (advance w)
            v (rw (save_credential, known, bad) at k)
      | inl valid ↦
          sealed_saves project _ found known valid refl (rw (save_credential, known, valid) at k)
    ]
  ]

  form_saves :
      Says (handle_upsert_provider_credential c user_id (some id) (some form) w) saved_msg v
      → IsSaved c id form w v
  unfolding handle_upsert_provider_credential on_project with_project upsert_credential
      get_project_by_id
  form_saves k = elim (read_cases (λ u. one_row (find_where (project_has_id id) u.projects)) w) [
    | inr (s, q) ↦
        silent (not_found "project not found") (advance w) v saved_msg refl
          (rw (handle_upsert_provider_credential, q) at k)
    | inl q ↦ elim (Option-cases (find_where (project_has_id id) w.projects)) [
      | inl gone ↦
          silent (not_found "project not found") (advance w) v saved_msg refl
            (rw (handle_upsert_provider_credential, q, gone) at k)
      | inr (project, found) ↦
          checked_saves project found (rw (handle_upsert_provider_credential, q, found) at k)
    ]
  ]

-- Where the page says that a credential was saved, the form's provider is known, its text is JSON,
-- and the credential that is active for the project and the provider opens to that text, under a
-- random source that fills its buffers and an AEAD that opens what it seals.
pub handle_upsert-IsSaved :
    (c : ProviderCodec) (user_id id : ℕ) (form : CredentialForm) (w v : World) (a : Answer)
    → FillsBuffers c.random
    → OpensSealed w.env.aead
    → handle_upsert_provider_credential c user_id (some id) (some form) w ≡ (ok a, v)
    → page_message a.page ≡ some (ok_msg "credential saved")
    → IsSaved c id form w v
handle_upsert-IsSaved c user_id id form w v a fills opens h s =
    form_saves c user_id id form w v fills opens (a, h, s)
