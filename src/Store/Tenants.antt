-- ===== src/Store/Tenants.antt =====
-- What a project is set up with: its row (projects.sql.go), its credentials
-- (UpsertProviderCredential of provider_credentials.sql.go) and the count of its devices.
pub mod Created
pub mod Active
use slay_push.Store.Projects.{has_project}
use slay_push.Store.Devices.{mem_text}
use slay_push.Base.Text.{str_eq}
use slay_push.Store.Notifications.{one_row}
use slay_push.Errors.{violation, err, ok, Result}
use slay_push.Crypto.{Bytes}
use slay_push.Store.{World, ProviderCredential, Project}
use slay_push.Base.{
  leb, List, none, [], ◌∷◌, select_where, update_where, length, find_where, any_where, ◌&&◌, some,
  if◌then◌else◌, ◌==◌, true, Bool, ℕ, String, Option,
}
use slay_push.Store.Monad.{query, M}

abbrev pub project_has_id : ℕ → Project → Bool
project_has_id id p = p.id == id

abbrev pub has_slug : String → Project → Bool
has_slug slug p = str_eq p.slug slug

unfoldable pub new_project : String → String → World → Project
new_project name slug w = record {
  id = w.env.gen_random_uuid w.tick;
  name = name;
  slug = slug;
  status = "active";
  created_at = w.env.now w.tick;
}

unfoldable pub insert_project : Project → World → Result Project × World
insert_project p w =
    if any_where (project_has_id p.id) w.projects
    then (err (violation "projects_pkey"), w)
    else if any_where (has_slug p.slug) w.projects
    then (err (violation "projects_slug_key"), w)
    else (ok p, record w { projects = p ∷ w.projects })

unfoldable pub create_project : String → String → M Project
create_project name slug = query λ w. insert_project (new_project name slug w) w

unfoldable pub get_project_by_id : ℕ → M Project
get_project_by_id id = query λ w. (one_row (find_where (project_has_id id) w.projects), w)

unfoldable pub get_project_by_slug : String → M Project
get_project_by_slug slug = query λ w. (one_row (find_where (has_slug slug) w.projects), w)

-- `order by created_at desc`
insert_latest : Project → List Project → List Project
insert_latest p [] = p ∷ []
insert_latest p (q ∷ ps) =
    if leb q.created_at p.created_at then p ∷ q ∷ ps else q ∷ insert_latest p ps

latest_first : List Project → List Project
unfolding insert_latest
latest_first [] = []
latest_first (p ∷ ps) = insert_latest p (latest_first ps)

unfoldable pub list_projects : M (List Project)
unfolding latest_first
list_projects = query λ w. (ok (latest_first w.projects), w)

unfoldable pub count_devices_by_project : ℕ → M ℕ
count_devices_by_project project_id =
    query λ w. (ok (length (select_where (λ d. d.project_id == project_id) w.devices)), w)

pub record UpsertProviderCredentialParams : Type 0 where
  pub project_id : ℕ
  pub provider_type : String
  pub environment : String
  pub credential : Bytes
  pub wrapped_dek : Bytes

unfoldable pub credential_at : UpsertProviderCredentialParams → ProviderCredential → Bool
credential_at p c =
    c.project_id == p.project_id
    && (str_eq c.provider_type p.provider_type && str_eq c.environment p.environment)

unfoldable pub new_credential : UpsertProviderCredentialParams → World → ProviderCredential
new_credential p w = record {
  id = w.env.gen_random_uuid w.tick;
  project_id = p.project_id;
  provider_type = p.provider_type;
  environment = p.environment;
  credential = p.credential;
  wrapped_dek = p.wrapped_dek;
  is_active = true;
  created_at = w.env.now w.tick;
  updated_at = w.env.now w.tick;
}

unfoldable pub replace_credential :
    UpsertProviderCredentialParams → ℕ → ProviderCredential → ProviderCredential
replace_credential p now c = record c {
  credential = p.credential;
  wrapped_dek = p.wrapped_dek;
  is_active = true;
  updated_at = now;
}

-- A row that is there has its project, which no statement of the program deletes.
credential_found :
    Option ProviderCredential
    → UpsertProviderCredentialParams
    → World
    → Result ProviderCredential × World
credential_found (some c) p w = (
  ok (replace_credential p (w.env.now w.tick) c),
  record w {
    credentials =
        update_where (credential_at p) (replace_credential p (w.env.now w.tick)) w.credentials;
  },
)
credential_found none p w =
    if any_where (λ c. c.id == w.env.gen_random_uuid w.tick) w.credentials
    then (err (violation "provider_credentials_pkey"), w)
    else if has_project p.project_id w
    then (ok (new_credential p w), record w { credentials = new_credential p w ∷ w.credentials })
    else (err (violation "provider_credentials_project_id_fkey"), w)

unfoldable pub upsert_provider_credential : UpsertProviderCredentialParams → M ProviderCredential
unfolding credential_found
upsert_provider_credential p = query λ w.
    if mem_text p.provider_type ("expo" ∷ "fcm" ∷ "apns" ∷ "hms" ∷ [])
    then credential_found (find_where (credential_at p) w.credentials) p w
    else (err (violation "provider_credentials_provider_type_check"), w)
