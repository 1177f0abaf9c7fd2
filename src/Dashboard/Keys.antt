-- ===== src/Dashboard/Keys.antt =====
-- internal/dashboard/apikeys.go: the API keys of a project.
pub mod Reveals
use slay_push.Store.Tenants.{get_project_by_id, list_projects}
use slay_push.Base.Text.{◌<>◌, str_eq}
use slay_push.Store.ApiKeys.{
  revoke_api_key, create_api_key, list_api_keys_by_project, is_null, CreateApiKeyParams,
}
use slay_push.Dashboard.Projects.{current_user_email, or_internal}
use slay_push.Dashboard.{
  redirect, keys_page, not_found, internal_error, bad_request, answer, ApiKeyView, Answer,
}
use slay_push.Store.Monad.{attempt, asks, ◌>>=◌, pure, M}
use slay_push.Store.{Project, ApiKey}
use slay_push.Errors.{ok, err, Result}
use slay_push.Base.{map, none, if◌then◌else◌, some, not, ℕ, String, Option}
use slay_push.Apikey.{scope_text, generate, hash, parse_scope, RawKey, Scope, KeyCodec}

-- `toAPIKeyView`
abbrev pub to_api_key_view : (ℕ → String) → ApiKey → ApiKeyView
to_api_key_view uuid_text k = record {
  id = uuid_text k.id;
  name = k.name;
  key_prefix = k.key_prefix;
  scope = k.scope;
  created_at = k.created_at;
  last_used_at = k.last_used_at;
  revoked = not (is_null k.revoked_at);
}

unfoldable pub keys_of : ℕ → Project → String → String → M Answer
keys_of user_id project revealed message = do
  email ← current_user_email user_id
  keys ← list_api_keys_by_project project.id
  projects ← list_projects
  uuid_text ← asks (λ w. w.env.uuid_text)
  pure (
      answer
        (keys_page email project projects (map (to_api_key_view uuid_text) keys) revealed message))

-- `renderAPIKeysTab`
unfoldable pub render_keys_tab : ℕ → Project → String → String → M Answer
render_keys_tab user_id project revealed message w =
    or_internal (keys_of user_id project revealed message w)

unfoldable pub with_project : Result Project → (Project → M Answer) → M Answer
with_project (err e) next = pure (answer (not_found "project not found"))
with_project (ok p) next = next p

-- `projectIDFromRoute`, and `visibleProject`.
unfoldable pub on_project : Option ℕ → (Project → M Answer) → M Answer
on_project none next = pure (answer (bad_request "invalid project id"))
on_project (some id) next = do found ← attempt (get_project_by_id id); with_project found next

-- `handleAPIKeysTab`
unfoldable pub handle_api_keys_tab : ℕ → Option ℕ → M Answer
handle_api_keys_tab user_id project_id = on_project project_id λ p. render_keys_tab user_id p "" ""

pub record KeyForm : Type 0 where
  pub name : String
  pub scope : String

unfoldable pub created_key : ℕ → Project → String → Result ApiKey → M Answer
created_key user_id project raw (err e) =
    render_keys_tab user_id project "" "failed to create api key"
created_key user_id project raw (ok k) = render_keys_tab user_id project raw ""

abbrev pub key_params : KeyCodec → Project → String → Scope → RawKey → CreateApiKeyParams
key_params c project name scope key = record {
  project_id = project.id;
  name = name;
  key_prefix = key.prefix;
  key_hash = hash c key.raw;
  scope = scope_text scope;
}

unfoldable pub create_key : KeyCodec → ℕ → Project → String → Scope → Result RawKey → M Answer
create_key c user_id project name scope (err e) = pure (answer internal_error)
create_key c user_id project name scope (ok key) = do
  made ← attempt (create_api_key (key_params c project name scope key))
  created_key user_id project key.raw made

unfoldable pub with_scope : KeyCodec → ℕ → Project → String → Option Scope → M Answer
with_scope c user_id project name none =
    render_keys_tab user_id project "" "name is required and scope must be read or send"
with_scope c user_id project name (some scope) =
    if str_eq name ""
    then render_keys_tab user_id project "" "name is required and scope must be read or send"
    else create_key c user_id project name scope (generate c)

unfoldable pub with_key_form : KeyCodec → ℕ → Option KeyForm → Project → M Answer
with_key_form c user_id none project = render_keys_tab user_id project "" "invalid form submission"
with_key_form c user_id (some form) project =
    with_scope c user_id project form.name (parse_scope form.scope)

-- `handleCreateAPIKey`
unfoldable pub handle_create_api_key : KeyCodec → ℕ → Option ℕ → Option KeyForm → M Answer
handle_create_api_key c user_id project_id form =
    on_project project_id (with_key_form c user_id form)

-- `handleRevokeAPIKey`: an error of the update is logged.
unfoldable pub handle_revoke_api_key : Option ℕ → Option ℕ → M Answer
handle_revoke_api_key none key_id = pure (answer (bad_request "invalid project id"))
handle_revoke_api_key (some project_id) none = pure (answer (bad_request "invalid api key id"))
handle_revoke_api_key (some project_id) (some key_id) = do
  uuid_text ← asks (λ w. w.env.uuid_text)
  _ ← attempt (revoke_api_key key_id project_id)
  pure (answer (redirect ("/projects/" <> uuid_text project_id <> "/api-keys")))
