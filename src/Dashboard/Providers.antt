-- ===== src/Dashboard/Providers.antt =====
-- internal/dashboard/providers.go: the credentials of a project, their replacement and their test.
-- encoding/json's Valid, the conversion of a text to bytes, the random source and the live checks of
-- the adapters are parameters.
pub mod Saved
pub mod Used
use slay_push.Store.Listings.{list_provider_credentials_by_project}
use slay_push.Store.Credentials.{get_active_provider_credential}
use slay_push.Base.Text.{◌<>◌}
use slay_push.Dashboard.Projects.{current_user_email, or_internal}
use slay_push.Dashboard.Keys.{on_project}
use slay_push.Dashboard.Views.{to_credential_view, neutral, no_message, ok_msg, err_msg, Message}
use slay_push.Dashboard.{providers_page, internal_error, answer, Answer}
use slay_push.Store.Tenants.{
  upsert_provider_credential, list_projects, UpsertProviderCredentialParams,
}
use slay_push.Store.Monad.{pure, attempt, asks, ◌>>=◌, advance, M}
use slay_push.Errors.{message, err, ok, Result, Err}
use slay_push.Store.{ProviderCredential, Project, Adapter}
use slay_push.Base.{map, not, true, none, some, if◌then◌else◌, false, Bool, ℕ, String, Option}
use slay_push.Crypto.{seal_envelope, open_envelope, Random, Bytes}

abbrev pub default_credential_environment : String
default_credential_environment = "production"

pub record ProviderCodec : Type 0 where
  pub json_valid : Bytes → Bool
  pub bytes_of : String → Bytes
  pub random : Random
  -- How many reads of the random source came before.
  pub reads : ℕ
  -- The TestCredential of the adapter of a name, where it implements CredentialTester.
  pub tester : String → Option (Bytes → ℕ → Option Err)

providers_of : ℕ → Project → Message → M Answer
providers_of user_id project message = do
  email ← current_user_email user_id
  credentials ← list_provider_credentials_by_project project.id
  projects ← list_projects
  pure (answer (providers_page email project projects (map to_credential_view credentials) message))

-- `renderProvidersTab`
unfoldable pub render_providers_tab : ℕ → Project → Message → M Answer
unfolding providers_of
render_providers_tab user_id project message w =
    or_internal (providers_of user_id project message w)

-- `handleProvidersTab`
unfoldable pub handle_providers_tab : ℕ → Option ℕ → M Answer
handle_providers_tab user_id project_id =
    on_project project_id λ p. render_providers_tab user_id p no_message

pub record CredentialForm : Type 0 where
  pub provider : String
  pub credential : String

abbrev pub credential_params : ℕ → String → Bytes × Bytes → UpsertProviderCredentialParams
credential_params project_id provider_type (wrapped_dek, ciphertext) = record {
  project_id = project_id;
  provider_type = provider_type;
  environment = default_credential_environment;
  credential = ciphertext;
  wrapped_dek = wrapped_dek;
}

unfoldable pub saved : ℕ → Project → Result ProviderCredential → M Answer
saved user_id project (err e) =
    render_providers_tab user_id project (err_msg "failed to save credential")
saved user_id project (ok c) = render_providers_tab user_id project (ok_msg "credential saved")

unfoldable pub save_sealed : ℕ → Project → String → Result (Bytes × Bytes) → M Answer
save_sealed user_id project provider_type (err e) = pure (answer internal_error)
save_sealed user_id project provider_type (ok envelope) = do
  made ← attempt (upsert_provider_credential (credential_params project.id provider_type envelope))
  saved user_id project made

-- `provider.Known`, for the adapters of the world.
abbrev pub is_known : Option Adapter → Bool
is_known none = false
is_known (some a) = true

unfoldable pub save_credential : ProviderCodec → ℕ → Project → CredentialForm → M Answer
save_credential c user_id project form = do
  env ← asks (λ w. w.env)
  if not (is_known (env.adapters form.provider))
      then render_providers_tab user_id project (err_msg "unknown provider type")
      else if not (c.json_valid (c.bytes_of form.credential))
      then render_providers_tab user_id project (err_msg "credential must be valid JSON")
      else save_sealed user_id project form.provider
          (seal_envelope env.aead env.master_key c.random c.reads (c.bytes_of form.credential))

unfoldable pub upsert_credential : ProviderCodec → ℕ → Option CredentialForm → Project → M Answer
upsert_credential c user_id none project =
    render_providers_tab user_id project (err_msg "invalid form submission")
upsert_credential c user_id (some form) project = save_credential c user_id project form

-- `handleUpsertProviderCredential`; ParseForm has failed where there is no form.
unfoldable pub handle_upsert_provider_credential :
    ProviderCodec → ℕ → Option ℕ → Option CredentialForm → M Answer
handle_upsert_provider_credential c user_id project_id form =
    on_project project_id (upsert_credential c user_id form)

-- The live check is one contact with the outside.
unfoldable pub run_tester : (Bytes → ℕ → Option Err) → Bytes → M (Option Err)
run_tester check plaintext w = (ok (check plaintext w.tick), advance w)

unfoldable pub test_verdict : ℕ → Project → String → Option Err → M Answer
test_verdict user_id project provider_type none =
    render_providers_tab user_id project (ok_msg (provider_type <> ": credential test passed"))
test_verdict user_id project provider_type (some e) = do
  texts ← asks (λ w. w.env.texts)
  render_providers_tab user_id project
      (err_msg (provider_type <> ": test failed — " <> message texts e))

unfoldable pub test_with :
    ProviderCodec → ℕ → Project → String → Bytes → Option (Bytes → ℕ → Option Err) → M Answer
test_with c user_id project provider_type plaintext none =
    if c.json_valid plaintext
    then render_providers_tab user_id project (record {
      text =
          provider_type
          <> ": credential shape looks valid (no live check available for this provider)";
      kind = neutral;
    })
    else render_providers_tab user_id project
        (err_msg (provider_type <> ": stored credential is not valid JSON"))
test_with c user_id project provider_type plaintext (some check) = do
  verdict ← run_tester check plaintext
  test_verdict user_id project provider_type verdict

unfoldable pub test_opened : ProviderCodec → ℕ → Project → String → Result Bytes → M Answer
test_opened c user_id project provider_type (err e) =
    render_providers_tab user_id project
      (err_msg (provider_type <> ": failed to decrypt stored credential"))
test_opened c user_id project provider_type (ok plaintext) = do
  env ← asks (λ w. w.env)
  if is_known (env.adapters provider_type)
      then test_with c user_id project provider_type plaintext (c.tester provider_type)
      else render_providers_tab user_id project (err_msg (provider_type <> ": unknown provider"))

unfoldable pub test_stored :
    ProviderCodec → ℕ → Project → String → Result ProviderCredential → M Answer
test_stored c user_id project provider_type (err e) =
    render_providers_tab user_id project
      (err_msg (provider_type <> ": no active credential configured"))
test_stored c user_id project provider_type (ok row) = do
  env ← asks (λ w. w.env)
  test_opened c user_id project provider_type
      (open_envelope env.aead env.master_key row.wrapped_dek row.credential)

unfoldable pub test_credential : ProviderCodec → ℕ → Option String → Project → M Answer
test_credential c user_id none project =
    render_providers_tab user_id project (err_msg "invalid form submission")
test_credential c user_id (some provider_type) project = do
  row ←
      attempt
        (get_active_provider_credential project.id provider_type default_credential_environment)
  test_stored c user_id project provider_type row

-- `handleTestProviderCredential`, of the form's provider.
unfoldable pub handle_test_provider_credential :
    ProviderCodec → ℕ → Option ℕ → Option String → M Answer
handle_test_provider_credential c user_id project_id form =
    on_project project_id (test_credential c user_id form)
