-- ===== src/Server/Commands.antt =====
-- cmd/server/main.go: the commands that set a deployment up. Package flag has parsed the flags; the
-- connection to Postgres, files and standard input are given.
pub mod Passwords
pub mod Bootstraps
pub mod SignIns
use slay_push.Dashboard.Providers.{credential_params}
use slay_push.Dashboard.Keys.{key_params}
use slay_push.Store.ApiKeys.{create_api_key}
use slay_push.Store.Tenants.{upsert_provider_credential, create_project, get_project_by_slug}
use slay_push.Store.Users.{create_user, count_users, update_user_password}
use slay_push.Base.Strings.{trim_line_end, byte_len}
use slay_push.Base.Text.{◌<>◌, str_eq}
use slay_push.Store.{Project}
use slay_push.Errors.{wrapped, other, Result, Err}
use slay_push.Crypto.{seal_envelope, load_master_key, Bytes, Random}
use slay_push.Auth.{hash_password, PasswordCodec}
use slay_push.Base.{◌==◌, ◌||◌, some, ltb, none, if◌then◌else◌, ℕ, String, Option}
use slay_push.Store.Monad.{of_result, fail, wrapping, pure, asks, ◌>>=◌, M}
use slay_push.Apikey.{parse_scope, generate, Scope, KeyCodec}

pub record Cli : Type 0 where
  -- The error of platform.NewPostgresPool, where it has one.
  pub unreachable : Option Err
  -- base64.StdEncoding.DecodeString, and fmt's %d.
  pub decode : String → Result Bytes
  pub itoa : ℕ → String
  -- cfg.MasterKey.
  pub master_key : String

unfoldable pub connect : Cli → M (Unit {0})
connect c = elim c.unreachable [ none ↦ pure tt | some e ↦ fail (wrapped "connect postgres" e) ]

-- `resolve project %q: %w`
unfoldable pub resolve_project : String → M Project
resolve_project slug = do
  quote ← asks (λ w. w.env.quote)
  wrapping ("resolve project " <> quote slug) (get_project_by_slug slug)

-- `runCreateProject`
unfoldable pub run_create_project : Cli → String → String → M (Unit {0})
run_create_project c name slug =
    if str_eq name "" || str_eq slug ""
    then fail (other "create-project: --name and --slug are required")
    else do _ ← connect c; _ ← wrapping "create project" (create_project name slug); pure tt

unfoldable pub issue_key : Cli → KeyCodec → String → String → Scope → M String
issue_key c codec slug name scope = do
  _ ← connect c
  project ← resolve_project slug
  key ← wrapping "generate api key" (of_result (generate codec))
  _ ← wrapping "create api key" (create_api_key (key_params codec project name scope key))
  pure key.raw

unfoldable pub with_key_scope : Cli → KeyCodec → String → String → Option Scope → M String
with_key_scope c codec slug name none = do
  quote ← asks (λ w. w.env.quote)
  fail (other ("create-api-key: --scope must be " <> quote "read" <> " or " <> quote "send"))
with_key_scope c codec slug name (some scope) = issue_key c codec slug name scope

-- `runCreateAPIKey`: the key that it prints.
unfoldable pub run_create_api_key : Cli → KeyCodec → String → String → String → M String
run_create_api_key c codec slug name scope =
    if str_eq slug "" || str_eq name ""
    then fail (other "create-api-key: --project and --name are required")
    else with_key_scope c codec slug name (parse_scope scope)

pub record CredentialFile : Type 0 where
  pub path : String
  pub provider : String
  pub project : String
  -- os.ReadFile, and the error of json.Unmarshal of what it read.
  pub contents : Result Bytes
  pub malformed : Bytes → Option Err

abbrev pub check_json : Option Err → M (Unit {0})
check_json none = pure tt
check_json (some e) = fail (wrapped "credential file is not valid JSON" e)

-- `runSeedCredential`
unfoldable pub run_seed_credential : Cli → Random → ℕ → CredentialFile → M (Unit {0})
run_seed_credential c random reads f =
    if str_eq f.path "" then fail (other "seed-credential: --file is required") else do
      mk ← wrapping "load master key" (of_result (load_master_key c.decode c.itoa c.master_key))
      raw ← wrapping "read credential file" (of_result f.contents)
      _ ← check_json (f.malformed raw)
      aead ← asks (λ w. w.env.aead)
      envelope ← wrapping "encrypt credential" (of_result (seal_envelope aead mk random reads raw))
      _ ← connect c
      project ← resolve_project f.project
      _ ←
          wrapping "upsert provider credential"
            (upsert_provider_credential (credential_params project.id f.provider envelope))
      pure tt

unfoldable pub make_admin : PasswordCodec → String → String → M (Unit {0})
make_admin codec email password = do
  hash ← wrapping "hash password" (of_result (hash_password codec password))
  _ ← wrapping "create admin user" (create_user email hash)
  pure tt

-- `runBootstrap`, of the two variables.
unfoldable pub run_bootstrap : Cli → PasswordCodec → String → String → M (Unit {0})
run_bootstrap c codec email password =
    if str_eq email "" || str_eq password ""
    then fail (other "bootstrap: BOOTSTRAP_ADMIN_EMAIL and BOOTSTRAP_ADMIN_PASSWORD are required")
    else do
      _ ← connect c
      count ← wrapping "count users" count_users
      if ltb 0 count then pure tt else make_admin codec email password

abbrev pub reset_password_min_length : ℕ
reset_password_min_length = 8

unfoldable pub set_password : String → String → M (Unit {0})
set_password email hash = do
  rows ← wrapping "update password" (update_user_password email hash)
  quote ← asks (λ w. w.env.quote)
  if rows == 0 then fail (other ("reset-password: no user with email " <> quote email)) else pure tt

unfoldable pub new_password : Cli → PasswordCodec → String → String → M (Unit {0})
new_password c codec email password =
    if ltb (byte_len password) reset_password_min_length
    then fail (
        other (
          "reset-password: password must be at least "
          <> c.itoa reset_password_min_length
          <> " characters"))
    else do
      hash ← wrapping "hash password" (of_result (hash_password codec password))
      _ ← connect c
      set_password email hash

-- `runResetPassword`, of what io.ReadAll makes of standard input.
unfoldable pub run_reset_password : Cli → PasswordCodec → String → Result String → M (Unit {0})
run_reset_password c codec email input =
    if str_eq email "" then fail (other "reset-password: --email is required") else do
      raw ← wrapping "read new password from stdin" (of_result input)
      new_password c codec email (trim_line_end raw)
