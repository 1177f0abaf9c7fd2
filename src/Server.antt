-- ===== src/Server.antt =====
-- cmd/server/main.go: which parts a process serves, which queues the worker consumes, the migrations
-- and the health probe. net/http, asynq and golang-migrate are given by their answers.
pub mod Commands
pub mod Loadtest
pub mod Wiring
pub mod Start
use slay_push.Queue.{send_type_for}
use slay_push.Base.Text.{◌<>◌, str_eq}
use slay_push.Base.Strings.{after_prefix}
use slay_push.Errors.{wrapped, ok, err, Result, Err}
use slay_push.Base.{
  [], ◌==◌, ◌&&◌, ◌∷◌, ◌∷◌, ℕ, true, some, none, false, if◌then◌else◌, String, Option, List, Bool,
}

abbrev pub supported_providers : List String
supported_providers = "expo" ∷ "fcm" ∷ "apns" ∷ "hms" ∷ []

pub data Handler : Type 0 where
  fanout_handler send_handler : Handler

-- A queue with its priority, or a task type with its handler, by name.
pub record Entry (A : Type 0) : Type 0 where
  pub name : String
  pub value : A

unfoldable pub entries : {A : Type 0} → A → List String → List (Entry A)
entries a [] = []
entries a (t ∷ ts) = record { name = send_type_for t; value = a } ∷ entries a ts

unfoldable pub entry_at : {A : Type 0} → String → List (Entry A) → Option A
entry_at n [] = none
entry_at n (e ∷ es) = if str_eq e.name n then some e.value else entry_at n es

-- The queues of `runWorker`, with their priorities.
unfoldable pub worker_queues : List (Entry ℕ)
worker_queues = record { name = "fanout"; value = 5 } ∷ entries 10 supported_providers

-- The handlers of `runWorker`, by the task's type.
unfoldable pub worker_handlers : List (Entry Handler)
worker_handlers =
    record { name = "fanout"; value = fanout_handler } ∷ entries send_handler supported_providers

pub data Mode : Type 0 where
  serve_all serve_api serve_dashboard : Mode

pub data Part : Type 0 where
  health api dashboard nowhere : Part
  -- To "/api/", from "/api".
  to_api_root : Part

abbrev pub serves_api : Mode → Bool
serves_api serve_all = true
serves_api serve_api = true
serves_api serve_dashboard = false

abbrev pub serves_dashboard : Mode → Bool
serves_dashboard serve_all = true
serves_dashboard serve_api = false
serves_dashboard serve_dashboard = true

abbrev is_under : Option String → Bool
is_under none = false
is_under (some rest) = true

abbrev dashboard_part : Mode → Part
dashboard_part m = if serves_dashboard m then dashboard else nowhere

-- The mux of `runServe`: the longest of "/healthz", "/api/" and "/" that fits.
unfoldable pub part_of : Mode → String → Part
part_of m path =
    if str_eq path "/healthz"
    then health
    else if serves_api m && str_eq path "/api"
    then to_api_root
    else if serves_api m && is_under (after_prefix path "/api/")
    then api
    else dashboard_part m

or_postgres : String → Option String → String
or_postgres url (some rest) = "pgx5://" <> rest
or_postgres url none = url

or_postgresql : String → Option String → String
unfolding or_postgres
or_postgresql url (some rest) = "pgx5://" <> rest
or_postgresql url none = or_postgres url (after_prefix url "postgres://")

-- `pgx5MigrateURL`
unfoldable pub pgx5_migrate_url : String → String
unfolding or_postgresql
pgx5_migrate_url url = or_postgresql url (after_prefix url "postgresql://")

-- What m.Up of golang-migrate returns.
pub data MigrateOutcome : Type 0 where
  migrated no_change : MigrateOutcome
  migrate_error : Err → MigrateOutcome

abbrev after_up : MigrateOutcome → Result (Unit {0})
after_up migrated = ok tt
after_up no_change = ok tt
after_up (migrate_error e) = err (wrapped "apply migrations" e)

-- `runMigrate`, of migrate.New, which gives the outcome of its Up.
unfoldable pub run_migrate : (String → String → Result MigrateOutcome) → String → Result (Unit {0})
run_migrate new database_url = elim (new "file://migrations" (pgx5_migrate_url database_url)) [
  | err e ↦ err (wrapped "init migrator" e)
  | ok outcome ↦ after_up outcome
]

-- The port of net.SplitHostPort, or the default.
abbrev port_or : Result String → String
port_or (ok port) = port
port_or (err e) = "8080"

exit_code : Result ℕ → ℕ
exit_code (err e) = 1
exit_code (ok status) = if status == 200 then 0 else 1

-- `runHealthcheckProbe`: `get` is the status of a GET, or its error.
unfoldable pub run_healthcheck_probe : Result String → (String → Result ℕ) → ℕ
unfolding exit_code
run_healthcheck_probe port get = exit_code (get ("http://127.0.0.1:" <> port_or port <> "/healthz"))
