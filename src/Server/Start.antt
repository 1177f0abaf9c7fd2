-- ===== src/Server/Start.antt =====
-- cmd/server/main.go: main, and how its two processes start. The clients of Postgres, Redis and asynq,
-- the HTTP server and asynq's server are given by their answers.
pub mod Sound
use slay_push.Config.{validate}
use slay_push.Base.Text.{str_eq}
use slay_push.Platform.Health.{new_redis_client, new_postgres_pool}
use slay_push.Queue.{parse_redis_opt, new_client}
use slay_push.Store.Monad.{wrap_result}
use slay_push.Crypto.{load_master_key, MasterKey, Bytes}
use slay_push.Errors.{other, Err, ok, err, Result}
use slay_push.Base.{[], none, ◌∷◌, some, if◌then◌else◌, List, ℕ, String, Option}
use slay_push.Server.{serve_dashboard, serve_api, serve_all, Mode}
use slay_push.Config.{load, Variables, Printers, Config}

pub data Command : Type 0 where
  serve : Mode → Command
  worker migrate healthcheck seed_credential create_project create_api_key bootstrap : Command
  reset_password loadtest rotate_key : Command

-- The cases of `main`'s switch.
unfoldable pub command_of : String → Option Command
command_of s =
    if str_eq s "serve-all"
    then some (serve serve_all)
    else if str_eq s "serve-api"
    then some (serve serve_api)
    else if str_eq s "serve-dashboard"
    then some (serve serve_dashboard)
    else if str_eq s "worker"
    then some worker
    else if str_eq s "migrate"
    then some migrate
    else if str_eq s "healthcheck"
    then some healthcheck
    else if str_eq s "seed-credential"
    then some seed_credential
    else if str_eq s "create-project"
    then some create_project
    else if str_eq s "create-api-key"
    then some create_api_key
    else if str_eq s "bootstrap"
    then some bootstrap
    else if str_eq s "reset-password"
    then some reset_password
    else if str_eq s "loadtest"
    then some loadtest
    else if str_eq s "rotate-key"
    then some rotate_key
    else none

-- What `main` comes to: an exit, or a command with its configuration and the arguments after it.
pub data Action : Type 0 where
  exits : ℕ → Action
  runs : Command → Config → List String → Action

abbrev on_command : Config → List String → Option Command → Action
on_command cfg rest none = exits 2
on_command cfg rest (some c) = runs c cfg rest

abbrev on_valid : Option String → Config → String → List String → Action
on_valid none cfg name rest = on_command cfg rest (command_of name)
on_valid (some text) cfg name rest = exits 1

-- `main`, of the arguments after the program's name.
unfoldable pub main : Printers → Variables → List String → Action
main p e [] = exits 2
main p e (name ∷ rest) = let cfg = load e in on_valid (validate p cfg) cfg name rest

-- The exit code, once a command has returned.
unfoldable pub exit_status : Result (Unit {0}) → ℕ
exit_status (ok u) = 0
exit_status (err e) = 1

-- The case "rotate-key".
unfoldable pub rotate_key_result : Result (Unit {0})
rotate_key_result = err (other "rotate-key: not yet implemented")

-- A pool, redis's options and client, asynq's options and client.
pub record Clients (P O R K C : Type 0) : Type 0 where
  pub decode : String → Result Bytes
  pub itoa : ℕ → String
  pub open_pool : String → Result P
  pub ping : P → Option Err
  pub parse_url : String → Result O
  pub redis_client : O → R
  pub parse_redis_uri : String → Result K
  pub asynq_client : K → C

infixl 5 ◌>>=◌
◌>>=◌ : {A B : Type 0} → Result A → (A → Result B) → Result B
ok a >>= f = f a
err e >>= f = err e

module _ {P O R K C : Type 0} (o : Clients P O R K C) (cfg : Config) where
  master_key : Result MasterKey
  master_key = wrap_result "load master key" (load_master_key o.decode o.itoa cfg.master_key)

  connect_postgres : Result P
  connect_postgres =
      wrap_result "connect postgres" (new_postgres_pool (o.open_pool cfg.database_url) o.ping)

  connect_redis : Result R
  connect_redis =
      wrap_result "connect redis" (new_redis_client o.parse_url o.redis_client cfg.redis_url)

  connect_asynq : Result C
  connect_asynq =
      wrap_result "connect asynq client" (new_client o.parse_redis_uri o.asynq_client cfg.redis_url)

  parse_opt : Result K
  parse_opt = wrap_result "parse redis url" (parse_redis_opt o.parse_redis_uri cfg.redis_url)

  -- `runServe`, until it listens: the master key of its handlers.
  unfoldable pub start_serve : Result MasterKey
  unfolding ◌>>=◌ master_key connect_postgres connect_redis connect_asynq
  start_serve = do
    key ← master_key
    db ← connect_postgres
    rdb ← connect_redis
    client ← connect_asynq
    ok key

  -- `runWorker`, until it consumes: the master key of its handlers.
  unfoldable pub start_worker : Result MasterKey
  unfolding ◌>>=◌ master_key connect_postgres connect_redis connect_asynq parse_opt
  start_worker = do
    key ← master_key
    db ← connect_postgres
    client ← connect_asynq
    rdb ← connect_redis
    opt ← parse_opt
    ok key
