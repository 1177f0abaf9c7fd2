-- ===== src/Examples/Operators.antt =====
-- The theorems on the worker, the dashboard's pages and the commands at work.
use slay_push.Server.Start.Sound.{start-IsSound, IsSound}
use slay_push.Platform.Health.{new_redis_client, new_postgres_pool}
use slay_push.Config.{validate}
use slay_push.Base.Int.{pos}
use slay_push.Base.Text.{str_eq}
use slay_push.Config.{get_env_bool, get_env_int, get_env, load, Variables, Printers}
use slay_push.Server.Start.{worker, command_of, start_worker, main, Clients}
use slay_push.Dashboard.Providers.Used.{saved-IsUsed}
use slay_push.Dispatch.Send.Uses.{push_of}
use slay_push.Dispatch.Send.{handle_send}
use slay_push.Dispatch.{is_terminal}
use slay_push.Store.Listings.{list_provider_credentials_by_project}
use slay_push.Store.Users.{get_user_by_id}
use slay_push.Store.Devices.{mem_text}
use slay_push.Store.Counts.Statuses.{done_count}
use slay_push.Store.Upserts.{merge_device, upsert_device}
use slay_push.Crypto.{load_master_key, seal_with, seal_envelope}
use slay_push.Dashboard.Notifications.Done.{fragment_stops, listed_in}
use slay_push.Dashboard.Views.{to_recipient_view}
use slay_push.Store.Monad.{advance, query}
use slay_push.Server.Loadtest.Polls.{poll_ends}
use slay_push.Examples.Parts.{zeros, zero_random_fills, zero_random}
use slay_push.Store.Tenants.{
  list_projects, credential_at, upsert_provider_credential, get_project_by_id,
}
use slay_push.Dashboard.{recipients_fragment, answer}
use slay_push.Examples.Calls.{first_attempt, fanout, send}
use slay_push.Dashboard.Router.{Server, serve, home_route, page_route}
use slay_push.Dispatch.Send.Live.{Unthrottled}
use slay_push.Examples.{phone, noted_world, note, recipient, accepting, world_at}
use slay_push.Server.{fanout_handler, send_handler}
use slay_push.Examples.Passwords.{passwords}
use slay_push.Dashboard.Keys.{with_project, on_project}
use slay_push.Errors.{ok}
use slay_push.Dashboard.Notifications.{handle_recipients_fragment}
use slay_push.Examples.Witnesses.{renewed, renewal, accepting_plain, adapter_or}
use slay_push.Dispatch.Send.Ended.{send_task_ends, EndsSettled}
use slay_push.Queue.{parse_redis_opt, new_client, fanout_task, send_task, is_failure}
use slay_push.Base.{
  inr, if◌then◌else◌, leb, refl, sym, map, arith, ap, ◌*◌, ◌≡◌, false, [], ◌∷◌, true, some, none,
  find_where,
}
use slay_push.Store.{RecipientStatus, World, User}
use slay_push.Server.Loadtest.{poll, PollOutcome}
use slay_push.Apikey.{KeyCodec}
use slay_push.Dashboard.Router.Protected.{serve_protected, IsShutOut}
use slay_push.Server.Wiring.{upsert_device-IsConsumed, IsConsumed}
use slay_push.Dashboard.Providers.{
  render_providers_tab, saved, save_sealed, save_credential, upsert_credential,
  handle_upsert_provider_credential, ProviderCodec, CredentialForm,
}

abbrev queued : World
queued = world_at RecipientStatus.queued

unthrottled : Unthrottled queued
unfolding is_failure adapter_or
unthrottled = record {
  unlimited = refl;
  taken = λ name ad h cred req n.
      let same : accepting ≡ ad = ap adapter_or h in rw (sym same) ((λ e. cc), refl, refl);
}

send_task_ends_example : EndsSettled send 5 0 5 queued
unfolding find_where
send_task_ends_example =
    send_task_ends send 5 0 5 queued refl (λ n. refl) accepting_plain unthrottled
      (recipient RecipientStatus.queued, refl, omega arith)

poll_ends_example : (o : PollOutcome) × (poll 4 (λ n. ok false) (λ n. 250 * n) 0 600 0 ≡ some o)
poll_ends_example =
    poll_ends 3 (λ n. ok false) (λ n. 250 * n) 0 600 0 (λ n. omega arith) (omega arith)

upsert_device-IsConsumed_example :
    IsConsumed send_handler (send_task send) × IsConsumed fanout_handler (fanout_task fanout)
unfolding merge_device
upsert_device-IsConsumed_example =
    upsert_device-IsConsumed renewal noted_world (upsert_device renewal noted_world).1
      (merge_device renewal 1 phone) send fanout renewed refl

fragment_stops_example : handle_recipients_fragment (some 5) queued ≡ (
  ok (
      answer (
        recipients_fragment "uuid"
          (map (to_recipient_view queued.env.uuid_text) (listed_in queued note))
          (leb 0 (done_count 5 queued.recipients)))),
  advance (advance (advance queued)),
)
unfolding find_where
fragment_stops_example = fragment_stops 5 queued note (λ n. refl) refl

abbrev providers : ProviderCodec
providers = record {
  json_valid = λ b. true;
  bytes_of = λ s. 7 ∷ [];
  random = zero_random;
  reads = 0;
  tester = λ name. none;
}

abbrev bob : User
bob = record { id = 8; email = "bob@shop"; password_hash = ""; role = "admin"; created_at = 0 }

abbrev run_by_bob : World
run_by_bob = record queued { users = bob ∷ [] }

abbrev credential_form : CredentialForm
credential_form = record { provider = "expo"; credential = "{}" }

abbrev after_saving : World
after_saving =
    (handle_upsert_provider_credential providers 8 (some 1) (some credential_form) run_by_bob).1

saved-IsUsed_example :
    (handle_send first_attempt send after_saving).1.pushes
    ≡ push_of send (7 ∷ []) ∷ after_saving.pushes
unfolding handle_upsert_provider_credential on_project with_project get_project_by_id query
    find_where upsert_credential save_credential save_sealed seal_envelope seal_with
    upsert_provider_credential mem_text credential_at saved render_providers_tab get_user_by_id
    list_provider_credentials_by_project list_projects is_terminal
saved-IsUsed_example =
    saved-IsUsed providers 8 1 credential_form run_by_bob after_saving _ first_attempt send
      (recipient RecipientStatus.queued) zero_random_fills (λ k n p. refl) refl refl (λ n. refl)
      refl refl refl refl refl (omega arith)

abbrev keys : KeyCodec
keys = record { random = λ n. ok []; encode_raw_url = λ b. "k"; sum256 = λ s. [] }

abbrev server : Server
server = record { auth = record { tokens = keys; passwords = passwords }; providers = providers }

abbrev signed_out : World
signed_out = record run_by_bob {
  sessions =
      record {
        id = 4;
        user_id = 8;
        token_hash = "";
        created_at = 0;
        last_used_at = none;
        expires_at = 100;
        revoked_at = some 2;
      }
      ∷ [];
}

serve_protected_example : IsShutOut signed_out (
    serve server
      (record { path = "/"; route = page_route home_route; cookie = some "sd_k" })
      signed_out)
serve_protected_example =
    serve_protected server (some "sd_k") home_route "/" signed_out (λ raw h. (λ e. refl, tt))

-- A variable is set to its own name, but for the format of the logs.
abbrev variables : Variables
variables = record {
  lookup = λ s. if str_eq s "LOG_FORMAT" then none else some s;
  atoi = λ s. some (pos 50);
  parse_bool = λ s. none;
}

abbrev clients : Clients (Unit {0}) (Unit {0}) (Unit {0}) (Unit {0}) (Unit {0})
clients = record {
  decode = λ s. ok (zeros 32);
  itoa = λ n. "7";
  open_pool = λ s. ok tt;
  ping = λ u. none;
  parse_url = λ s. ok tt;
  redis_client = λ u. tt;
  parse_redis_uri = λ s. ok tt;
  asynq_client = λ u. tt;
}

abbrev printers : Printers
printers = record { quote = λ s. s; int_text = λ z. "50" }

start-IsSound_example : IsSound clients variables (load variables) (record { key = zeros 32 })
unfolding main start_worker command_of validate load get_env get_env_int get_env_bool zeros
    load_master_key new_postgres_pool new_redis_client new_client parse_redis_opt
start-IsSound_example =
    start-IsSound clients printers variables ("worker" ∷ []) worker (load variables) []
      (record { key = zeros 32 }) refl (inr refl)
