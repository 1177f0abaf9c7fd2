-- ===== src/Examples/Requests.antt =====
-- Requests to the public API, on the small world with one API key.
use slay_push.Api.Router.ReadOnly.{serve_read_only}
use slay_push.Api.Router.{post_notifications, serve, required_scope}
use slay_push.Store.Upserts.{
  upsert_subscriber, upsert_device, subscriber_at, new_device, merge_device, device_at,
}
use slay_push.Store.Transaction.{in_transaction, rolled_back}
use slay_push.Store.Projects.{has_project}
use slay_push.Store.Devices.{
  mem_text, update_devices, text_field, superseded_by, set_status, mark_stale_stmt,
  mark_stale_devices_by_device_uuid,
}
use slay_push.Api.Auth.Revoked.{revoke-refuses}
use slay_push.Apikey.{send}
use slay_push.Api.Devices.Serialized.{register_device_serialized_err, IsRotated}
use slay_push.Apikey.Limiter.{new_rate_limiter}
use slay_push.Base.Strings.{byte_len, trim_right, trim_left, trim_space, after_prefix}
use slay_push.Api.Devices.Registers.{register_device-IsStored, IsStored}
use slay_push.Base.Int.{pos}
use slay_push.Api.Status.Tenancy.{list_recipients-IsListing, IsListing}
use slay_push.Store.ApiKeys.{revoke_api_key}
use slay_push.Errors.{other, wrapped, ok}
use slay_push.Api.Status.{recipient_response, list_recipients}
use slay_push.Examples.{noted_world, env, fresh_world}
use slay_push.Base.Json.{end}
use slay_push.Store.Monad.{advance, pure, query, M}
use slay_push.Api.Auth.{require_scope, bearer_token}
use slay_push.Api.{
  decoded, in_project, recipient_list, write_json, write_error, Reply, registered, Server,
}
use slay_push.Api.Devices.{
  store_device, locked_body, rotation_of, registered_reply, register_and_reply, check_info,
  with_metadata, supersede, subscriber_of, client_ip, upsert, register_device,
  register_device_serialized, RegisterRequest, Origin,
}
use slay_push.Base.{
  update_where, select_where, find_where, map, true, refl, ◌==◌, ◌⊎◌, if◌then◌else◌, ◌≡◌, [], ◌∷◌,
  some, none, ℕ, any_where, List,
}
use slay_push.Api.Auth.Sound.{require_scope_sound, IsRefused, IsAdmitted}
use slay_push.Api.Devices.Info.{outside, validate, build_device_metadata, DeviceInfo}
use slay_push.Api.Create.{at_most, reject, CreateRequest}
use slay_push.Store.{QueryFate, limit_result, NotificationRecipient, World, Device, ApiKey}

abbrev srv : Server
srv = record {
  codec = record { random = λ n. ok []; encode_raw_url = λ b. "k"; sum256 = λ s. [] };
  limiter = new_rate_limiter (λ key n t. limit_result 1 (pos 0)) 10;
  uuid_parse = λ s. some 7;
  itoa = λ n. "1";
  known = λ s. true;
  split_host = λ s. some s;
  ceil_seconds = λ d. pos 1;
  float_text = λ x. "0";
  float_json = λ x. "0";
  marshal_metadata = ok;
}

abbrev key : ApiKey
key = record {
  id = 2;
  project_id = 1;
  name = "ci";
  key_prefix = "sp_live_abc";
  key_hash = "";
  scope = "send";
  created_at = 0;
  last_used_at = none;
  revoked_at = none;
  expires_at = none;
}

abbrev keyed_world : World
keyed_world = record fresh_world { api_keys = key ∷ [] }

abbrev hello : ℕ → M Reply
hello project_id = pure (write_json 200 (registered "x"))

require_scope_sound_example :
    IsAdmitted srv send hello "Bearer k" keyed_world
    ⊎ IsRefused keyed_world (require_scope srv send hello "Bearer k" keyed_world)
require_scope_sound_example = require_scope_sound srv send hello "Bearer k" keyed_world

abbrev revoked_world : World
revoked_world = (revoke_api_key 2 1 keyed_world).1

revoke-refuses_example :
    IsRefused revoked_world (require_scope srv send hello "Bearer k" revoked_world)
unfolding bearer_token revoke_api_key query after_prefix trim_space trim_left trim_right
revoke-refuses_example =
    revoke-refuses srv send hello "Bearer k" "k" 2 1 keyed_world revoked_world refl (λ h. refl, tt)
      refl

abbrev create_request : CreateRequest
create_request = record {
  idempotency_key = "order-1";
  include_player_ids = "7" ∷ [];
  include_external_user_ids = [];
  included_segments = [];
  filters = [];
  title = "Shipped";
  body = "";
  payload = none;
}

list_recipients-IsListing_example :
    ((rows : List NotificationRecipient) × IsListing 5 1 noted_world rows
      × (list_recipients 5 1 noted_world ≡ (
        ok (write_json 200 (recipient_list (map (recipient_response (λ n. "uuid")) rows))),
        advance noted_world,
      )))
    ⊎ (list_recipients 5 1 noted_world
        ≡ (ok (write_error 500 "failed to list recipients"), advance noted_world))
list_recipients-IsListing_example = list_recipients-IsListing 5 1 noted_world

abbrev info : DeviceInfo
info = record { brand = ""; os_version = ""; device_uuid = "d1"; language = ""; coords = none }

abbrev register_request : RegisterRequest
register_request = record {
  token = "t1";
  provider_type = "expo";
  platform = "ios";
  external_user_id = "ann";
  device = some info;
}

abbrev origin : Origin
origin = record { forwarded_for = ""; remote_addr = "10.0.0.1" }

abbrev stored_world : World
stored_world = (register_device srv origin (some 1) register_request fresh_world).1

register_device-IsStored_example :
    (d : Device) × (registered "uuid" ≡ registered (stored_world.env.uuid_text d.id))
    × IsStored 1 register_request fresh_world d stored_world
unfolding upsert build_device_metadata client_ip subscriber_of supersede with_metadata any_where
    find_where select_where update_where mark_stale_devices_by_device_uuid mark_stale_stmt
    set_status superseded_by text_field update_devices has_project rolled_back device_at
    merge_device new_device subscriber_at upsert_device upsert_subscriber register_device reject
    at_most byte_len mem_text check_info validate in_project register_and_reply registered_reply
    store_device rotation_of register_device_serialized in_transaction query locked_body outside
register_device-IsStored_example =
    register_device-IsStored 1 register_request srv origin fresh_world stored_world
      (write_json 200 (registered "uuid")) refl refl

-- The commit is refused.
abbrev uncommitted : World
uncommitted = record fresh_world {
  env = record env {
    query_fate = λ n. if n == 5 then QueryFate.refused "down" else QueryFate.runs;
  };
}

register_device_serialized_err_example :
    let v = (register_device_serialized 1 register_request "d1" end uncommitted).1 in
    ((n : ℕ) × (v ≡ record uncommitted { tick = n }))
    ⊎ ((d : Device) × IsRotated 1 register_request "d1" d v)
unfolding upsert build_device_metadata client_ip subscriber_of supersede with_metadata any_where
    find_where select_where update_where mark_stale_devices_by_device_uuid mark_stale_stmt
    set_status superseded_by text_field update_devices has_project rolled_back device_at
    merge_device new_device subscriber_at upsert_device upsert_subscriber register_device reject
    at_most byte_len mem_text check_info validate in_project register_and_reply registered_reply
    store_device rotation_of register_device_serialized in_transaction query locked_body outside
register_device_serialized_err_example =
    register_device_serialized_err 1 register_request "d1" end uncommitted _
      (wrapped "commit device registration tx" (other "down")) refl refl

abbrev read_world : World
read_world = record fresh_world { api_keys = record key { scope = "read" } ∷ [] }

serve_read_only_example :
    IsRefused read_world
      (serve srv (post_notifications (decoded create_request)) "Bearer k" read_world)
unfolding required_scope bearer_token after_prefix trim_space trim_left trim_right
serve_read_only_example =
    serve_read_only srv (post_notifications (decoded create_request)) "Bearer k" "k" read_world tt
      refl (λ h. refl, tt)
