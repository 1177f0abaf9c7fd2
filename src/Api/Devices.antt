-- ===== src/Api/Devices.antt =====
-- internal/transport/http/devices.go: POST /devices. A coordinate is a finite float64; its texts, of
-- encoding/json and of %v, are parameters.
pub mod Info
pub mod Actives
pub mod Serialized
pub mod Spared
pub mod Registers
use Prim.Native.String.{char_at}
use slay_push.Store.Upserts.{upsert_subscriber, upsert_device}
use slay_push.Store.Devices.{mem_text, mark_stale_devices_by_device_uuid}
use slay_push.Api.Create.{at_most, reject}
use slay_push.Base.Strings.{byte_len, split, trim_space}
use slay_push.Base.Text.{◌<>◌, str_eq}
use slay_push.Store.Transaction.{in_transaction}
use slay_push.Store.Monad.{wrapping, pure, attempt, asks, ◌>>=◌, query, M}
use slay_push.Api.Devices.Info.{build_device_metadata, validate, DeviceInfo}
use slay_push.Store.{Device}
use slay_push.Api.{
  registered, write_json, in_project, write_error, decode_json, Reply, Decoded, Server,
}
use slay_push.Errors.{ok, err, Result}
use slay_push.Base.{not, ◌||◌, [], ◌∷◌, some, none, if◌then◌else◌, ℕ, String, Option, List}
use slay_push.Base.Json.{Fields}

pub record RegisterRequest : Type 0 where
  pub token : String
  pub provider_type : String
  pub platform : String
  pub external_user_id : String
  pub device : Option DeviceInfo

-- What a request says of where it comes from.
pub record Origin : Type 0 where
  pub forwarded_for : String
  pub remote_addr : String

remote_ip : Option String → String → String
remote_ip none remote_addr = remote_addr
remote_ip (some host) remote_addr = host

first_piece : List String → String
first_piece [] = ""
first_piece (s ∷ ss) = trim_space s

-- `clientIP`
unfoldable pub client_ip : Server → Origin → String
unfolding remote_ip first_piece
client_ip srv o =
    let direct = remote_ip (srv.split_host o.remote_addr) o.remote_addr in
    if str_eq o.forwarded_for ""
    then direct
    else let ip = first_piece (split (char_at "," 0) o.forwarded_for) in
      if str_eq ip "" then direct else ip

-- The subscriber of a request that names a user.
unfoldable pub subscriber_of : ℕ → String → M (Option ℕ)
subscriber_of project_id external_user_id = if str_eq external_user_id "" then pure none else do
  s ← wrapping "upsert subscriber" (upsert_subscriber project_id external_user_id)
  pure (some s.id)

unfoldable pub upsert : ℕ → RegisterRequest → Fields → M Device
upsert project_id req metadata = do
  subscriber_id ← subscriber_of project_id req.external_user_id
  wrapping "upsert device" (
      upsert_device (record {
        project_id = project_id;
        token = req.token;
        platform = req.platform;
        provider_type = req.provider_type;
        metadata = metadata;
        subscriber_id = subscriber_id;
      }))

-- AdvisoryLockDeviceUUID: the lock is held until the transaction ends.
abbrev pub advisory_lock_device_uuid : String → M (Unit {0})
advisory_lock_device_uuid lock_key = query λ w. (ok tt, w)

unfoldable pub supersede : ℕ → String → Device → M Device
supersede project_id device_uuid d = do
  _ ←
      wrapping "supersede rotated devices"
        (mark_stale_devices_by_device_uuid project_id d.subscriber_id d.id device_uuid)
  pure d

unfoldable pub locked_body : ℕ → RegisterRequest → String → Fields → M Device
locked_body project_id req device_uuid metadata = do
  uuid_text ← asks (λ w. w.env.uuid_text)
  _ ← wrapping "acquire device registration lock" (
      advisory_lock_device_uuid
        (uuid_text project_id <> ":" <> req.external_user_id <> ":" <> device_uuid))
  d ← upsert project_id req metadata
  supersede project_id device_uuid d

-- `registerDeviceSerialized`
unfoldable pub register_device_serialized : ℕ → RegisterRequest → String → Fields → M Device
register_device_serialized project_id req device_uuid metadata =
    in_transaction "begin device registration tx" "commit device registration tx"
      (locked_body project_id req device_uuid metadata)

-- The device_uuid of a request that names a user and has one.
unfoldable pub rotation_of : String → Option DeviceInfo → Option String
rotation_of external_user_id none = none
rotation_of external_user_id (some info) =
    if str_eq external_user_id "" || str_eq info.device_uuid "" then none else some info.device_uuid

abbrev pub rotation : RegisterRequest → Option String
rotation req = rotation_of req.external_user_id req.device

unfoldable pub store_device : Option String → ℕ → RegisterRequest → Fields → M Device
store_device none project_id req metadata = upsert project_id req metadata
store_device (some device_uuid) project_id req metadata =
    register_device_serialized project_id req device_uuid metadata

unfoldable pub registered_reply : Result Device → M Reply
registered_reply (err e) w = (ok (write_error 500 "failed to register device"), w)
registered_reply (ok d) w = (ok (write_json 200 (registered (w.env.uuid_text d.id))), w)

unfoldable pub register_and_reply : RegisterRequest → Fields → ℕ → M Reply
register_and_reply req metadata project_id = do
  r ← attempt (store_device (rotation req) project_id req metadata)
  registered_reply r

unfoldable pub with_metadata : RegisterRequest → Option ℕ → Result Fields → M Reply
with_metadata req project (err e) = pure (write_error 500 "failed to encode device metadata")
with_metadata req project (ok metadata) = in_project project (register_and_reply req metadata)

unfoldable pub check_info : Option String → M Reply → M Reply
check_info none next = next
check_info (some text) next = pure (write_error 422 text)

unfoldable pub register_device : Server → Origin → Option ℕ → RegisterRequest → M Reply
unfolding with_metadata
register_device srv origin project req = reject (str_eq req.token "") "token is required" (
    at_most srv "token" 4096 (byte_len req.token) (
      reject (str_eq req.provider_type "" || not (srv.known req.provider_type))
        "provider must be one of: expo, fcm, apns, hms"
        (reject
          (str_eq req.platform "" || not (mem_text req.platform ("ios" ∷ "android" ∷ "web" ∷ [])))
          "platform must be one of: ios, android, web"
          (at_most srv "external_user_id" 256 (byte_len req.external_user_id) (
            check_info (validate srv req.device) (
              with_metadata req project (
                srv.marshal_metadata
                  (build_device_metadata srv req.device (client_ip srv origin)))))))))

unfoldable pub handle_register_device :
    Server → Origin → Option ℕ → Decoded RegisterRequest → M Reply
handle_register_device srv origin project body =
    decode_json srv body (register_device srv origin project)
