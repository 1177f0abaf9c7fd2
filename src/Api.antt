-- ===== src/Api.antt =====
-- internal/transport/http: the public JSON API. server.go, respond.go and the decoding of bodies
-- (validate.go). The router (chi), encoding/json and google/uuid are parameters.
pub mod Auth
pub mod Create
pub mod Status
pub mod Devices
pub mod Router
use slay_push.Errors.{Result}
use slay_push.Base.Int.{ℤ}
use slay_push.Base.Json.{Fields}
use slay_push.Store.Counts.{CountRecipientStatusesRow}
use slay_push.Base.Text.{◌<>◌}
use slay_push.Apikey.Limiter.{RateLimiter}
use slay_push.Store.{RecipientStatus, NotificationStatus}
use slay_push.Base.{some, List, Bool, none, ℕ, String, Option}
use slay_push.Store.Monad.{pure, M}
use slay_push.Apikey.{KeyCodec}

pub record RecipientResponse : Type 0 where
  pub id : String
  pub device_id : String
  pub provider_type : String
  pub status : RecipientStatus
  pub provider_message_id : Option String
  pub error_code : Option String
  pub error_message : Option String
  pub attempt_count : ℕ

-- What a handler writes: a status, the Retry-After header where it sets one, and a JSON body.
pub data Body : Type 0 where
  error : String → Body
  -- createNotificationResponse: an id and a status.
  created : String → NotificationStatus → Body
  notification_status : String → NotificationStatus → ℕ → List CountRecipientStatusesRow → Body
  recipient_list : List RecipientResponse → Body
  registered : String → Body

pub record Reply : Type 0 where
  pub status : ℕ
  pub retry_after : Option String
  pub body : Body

abbrev pub write_json : ℕ → Body → Reply
write_json status body = record { status = status; retry_after = none; body = body }

abbrev pub write_error : ℕ → String → Reply
write_error status message = write_json status (error message)

-- A finite float64: an integer over a power of two.
pub record Float64 : Type 0 where
  pub numerator : ℤ
  pub scale : ℕ

-- What the server's handlers call of the other packages and libraries.
pub record Server : Type 0 where
  pub codec : KeyCodec
  pub limiter : RateLimiter
  -- uuid.Parse, strconv.Itoa.
  pub uuid_parse : String → Option ℕ
  pub itoa : ℕ → String
  -- provider.Known.
  pub known : String → Bool
  -- net.SplitHostPort: the host, or none on an error.
  pub split_host : String → Option String
  -- int(math.Ceil(d.Seconds())), in float64, of a Duration of so many nanoseconds.
  pub ceil_seconds : ℤ → ℤ
  -- A number's text by %v, and by encoding/json.
  pub float_text : Float64 → String
  pub float_json : Float64 → String
  -- json.Marshal of a device's metadata, as the object that its text stands for.
  pub marshal_metadata : Fields → Result Fields

-- What http.MaxBytesReader and json.Decoder make of a request's body.
pub data Decoded {ℓ} (A : Type ℓ) : Type ℓ where
  too_large : Decoded A
  malformed : String → Decoded A
  decoded : A → Decoded A

-- `decodeJSON`, and the handler's `return` where it has written an error.
unfoldable pub decode_json : {A : Type 0} → Server → Decoded A → (A → M Reply) → M Reply
decode_json srv too_large next =
    pure (write_error 413 ("request body too large (max " <> srv.itoa 1048576 <> " bytes)"))
decode_json srv (malformed text) next = pure (write_error 400 ("invalid JSON body: " <> text))
decode_json srv (decoded a) next = next a

-- `projectIDFromContext`, and the reply where the context has none.
unfoldable pub in_project : Option ℕ → (ℕ → M Reply) → M Reply
in_project none next = pure (write_error 500 "failed to resolve project")
in_project (some project_id) next = next project_id
