-- ===== src/Provider/Apns.antt =====
-- internal/provider/apns/apns.go. github.com/sideshow/apns2 is a parameter, its clients the type `C`.
pub mod Payload
pub mod Outcomes
use slay_push.Base.Int.{pos}
use slay_push.Provider.Cache.{value_at, put_at, Entry}
use slay_push.Base.Text.{◌<>◌, str_eq}
use slay_push.Provider.Http.{report, refuse, failing, sent_as, Outcome}
use slay_push.Base.{Option, inl, none, ◌||◌, some, inr, Bool, List, ◌⊎◌, ℕ, if◌then◌else◌, String}
use slay_push.Provider.{Status, SendResult, SendRequest}
use slay_push.Errors.{error_of, other, wrapped, err, ok, Err, Result}
use slay_push.Base.Json.{map_of, str, field, end, Value, Fields, Data}
use slay_push.Crypto.{Bytes}

pub record Credential : Type 0 where
  pub auth_type : String
  pub environment : String
  pub key_id : String
  pub team_id : String
  pub private_key : String
  pub cert_pem : String
  pub key_pem : String
  pub bundle_id : String

-- `cachedClient`
pub record CachedClient (C : Type 0) : Type 0 where
  pub client : C
  pub topic : String

-- apns2.PushNotification, as far as Send fills it.
pub record PushNotification : Type 0 where
  pub device_token : String
  pub topic : String
  pub payload : Fields

-- apns2.Response, as far as Send reads it.
pub record PushResponse : Type 0 where
  pub status_code : ℕ
  pub reason : String
  pub apns_id : String

-- crypto/sha256, encoding/json, crypto/tls and apns2: a client of a certificate or of a token's key,
-- its two hosts, its n-th push, Response.Sent, and the texts of the reasons that Send tells apart.
pub record Apns2 (C : Type 0) : Type 0 where
  pub sha256 : Bytes → Bytes
  pub unmarshal : Bytes → Result Credential
  pub cert_client : String → String → Result C
  pub token_client : String → String → String → Result C
  pub development : C → C
  pub production : C → C
  pub push : C → PushNotification → ℕ → PushResponse ⊎ Err
  pub sent : PushResponse → Bool
  pub itoa : ℕ → String
  pub bad_device_token : String
  pub unregistered : String
  pub device_token_not_for_topic : String
  pub too_many_requests : String

abbrev pub wrap_err : {A : Type 0} → String → Result A → Result A
wrap_err text (ok a) = ok a
wrap_err text (err e) = err (wrapped text e)

-- `payload[k] = v`
unfoldable pub set_field : String → Value → Fields → Fields
set_field k v end = field k v end
set_field k v (field j u fs) = if str_eq j k then field k v fs else field j u (set_field k v fs)

-- The loop over the data: a map's keys differ, so its order does not matter.
unfoldable pub merge : Fields → Fields → Fields
merge payload end = payload
merge payload (field k v fs) = merge (set_field k v payload) fs

unfoldable pub fields_of : Data → Fields
fields_of none = end
fields_of (some fs) = fs

unfoldable pub alert_of : SendRequest → Value
alert_of req =
    let texts = field "title" (str req.title) (field "body" (str req.body) end) in
    map_of (field "alert" (map_of texts) end)

unfoldable pub payload_of : SendRequest → Fields
payload_of req = merge (field "aps" (alert_of req) end) (fields_of req.payload)

module _ {C : Type 0} (a : Apns2 C) where
  raw_client : Credential → Result C
  raw_client cred =
      if str_eq cred.auth_type "cert"
      then wrap_err "apns: parse cert credential" (a.cert_client cred.cert_pem cred.key_pem)
      else wrap_err "apns: parse .p8 private key"
          (a.token_client cred.private_key cred.key_id cred.team_id)

  on_host : Credential → C → C
  on_host cred client =
      if str_eq cred.environment "sandbox" then a.development client else a.production client

  keep_client :
      Bytes
      → Credential
      → List (Entry (CachedClient C))
      → Result C
      → Result (CachedClient C) × List (Entry (CachedClient C))
  unfolding on_host
  keep_client key cred m (err e) = (err e, m)
  keep_client key cred m (ok client) =
      let entry : CachedClient C = record {
        client = on_host cred client;
        topic = cred.bundle_id;
      } in
      (ok entry, put_at key entry m)

  build_client :
      Bytes
      → List (Entry (CachedClient C))
      → Result Credential
      → Result (CachedClient C) × List (Entry (CachedClient C))
  unfolding raw_client keep_client
  build_client key m (err e) = (err (wrapped "apns: invalid credential" e), m)
  build_client key m (ok cred) =
      if str_eq cred.bundle_id ""
      then (err (other "apns: credential missing bundle_id"), m)
      else keep_client key cred m (raw_client cred)

  -- `clientFor`, and the clients after it.
  unfoldable pub client_for :
      Bytes
      → List (Entry (CachedClient C))
      → Result (CachedClient C) × List (Entry (CachedClient C))
  unfolding build_client
  client_for credential m = elim (value_at (a.sha256 credential) m) [
    | some client ↦ (ok client, m)
    | none ↦ build_client (a.sha256 credential) m (a.unmarshal credential)
  ]

  status_of_reason : String → Status
  status_of_reason reason =
      if str_eq reason a.bad_device_token
        || str_eq reason a.unregistered
        || str_eq reason a.device_token_not_for_topic
      then Status.invalid_token
      else if str_eq reason a.too_many_requests
      then Status.throttled
      else Status.transient_error

  -- The reasons of the switch's third case have the default's outcome.
  unfoldable pub classify_response : PushResponse → SendResult
  unfolding status_of_reason
  classify_response r =
      if a.sent r
      then sent_as r.apns_id
      else failing (status_of_reason r.reason) (pos 0)
          ("apns: " <> a.itoa r.status_code <> " " <> r.reason)

  unfoldable pub on_push : PushResponse ⊎ Err → Outcome
  on_push (inr e) = refuse Status.transient_error (wrapped "apns: push" e)
  on_push (inl r) = report (classify_response r)

  abbrev pub notification_to : SendRequest → CachedClient C → PushNotification
  notification_to req cc = record {
    device_token = req.token;
    topic = cc.topic;
    payload = payload_of req;
  }

  unfoldable pub push_with : SendRequest → ℕ → Result (CachedClient C) → Outcome
  push_with req n (err e) = refuse Status.unknown e
  push_with req n (ok client) = on_push (a.push client.client (notification_to req client) n)

  -- `Send`, its n-th contact with the outside, and the clients after it.
  unfoldable pub apns_send :
      Bytes
      → SendRequest
      → ℕ
      → List (Entry (CachedClient C))
      → Outcome × List (Entry (CachedClient C))
  apns_send credential req n m =
      let (client, m') = client_for credential m in (push_with req n client, m')

  -- TestCredential.
  unfoldable pub test_credential :
      Bytes → List (Entry (CachedClient C)) → Option Err × List (Entry (CachedClient C))
  test_credential credential m = let (r, m') = client_for credential m in (error_of r, m')
