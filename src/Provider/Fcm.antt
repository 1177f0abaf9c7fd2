-- ===== src/Provider/Fcm.antt =====
-- internal/provider/fcm/fcm.go.
pub mod Outcomes
pub mod Cache
use slay_push.Provider.Cache.{same_bytes}
use slay_push.Base.Text.{str_eq, ◌<>◌}
use slay_push.Base.Int.{pos, ℤ}
use slay_push.Provider.{SendResult, Status, SendRequest}
use slay_push.Errors.{error_of, Err, other, wrapped, ok, err, Result}
use slay_push.Base.Json.{end, field, str, Value, Fields, Data}
use slay_push.Base.{
  inl, false, ◌||◌, ◌&&◌, true, not, inr, ◌==◌, ◌∷◌, ◌⊎◌, ◌∷◌, some, none, if◌then◌else◌, [],
  Option, List, Bool, ℕ, String,
}
use slay_push.Provider.Http.{
  sent_as, retry_after, report, refuse, failing, Outcome, Response, Request, Http,
}
use slay_push.Crypto.{Bytes}

pub record StringField : Type 0 where
  pub name : String
  pub value : String

pub record FcmNotification : Type 0 where
  pub title : String
  pub body : String

pub record FcmMessage : Type 0 where
  pub token : String
  pub notification : Option FcmNotification
  pub payload : List StringField

-- `fcmErrorResponse`, of the details their error codes.
pub record ErrorResponse : Type 0 where
  pub status : String
  pub message : String
  pub error_codes : List String

-- encoding/json on this adapter's types, crypto/sha256 and golang.org/x/oauth2, whose token sources
-- are the type `S`. A source keeps the token that it last fetched: `token` is its answer at the
-- n-th contact with the outside, and the source after it. `unmarshal_error` is what an Unmarshal with its error dropped leaves behind.
pub record Codec (S : Type 0) : Type 0 where
  pub sha256 : Bytes → Bytes
  pub unmarshal_project_id : Bytes → Result String
  pub jwt_config : Bytes → Result S
  pub token : S → ℕ → Result String × S
  pub marshal_value : Value → Result String
  pub print_value : Value → String
  pub marshal : FcmMessage → Result String
  pub unmarshal_name : String → Result String
  pub unmarshal_error : String → ErrorResponse

-- The map of token sources, by the hash of the credential.
pub record Cached (S : Type 0) : Type 0 where
  pub key : Bytes
  pub source : S

unfoldable pub cached_at : {S : Type 0} → Bytes → List (Cached S) → Option S
cached_at k [] = none
cached_at k (e ∷ m) = if same_bytes e.key k then some e.source else cached_at k m

-- A source is a pointer: what its call changes, the map's entry sees.
unfoldable pub set_source : {S : Type 0} → Bytes → S → List (Cached S) → List (Cached S)
set_source k ts [] = []
set_source k ts (e ∷ m) =
    let rest = set_source k ts m in
    if same_bytes e.key k then record e { source = ts } ∷ m else e ∷ rest

last_code : String → List String → String
last_code code [] = code
last_code code (c ∷ cs) = last_code (if str_eq c "" then code else c) cs

-- The cases of a status below 500 and of one above it have the same outcome.
status_of : ℕ → String → Status
status_of status_code code =
    if status_code == 429
    then Status.throttled
    else if str_eq code "UNREGISTERED" || str_eq code "SENDER_ID_MISMATCH"
    then Status.invalid_token
    else if status_code == 400 && str_eq code "INVALID_ARGUMENT"
    then Status.invalid_token
    else Status.transient_error

after_of : Http → Response → ℤ
after_of h r = if r.status_code == 429 then retry_after h r else pos 0

abbrev wrap_token : Result String → Result String
wrap_token (err e) = err (wrapped "fcm: fetch oauth2 token" e)
wrap_token (ok token) = ok token

module _ {S : Type 0} (h : Http) (c : Codec S) where
  unfoldable pub token_source_for : Bytes → List (Cached S) → Result S × List (Cached S)
  token_source_for credential m = elim (cached_at (c.sha256 credential) m) [
    | some ts ↦ (ok ts, m)
    | none ↦ elim (c.jwt_config credential) [
      | err e ↦ (err (wrapped "parse fcm service account" e), m)
      | ok ts ↦ (ok ts, record { key = c.sha256 credential; source = ts } ∷ m)
    ]
  ]

  unfoldable pub classify_error : Response → SendResult
  unfolding last_code status_of after_of
  classify_error r =
      let e = c.unmarshal_error r.body in
      failing (status_of r.status_code (last_code "" e.error_codes)) (after_of h r)
        ("fcm: " <> h.itoa r.status_code <> " " <> e.status <> ": " <> e.message)

  text_of : Value → String
  text_of (str s) = s
  text_of v = elim (c.marshal_value v) [ err e ↦ c.print_value v | ok s ↦ s ]

  fields_of : Fields → List StringField
  unfolding text_of
  fields_of end = []
  fields_of (field k v fs) = record { name = k; value = text_of v } ∷ fields_of fs

  unfoldable pub stringify_data : Data → List StringField
  unfolding fields_of
  stringify_data none = []
  stringify_data (some fs) = fields_of fs

  notification_of : SendRequest → Option FcmNotification
  notification_of req =
      if not (str_eq req.title "") || not (str_eq req.body "")
      then some (record { title = req.title; body = req.body })
      else none

  abbrev pub message_of : SendRequest → FcmMessage
  unfolding notification_of
  message_of req = record {
    token = req.token;
    notification = notification_of req;
    payload = stringify_data req.payload;
  }

  named : Result String → Outcome
  named (err e) = refuse Status.unknown (wrapped "fcm: parse success response" e)
  named (ok name) = report (sent_as name)

  unfoldable pub on_response : Response → Outcome
  unfolding named
  on_response r =
      if r.status_code == 200 then named (c.unmarshal_name r.body) else report (classify_error r)

  on_reply : Response ⊎ String → Outcome
  on_reply (inr text) = refuse Status.transient_error (other text)
  on_reply (inl r) = on_response r

  abbrev request_to : String → String → String → Request
  request_to url token payload = record {
    url = url;
    headers =
        record { name = "Content-Type"; value = "application/json" }
        ∷ record { name = "Authorization"; value = "Bearer " <> token }
        ∷ [];
    body = payload;
  }

  -- From the access token on.
  unfoldable pub send_with_token : String → String → String → SendRequest → ℕ → Outcome
  unfolding on_reply
  send_with_token base_url project_id token req n = elim (c.marshal (message_of req)) [
    | err e ↦ refuse Status.unknown (wrapped "fcm: marshal request" e)
    | ok payload ↦
        let url = base_url <> "/v1/projects/" <> project_id <> "/messages:send" in
        elim (h.url_error url) [
          | some text ↦ refuse Status.unknown (other text)
          | none ↦ on_reply (h.round_trip (request_to url token payload) n)
        ]
  ]

  with_token : String → String → SendRequest → ℕ → Result String → Outcome
  with_token base_url project_id req n (err e) =
      refuse Status.transient_error (wrapped "fcm: fetch oauth2 token" e)
  with_token base_url project_id req n (ok token) = send_with_token base_url project_id token req n

  -- The cache is the one after the source was looked up under its key.
  unfoldable pub with_source :
      String
      → String
      → SendRequest
      → ℕ
      → Bytes
      → Result S × List (Cached S)
      → Outcome × List (Cached S)
  unfolding with_token
  with_source base_url project_id req n key (err e, m) = (refuse Status.unknown e, m)
  with_source base_url project_id req n key (ok ts, m) =
      let t = c.token ts n in (with_token base_url project_id req n t.0, set_source key t.1 m)

  -- fmt prints a %w of a nil error as `%!w(<nil>)`.
  with_project :
      String → Bytes → SendRequest → ℕ → List (Cached S) → Result String → Outcome × List (Cached S)
  unfolding with_source
  with_project base_url credential req n m (err e) =
      (refuse Status.unknown (wrapped "fcm: invalid service account credential" e), m)
  with_project base_url credential req n m (ok project_id) =
      if str_eq project_id ""
      then (refuse Status.unknown (other "fcm: invalid service account credential: %!w(<nil>)"), m)
      else with_source base_url project_id req n (c.sha256 credential)
          (token_source_for credential m)

  -- `Send`, its n-th contact with the outside, and the cache after it.
  unfoldable pub fcm_send :
      String → Bytes → SendRequest → ℕ → List (Cached S) → Outcome × List (Cached S)
  unfolding with_project
  fcm_send base_url credential req n m =
      with_project base_url credential req n m (c.unmarshal_project_id credential)

  test_source : ℕ → Bytes → Result S × List (Cached S) → Option Err × List (Cached S)
  test_source n key (err e, m) = (some e, m)
  test_source n key (ok ts, m) =
      let t = c.token ts n in (error_of (wrap_token t.0), set_source key t.1 m)

  test_project : Bytes → ℕ → List (Cached S) → Result String → Option Err × List (Cached S)
  unfolding test_source
  test_project credential n m (err e) =
      (some (wrapped "fcm: invalid service account credential" e), m)
  test_project credential n m (ok project_id) =
      if str_eq project_id ""
      then (some (other "fcm: invalid service account credential: %!w(<nil>)"), m)
      else test_source n (c.sha256 credential) (token_source_for credential m)

  -- TestCredential.
  unfoldable pub test_credential : Bytes → ℕ → List (Cached S) → Option Err × List (Cached S)
  unfolding test_project
  test_credential credential n m = test_project credential n m (c.unmarshal_project_id credential)
