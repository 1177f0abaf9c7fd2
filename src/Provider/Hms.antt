-- ===== src/Provider/Hms.antt =====
-- internal/provider/hms/hms.go.
pub mod Outcomes
pub mod Tokens
pub mod Isolation
use slay_push.Base.Text.{str_eq, ◌<>◌}
use slay_push.Provider.Http.{Request}
use slay_push.Provider.Cache.{remove_at, value_at, put_at, Entry}
use slay_push.Base.Int.{pos, negsuc, scale, wrap64, ltb_ℤ, ◌+ℤ◌, ℤ}
use slay_push.Provider.{Status, SendResult, SendRequest}
use slay_push.Errors.{error_of, wrapped, other, ok, err, Err, Result}
use slay_push.Base.{
  ◌||◌, inl, suc, none, inr, [], ◌⊎◌, ◌∷◌, not, ◌==◌, ◌+◌, ℕ, some, if◌then◌else◌, String, Option,
  List,
}
use slay_push.Provider.Http.{
  retry_after, sent_as, second, failing, report, refuse, Response, Outcome, Http,
}
use slay_push.Base.Json.{end, field, Fields, Data}
use slay_push.Crypto.{Bytes}

pub record Credential : Type 0 where
  pub app_id : String
  pub app_secret : String

-- `cachedToken`: an access token and, in nanoseconds, when it expires.
pub record CachedToken : Type 0 where
  pub access_token : String
  pub expires_at : ℤ

pub record TokenResponse : Type 0 where
  pub access_token : String
  pub expires_in : ℤ

pub record HmsNotification : Type 0 where
  pub title : String
  pub body : String

pub record HmsMessage : Type 0 where
  pub notification : Option HmsNotification
  pub payload : String
  pub token : String

pub record SendResponse : Type 0 where
  pub code : String
  pub msg : String
  pub request_id : String

-- encoding/json on this adapter's types, crypto/sha256, url.Values.Encode of the form's two values,
-- and time.Now at the n-th reading.
pub record Codec : Type 0 where
  pub sha256 : Bytes → Bytes
  pub now : ℕ → ℤ
  pub unmarshal_credential : Bytes → Result Credential
  pub encode_form : Credential → String
  pub unmarshal_token : String → Result TokenResponse
  pub marshal_data : Fields → Result String
  pub marshal : HmsMessage → Result String
  pub unmarshal : String → Result SendResponse

abbrev pub Tokens : Type 0
Tokens = List (Entry CachedToken)

-- `time.Now().Add(time.Duration(tokenResp.ExpiresIn-60) * time.Second)`: the int and the Duration
-- wrap around in 64 bits.
unfoldable pub expiry : ℤ → ℤ → ℤ
expiry now expires_in = now +ℤ wrap64 (scale second (wrap64 (expires_in +ℤ negsuc 59)))

-- `ok && time.Now().Before(t.expiresAt)`
unfoldable pub unexpired_token : ℤ → Option CachedToken → Option String
unexpired_token now none = none
unexpired_token now (some t) = if ltb_ℤ now t.expires_at then some t.access_token else none

-- `len(data) == 0`, an error of Marshal, or the data's JSON.
unfoldable pub stringify_data : Codec → Data → String
stringify_data c none = ""
stringify_data c (some end) = ""
stringify_data c (some (field k v fs)) = elim (c.marshal_data (field k v fs)) [
  | err e ↦ ""
  | ok text ↦ text
]

notification_of : SendRequest → Option HmsNotification
notification_of req =
    if not (str_eq req.title "") || not (str_eq req.body "")
    then some (record { title = req.title; body = req.body })
    else none

unfoldable pub message_of : Codec → SendRequest → HmsMessage
unfolding notification_of
message_of c req = record {
  notification = notification_of req;
  payload = stringify_data c req.payload;
  token = req.token;
}

-- `classify`, and the tokens after it.
unfoldable pub classify : Bytes → SendResponse → Tokens → SendResult × Tokens
classify key r m =
    let text = "hms: " <> r.code <> ": " <> r.msg in
    if str_eq r.code "80000000"
    then (sent_as r.request_id, m)
    else if str_eq r.code "80300007" || str_eq r.code "80100000"
    then (failing Status.invalid_token (pos 0) text, m)
    else if str_eq r.code "80200001" || str_eq r.code "80200003"
    then (
      failing Status.transient_error (pos 0)
          (text <> " (token invalidated, will refresh on retry)"),
      remove_at key m,
    )
    else (failing Status.transient_error (pos 0) text, m)

module _ (h : Http) (c : Codec) where
  abbrev pub token_request : String → Credential → Request
  token_request token_url cred = record {
    url = token_url;
    headers = record { name = "Content-Type"; value = "application/x-www-form-urlencoded" } ∷ [];
    body = c.encode_form cred;
  }

  -- The token of a response, which is kept until its expiry.
  keep_token : Bytes → ℤ → Tokens → Result TokenResponse → Result String × Tokens
  keep_token key now m (err e) = (err (wrapped "hms: parse oauth2 token response" e), m)
  keep_token key now m (ok t) =
      let entry : CachedToken = record {
        access_token = t.access_token;
        expires_at = expiry now t.expires_in;
      } in
      (ok t.access_token, put_at key entry m)

  unfoldable pub on_token_reply : Bytes → ℤ → Tokens → Response ⊎ String → Result String × Tokens
  unfolding keep_token
  on_token_reply key now m (inr text) = (err (wrapped "hms: fetch oauth2 token" (other text)), m)
  on_token_reply key now m (inl r) =
      if r.status_code == 200 then keep_token key now m (c.unmarshal_token r.body) else (
        err (other ("hms: oauth2 token request failed: " <> h.itoa r.status_code <> " " <> r.body)),
        m,
      )

  -- The exchange for a new token.
  unfoldable pub fetch_token : String → Bytes → Credential → ℕ → Tokens → Result String × Tokens
  fetch_token token_url key cred n m = elim (h.url_error token_url) [
    | some text ↦ (err (other text), m)
    | none ↦
        on_token_reply key (c.now (suc (n + n))) m
          (h.round_trip (token_request token_url cred) (n + n))
  ]

  -- `accessTokenFor`
  unfoldable pub access_token_for :
      String → Bytes → Credential → ℕ → Tokens → Result String × Tokens
  access_token_for token_url key cred n m =
      elim (unexpired_token (c.now (n + n)) (value_at key m)) [
        | some token ↦ (ok token, m)
        | none ↦ fetch_token token_url key cred n m
      ]

  unfoldable pub on_parsed : Bytes → Tokens → Result SendResponse → Outcome × Tokens
  on_parsed key m (err e) = (refuse Status.unknown (wrapped "hms: parse response" e), m)
  on_parsed key m (ok r) = let (result, m') = classify key r m in (report result, m')

  unfoldable pub on_response : Bytes → Tokens → Response → Outcome × Tokens
  on_response key m r =
      if r.status_code == 429
      then (
        report (failing Status.throttled (retry_after h r) ("hms: rate limited: " <> r.body)),
        m,
      )
      else if r.status_code == 200
      then on_parsed key m (c.unmarshal r.body)
      else (
        report (
            failing Status.transient_error (pos 0)
              ("hms: unexpected http status " <> h.itoa r.status_code <> ": " <> r.body)),
        m,
      )

  unfoldable pub on_reply : Bytes → Tokens → Response ⊎ String → Outcome × Tokens
  on_reply key m (inr text) = (refuse Status.transient_error (other text), m)
  on_reply key m (inl r) = on_response key m r

  abbrev pub push_request : String → String → String → Request
  push_request url token payload = record {
    url = url;
    headers =
        record { name = "Content-Type"; value = "application/json" }
        ∷ record { name = "Accept"; value = "application/json" }
        ∷ record { name = "Authorization"; value = "Bearer " <> token }
        ∷ [];
    body = payload;
  }

  unfoldable pub post : String → Bytes → Tokens → String → String → ℕ → Outcome × Tokens
  post url key m token payload n = elim (h.url_error url) [
    | some text ↦ (refuse Status.unknown (other text), m)
    | none ↦ on_reply key m (h.round_trip (push_request url token payload) (suc (n + n)))
  ]

  unfoldable pub send_with_token :
      String → Bytes → Credential → SendRequest → ℕ → Tokens → Result String → Outcome × Tokens
  send_with_token base_url key cred req n m (err e) = (refuse Status.transient_error e, m)
  send_with_token base_url key cred req n m (ok token) = elim (c.marshal (message_of c req)) [
    | err e ↦ (refuse Status.unknown (wrapped "hms: marshal request" e), m)
    | ok payload ↦
        post (base_url <> "/v1/" <> cred.app_id <> "/messages:send") key m token payload n
  ]

  -- fmt prints a %w of a nil error as `%!w(<nil>)`.
  unfoldable pub with_credential :
      String → String → Bytes → SendRequest → ℕ → Tokens → Result Credential → Outcome × Tokens
  with_credential token_url base_url credential req n m (err e) =
      (refuse Status.unknown (wrapped "hms: invalid credential" e), m)
  with_credential token_url base_url credential req n m (ok cred) =
      if str_eq cred.app_id "" || str_eq cred.app_secret ""
      then (refuse Status.unknown (other "hms: invalid credential: %!w(<nil>)"), m)
      else let key = c.sha256 credential in
        let (token, m') = access_token_for token_url key cred n m in
        send_with_token base_url key cred req n m' token

  -- `Send`, its n-th contact with the outside, and the tokens after it.
  unfoldable pub hms_send : String → String → Bytes → SendRequest → ℕ → Tokens → Outcome × Tokens
  hms_send token_url base_url credential req n m =
      with_credential token_url base_url credential req n m (c.unmarshal_credential credential)

  -- TestCredential.
  unfoldable pub test_credential : String → Bytes → ℕ → Tokens → Option Err × Tokens
  test_credential token_url credential n m = elim (c.unmarshal_credential credential) [
    | err e ↦ (some (wrapped "hms: invalid credential" e), m)
    | ok cred ↦
        if str_eq cred.app_id "" || str_eq cred.app_secret ""
        then (some (other "hms: invalid credential: %!w(<nil>)"), m)
        else let (r, m') = access_token_for token_url (c.sha256 credential) cred n m in
          (error_of r, m')
  ]
