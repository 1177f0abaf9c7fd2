-- ===== src/Examples/HmsSends.antt =====
-- The theorems on the HMS adapter at work.
use slay_push.Crypto.{Bytes}
use slay_push.Provider.Hms.Isolation.{hms_send_isolated}
use slay_push.Errors.{ok}
use slay_push.Provider.Http.{Response, Http}
use slay_push.Provider.Cache.{remove_at, put_at, same_bytes, value_at}
use slay_push.Base.Int.{pos}
use slay_push.Base.{arith, ◌==◌, refl, ◌%◌, if◌then◌else◌, ◌≢◌, ◌≡◌, inl, none, [], ◌∷◌, String}
use slay_push.Provider.{SendRequest}
use slay_push.Provider.Hms.{
  Codec, Credential, Tokens, hms_send, with_credential, access_token_for, unexpired_token,
  fetch_token, on_token_reply, send_with_token, post, on_reply, on_response, on_parsed, classify,
}
use slay_push.Provider.Hms.Outcomes.{Took, hms_send_sent}

abbrev reply : String → Response
reply body = record { status_code = 200; retry_after = ""; body = body }

-- The exchange of a token is the even contact, the push the odd one.
abbrev huawei : String → Http
huawei code = record {
  url_error = λ url. none;
  round_trip = λ q n. inl (reply (if n % 2 == 0 then "token" else code));
  atoi = λ s. none;
  itoa = λ n. "";
  quote = λ s. s;
}

-- A credential hashes to itself; a body is its own code.
abbrev codec : Codec
codec = record {
  sha256 = λ b. b;
  now = λ n. pos 0;
  unmarshal_credential = λ b. ok (record { app_id = "app"; app_secret = "s" });
  encode_form = λ cred. "grant_type=client_credentials";
  unmarshal_token = λ s. ok (record { access_token = "t1"; expires_in = pos 3600 });
  marshal_data = λ fs. ok "{}";
  marshal = λ m. ok "{}";
  unmarshal = λ s. ok (record { code = s; msg = ""; request_id = "r1" });
}

abbrev push : SendRequest
push = record { token = "d7"; title = "Shipped"; body = ""; payload = none }

abbrev cred : Credential
cred = record { app_id = "app"; app_secret = "s" }

abbrev held : Tokens
held = record { key = 2 ∷ []; value = record { access_token = "t0"; expires_at = pos 9 } } ∷ []

hms_send_sent_example :
    Took
      (huawei "80000000")
      codec
      push
      0
      (hms_send
        (huawei "80000000")
        codec
        "https://oauth"
        "https://push"
        (1 ∷ [])
        push
        0
        held).0.0.provider_message_id
unfolding hms_send with_credential access_token_for unexpired_token value_at same_bytes fetch_token
    on_token_reply put_at remove_at send_with_token post on_reply on_response on_parsed classify
hms_send_sent_example =
    hms_send_sent (huawei "80000000") codec push 0 "https://oauth" "https://push" (1 ∷ []) held refl

apart : ◌≢◌ {A = Bytes} (1 ∷ []) (2 ∷ [])
apart e = ground arith

hms_send_isolated_example :
    value_at
      (2 ∷ [])
      (hms_send (huawei "80200003") codec "https://oauth" "https://push" (1 ∷ []) push 0 held).1
    ≡ value_at (2 ∷ []) held
hms_send_isolated_example =
    hms_send_isolated (huawei "80200003") codec "https://oauth" "https://push" (1 ∷ []) (2 ∷ [])
      push 0 held apart
