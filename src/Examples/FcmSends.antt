-- ===== src/Examples/FcmSends.antt =====
-- The theorems on the FCM adapter at work.
use slay_push.Errors.{ok}
use slay_push.Provider.{Status, SendRequest}
use slay_push.Base.{◌≢◌, refl, ◌≡◌, inl, ◌∷◌, none, [], List}
use slay_push.Provider.Fcm.Cache.{fcm_send_isolated}
use slay_push.Provider.Cache.{same_bytes}
use slay_push.Provider.Http.{Http}
use slay_push.Crypto.{Bytes}
use slay_push.Provider.Fcm.{
  set_source, with_source, send_with_token, on_response, token_source_for, fcm_send, Codec, Cached,
  cached_at,
}
use slay_push.Provider.Fcm.Outcomes.{fcm_send_sent, Took}

abbrev answering : Http
answering = record {
  url_error = λ url. none;
  round_trip = λ q n. inl (record { status_code = 200; retry_after = ""; body = "{}" });
  atoi = λ s. none;
  itoa = λ n. "";
  quote = λ s. s;
}

-- A credential hashes to itself, and is its own token source; a call of it marks the source.
abbrev open_codec : Codec Bytes
open_codec = record {
  sha256 = λ b. b;
  unmarshal_project_id = λ b. ok "shop";
  jwt_config = λ b. ok b;
  token = λ b n. (ok "ya29", n ∷ b);
  marshal_value = λ v. ok "";
  print_value = λ v. "";
  marshal = λ m. ok "{}";
  unmarshal_name = λ s. ok "projects/shop/messages/1";
  unmarshal_error = λ s. record { status = ""; message = ""; error_codes = [] };
}

abbrev fcm_push : SendRequest
fcm_push = record { token = "d7"; title = "Shipped"; body = ""; payload = none }

fcm_reported :
    (fcm_send answering open_codec "https://fcm.googleapis.com" (1 ∷ []) fcm_push 0 []).0.0.status
    ≡ Status.sent
unfolding fcm_send token_source_for cached_at set_source with_source send_with_token on_response
fcm_reported = refl

fcm_send_sent_example :
    Took answering open_codec fcm_push 0
      (fcm_send answering open_codec "https://fcm.googleapis.com"
        (1 ∷ [])
        fcm_push
        0
        []).0.0.provider_message_id
fcm_send_sent_example =
    fcm_send_sent answering open_codec "https://fcm.googleapis.com" fcm_push 0 (1 ∷ []) []
      fcm_reported

-- Two caches that hold the same source of the credential sent with.
abbrev warm : List (Cached Bytes)
warm = record { key = 1 ∷ []; source = 1 ∷ [] } ∷ []

abbrev shared : List (Cached Bytes)
shared = record { key = 2 ∷ []; source = 2 ∷ [] } ∷ warm

fcm_send_isolated_example :
    ((fcm_send answering open_codec "https://fcm.googleapis.com" (1 ∷ []) fcm_push 0 shared).0
      ≡ (fcm_send answering open_codec "https://fcm.googleapis.com" (1 ∷ []) fcm_push 0 warm).0)
    × ((j : Bytes)
        → (1 ∷ []) ≢ j
        → cached_at j
            (fcm_send answering open_codec "https://fcm.googleapis.com"
              (1 ∷ [])
              fcm_push
              0
              shared).1
          ≡ cached_at j shared)
unfolding cached_at same_bytes
fcm_send_isolated_example =
    fcm_send_isolated answering open_codec (1 ∷ []) "https://fcm.googleapis.com" fcm_push 0 shared
      warm refl
