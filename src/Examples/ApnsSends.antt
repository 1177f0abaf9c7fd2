-- ===== src/Examples/ApnsSends.antt =====
-- The theorems on the APNs adapter at work.
use slay_push.Base.Json.{end, str, field}
use slay_push.Errors.{ok}
use slay_push.Provider.Cache.{remove_at, put_at, value_at}
use slay_push.Provider.Apns.Payload.{payload_of-fields, or_else, HasDistinctKeys, field_at}
use slay_push.Base.{refl, [], ◌∷◌, ◌==◌, ◌≡◌, inl, some, String}
use slay_push.Provider.{SendRequest}
use slay_push.Provider.Apns.Outcomes.{Took, apns_send_sent}
use slay_push.Provider.Apns.{
  fields_of, apns_send, payload_of, Apns2, client_for, push_with, on_push, classify_response,
  alert_of,
}

-- The client is the private key's text; each push is taken.
abbrev apple : Apns2 String
apple = record {
  sha256 = λ b. b;
  unmarshal = λ b. ok (record {
    auth_type = "token";
    environment = "sandbox";
    key_id = "k";
    team_id = "t";
    private_key = "p8";
    cert_pem = "";
    key_pem = "";
    bundle_id = "com.shop";
  });
  cert_client = λ cert key. ok cert;
  token_client = λ key id team. ok key;
  development = λ client. client;
  production = λ client. client;
  push = λ client note n. inl (record { status_code = 200; reason = ""; apns_id = "a1" });
  sent = λ r. r.status_code == 200;
  itoa = λ n. "";
  bad_device_token = "BadDeviceToken";
  unregistered = "Unregistered";
  device_token_not_for_topic = "DeviceTokenNotForTopic";
  too_many_requests = "TooManyRequests";
}

-- Its data has a field aps.
abbrev silent : SendRequest
silent = record {
  token = "d7";
  title = "Shipped";
  body = "";
  payload = some (field "aps" (str "x") end);
}

apns_send_sent_example :
    Took apple silent 0 (apns_send apple (1 ∷ []) silent 0 []).0.0.provider_message_id
unfolding apns_send client_for value_at put_at remove_at push_with on_push classify_response
apns_send_sent_example = apns_send_sent apple silent 0 (1 ∷ []) [] refl

payload_of-fields_example :
    field_at "aps" (payload_of silent)
    ≡ or_else
        (field_at "aps" (fields_of silent.payload))
        (field_at "aps" (field "aps" (alert_of silent) end))
unfolding fields_of field_at HasDistinctKeys
payload_of-fields_example = payload_of-fields silent "aps" (refl, tt)
