-- ===== src/Provider/Expo.antt =====
-- internal/provider/expo/expo.go.
pub mod Outcomes
pub mod Plain
use slay_push.Base.Int.{pos}
use slay_push.Base.Text.{str_eq, ◌<>◌}
use slay_push.Provider.{Status, SendResult, SendRequest}
use slay_push.Errors.{ok, wrapped, other, err, Result}
use slay_push.Base.Json.{Data}
use slay_push.Store.{Adapter}
use slay_push.Base.{none, inl, some, inr, ◌==◌, ◌⊎◌, if◌then◌else◌, [], ◌∷◌, ℕ, String, List}
use slay_push.Provider.Http.{
  sent_as, retry_after, refuse, failing, report, Response, Outcome, Header, Http,
}
use slay_push.Crypto.{Bytes}

pub record Message : Type 0 where
  pub to : String
  pub title : String
  pub body : String
  pub payload : Data

pub record Ticket : Type 0 where
  pub status : String
  pub id : String
  pub message : String
  pub error : String

pub record ResponseError : Type 0 where
  pub code : String
  pub message : String

pub record SendResponse : Type 0 where
  pub tickets : List Ticket
  pub errors : List ResponseError

-- encoding/json on this adapter's types. `access_token` is the field that an Unmarshal with its
-- error dropped leaves behind, the empty text where it fails.
pub record Codec : Type 0 where
  pub access_token : Bytes → String
  pub marshal : Message → Result String
  pub unmarshal : String → Result SendResponse

ticket_status : String → Status
ticket_status error =
    if str_eq error "DeviceNotRegistered"
    then Status.invalid_token
    else if str_eq error "MessageRateExceeded"
    then Status.throttled
    else Status.transient_error

unfoldable pub classify_ticket : Http → Ticket → SendResult
unfolding ticket_status
classify_ticket h t =
    if str_eq t.status "ok"
    then sent_as t.id
    else if str_eq t.status "error"
    then failing (ticket_status t.error) (pos 0) ("expo: " <> t.message <> " (" <> t.error <> ")")
    else failing Status.transient_error (pos 0) ("expo: unknown ticket status " <> h.quote t.status)

-- After the body has been parsed.
unfoldable pub on_parsed : Http → List ResponseError → List Ticket → Outcome
on_parsed h (e ∷ es) ts =
    report (failing Status.transient_error (pos 0) ("expo: request-level error: " <> e.message))
on_parsed h [] [] = refuse Status.unknown (other "expo: empty response data")
on_parsed h [] (t ∷ ts) = report (classify_ticket h t)

parse : Http → Result SendResponse → Outcome
parse h (err e) = refuse Status.unknown (wrapped "expo: parse response" e)
parse h (ok r) = on_parsed h r.errors r.tickets

unfoldable pub on_response : Http → Codec → Response → Outcome
unfolding parse
on_response h c r =
    if r.status_code == 429
    then report (failing Status.throttled (retry_after h r) ("expo: rate limited: " <> r.body))
    else if r.status_code == 200
    then parse h (c.unmarshal r.body)
    else report (
        failing Status.transient_error (pos 0)
          ("expo: unexpected status " <> h.itoa r.status_code <> ": " <> r.body))

authorization : String → List Header
authorization token =
    if str_eq token ""
    then []
    else record { name = "Authorization"; value = "Bearer " <> token } ∷ []

-- `len(credential) > 0`
token_of : Codec → Bytes → String
token_of c [] = ""
token_of c (b ∷ bs) = c.access_token (b ∷ bs)

on_reply : Http → Codec → Response ⊎ String → Outcome
on_reply h c (inr text) = refuse Status.transient_error (other text)
on_reply h c (inl r) = on_response h c r

send_payload_to : Http → Codec → String → Bytes → String → ℕ → Outcome
unfolding authorization token_of on_reply
send_payload_to h c base_url credential payload n =
    let url = base_url <> "/--/api/v2/push/send" in
    elim (h.url_error url) [
      | some text ↦ refuse Status.unknown (other text)
      | none ↦ on_reply h c (
          h.round_trip
            (record {
              url = url;
              headers =
                  record { name = "Content-Type"; value = "application/json" }
                  ∷ record { name = "Accept"; value = "application/json" }
                  ∷ authorization (token_of c credential);
              body = payload;
            })
            n)
    ]

-- `Send`: its n-th round trip is the one it makes.
unfoldable pub expo_send : Http → Codec → String → Bytes → SendRequest → ℕ → Outcome
unfolding send_payload_to
expo_send h c base_url credential req n =
    let message : Message = record {
      to = req.token;
      title = req.title;
      body = req.body;
      payload = req.payload;
    } in
    elim (c.marshal message) [
      | err e ↦ refuse Status.unknown (wrapped "expo: marshal request" e)
      | ok payload ↦ send_payload_to h c base_url credential payload n
    ]

abbrev pub expo : Http → Codec → String → Adapter
expo h c base_url = record { name = "expo"; send = expo_send h c base_url }
