-- ===== src/Examples/Parts.antt =====
-- The theorems of the parts that need no world.
use slay_push.Provider.Expo.Outcomes.{expo_send_sent, Took}
use slay_push.Provider.{Status, SendRequest}
use slay_push.Provider.Http.{Response, Http}
use slay_push.Provider.Expo.{classify_ticket, on_parsed, on_response, expo_send, Ticket, Codec}
use slay_push.Base.Int.{pos}
use slay_push.Examples.{clear_aead}
use slay_push.Base.{inl, none, refl, zero, arith, ◌++◌, suc, ap, [], ◌≡◌, ◌∷◌, sym, length, ℕ}
use slay_push.Provider.Registry.{start, registered, Reach, empty, at_name, register, Registry}
use slay_push.Crypto.{seal_with, Bytes, seal_envelope, open_envelope, Random}
use slay_push.Crypto.RoundTrip.{open-seal, FillsBuffers}
use slay_push.Errors.{other, throttled, err, wrapped, ok, Result, Err}

abbrev one_entry : Registry ℕ
one_entry = record {
  factories = record { name = "expo"; value = λ n. n } ∷ [];
  instances = [];
  built = 0;
}

one_entry_reached : Reach one_entry
unfolding register at_name empty
one_entry_reached = registered "expo" (λ n. n) (start refl) refl

unfoldable pub zeros : ℕ → Bytes
zeros zero = []
zeros (suc n) = 0 ∷ zeros n

length-zeros : (k : ℕ) → length (zeros k) ≡ k
unfolding zeros
length-zeros zero = refl
length-zeros (suc k) = omega (arith, length-zeros k)

abbrev pub zero_random : Random
zero_random n k = ok (zeros k)

bytes_of : Result Bytes → Bytes
bytes_of (ok b) = b
bytes_of (err e) = []

pub zero_random_fills : FillsBuffers zero_random
unfolding bytes_of
zero_random_fills n k b h = rw (sym (ap bytes_of h)) (length-zeros k)

sealed :
    seal_envelope clear_aead (record { key = [] }) zero_random 0 (42 ∷ [])
    ≡ ok (zeros 2 ++ zeros 32, zeros 2 ++ (42 ∷ []))
unfolding seal_envelope seal_with
sealed = refl

open-seal_example :
    open_envelope clear_aead (record { key = [] }) (zeros 2 ++ zeros 32) (zeros 2 ++ (42 ∷ []))
    ≡ ok (42 ∷ [])
open-seal_example =
    open-seal clear_aead zero_random zero_random_fills (λ k n p. refl) (record { key = [] }) 0
      (42 ∷ []) (zeros 2 ++ zeros 32) (zeros 2 ++ (42 ∷ [])) sealed

abbrev too_many : Err
too_many = wrapped "send" (throttled (pos 30) (other "429"))

-- Expo takes every push.
abbrev took_ticket : Ticket
took_ticket = record { status = "ok"; id = "t1"; message = ""; error = "" }

abbrev took : Response
took = record { status_code = 200; retry_after = ""; body = "{}" }

abbrev http : Http
http = record {
  url_error = λ url. none;
  round_trip = λ q n. inl took;
  atoi = λ s. none;
  itoa = λ n. "";
  quote = λ s. s;
}

abbrev codec : Codec
codec = record {
  access_token = λ credential. "";
  marshal = λ m. ok "[]";
  unmarshal = λ s. ok (record { tickets = took_ticket ∷ []; errors = [] });
}

abbrev push : SendRequest
push = record { token = "ExponentPushToken[7]"; title = "Shipped"; body = ""; payload = none }

reported : (expo_send http codec "https://exp.host" [] push 0).0.status ≡ Status.sent
unfolding expo_send on_response on_parsed classify_ticket
reported = refl

expo_send_sent_example :
    Took http codec push 0 (expo_send http codec "https://exp.host" [] push 0).0.provider_message_id
expo_send_sent_example = expo_send_sent http codec "https://exp.host" [] push 0 reported
