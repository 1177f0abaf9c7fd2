-- ===== src/Provider/Expo/Plain.antt =====
-- Errors of asynq's among the outcomes of a send to Expo.
use slay_push.Provider.Expo.Outcomes.{message_of}
use slay_push.Base.Text.{◌<>◌}
use slay_push.Provider.{SendRequest}
use slay_push.Dispatch.Send.Done.{opt_skip, IsPlain}
use slay_push.Crypto.{Bytes}
use slay_push.Base.{
  inr, [], Option-cases, ◌==◌, ◌∷◌, ℕ, refl, inl, arith, Bool-cases, ◌⊎◌, false, String, List, ◌≡◌,
  Bool,
}
use slay_push.Errors.{Result-cases, err, ok, is_skip_retry, Result}
use slay_push.Provider.Http.{Response, Http}
use slay_push.Provider.Expo.{
  ResponseError, Ticket, SendResponse, send_payload_to, parse, on_response, on_reply, on_parsed,
  expo_send, classify_ticket, Message, Codec,
}

unfoldable pub is_err_skip {ℓ} : {A : Type ℓ} → Result A → Bool
is_err_skip (ok a) = false
is_err_skip (err e) = is_skip_retry e

-- Documented behaviour: encoding/json's errors are its own.
abbrev pub PlainCodec : Codec → Type 0
PlainCodec c =
    ((m : Message) → is_err_skip (c.marshal m) ≡ false)
    × ((s : String) → is_err_skip (c.unmarshal s) ≡ false)

module _ (h : Http) (c : Codec) (plain : PlainCodec c) where
  ticket_plain : (t : Ticket) → opt_skip (classify_ticket h t).failure ≡ false
  unfolding classify_ticket is_skip_retry
  ticket_plain t = ground arith

  parsed-IsPlain : (es : List ResponseError) (ts : List Ticket) → IsPlain (on_parsed h es ts)
  unfolding on_parsed is_skip_retry
  parsed-IsPlain (e ∷ es) ts = (refl, refl)
  parsed-IsPlain [] [] = (refl, refl)
  parsed-IsPlain [] (t ∷ ts) = (ticket_plain t, refl)

  parse-IsPlain : (x : Result SendResponse) → is_err_skip x ≡ false → IsPlain (parse h x)
  unfolding parse is_err_skip is_skip_retry
  parse-IsPlain (ok r) k = parsed-IsPlain r.errors r.tickets
  parse-IsPlain (err e) k = (refl, k)

  response-IsPlain : (r : Response) → IsPlain (on_response h c r)
  unfolding on_response is_skip_retry
  response-IsPlain r = elim (Bool-cases (r.status_code == 429)) [
    | inl limited ↦ rw limited (refl, refl)
    | inr free ↦ elim (Bool-cases (r.status_code == 200)) [
      | inl fine ↦ rw (free, fine) (parse-IsPlain (c.unmarshal r.body) (plain.1 r.body))
      | inr odd ↦ rw (free, odd) (refl, refl)
    ]
  ]

  reply-IsPlain : (x : Response ⊎ String) → IsPlain (on_reply h c x)
  unfolding on_reply is_skip_retry
  reply-IsPlain (inl r) = response-IsPlain r
  reply-IsPlain (inr text) = (refl, refl)

  payload-IsPlain :
      (base_url : String) (credential : Bytes) (payload : String) (n : ℕ)
      → IsPlain (send_payload_to h c base_url credential payload n)
  unfolding send_payload_to is_skip_retry
  payload-IsPlain base_url credential payload n =
      elim (Option-cases (h.url_error (base_url <> "/--/api/v2/push/send"))) [
        | inl parses ↦ rw (parses, send_payload_to) (reply-IsPlain _)
        | inr (text, bad) ↦ rw (bad, send_payload_to) (refl, refl)
      ]

  -- Whatever Expo, the network and the credential do, neither the failure in the result nor the
  -- error that Send returns carries asynq.SkipRetry, where encoding/json's errors carry none.
  pub expo_send-IsPlain :
      (base_url : String) (credential : Bytes) (req : SendRequest) (n : ℕ)
      → IsPlain (expo_send h c base_url credential req n)
  unfolding expo_send is_skip_retry is_err_skip
  expo_send-IsPlain base_url credential req n = elim (Result-cases (c.marshal (message_of req))) [
    | inl (e, bad) ↦ rw (bad, expo_send) (refl, rw bad at (plain.0 (message_of req)))
    | inr (payload, good) ↦ rw (good, expo_send) (payload-IsPlain base_url credential payload n)
  ]
