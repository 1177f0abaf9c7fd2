-- ===== src/Provider/Fcm/Outcomes.antt =====
-- What the outcome of a send to FCM says of the exchange with FCM.
use slay_push.Provider.Sent.{not_sent, is_sent}
use slay_push.Base.Text.{◌<>◌, str_eq}
use slay_push.Crypto.{Bytes}
use slay_push.Errors.{err, ok, Result, Result-cases}
use slay_push.Base.{
  refl, ==_iff, Option-cases, ◌==◌, ◌∙◌, inr, List, Bool-cases, inl, ◌⊎◌, arith, false, ◌≡◌, ℕ,
  String,
}
use slay_push.Provider.{SendRequest, Status}
use slay_push.Provider.Http.{Response, Http}
use slay_push.Provider.Fcm.{
  last_code, message_of, on_response, request_to, with_token, with_project, classify_error,
  with_source, send_with_token, on_reply, named, fcm_send, status_of, Codec, Cached,
}

-- FCM took the message: it answered the request that carries it with status 200 and this name.
pub record Took {S : Type 0} (h : Http) (c : Codec S) (req : SendRequest) (n : ℕ) (name : String)
    : Type 0 where
  pub url : String
  pub token : String
  pub payload : String
  pub response : Response
  pub carries : c.marshal (message_of h c req) ≡ ok payload
  pub answered : h.round_trip (request_to h c url token payload) n ≡ inl response
  pub is_ok : response.status_code ≡ 200
  pub names : c.unmarshal_name response.body ≡ ok name

status_not_sent : (status_code : ℕ) (code : String) → is_sent (status_of status_code code) ≡ false
unfolding status_of is_sent
status_not_sent status_code code = ground arith

module _ {S : Type 0} (h : Http) (c : Codec S) where
  error_not_sent : (r : Response) → ¬ ((classify_error h c r).status ≡ Status.sent)
  unfolding classify_error
  error_not_sent r =
      not_sent _
        (status_not_sent r.status_code (last_code "" (c.unmarshal_error r.body).error_codes))

  response_sent :
      (r : Response)
      → (on_response h c r).0.status ≡ Status.sent
      → (r.status_code ≡ 200)
        × (c.unmarshal_name r.body ≡ ok (on_response h c r).0.provider_message_id)
  unfolding on_response named classify_error is_sent
  response_sent r s = elim (Bool-cases (r.status_code == 200)) [
    | inr odd ↦ absurd (error_not_sent r (rw odd at s))
    | inl fine ↦ elim (Result-cases (c.unmarshal_name r.body)) [
      | inl (e, bad) ↦ absurd (not_sent Status.unknown refl (rw (fine, bad) at s))
      | inr (name, good) ↦ ((==_iff r.status_code 200).0 fine, good ∙ rw (fine, good) refl)
    ]
  ]

  module _ (base_url : String) (req : SendRequest) (n : ℕ) where
    reply_sent :
        (url token payload : String) (x : Response ⊎ String)
        → c.marshal (message_of h c req) ≡ ok payload
        → h.round_trip (request_to h c url token payload) n ≡ x
        → (on_reply h c x).0.status ≡ Status.sent
        → Took h c req n (on_reply h c x).0.provider_message_id
    unfolding on_reply
    reply_sent url token payload (inr text) m e s = cc
    reply_sent url token payload (inl r) m e s =
        let (is_ok, names) = response_sent r s in
        record {
          url = url;
          token = token;
          payload = payload;
          response = r;
          carries = m;
          answered = e;
          is_ok = is_ok;
          names = names;
        }

    token_sent :
        (project_id token : String)
        → (send_with_token h c base_url project_id token req n).0.status ≡ Status.sent
        → Took h c req n (send_with_token h c base_url project_id token req n).0.provider_message_id
    unfolding send_with_token is_sent
    token_sent project_id token s = elim (Result-cases (c.marshal (message_of h c req))) [
      | inl (e, bad) ↦ absurd (not_sent Status.unknown refl (rw (bad, send_with_token) at s))
      | inr (payload, good) ↦
          elim (Option-cases
            (h.url_error (base_url <> "/v1/projects/" <> project_id <> "/messages:send"))) [
              | inr (text, bad) ↦
                  absurd (not_sent Status.unknown refl (rw (good, send_with_token, bad) at s))
              | inl parses ↦
                  rw (good, send_with_token, parses)
                    (reply_sent _ token payload _ good refl
                      (rw (good, send_with_token, parses) at s))
            ]
    ]

    got_token_sent :
        (project_id : String) (x : Result String)
        → (with_token h c base_url project_id req n x).0.status ≡ Status.sent
        → Took h c req n (with_token h c base_url project_id req n x).0.provider_message_id
    unfolding with_token
    got_token_sent project_id (err e) k = cc
    got_token_sent project_id (ok token) k = token_sent project_id token k

    source_sent :
        (project_id : String) (key : Bytes) (x : Result S × List (Cached S))
        → (with_source h c base_url project_id req n key x).0.0.status ≡ Status.sent
        → Took h c req n (with_source h c base_url project_id req n key x).0.0.provider_message_id
    unfolding with_source
    source_sent project_id key (err e, m) s = cc
    source_sent project_id key (ok ts, m) s = got_token_sent project_id (c.token ts n).0 s

    -- A push that Send reports as sent, with any cache of token sources, is one that FCM took,
    -- under the name that FCM gave it.
    pub fcm_send_sent :
        (credential : Bytes) (m : List (Cached S))
        → (fcm_send h c base_url credential req n m).0.0.status ≡ Status.sent
        → Took h c req n (fcm_send h c base_url credential req n m).0.0.provider_message_id
    unfolding fcm_send with_project is_sent
    fcm_send_sent credential m s = elim (Result-cases (c.unmarshal_project_id credential)) [
      | inl (e, bad) ↦ absurd (not_sent Status.unknown refl (rw (bad, fcm_send) at s))
      | inr (project_id, good) ↦ elim (Bool-cases (str_eq project_id "")) [
        | inl empty ↦ absurd (not_sent Status.unknown refl (rw (good, fcm_send, empty) at s))
        | inr given ↦
            rw (good, fcm_send, given)
              (source_sent project_id _ _ (rw (good, fcm_send, given) at s))
      ]
    ]
