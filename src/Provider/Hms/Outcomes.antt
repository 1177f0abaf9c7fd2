-- ===== src/Provider/Hms/Outcomes.antt =====
-- What the outcome of a send to HMS says of the exchange with Huawei.
use slay_push.Provider.Sent.{not_sent, is_sent}
use slay_push.Provider.Hms.{on_parsed}
use slay_push.Errors.{Result-cases, err, Result, ok}
use slay_push.Base.Text.{str_eq_iff, str_eq}
use slay_push.Crypto.{Bytes}
use slay_push.Base.{
  ==_iff, ◌⊎◌, Option-cases, ◌==◌, ◌||◌, refl, ◌+◌, suc, inr, inl, String, ℕ, Bool-cases, false,
  ◌≡◌,
}
use slay_push.Provider.Hms.{
  Credential, with_credential, send_with_token, post, on_response, on_reply, hms_send, message_of,
  SendResponse, Codec, push_request, Tokens, classify,
}
use slay_push.Provider.{SendRequest, Status}
use slay_push.Provider.Http.{Response, Outcome, Http}

-- Huawei took the message: it answered the request that carries it by 200 and the code of success,
-- under this request id.
pub record Took (h : Http) (c : Codec) (req : SendRequest) (n : ℕ) (id : String) : Type 0 where
  pub url : String
  pub token : String
  pub payload : String
  pub response : Response
  pub parsed : SendResponse
  pub carries : c.marshal (message_of c req) ≡ ok payload
  pub answered : h.round_trip (push_request h c url token payload) (suc (n + n)) ≡ inl response
  pub is_ok : response.status_code ≡ 200
  pub parses : c.unmarshal response.body ≡ ok parsed
  pub success : parsed.code ≡ "80000000"
  pub names : parsed.request_id ≡ id

abbrev IsSent : Outcome × Tokens → Type 0
IsSent x = x.0.0.status ≡ Status.sent

unsuccessful :
    (key : Bytes) (r : SendResponse) (m : Tokens)
    → str_eq r.code "80000000" ≡ false
    → is_sent (classify key r m).0.status ≡ false
unfolding classify is_sent
unsuccessful key r m bad =
    elim (Bool-cases (str_eq r.code "80300007" || str_eq r.code "80100000")) [
      | inl gone ↦ rw (bad, gone) refl
      | inr there ↦ elim (Bool-cases (str_eq r.code "80200001" || str_eq r.code "80200003")) [
        | inl stale ↦ rw (bad, there, stale) refl
        | inr fresh ↦ rw (bad, there, fresh) refl
      ]
    ]

classify_sent :
    (key : Bytes) (r : SendResponse) (m : Tokens)
    → (classify key r m).0.status ≡ Status.sent
    → (r.code ≡ "80000000") × (r.request_id ≡ (classify key r m).0.provider_message_id)
unfolding classify is_sent
classify_sent key r m s = elim (Bool-cases (str_eq r.code "80000000")) [
  | inl good ↦ ((str_eq_iff r.code "80000000").0 good, rw good refl)
  | inr bad ↦ absurd (not_sent _ (unsuccessful key r m bad) s)
]

module _ (h : Http) (c : Codec) where
  parsed_sent :
      (key : Bytes) (m : Tokens) (x : Result SendResponse)
      → IsSent (on_parsed h c key m x)
      → (r : SendResponse) × (x ≡ ok r)
        × (r.code ≡ "80000000")
        × (r.request_id ≡ (on_parsed h c key m x).0.0.provider_message_id)
  unfolding on_parsed is_sent
  parsed_sent key m (err e) s = absurd (not_sent Status.unknown refl s)
  parsed_sent key m (ok r) s =
      let (success, names) = classify_sent key r m s in (r, refl, success, names)

  response_sent :
      (key : Bytes) (m : Tokens) (r : Response)
      → IsSent (on_response h c key m r)
      → (r.status_code ≡ 200)
        × ((p : SendResponse) × (c.unmarshal r.body ≡ ok p)
            × (p.code ≡ "80000000")
            × (p.request_id ≡ (on_response h c key m r).0.0.provider_message_id))
  unfolding on_response is_sent
  response_sent key m r s = elim (Bool-cases (r.status_code == 429)) [
    | inl limited ↦ absurd (not_sent Status.throttled refl (rw (limited, on_response) at s))
    | inr free ↦ elim (Bool-cases (r.status_code == 200)) [
      | inr odd ↦ absurd (not_sent Status.transient_error refl (rw (free, odd, on_response) at s))
      | inl fine ↦ (
        (==_iff r.status_code 200).0 fine,
        rw (free, fine, on_response)
            (parsed_sent key m (c.unmarshal r.body) (rw (free, fine, on_response) at s)),
      )
    ]
  ]

  module _ (req : SendRequest) (n : ℕ) where
    reply_sent :
        (url token payload : String) (key : Bytes) (m : Tokens) (x : Response ⊎ String)
        → c.marshal (message_of c req) ≡ ok payload
        → h.round_trip (push_request h c url token payload) (suc (n + n)) ≡ x
        → IsSent (on_reply h c key m x)
        → Took h c req n (on_reply h c key m x).0.0.provider_message_id
    unfolding on_reply
    reply_sent url token payload key m (inr text) carries answered s = cc
    reply_sent url token payload key m (inl r) carries answered s =
        let (is_ok, (p, parses, success, names)) = response_sent key m r s in
        record {
          url = url;
          token = token;
          payload = payload;
          response = r;
          parsed = p;
          carries = carries;
          answered = answered;
          is_ok = is_ok;
          parses = parses;
          success = success;
          names = names;
        }

    post_sent :
        (url token payload : String) (key : Bytes) (m : Tokens)
        → c.marshal (message_of c req) ≡ ok payload
        → IsSent (post h c url key m token payload n)
        → Took h c req n (post h c url key m token payload n).0.0.provider_message_id
    unfolding post is_sent
    post_sent url token payload key m carries s = elim (Option-cases (h.url_error url)) [
      | inr (text, bad) ↦ absurd (not_sent Status.unknown refl (rw (post, bad) at s))
      | inl parses ↦
          rw (post, parses)
            (reply_sent url token payload key m _ carries refl (rw (post, parses) at s))
    ]

    token_sent :
        (base_url : String) (key : Bytes) (cred : Credential) (m : Tokens) (t : Result String)
        → IsSent (send_with_token h c base_url key cred req n m t)
        → Took h c req n (send_with_token h c base_url key cred req n m t).0.0.provider_message_id
    unfolding send_with_token is_sent
    token_sent base_url key cred m (err e) s = absurd (not_sent Status.transient_error refl s)
    token_sent base_url key cred m (ok token) s =
        elim (Result-cases (c.marshal (message_of c req))) [
          | inl (e, bad) ↦ absurd (not_sent Status.unknown refl (rw (send_with_token, bad) at s))
          | inr (payload, good) ↦
              rw (send_with_token, good)
                (post_sent _ token payload key m good (rw (send_with_token, good) at s))
        ]

    credential_sent :
        (token_url base_url : String) (credential : Bytes) (m : Tokens) (x : Result Credential)
        → IsSent (with_credential h c token_url base_url credential req n m x)
        → Took h c req n
            (with_credential h c token_url base_url credential req n m x).0.0.provider_message_id
    unfolding with_credential is_sent
    credential_sent token_url base_url credential m (err e) s =
        absurd (not_sent Status.unknown refl s)
    credential_sent token_url base_url credential m (ok cred) s =
        elim (Bool-cases (str_eq cred.app_id "" || str_eq cred.app_secret "")) [
          | inl empty ↦ absurd (not_sent Status.unknown refl (rw (with_credential, empty) at s))
          | inr given ↦
              rw (with_credential, given)
                (token_sent base_url _ cred _ _ (rw (with_credential, given) at s))
        ]

    -- A push that Send reports as sent, with any cache of tokens, is one that Huawei took, under the
    -- request id that it gave.
    pub hms_send_sent :
        (token_url base_url : String) (credential : Bytes) (m : Tokens)
        → IsSent (hms_send h c token_url base_url credential req n m)
        → Took h c req n
            (hms_send h c token_url base_url credential req n m).0.0.provider_message_id
    unfolding hms_send
    hms_send_sent token_url base_url credential m s =
        credential_sent token_url base_url credential m (c.unmarshal_credential credential) s
