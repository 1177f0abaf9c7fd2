-- ===== src/Provider/Hms/Isolation.antt =====
-- What Send does to the cache of tokens.
use slay_push.Provider.Cache.{value_at-remove_other, value_at-remove, value_at-put_other}
use slay_push.Base.Text.{str_eq}
use slay_push.Base.Int.{ℤ}
use slay_push.Errors.{Result-cases, ok, err, Result}
use slay_push.Provider.{SendRequest}
use slay_push.Base.{
  ap, ◌∙◌, ◌||◌, refl, inr, inl, ◌==◌, ◌+◌, ◌⊎◌, ◌≡◌, Option-cases, Bool-cases, ℕ, ◌≢◌, String,
}
use slay_push.Crypto.{Bytes}
use slay_push.Provider.Hms.{
  message_of, remove_at, value_at, unexpired_token, keep_token, SendResponse, Credential,
  send_with_token, post, on_token_reply, on_reply, fetch_token, classify, access_token_for, Tokens,
  on_parsed, with_credential, on_response, hms_send, Codec,
}
use slay_push.Provider.Http.{Response, Http}

module _ (h : Http) (c : Codec) where
  evicts :
      (key : Bytes) (m : Tokens) (r : Response) (p : SendResponse)
      → r.status_code ≡ 200
      → c.unmarshal r.body ≡ ok p
      → (p.code ≡ "80200001") ⊎ (p.code ≡ "80200003")
      → (on_response h c key m r).1 ≡ remove_at key m
  unfolding on_response on_parsed classify
  evicts key m r p fine parses (inl e) = rw (on_response, fine, parses, classify, e) refl
  evicts key m r p fine parses (inr e) = rw (on_response, fine, parses, classify, e) refl

  fetches :
      (token_url : String) (key : Bytes) (cred : Credential) (n : ℕ) (m : Tokens)
      → access_token_for h c token_url key cred n (remove_at key m)
        ≡ fetch_token h c token_url key cred n (remove_at key m)
  unfolding access_token_for unexpired_token
  fetches token_url key cred n m = rw (access_token_for, value_at-remove key m) refl

  -- A push that Huawei refuses for its access token drops the token: the next one is exchanged anew.
  pub on_response-refreshes :
      (token_url : String) (key : Bytes) (cred : Credential) (n : ℕ) (m : Tokens) (r : Response)
      (p : SendResponse)
      → r.status_code ≡ 200
      → c.unmarshal r.body ≡ ok p
      → (p.code ≡ "80200001") ⊎ (p.code ≡ "80200003")
      → access_token_for h c token_url key cred n (on_response h c key m r).1
        ≡ fetch_token h c token_url key cred n (remove_at key m)
  on_response-refreshes token_url key cred n m r p fine parses codes =
      ap (access_token_for h c token_url key cred n) (evicts key m r p fine parses codes)
      ∙ fetches token_url key cred n m

  module _ (key j : Bytes) (ne : key ≢ j) where
    abbrev Spares : Tokens → Tokens → Type 0
    Spares m m' = value_at j m' ≡ value_at j m

    classify-Spares : (r : SendResponse) (m : Tokens) → Spares m (classify key r m).1
    unfolding classify
    classify-Spares r m = elim (Bool-cases (str_eq r.code "80000000")) [
      | inl good ↦ rw good refl
      | inr bad ↦ elim (Bool-cases (str_eq r.code "80300007" || str_eq r.code "80100000")) [
        | inl gone ↦ rw (bad, gone) refl
        | inr there ↦ elim (Bool-cases (str_eq r.code "80200001" || str_eq r.code "80200003")) [
          | inl stale ↦ rw (bad, there, stale) (value_at-remove_other key j m ne)
          | inr fresh ↦ rw (bad, there, fresh) refl
        ]
      ]
    ]

    parsed-Spares : (m : Tokens) (x : Result SendResponse) → Spares m (on_parsed h c key m x).1
    unfolding on_parsed
    parsed-Spares m (err e) = refl
    parsed-Spares m (ok r) = classify-Spares r m

    response-Spares : (m : Tokens) (r : Response) → Spares m (on_response h c key m r).1
    unfolding on_response
    response-Spares m r = elim (Bool-cases (r.status_code == 429)) [
      | inl limited ↦ rw limited refl
      | inr free ↦ elim (Bool-cases (r.status_code == 200)) [
        | inl fine ↦ rw (free, fine) (parsed-Spares m (c.unmarshal r.body))
        | inr odd ↦ rw (free, odd) refl
      ]
    ]

    reply-Spares : (m : Tokens) (x : Response ⊎ String) → Spares m (on_reply h c key m x).1
    unfolding on_reply
    reply-Spares m (inl r) = response-Spares m r
    reply-Spares m (inr text) = refl

    post-Spares :
        (url token payload : String) (n : ℕ) (m : Tokens)
        → Spares m (post h c url key m token payload n).1
    unfolding post
    post-Spares url token payload n m = elim (Option-cases (h.url_error url)) [
      | inr (text, bad) ↦ rw (post, bad) refl
      | inl parses ↦ rw (post, parses) (reply-Spares m _)
    ]

    sent-Spares :
        (base_url : String) (cred : Credential) (req : SendRequest) (n : ℕ) (m : Tokens)
        (t : Result String)
        → Spares m (send_with_token h c base_url key cred req n m t).1
    unfolding send_with_token
    sent-Spares base_url cred req n m (err e) = refl
    sent-Spares base_url cred req n m (ok token) =
        elim (Result-cases (c.marshal (message_of c req))) [
          | inl (e, bad) ↦ rw (send_with_token, bad) refl
          | inr (payload, good) ↦ rw (send_with_token, good) (post-Spares _ token payload n m)
        ]

    token-Spares :
        (now : ℤ) (m : Tokens) (x : Response ⊎ String) → Spares m (on_token_reply h c key now m x).1
    unfolding on_token_reply keep_token
    token-Spares now m (inr text) = refl
    token-Spares now m (inl r) = elim (Bool-cases (r.status_code == 200)) [
      | inr odd ↦ rw odd refl
      | inl fine ↦ elim (Result-cases (c.unmarshal_token r.body)) [
        | inl (e, bad) ↦ rw (fine, keep_token, bad) refl
        | inr (t, good) ↦ rw (fine, keep_token, good) (value_at-put_other key j _ m ne)
      ]
    ]

    fetch-Spares :
        (token_url : String) (cred : Credential) (n : ℕ) (m : Tokens)
        → Spares m (fetch_token h c token_url key cred n m).1
    unfolding fetch_token
    fetch-Spares token_url cred n m = elim (Option-cases (h.url_error token_url)) [
      | inr (text, bad) ↦ rw (fetch_token, bad) refl
      | inl parses ↦ rw (fetch_token, parses) (token-Spares _ m _)
    ]

    access-Spares :
        (token_url : String) (cred : Credential) (n : ℕ) (m : Tokens)
        → Spares m (access_token_for h c token_url key cred n m).1
    unfolding access_token_for
    access-Spares token_url cred n m =
        elim (Option-cases (unexpired_token (c.now (n + n)) (value_at key m))) [
          | inr (token, live) ↦ rw (access_token_for, live) refl
          | inl stale ↦ rw (access_token_for, stale) (fetch-Spares token_url cred n m)
        ]

  credential-Spares :
      (token_url base_url : String) (credential j : Bytes) (req : SendRequest) (n : ℕ) (m : Tokens)
      (x : Result Credential)
      → c.sha256 credential ≢ j
      → value_at j (with_credential h c token_url base_url credential req n m x).1 ≡ value_at j m
  unfolding with_credential
  credential-Spares token_url base_url credential j req n m (err e) ne = refl
  credential-Spares token_url base_url credential j req n m (ok cred) ne =
      elim (Bool-cases (str_eq cred.app_id "" || str_eq cred.app_secret "")) [
        | inl empty ↦ rw (with_credential, empty) refl
        | inr given ↦
            rw (with_credential, given)
              (sent-Spares (c.sha256 credential) j ne base_url cred req n _ _
                ∙ access-Spares (c.sha256 credential) j ne token_url cred n m)
      ]

  -- A send leaves the token of any other credential as it was, whatever Huawei answers.
  pub hms_send_isolated :
      (token_url base_url : String) (credential j : Bytes) (req : SendRequest) (n : ℕ) (m : Tokens)
      → c.sha256 credential ≢ j
      → value_at j (hms_send h c token_url base_url credential req n m).1 ≡ value_at j m
  unfolding hms_send
  hms_send_isolated token_url base_url credential j req n m ne =
      credential-Spares token_url base_url credential j req n m (c.unmarshal_credential credential)
        ne
