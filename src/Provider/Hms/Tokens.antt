-- ===== src/Provider/Hms/Tokens.antt =====
-- The cache of access tokens and what Send does with it.
use mathlib.Core.Path.{subst}
use slay_push.Base.Int.{ltb_ℤ}
use slay_push.Errors.{Result-cases, ok}
use slay_push.Crypto.{Bytes}
use slay_push.Base.{
  ==_iff, refl, ◌==◌, true, suc, Bool-cases, inr, inl, ◌+◌, ◌⊎◌, Option-cases, some, ◌≡◌, ℕ, String,
}
use slay_push.Provider.Hms.{
  TokenResponse, token_request, value_at, unexpired_token, keep_token, on_token_reply, fetch_token,
  access_token_for, CachedToken, Tokens, Credential, Codec,
}
use slay_push.Provider.Http.{Response, Http}

module _ (h : Http) (c : Codec) where
  -- The token is a cached one that has not expired, or one that Huawei has just answered with.
  pub data IsGranted (token_url : String) (key : Bytes) (cred : Credential) (n : ℕ) (m : Tokens)
      : String → Type 0 where
    cached :
        {t : CachedToken}
        → value_at key m ≡ some t
        → ltb_ℤ (c.now (n + n)) t.expires_at ≡ true
        → IsGranted token_url key cred n m t.access_token
    exchanged :
        {r : Response} {t : TokenResponse}
        → h.round_trip (token_request h c token_url cred) (n + n) ≡ inl r
        → r.status_code ≡ 200
        → c.unmarshal_token r.body ≡ ok t
        → IsGranted token_url key cred n m t.access_token

  module _ (token_url : String) (key : Bytes) (cred : Credential) (n : ℕ) (m : Tokens) where
    reply-IsGranted :
        (x : Response ⊎ String) (token : String)
        → h.round_trip (token_request h c token_url cred) (n + n) ≡ x
        → (on_token_reply h c key (c.now (suc (n + n))) m x).0 ≡ ok token
        → IsGranted token_url key cred n m token
    unfolding on_token_reply keep_token
    reply-IsGranted (inr text) token answered e = cc
    reply-IsGranted (inl r) token answered e = elim (Bool-cases (r.status_code == 200)) [
      | inr odd ↦ let k = rw (on_token_reply, odd) at e in cc
      | inl fine ↦ elim (Result-cases (c.unmarshal_token r.body)) [
        | inl (f, bad) ↦ let k = rw (on_token_reply, fine, keep_token, bad) at e in cc
        | inr (t, good) ↦
            let k = rw (on_token_reply, fine, keep_token, good) at e in
            let same : t.access_token ≡ token = cc in
            subst (IsGranted token_url key cred n m) same
              (exchanged answered ((==_iff r.status_code 200).0 fine) good)
      ]
    ]

    fetch-IsGranted :
        (token : String)
        → (fetch_token h c token_url key cred n m).0 ≡ ok token
        → IsGranted token_url key cred n m token
    unfolding fetch_token
    fetch-IsGranted token e = elim (Option-cases (h.url_error token_url)) [
      | inr (text, bad) ↦ let k = rw (fetch_token, bad) at e in cc
      | inl parses ↦ reply-IsGranted _ token refl (rw (fetch_token, parses) at e)
    ]

    -- An access token that a send uses is a cached one that has not expired, or one that Huawei has
    -- just answered with.
    pub access_token_for-IsGranted :
        (token : String)
        → (access_token_for h c token_url key cred n m).0 ≡ ok token
        → IsGranted token_url key cred n m token
    unfolding access_token_for unexpired_token
    access_token_for-IsGranted token e = elim (Option-cases (value_at key m)) [
      | inl none_there ↦
          fetch-IsGranted token (rw (access_token_for, none_there, unexpired_token) at e)
      | inr (t, there) ↦ elim (Bool-cases (ltb_ℤ (c.now (n + n)) t.expires_at)) [
        | inr old ↦ fetch-IsGranted token (rw (access_token_for, there, unexpired_token, old) at e)
        | inl live ↦
            let k = rw (access_token_for, there, unexpired_token, live) at e in
            let same : t.access_token ≡ token = cc in
            subst (IsGranted token_url key cred n m) same (cached there live)
      ]
    ]
