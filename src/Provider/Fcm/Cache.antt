-- ===== src/Provider/Fcm/Cache.antt =====
-- The cache of token sources and what Send does with it.
use slay_push.Provider.Cache.{same_bytes→≡, same_bytes}
use slay_push.Base.Text.{str_eq}
use slay_push.Provider.{SendRequest, Status}
use slay_push.Errors.{Result-cases, ok, err, Result}
use slay_push.Base.{
  if◌then◌else◌, ℕ, String, refl, ap, ◌∙◌, sym, inl, Bool-cases, ◌∷◌, inr, some, [], Option-cases,
  ◌≡◌, ◌≢◌, List,
}
use slay_push.Crypto.{Bytes}
use slay_push.Provider.Fcm.{
  with_token, with_project, with_source, fcm_send, set_source, Codec, Cached, token_source_for,
  cached_at,
}
use slay_push.Provider.Http.{refuse, Http}

cached_at-set_source :
    {S : Type 0} (k : Bytes) (ts us : S) (m : List (Cached S))
    → cached_at k m ≡ some us
    → cached_at k (set_source k ts m) ≡ some ts
unfolding cached_at set_source
cached_at-set_source k ts us [] h = cc
cached_at-set_source k ts us (e ∷ m) h = elim (Bool-cases (same_bytes e.key k)) [
  | inl hit ↦ rw (hit, hit) refl
  | inr miss ↦ rw (miss, miss) (cached_at-set_source k ts us m (rw (cached_at, miss) at h))
]

cached_at-set_source_other :
    {S : Type 0} (k j : Bytes) (ts : S) (m : List (Cached S))
    → k ≢ j
    → cached_at j (set_source k ts m) ≡ cached_at j m
unfolding cached_at set_source
cached_at-set_source_other k j ts [] ne = refl
cached_at-set_source_other k j ts (e ∷ m) ne = elim (Bool-cases (same_bytes e.key k)) [
  | inr miss ↦ rw miss (
      ap (λ o. if same_bytes e.key j then some e.source else o)
        (cached_at-set_source_other k j ts m ne))
  | inl hit ↦ elim (Bool-cases (same_bytes e.key j)) [
    | inl both ↦ absurd (ne (sym (same_bytes→≡ e.key k hit) ∙ same_bytes→≡ e.key j both))
    | inr miss ↦ rw (hit, miss) refl
  ]
]

module _ {S : Type 0} (h : Http) (c : Codec S) (credential : Bytes) where
  abbrev Spares : Bytes → List (Cached S) → List (Cached S) → Type 0
  Spares j m m' = cached_at j m' ≡ cached_at j m

  source-Spares :
      (j : Bytes) (m : List (Cached S))
      → c.sha256 credential ≢ j
      → Spares j m (token_source_for h c credential m).1
  unfolding token_source_for cached_at
  source-Spares j m ne = elim (Option-cases (cached_at (c.sha256 credential) m)) [
    | inr (ts, hit) ↦ rw (hit, token_source_for) refl
    | inl miss ↦ elim (Result-cases (c.jwt_config credential)) [
      | inl (e, bad) ↦ rw (miss, token_source_for, bad) refl
      | inr (ts, good) ↦ elim (Bool-cases (same_bytes (c.sha256 credential) j)) [
        | inl same ↦ absurd (ne (same_bytes→≡ _ _ same))
        | inr other ↦ rw (miss, token_source_for, good, other) refl
      ]
    ]
  ]

  same_source :
      (m m' : List (Cached S))
      → cached_at (c.sha256 credential) m ≡ cached_at (c.sha256 credential) m'
      → (token_source_for h c credential m).0 ≡ (token_source_for h c credential m').0
  unfolding token_source_for
  same_source m m' e = elim (Option-cases (cached_at (c.sha256 credential) m)) [
    | inr (ts, hit) ↦ rw (sym e, hit, token_source_for) refl
    | inl miss ↦ elim (Result-cases (c.jwt_config credential)) [
      | inl (_, bad) ↦ rw (sym e, miss, token_source_for, bad) refl
      | inr (ts, good) ↦ rw (sym e, miss, token_source_for, good) refl
    ]
  ]

  module _ (base_url : String) (req : SendRequest) (n : ℕ) where
    with_source-Spares :
        (j : Bytes) (project_id : String) (m : List (Cached S)) (x : Result S × List (Cached S))
        → c.sha256 credential ≢ j
        → Spares j m x.1
        → Spares j m (with_source h c base_url project_id req n (c.sha256 credential) x).1
    unfolding with_source
    with_source-Spares j project_id m (err e, u) ne k = k
    with_source-Spares j project_id m (ok ts, u) ne k =
        cached_at-set_source_other (c.sha256 credential) j _ u ne ∙ k

    same_outcome :
        (project_id : String) (key : Bytes) (x y : Result S × List (Cached S))
        → x.0 ≡ y.0
        → (with_source h c base_url project_id req n key x).0
          ≡ (with_source h c base_url project_id req n key y).0
    unfolding with_source
    same_outcome project_id key (err e, u) (err d, v) k =
        let same : e ≡ d = cc in ap (refuse Status.unknown) same
    same_outcome project_id key (err e, u) (ok ts, v) k = cc
    same_outcome project_id key (ok ts, u) (err e, v) k = cc
    same_outcome project_id key (ok ts, u) (ok us, v) k =
        let same : ts ≡ us = cc in
        ap (λ z. with_token h c base_url project_id req n (c.token z n).0) same

    send-Spares :
        (j : Bytes) (m : List (Cached S))
        → c.sha256 credential ≢ j
        → Spares j m (fcm_send h c base_url credential req n m).1
    unfolding fcm_send with_project
    send-Spares j m ne = elim (Result-cases (c.unmarshal_project_id credential)) [
      | inl (e, bad) ↦ rw (bad, fcm_send) refl
      | inr (project_id, good) ↦ elim (Bool-cases (str_eq project_id "")) [
        | inl empty ↦ rw (good, fcm_send, empty) refl
        | inr given ↦
            rw (good, fcm_send, given)
              (with_source-Spares j project_id m _ ne (source-Spares j m ne))
      ]
    ]

    -- Two caches with the same token source under the credential's hash, or with none, give a send
    -- the same outcome; and the send leaves the token source under every other hash as it was,
    -- whatever it does to its own.
    pub fcm_send_isolated :
        (m m' : List (Cached S))
        → cached_at (c.sha256 credential) m ≡ cached_at (c.sha256 credential) m'
        → ((fcm_send h c base_url credential req n m).0
            ≡ (fcm_send h c base_url credential req n m').0)
          × ((j : Bytes)
              → c.sha256 credential ≢ j
              → cached_at j (fcm_send h c base_url credential req n m).1 ≡ cached_at j m)
    unfolding fcm_send with_project
    fcm_send_isolated m m' e = elim (Result-cases (c.unmarshal_project_id credential)) [
      | inl (_, bad) ↦ (rw (bad, fcm_send) refl, λ j ne. send-Spares j m ne)
      | inr (project_id, good) ↦ elim (Bool-cases (str_eq project_id "")) [
        | inl empty ↦ (rw (good, fcm_send, empty) refl, λ j ne. send-Spares j m ne)
        | inr given ↦ (
          rw (good, fcm_send, given)
              (same_outcome project_id (c.sha256 credential) _ _ (same_source m m' e)),
          λ j ne. send-Spares j m ne,
        )
      ]
    ]
