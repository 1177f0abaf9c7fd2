-- ===== src/Store/Tenants/Active.antt =====
-- The credential that the worker reads after UpsertProviderCredential.
use slay_push.Store.Projects.{has_project}
use slay_push.Store.Monad.{advance}
use slay_push.Store.Devices.{mem_text}
use slay_push.Base.Text.{str_eq_refl}
use slay_push.Store.Success.{query_ok}
use slay_push.Errors.{ok}
use slay_push.Store.Credentials.{is_active_for}
use slay_push.Store.{World, ProviderCredential}
use slay_push.Base.{
  find_where-replaced, none, inr, inl, [], ◌∷◌, ◌==◌, refl, any_where, sym, Bool-cases, arith, ap,
  ==_refl, ℕ, true, some, false, Option, ◌≡◌, Bool, find_where,
}
use slay_push.Store.Tenants.{
  replace_credential, new_credential, upsert_provider_credential, credential_found, credential_at,
  UpsertProviderCredentialParams,
}

abbrev active_for : UpsertProviderCredentialParams → ProviderCredential → Bool
active_for p = is_active_for p.project_id p.provider_type p.environment

-- The credential that is active for the parameters, with their ciphertext and wrapped key.
abbrev pub IsActiveCredential : UpsertProviderCredentialParams → World → Type 0
IsActiveCredential p v =
    (c : ProviderCredential) × (find_where (active_for p) v.credentials ≡ some c)
    × (c.credential ≡ p.credential)
    × (c.wrapped_dek ≡ p.wrapped_dek)

module _ (p : UpsertProviderCredentialParams) where
  replaced_active :
      (now : ℕ) (c : ProviderCredential)
      → credential_at p c ≡ true
      → active_for p (replace_credential p now c) ≡ true
  unfolding credential_at replace_credential is_active_for
  replaced_active now c h = ground arith

  other_inactive : (c : ProviderCredential) → credential_at p c ≡ false → active_for p c ≡ false
  unfolding credential_at is_active_for
  other_inactive c h = ground arith

  new_active : (w : World) → active_for p (new_credential p w) ≡ true
  unfolding is_active_for new_credential
  new_active w =
      rw (==_refl p.project_id, str_eq_refl p.provider_type, str_eq_refl p.environment) refl

  found_active :
      (o : Option ProviderCredential) (w v : World) (c : ProviderCredential)
      → find_where (credential_at p) w.credentials ≡ o
      → credential_found o p w ≡ (ok c, v)
      → IsActiveCredential p v
  unfolding credential_found replace_credential new_credential find_where
  found_active (some old) w v c found h =
      let rows : v.credentials ≡ _ = ap (λ x. x.1.credentials) (sym h) in
      (
        replace_credential p (w.env.now w.tick) old,
        rw
            (
              rows,
              find_where-replaced (active_for p) (credential_at p)
                  (replace_credential p (w.env.now w.tick)) w.credentials
                  (replaced_active (w.env.now w.tick)) other_inactive,
              found,
            )
            refl,
        refl,
        refl,
      )
  found_active none w v c found h =
      elim (Bool-cases (any_where (λ c. c.id == w.env.gen_random_uuid w.tick) w.credentials)) [
        | inl taken ↦ let k = rw (credential_found, taken) at h in cc
        | inr free ↦ elim (Bool-cases (has_project p.project_id w)) [
          | inr gone ↦ let k = rw (credential_found, free, gone) at h in cc
          | inl there ↦
              let k = rw (credential_found, free, there) at h in
              let rows : v.credentials ≡ new_credential p w ∷ w.credentials =
                ap (λ x. x.1.credentials) (sym k) in
              (new_credential p w, rw (rows, find_where, new_active w) refl, refl, refl)
        ]
      ]

  -- After an upsert that returned a row, the active credential of the project, provider and
  -- environment is the one that was given.
  pub upsert-IsActiveCredential :
      (w v : World) (c : ProviderCredential)
      → upsert_provider_credential p w ≡ (ok c, v)
      → IsActiveCredential p v
  unfolding upsert_provider_credential
  upsert-IsActiveCredential w v c h =
      let k = query_ok _ w c v h in
      elim (Bool-cases (mem_text p.provider_type ("expo" ∷ "fcm" ∷ "apns" ∷ "hms" ∷ []))) [
        | inl kind ↦ found_active _ (advance w) v c refl (rw kind at k)
        | inr odd ↦ let e = rw odd at k in cc
      ]

  found_env :
      (o : Option ProviderCredential) (w v : World) (c : ProviderCredential)
      → credential_found o p w ≡ (ok c, v)
      → v.env ≡ w.env
  unfolding credential_found
  found_env (some old) w v c h = ap (λ x. x.1.env) (sym h)
  found_env none w v c h =
      elim (Bool-cases (any_where (λ c. c.id == w.env.gen_random_uuid w.tick) w.credentials)) [
        | inl taken ↦ let k = rw (credential_found, taken) at h in cc
        | inr free ↦ elim (Bool-cases (has_project p.project_id w)) [
          | inr gone ↦ let k = rw (credential_found, free, gone) at h in cc
          | inl there ↦ let k = rw (credential_found, free, there) at h in ap (λ x. x.1.env) (sym k)
        ]
      ]

  pub upsert-env :
      (w v : World) (c : ProviderCredential)
      → upsert_provider_credential p w ≡ (ok c, v)
      → v.env ≡ w.env
  unfolding upsert_provider_credential
  upsert-env w v c h =
      let k = query_ok _ w c v h in
      elim (Bool-cases (mem_text p.provider_type ("expo" ∷ "fcm" ∷ "apns" ∷ "hms" ∷ []))) [
        | inl kind ↦ found_env _ (advance w) v c (rw kind at k)
        | inr odd ↦ let e = rw odd at k in cc
      ]
