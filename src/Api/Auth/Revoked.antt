-- ===== src/Api/Auth/Revoked.antt =====
-- A revoked key at the API.
use mathlib.Core.Path.{subst}
use slay_push.Store.Success.{query_ok}
use slay_push.Api.Auth.Sound.{require_scope_sound, IsRefused}
use slay_push.Errors.{ok}
use slay_push.Api.Auth.{require_scope, bearer_token}
use slay_push.Store.Monad.{advance, M}
use slay_push.Apikey.{hash, Scope}
use slay_push.Api.{Reply, Server}
use slay_push.Store.ApiKeys.{revoke_api_key, key_of_project, revoked, is_live_key, has_key_hash}
use slay_push.Store.{World, ApiKey}
use slay_push.Base.{
  ap, suc, some, refl, [], inr, arith, inl, Bool-cases, ◌∷◌, none, All, List, true, ◌≡◌,
  update_where, find_where, ℕ, String,
}

-- Every key with this hash is the key that is revoked.
abbrev pub IsKeyOf : String → ℕ → ℕ → ApiKey → Type 0
IsKeyOf h id project_id k = has_key_hash h k ≡ true → key_of_project id project_id k ≡ true

module _ (h : String) (id project_id at : ℕ) where
  none-live :
      (u : World) (ks : List ApiKey)
      → All (IsKeyOf h id project_id) ks
      → find_where (is_live_key h u) (update_where (key_of_project id project_id) (revoked at) ks)
        ≡ none
  unfolding find_where update_where is_live_key revoked
  none-live u [] a = refl
  none-live u (k ∷ ks) a = elim (Bool-cases (key_of_project id project_id k)) [
    | inl hit ↦ ground (arith, none-live u ks a.1)
    | inr miss ↦ ground (arith, a.0, none-live u ks a.1)
  ]

-- Once RevokeApiKey has returned without an error, every request with the key's token is refused,
-- and reaches no handler.
pub revoke-refuses :
    (srv : Server) (required : Scope) (next : ℕ → M Reply) (header raw : String) (id project_id : ℕ)
    (w v : World)
    → bearer_token header ≡ some raw
    → All (IsKeyOf (hash srv.codec raw) id project_id) w.api_keys
    → revoke_api_key id project_id w ≡ (ok tt, v)
    → IsRefused v (require_scope srv required next header v)
unfolding revoke_api_key
revoke-refuses srv required next header raw id project_id w v b own done =
    let h = hash srv.codec raw in
    let at = w.env.now (suc w.tick) in
    let after = ap (λ x. x.1) (query_ok _ w tt v done) in
    let gone =
      subst (λ u. find_where (is_live_key h (advance u)) u.api_keys ≡ none) after
        (none-live h id project_id at _ w.api_keys own) in
    elim (require_scope_sound srv required next header v) [
      | inr refused ↦ refused
      | inl admitted ↦ let bears = admitted.bears in let live = admitted.live in cc
    ]
