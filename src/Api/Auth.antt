-- ===== src/Api/Auth.antt =====
-- internal/transport/http/middleware.go: bearer tokens and requireScope.
pub mod Sound
pub mod Revoked
use slay_push.Base.Text.{str_eq}
use slay_push.Store.ApiKeys.{get_active_api_key_by_hash, touch_api_key_last_used}
use slay_push.Apikey.Limiter.{allow}
use slay_push.Errors.{ok, is_no_rows, err, Result}
use slay_push.Base.Strings.{trim_space, after_prefix}
use slay_push.Apikey.{parse_scope, hash, satisfies, Scope}
use slay_push.Store.Monad.{◌>>◌, pure, attempt, ◌>>=◌, M}
use slay_push.Store.{ApiKey}
use slay_push.Base.Int.{pos, negsuc, ℤ}
use slay_push.Api.{error, write_error, Reply, Server}
use slay_push.Base.{not, ltb, if◌then◌else◌, ◌/◌, some, false, ◌+◌, none, Bool, ℕ, String, Option}

-- `bearerToken`, on the Authorization header.
unfoldable pub bearer_token : String → Option String
bearer_token header = elim (after_prefix header "Bearer ") [
  | none ↦ none
  | some rest ↦ let token = trim_space rest in if str_eq token "" then none else some token
]

-- The seconds, at least 1.
unfoldable pub wait_seconds : ℤ → ℕ
wait_seconds (negsuc n) = 1
wait_seconds (pos s) = if ltb s 1 then 1 else s

-- The update runs apart from the request; it changes last_used_at alone, and its error is logged.
unfoldable pub touch : ℕ → M (Unit {0})
touch id = do _ ← attempt (touch_api_key_last_used id); pure tt

abbrev pub too_many : Server → ℤ → Reply
too_many srv retry_after = record {
  status = 429;
  retry_after = some (srv.itoa (wait_seconds (srv.ceil_seconds retry_after)));
  body = error "rate limit exceeded";
}

unfoldable pub within_limits : Server → ApiKey → (ℕ → M Reply) → M Reply
within_limits srv k next = do
  verdict ← allow srv.limiter k.id k.project_id
  if verdict.0 then (do _ ← touch k.id; next k.project_id) else pure (too_many srv verdict.1)

unfoldable pub scope_grants : Option Scope → Scope → Bool
scope_grants none required = false
scope_grants (some s) required = satisfies s required

unfoldable pub with_key : Server → Scope → (ℕ → M Reply) → Result ApiKey → M Reply
with_key srv min_scope next (err e) =
    if is_no_rows e
    then pure (write_error 401 "invalid or revoked API key")
    else pure (write_error 500 "failed to resolve API key")
with_key srv min_scope next (ok k) =
    if scope_grants (parse_scope k.scope) min_scope
    then within_limits srv k next
    else pure (write_error 403 "API key does not have the required scope")

-- `requireScope`: the handler behind it is given the key's project.
unfoldable pub require_scope : Server → Scope → (ℕ → M Reply) → String → M Reply
require_scope srv min_scope next header = elim (bearer_token header) [
  | none ↦ pure (write_error 401 "missing or malformed Authorization header")
  | some raw ↦ do
    found ← attempt (get_active_api_key_by_hash (hash srv.codec raw))
    with_key srv min_scope next found
]
