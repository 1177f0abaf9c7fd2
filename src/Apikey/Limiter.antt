-- ===== src/Apikey/Limiter.antt =====
-- internal/apikey/ratelimit.go. redis_rate's replies are given, for a key and a limit per second.
use slay_push.Base.Text.{◌<>◌}
use slay_push.Dispatch.Limiter.{allows}
use slay_push.Errors.{ok}
use slay_push.Base.Int.{pos, ℤ}
use slay_push.Store.Monad.{pure, advance, asks, ◌>>=◌, M}
use slay_push.Store.{LimitReply}
use slay_push.Base.{true, false, not, if◌then◌else◌, Bool, ◌*◌, ℕ, String}

pub record RateLimiter : Type 0 where
  pub reply : String → ℕ → ℕ → LimitReply
  pub per_key : ℕ
  pub per_project : ℕ

unfoldable pub new_rate_limiter : (String → ℕ → ℕ → LimitReply) → ℕ → RateLimiter
new_rate_limiter reply rps = record { reply = reply; per_key = rps; per_project = rps * 5 }

unfoldable pub check : RateLimiter → String → ℕ → M (Bool × ℤ)
check r key limit w = (ok (allows (r.reply key limit w.tick)), advance w)

-- `Allow`: the key's ceiling first; the project's is asked only within it.
unfoldable pub allow : RateLimiter → ℕ → ℕ → M (Bool × ℤ)
allow r api_key_id project_id = do
  uuid_text ← asks (λ w. w.env.uuid_text)
  by_key ← check r ("apikey:" <> uuid_text api_key_id) r.per_key
  if not by_key.0 then pure (false, by_key.1) else do
    by_project ← check r ("project:" <> uuid_text project_id) r.per_project
    if not by_project.0 then pure (false, by_project.1) else pure (true, pos 0)
