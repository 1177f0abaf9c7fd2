-- ===== src/Dispatch/Limiter.antt =====
-- internal/dispatch/outbound_limiter.go. The limiter is redis_rate's: its replies are given. The
-- limit that it enforces is fixed when it is built, and is no part of a call.
use slay_push.Base.Text.{◌<>◌}
use slay_push.Errors.{Result, ok}
use slay_push.Base.Int.{pos, ℤ}
use slay_push.Base.{ap, ◌≡◌, String, ℕ, some, none, false, ◌==◌, if◌then◌else◌, true, Bool}
use slay_push.Store.Monad.{advance, M}
use slay_push.Store.{World, limit_result, limit_error, LimitReply}

unfoldable pub allows : LimitReply → Bool × ℤ
allows (limit_error s) = (true, pos 0)
allows (limit_result allowed retry_after) =
    if allowed == 0 then (false, retry_after) else (true, pos 0)

abbrev pub limit_key : (ℕ → String) → ℕ → String → String
limit_key uuid_text project_id provider_type =
    "outbound:" <> provider_type <> ":" <> uuid_text project_id

-- `Allow`, where the process has a limiter; `(true, 0)` where it has none.
unfoldable pub limiter_allow : ℕ → String → M (Bool × ℤ)
unfolding allows
limiter_allow project_id provider_type w = elim w.env.outbound_limiter [
  | none ↦ (ok (true, pos 0), w)
  | some reply ↦
      (ok (allows (reply (limit_key w.env.uuid_text project_id provider_type) w.tick)), advance w)
]

-- A process with no limiter allows every push.
pub limiter_allow-unset :
    (project_id : ℕ) (provider_type : String) (w : World)
    → w.env.outbound_limiter ≡ none
    → limiter_allow project_id provider_type w ≡ (ok (true, pos 0), w)
unfolding limiter_allow
limiter_allow-unset project_id provider_type w unset =
    ap {B = Result (Bool × ℤ) × World}
      (λ o. elim o as (λ _. Result (Bool × ℤ) × World) [
        | none ↦ (ok (true, pos 0), w)
        | some reply ↦ (
          ok (allows (reply (limit_key w.env.uuid_text project_id provider_type) w.tick)),
          advance w,
        )
      ])
      unset
