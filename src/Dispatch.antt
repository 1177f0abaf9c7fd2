-- ===== src/Dispatch.antt =====
-- internal/dispatch: the notification pipeline. `Handlers` is the world that each handler works on.
pub mod Limiter
pub mod Create
pub mod Fanout
pub mod Send
pub mod History
pub mod Reaches
pub mod Terminal
pub mod Retry
pub mod Asynq
use slay_push.Store.Recipients.{mark_recipient_failed}
use slay_push.Base.Text.{str_eq}
use slay_push.Store.Monad.{pure, attempt, ◌>>=◌, M}
use slay_push.Store.{RecipientStatus}
use slay_push.Base.{leb, some, none, true, if◌then◌else◌, false, ℕ, String, Option, Bool}

unfoldable pub is_terminal : RecipientStatus → Bool
is_terminal RecipientStatus.queued = false
is_terminal RecipientStatus.sending = false
is_terminal RecipientStatus.sent = true
is_terminal RecipientStatus.delivered = true
is_terminal RecipientStatus.failed = true

-- `postgres.TextFrom`: an empty text is stored as null.
unfoldable pub text_from : String → Option String
text_from s = if str_eq s "" then none else some s

-- A failure to record the failure is only logged.
unfoldable pub fail_recipient : ℕ → String → String → M (Unit {0})
unfolding text_from
fail_recipient id code text = do
  _ ← attempt (mark_recipient_failed id (text_from code) (text_from text))
  pure tt

-- What asynq puts in the context: the retries so far and the most there may be, where it does.
pub record Attempt : Type 0 where
  pub retry_count : Option ℕ
  pub max_retry : Option ℕ

last_of : Option ℕ → Option ℕ → Bool
last_of (some retry_count) (some max_retry) = leb max_retry retry_count
last_of (some retry_count) none = false
last_of none _ = false

unfoldable pub is_last_attempt : Attempt → Bool
unfolding last_of
is_last_attempt a = last_of a.retry_count a.max_retry
