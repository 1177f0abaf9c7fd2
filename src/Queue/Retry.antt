-- ===== src/Queue/Retry.antt =====
-- What RetryDelayFunc and IsFailure make of a throttled error, however it is wrapped.
use slay_push.Base.{true, false, ◌≡◌, arith, some, if◌then◌else◌}
use slay_push.Base.Int.{ℤ, pos, ltb_ℤ}
use slay_push.Errors.{Err, as_throttled}
use slay_push.Queue.{retry_delay_func, is_failure}

-- An error that asynq counts against the retry budget is never delayed by a provider's hint, and a
-- throttled error under any wrapping is delayed by its own hint when that is positive.
pub retry_policy :
    (e : Err) (default : ℤ)
    → (is_failure e ≡ true → retry_delay_func e default ≡ default)
      × ((d : ℤ)
          → as_throttled e ≡ some d
          → (is_failure e ≡ false)
            × (retry_delay_func e default ≡ (if ltb_ℤ (pos 0) d then d else default)))
unfolding retry_delay_func is_failure
retry_policy e default = (ground arith, λ d h. ground arith)
