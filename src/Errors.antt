-- ===== src/Errors.antt =====
-- Go error values: the sentinels and wrappers that the program makes or tests, and the two tests
-- (errors.Is, errors.As) that it makes of them. ThrottledError is internal/queue/queue.go's.
use slay_push.Base.{String, Bool, true, false, Option, none, some, ◌≡◌, refl, ◌⊎◌, inl, inr}
use slay_push.Base.Int.{ℤ}
use slay_push.Base.Text.{◌<>◌}

-- `fmt.Errorf("text: %w", e)` is `wrapped`. `skip_retry` and `skip_retry_with` are
-- `fmt.Errorf("%w: text", asynq.SkipRetry)` and `fmt.Errorf("%w: text: %w", asynq.SkipRetry, e)`.
-- `other` is an error that the program only passes on, by its text.
pub data Err : Type 0 where
  other : String → Err
  no_rows : Err
  -- A constraint of the schema that a statement would break.
  violation : String → Err
  task_id_conflict : Err
  empty_targets : Err
  no_targets : Err
  wrapped : String → Err → Err
  skip_retry : String → Err
  skip_retry_with : String → Err → Err
  throttled : ℤ → Err → Err

-- The texts of the sentinels that libraries declare.
pub record Texts : Type 0 where
  pub no_rows_text : String
  pub violation_text : String → String
  pub task_id_conflict_text : String
  pub skip_retry_text : String

-- `err.Error()`.
pub message : Texts → Err → String
message t (other s) = s
message t no_rows = t.no_rows_text
message t (violation s) = t.violation_text s
message t task_id_conflict = t.task_id_conflict_text
message t empty_targets = "dispatch: request specifies no targets"
message t no_targets = "targeting: no targets specified"
message t (wrapped s e) = s <> ": " <> message t e
message t (skip_retry s) = t.skip_retry_text <> ": " <> s
message t (skip_retry_with s e) = t.skip_retry_text <> ": " <> s <> ": " <> message t e
message t (throttled d e) = message t e

-- `errors.Is(err, pgx.ErrNoRows)`.
unfoldable pub is_no_rows : Err → Bool
is_no_rows no_rows = true
is_no_rows (wrapped s e) = is_no_rows e
is_no_rows (skip_retry_with s e) = is_no_rows e
is_no_rows (throttled d e) = is_no_rows e
is_no_rows _ = false

-- `errors.Is(err, asynq.ErrTaskIDConflict)`.
unfoldable pub is_task_id_conflict : Err → Bool
is_task_id_conflict task_id_conflict = true
is_task_id_conflict (wrapped s e) = is_task_id_conflict e
is_task_id_conflict (skip_retry_with s e) = is_task_id_conflict e
is_task_id_conflict (throttled d e) = is_task_id_conflict e
is_task_id_conflict _ = false

-- `errors.Is(err, ErrEmptyTargets)`.
unfoldable pub is_empty_targets : Err → Bool
is_empty_targets empty_targets = true
is_empty_targets (wrapped s e) = is_empty_targets e
is_empty_targets (skip_retry_with s e) = is_empty_targets e
is_empty_targets (throttled d e) = is_empty_targets e
is_empty_targets _ = false

-- `errors.Is(err, asynq.SkipRetry)`, which asynq asks before it schedules a retry.
unfoldable pub is_skip_retry : Err → Bool
is_skip_retry (skip_retry s) = true
is_skip_retry (skip_retry_with s e) = true
is_skip_retry (wrapped s e) = is_skip_retry e
is_skip_retry (throttled d e) = is_skip_retry e
is_skip_retry _ = false

-- `errors.As(err, &te)` for a *ThrottledError: the RetryAfter of the outermost one.
unfoldable pub as_throttled : Err → Option ℤ
as_throttled (throttled d e) = some d
as_throttled (wrapped s e) = as_throttled e
as_throttled (skip_retry_with s e) = as_throttled e
as_throttled _ = none

pub data Result {ℓ} (A : Type ℓ) : Type ℓ where
  ok : A → Result A
  err : Err → Result A

-- To split on a result and keep the equation.
pub Result-cases {ℓ} :
    {A : Type ℓ} (r : Result A) → ((e : Err) × (r ≡ err e)) ⊎ ((a : A) × (r ≡ ok a))
Result-cases (ok a) = inr (a, refl)
Result-cases (err e) = inl (e, refl)

-- `firstNonNilErr` of two errors and a default.
unfoldable pub first_non_nil : Option Err → Option Err → Err → Err
first_non_nil (some e) _ d = e
first_non_nil none (some e) d = e
first_non_nil none none d = d

-- The error of a result whose value is dropped.
abbrev pub error_of : {A : Type 0} → Result A → Option Err
error_of (ok a) = none
error_of (err e) = some e
