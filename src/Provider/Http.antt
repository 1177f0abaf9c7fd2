-- ===== src/Provider/Http.antt =====
-- What the HTTP adapters (internal/provider/expo, fcm, hms) share. net/http, encoding/json, fmt's
-- numbers and strconv are parameters.
use slay_push.Base.Text.{str_eq}
use slay_push.Errors.{other, Err}
use slay_push.Base.Int.{scale, wrap64, pos, ℤ}
use slay_push.Provider.{Status, SendResult}
use slay_push.Base.{◌⊎◌, some, none, if◌then◌else◌, List, ℕ, String, Option}

pub record Header : Type 0 where
  pub name : String
  pub value : String

pub record Request : Type 0 where
  pub url : String
  pub headers : List Header
  pub body : String

-- The parts of a response that the adapters read; the body is what io.ReadAll returns, its error
-- dropped.
pub record Response : Type 0 where
  pub status_code : ℕ
  pub retry_after : String
  pub body : String

pub record Http : Type 0 where
  -- http.NewRequestWithContext fails on a URL that does not parse.
  pub url_error : String → Option String
  -- The n-th round trip: a response, or the text of the transport's error.
  pub round_trip : Request → ℕ → Response ⊎ String
  -- strconv.Atoi; fmt's %d and %q.
  pub atoi : String → Option ℤ
  pub itoa : ℕ → String
  pub quote : String → String

-- time.Second.
abbrev pub second : ℕ
second = 1000000000

seconds_of : Option ℤ → ℤ
seconds_of none = pos 0
seconds_of (some secs) = wrap64 (scale second secs)

-- `time.Duration(secs) * time.Second` wraps around in an int64.
unfoldable pub retry_after : Http → Response → ℤ
unfolding seconds_of
retry_after h r = if str_eq r.retry_after "" then pos 0 else seconds_of (h.atoi r.retry_after)

-- A result with no fields set but its status: `provider.SendResult{Status: s}`.
abbrev pub bare : Status → SendResult
bare s = record { provider_message_id = ""; status = s; retry_after = pos 0; failure = none }

abbrev pub failing : Status → ℤ → String → SendResult
failing s after text = record {
  provider_message_id = "";
  status = s;
  retry_after = after;
  failure = some (other text);
}

abbrev pub sent_as : String → SendResult
sent_as id = record {
  provider_message_id = id;
  status = Status.sent;
  retry_after = pos 0;
  failure = none;
}

-- What Send returns: a result and an error.
abbrev pub Outcome : Type 0
Outcome = SendResult × Option Err

abbrev pub refuse : Status → Err → Outcome
refuse s e = (bare s, some e)

abbrev pub report : SendResult → Outcome
report r = (r, none)
