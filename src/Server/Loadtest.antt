-- ===== src/Server/Loadtest.antt =====
-- cmd/server/loadtest.go: the load test, over a client whose replies are given. The goroutines of a
-- phase are known by the order in which they record their outcomes; times are in milliseconds.
pub mod Polls
pub mod Percentiles
use slay_push.Base.Text.{◌<>◌}
use slay_push.Base.Take.{take}
use slay_push.Errors.{wrapped, other, ok, err, Result, Err}
use slay_push.Base.{
  ltb, ◌/◌, ◌-◌, zero, some, ◌+◌, ◌*◌, suc, none, length, leb, false, ◌==◌, ◌++◌, ◌∷◌,
  if◌then◌else◌, Option, ℕ, [], String, List, Bool,
}

pub record LatencyResult : Type 0 where
  pub latencies : List ℕ
  pub errors : ℕ
  pub sample_errs : List String

-- `newLatencyResult`
abbrev pub new_latency_result : LatencyResult
new_latency_result = record { latencies = []; errors = 0; sample_errs = [] }

-- `record`, of a duration and an error, where there is one.
unfoldable pub record_latency : ℕ → Option String → LatencyResult → LatencyResult
record_latency d none r = record r { latencies = r.latencies ++ d ∷ [] }
record_latency d (some e) r = record r {
  errors = r.errors + 1;
  sample_errs = if ltb (length r.sample_errs) 5 then r.sample_errs ++ e ∷ [] else r.sample_errs;
}

pub record HttpReply : Type 0 where
  pub status_code : ℕ
  pub body : String

-- json.Unmarshal of the two bodies that are read; a count that is missing is 0.
pub record StatusBody : Type 0 where
  pub total_recipients : ℕ
  pub counts : String → ℕ

pub record Client : Type 0 where
  pub itoa : ℕ → String
  pub decode_id : String → Result String
  pub decode_status : String → Result StatusBody

abbrev status_error : Client → HttpReply → Err
status_error c r = other ("status " <> c.itoa r.status_code <> ": " <> r.body)

abbrev decoded : {A : Type 0} → Result A → Result A
decoded (ok a) = ok a
decoded (err e) = err (wrapped "decode response" e)

-- `postAndDecodeID`, of what the HTTP client makes of the request.
unfoldable pub post_and_decode_id : Client → Result HttpReply → Result String
post_and_decode_id c (err e) = err e
post_and_decode_id c (ok r) =
    if leb 300 r.status_code then err (status_error c r) else decoded (c.decode_id r.body)

unfoldable pub is_done : StatusBody → Bool
is_done b =
    if b.total_recipients == 0
    then false
    else leb b.total_recipients (b.counts "sent" + b.counts "delivered" + b.counts "failed")

abbrev done_of : Result StatusBody → Result Bool
done_of (ok b) = ok (is_done b)
done_of (err e) = err (wrapped "decode response" e)

-- `notificationDone`
unfoldable pub notification_done : Client → Result HttpReply → Result Bool
notification_done c (err e) = err e
notification_done c (ok r) =
    if leb 300 r.status_code then err (status_error c r) else done_of (c.decode_status r.body)

pub record NotificationRef : Type 0 where
  pub id : String
  pub created_at : ℕ
  pub create_err : Option Err

pub data PollOutcome : Type 0 where
  completed : ℕ → PollOutcome
  timed_out : PollOutcome

abbrev says_done : Result Bool → Bool
says_done (ok b) = b
says_done (err e) = false

-- The loop of `pollCompletion` for one notification: the n-th request's reply, and the clock when it
-- has been read. `none` is out of fuel.
unfoldable pub poll : ℕ → (ℕ → Result Bool) → (ℕ → ℕ) → ℕ → ℕ → ℕ → Option PollOutcome
poll zero reply clock created_at timeout n = none
poll (suc fuel) reply clock created_at timeout n =
    let rest = poll fuel reply clock created_at timeout (suc n) in
    if says_done (reply n)
    then some (completed (clock n - created_at))
    else if ltb (created_at + timeout) (clock n)
    then some timed_out
    else rest

-- The refs that are polled: those of the sample that were created.
unfoldable pub polled : List NotificationRef → List NotificationRef
polled [] = []
polled (r ∷ rs) = let rest = polled rs in elim r.create_err [ none ↦ r ∷ rest | some e ↦ rest ]

-- The sample: at most twenty of the refs, as rand.Shuffle leaves them.
unfoldable pub sample :
    (List NotificationRef → List NotificationRef) → List NotificationRef → List NotificationRef
sample shuffle refs = take 20 (shuffle refs)

-- `sorted[i]`; out of range is a panic, which the index below rules out.
unfoldable pub nth : List ℕ → ℕ → ℕ
nth [] i = 0
nth (x ∷ xs) zero = x
nth (x ∷ xs) (suc i) = nth xs i

-- `percentile`
unfoldable pub percentile : List ℕ → ℕ → ℕ
percentile [] p = 0
percentile (x ∷ xs) p =
    let count = length (x ∷ xs) in
    let idx = count * p / 100 in nth (x ∷ xs) (if leb count idx then count - 1 else idx)
