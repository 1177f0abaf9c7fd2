-- ===== src/Dispatch/Send/Live.antt =====
-- A send task under asynq's redeliveries: how it comes to an end.
use slay_push.Store.Monad.{advance}
use slay_push.Dispatch.Limiter.{limiter_allow-unset}
use slay_push.Store.Credentials.{get_active_provider_credential}
use slay_push.Crypto.{Bytes}
use slay_push.Store.Recipients.{
  recipient_has_id, get_notification_recipient, max_int, mark_sending_found, to_sending,
  mark_recipient_sending, update_recipients, mark_recipient_sent,
}
use slay_push.Dispatch.Send.{
  environment, send_once, send_allowed, request, call_adapter, with_row, with_cred, with_adapter,
  invalidate_device, on_invalid_token, handle_send, record_outcome, on_transient, abandon,
}
use slay_push.Dispatch.Send.Done.{first_non_nil-plain, IsPlain, PlainAdapters, IsDone}
use slay_push.Dispatch.Send.Settled.{Fresh}
use slay_push.Store.Fates.{query_runs, AllRun}
use slay_push.Errors.{ok, other, is_skip_retry, err, as_throttled, Result, Err, first_non_nil}
use slay_push.Store.{ProviderCredential, Adapter, World}
use slay_push.Provider.{SendRequest, Status, SendResult}
use slay_push.Queue.{is_failure, SendPayload}
use slay_push.Base.{
  update_where, lt→ltb, inr, sym, refl, Bool-cases, inl, false, true, suc, ◌⊎◌, ◌≢◌, none, String,
  Bool, ◌≡◌, some, ℕ, Option,
}
use slay_push.Dispatch.{is_terminal, is_last_attempt, fail_recipient, Attempt}

abbrev opt_counts : Option Err → Bool
opt_counts none = true
opt_counts (some e) = is_failure e

-- An outcome of an adapter that is not throttled, nor has an error that says so.
abbrev pub IsUnthrottled : SendResult × Option Err → Type 0
IsUnthrottled o =
    (o.0.status ≢ Status.throttled) × (opt_counts o.0.failure ≡ true) × (opt_counts o.1 ≡ true)

-- Neither the outbound limiter nor a provider holds a push back.
pub record Unthrottled (w : World) : Type 0 where
  pub unlimited : w.env.outbound_limiter ≡ none
  pub taken :
      (name : String) (ad : Adapter)
      → w.env.adapters name ≡ some ad
      → (cred : Bytes) (req : SendRequest) (n : ℕ) → IsUnthrottled (ad.send cred req n)

abbrev pub nth_attempt : ℕ → ℕ → Attempt
nth_attempt retried max = record { retry_count = some retried; max_retry = some max }

-- An error after which asynq delivers the task again and counts the retry.
pub record IsRetried (a : Attempt) (r : Result (Unit {0})) : Type 0 where
  pub error : Err
  pub failed : r ≡ err error
  pub retries : is_skip_retry error ≡ false
  pub counts : is_failure error ≡ true
  pub more : is_last_attempt a ≡ false

-- Deliveries of a task, as asynq makes them: it stops when it is done, and otherwise delivers again
-- with the retry counted. So many retries are made before, and so many deliveries follow.
pub data Delivers (p : SendPayload) (max : ℕ) : ℕ → ℕ → World → World → Type 0 where
  stops :
      {retried deliveries : ℕ} {w v : World}
      → IsDone (nth_attempt retried max) (handle_send (nth_attempt retried max) p w).0
      → v ≡ (handle_send (nth_attempt retried max) p w).1
      → deliveries ≡ 1
      → Delivers p max retried deliveries w v
  delivers_again :
      {retried deliveries k : ℕ} {u w v : World}
      → IsRetried (nth_attempt retried max) (handle_send (nth_attempt retried max) p w).0
      → u ≡ (handle_send (nth_attempt retried max) p w).1
      → Delivers p max (suc retried) k u v
      → deliveries ≡ suc k
      → Delivers p max retried deliveries w v

first_non_nil-counts :
    (x y : Option Err) (s : String)
    → opt_counts x ≡ true
    → opt_counts y ≡ true
    → is_failure (first_non_nil x y (other s)) ≡ true
unfolding first_non_nil is_failure as_throttled
first_non_nil-counts none none s h k = refl
first_non_nil-counts none (some e) s h k = k
first_non_nil-counts (some e) y s h k = h

module _ (a : Attempt) (p : SendPayload) where
  -- asynq is done, or retries in a world whose environment and recipients are those of `u`.
  abbrev Ends : World → Result (Unit {0}) × World → Type 0
  Ends u x = IsDone a x.0 ⊎ (IsRetried a x.0 × (x.1.env ≡ u.env) × (x.1.recipients ≡ u.recipients))

  transient-Ends :
      (e : Err) (w : World)
      → is_skip_retry e ≡ false
      → is_failure e ≡ true
      → Ends w (on_transient a p e w)
  unfolding on_transient fail_recipient
  transient-Ends e w plain counts = elim (Bool-cases (is_last_attempt a)) [
    | inl last ↦ rw (last, on_transient) (inl (inr (last, counts)))
    | inr more ↦
        rw (more, on_transient)
          (inr (
            record { error = e; failed = refl; retries = plain; counts = counts; more = more },
            refl,
            refl,
          ))
  ]

  sent-Ends :
      (m : Option String) (u w : World) → AllRun w → Ends u (mark_recipient_sent p.recipient_id m w)
  unfolding mark_recipient_sent
  sent-Ends m u w up = rw (query_runs _ w (up w.tick)) (inl tt)

  outcome-Ends :
      (s : Status) (r : SendResult) (e : Option Err) (w : World)
      → AllRun w
      → s ≢ Status.throttled
      → IsPlain (r, e)
      → opt_counts r.failure ≡ true
      → opt_counts e ≡ true
      → Ends w (record_outcome a p s r e w)
  unfolding record_outcome on_invalid_token invalidate_device fail_recipient
  outcome-Ends Status.sent r e w up t k h j = sent-Ends _ w w up
  outcome-Ends Status.invalid_token r e w up t k h j = inl tt
  outcome-Ends Status.throttled r e w up t k h j = absurd (t refl)
  outcome-Ends Status.transient_error r e w up t k h j =
      transient-Ends _ w (first_non_nil-plain e r.failure _ k.1 k.0)
        (first_non_nil-counts e r.failure _ j h)
  outcome-Ends Status.unknown r e w up t k h j =
      transient-Ends _ w (first_non_nil-plain e r.failure _ k.1 k.0)
        (first_non_nil-counts e r.failure _ j h)

  abandon-Ends :
      (c t : String) (e : Err) (u w : World) → is_skip_retry e ≡ true → Ends u (abandon p c t e w)
  unfolding abandon fail_recipient
  abandon-Ends c t e u w skips = inl (inl skips)

  module _ (w : World) (up : AllRun w) (plain : PlainAdapters w) (free : Unthrottled w) where
    adapter-Ends :
        (c : Bytes) (o : Option Adapter)
        → o ≡ w.env.adapters p.provider_type
        → Ends w (with_adapter a p c o w)
    unfolding with_adapter call_adapter is_skip_retry
    adapter-Ends c none k = abandon-Ends _ _ _ w w refl
    adapter-Ends c (some ad) k =
        let t = free.taken p.provider_type ad (sym k) c (request p) w.tick in
        outcome-Ends _ _ _ _ up t.0 (plain p.provider_type ad (sym k) c (request p) w.tick) t.1 t.2

    cred-Ends : (c : Result Bytes) → Ends w (with_cred a p c w)
    unfolding with_cred is_skip_retry
    cred-Ends (err e) = abandon-Ends _ _ _ w w refl
    cred-Ends (ok c) = adapter-Ends c _ refl

    row-Ends : (c : Result ProviderCredential) → Ends w (with_row a p c w)
    unfolding with_row is_skip_retry
    row-Ends (err e) = abandon-Ends _ _ _ w w refl
    row-Ends (ok c) = cred-Ends _

  credential_run :
      (u : World)
      → AllRun u
      → (get_active_provider_credential p.project_id p.provider_type environment u).1 ≡ advance u
  unfolding get_active_provider_credential
  credential_run u up = rw (query_runs _ u (up u.tick)) refl

  module _ (w : World) (up : AllRun w) (plain : PlainAdapters w) (free : Unthrottled w) where
    abbrev marked : World
    marked = update_recipients p.recipient_id to_sending (advance w)

    abbrev Progresses : Result (Unit {0}) × World → Type 0
    Progresses x = Ends marked x

    once-Ends : Fresh a p w → Progresses (send_once a p w)
    unfolding send_once mark_recipient_sending mark_sending_found update_recipients
    once-Ends (r, h, room) =
        rw
          (
            query_runs _ w (up w.tick),
            h,
            lt→ltb r.attempt_count max_int room,
            credential_run marked up,
          )
          (row-Ends (advance marked) up plain
            (record { unlimited = free.unlimited; taken = free.taken }) _)

    allowed-Ends : Fresh a p w → Progresses (send_allowed a p w)
    unfolding send_allowed
    allowed-Ends f =
        rw (limiter_allow-unset p.project_id p.provider_type w free.unlimited) (once-Ends f)

  -- asynq is done, or retries with the recipient's attempt counted and no other row changed.
  pub handle-Ends :
      (w : World)
      → AllRun w
      → PlainAdapters w
      → Unthrottled w
      → Fresh a p w
      → IsDone a (handle_send a p w).0
        ⊎ (IsRetried a (handle_send a p w).0
            × ((handle_send a p w).1.env ≡ w.env)
            × ((handle_send a p w).1.recipients
                ≡ update_where (recipient_has_id p.recipient_id) to_sending w.recipients))
  unfolding handle_send get_notification_recipient update_recipients
  handle-Ends w up plain free (r, h, room) =
      rw (query_runs _ w (up w.tick), h)
        (elim (Bool-cases (is_terminal r.status)) [
          | inl t ↦ rw t (inl tt)
          | inr live ↦ rw live (
              allowed-Ends (advance w) up plain
                (record { unlimited = free.unlimited; taken = free.taken }) (r, h, room))
        ])
