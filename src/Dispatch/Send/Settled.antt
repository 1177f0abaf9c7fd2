-- ===== src/Dispatch/Send/Settled.antt =====
-- Recipients once asynq is done with their send tasks.
use slay_push.Dispatch.Send.Done.{
  to_sending-keys, first_non_nil-plain, update_found, PlainAdapters, IsSettled, IsPlain, IsDone,
  Exists,
}
use slay_push.Dispatch.Limiter.{limit_key, allows, limiter_allow}
use slay_push.Store.Credentials.{get_active_provider_credential}
use mathlib.Core.Bool.{false≢true}
use slay_push.Store.Devices.{update_devices, mark_device_status}
use slay_push.Base.Int.{ℤ}
use slay_push.Dispatch.Send.{
  throttle, send_allowed, handle_send, environment, send_once, request, invalidate_device,
  call_adapter, with_row, with_cred, with_adapter, record_outcome, on_transient, on_invalid_token,
  abandon,
}
use slay_push.Store.Monad.{fail, advance}
use slay_push.Crypto.{Bytes}
use slay_push.Provider.{Status, SendResult}
use slay_push.Queue.{SendPayload, is_failure}
use slay_push.Store.Fates.{query_runs, AllRun}
use slay_push.Errors.{
  throttled, as_throttled, other, Err, first_non_nil, is_skip_retry, err, ok, Result,
}
use slay_push.Store.{ProviderCredential, Adapter, World, NotificationRecipient}
use slay_push.Base.{
  Option-cases, lt→ltb, ◌<◌, ◌∙◌, arith, inr, sym, inl, Bool-cases, none, suc, false, Option, refl,
  some, ◌≡◌, find_where, String,
}
use slay_push.Store.Recipients.{
  get_notification_recipient, mark_recipient_sending, to_sending, mark_sending_found, max_int,
  to_sent, mark_recipient_sent, to_failed, mark_recipient_failed, recipient_has_id,
  update_recipients,
}
use slay_push.Dispatch.{text_from, is_last_attempt, is_terminal, fail_recipient, Attempt}

module _ (a : Attempt) (p : SendPayload) where
  record Ready (w : World) : Type 0 where
    up : AllRun w
    there : Exists p.recipient_id w
    plain : PlainAdapters w

  abbrev Settles : Result (Unit {0}) × World → Type 0
  Settles x = IsDone a x.0 → IsSettled p.recipient_id x.1

  mark_failed_run :
      (c t : Option String) (w : World)
      → Ready w
      → IsSettled p.recipient_id (mark_recipient_failed p.recipient_id c t w).1
  unfolding mark_recipient_failed is_terminal to_failed
  mark_failed_run c t w h = (
    to_failed c t (w.env.now (suc w.tick)) h.there.0,
    rw (query_runs _ w (h.up w.tick))
        (update_found p.recipient_id _ (advance w) h.there.0 (λ x. (refl, refl, refl)) h.there.1),
    refl,
  )

  fail_recipient_settles :
      (c t : String) (w : World)
      → Ready w
      → IsSettled p.recipient_id (fail_recipient p.recipient_id c t w).1
  unfolding fail_recipient
  fail_recipient_settles c t w h = mark_failed_run (text_from c) (text_from t) w h

  abandon-Settles : (c t : String) (e : Err) (w : World) → Ready w → Settles (abandon p c t e w)
  unfolding abandon fail_recipient
  abandon-Settles c t e w h d = mark_failed_run (text_from c) (text_from t) w h

  on_transient-Settles :
      (e : Err) (w : World) → is_skip_retry e ≡ false → Ready w → Settles (on_transient a p e w)
  unfolding on_transient fail_recipient
  on_transient-Settles e w k h = elim (Bool-cases (is_last_attempt a)) [
    | inl last ↦
        rw (last, on_transient) (λ d. fail_recipient_settles "transient_error_exhausted" _ w h)
    | inr more ↦ rw (more, on_transient) (λ d. ground arith)
  ]

  throttled-Settles :
      (d : ℤ) (e : Err) (w : World) → is_skip_retry e ≡ false → Settles (fail (throttled d e) w)
  unfolding is_skip_retry is_failure as_throttled
  throttled-Settles d e w k (inl skips) = absurd (false≢true (sym k ∙ skips))
  throttled-Settles d e w k (inr (last, counts)) = absurd (false≢true counts)

  invalid_token-Settles :
      (r : SendResult) (e : Option Err) (w : World) → Ready w → Settles (on_invalid_token p r e w)
  unfolding on_invalid_token invalidate_device mark_device_status update_devices
  invalid_token-Settles r e w h d = rw (query_runs _ w (h.up w.tick)) (
      fail_recipient_settles "invalid_token" _ _
        (record { up = h.up; there = h.there; plain = h.plain }))

  sent-Settles :
      (m : Option String) (w : World) → Ready w → Settles (mark_recipient_sent p.recipient_id m w)
  unfolding mark_recipient_sent is_terminal to_sent
  sent-Settles m w h d = (
    to_sent m (w.env.now (suc w.tick)) h.there.0,
    rw (query_runs _ w (h.up w.tick))
        (update_found p.recipient_id _ (advance w) h.there.0 (λ x. (refl, refl, refl)) h.there.1),
    refl,
  )

  outcome-Settles :
      (s : Status) (r : SendResult) (e : Option Err) (w : World)
      → IsPlain (r, e)
      → Ready w
      → Settles (record_outcome a p s r e w)
  unfolding record_outcome
  outcome-Settles Status.sent r e w k h = sent-Settles _ w h
  outcome-Settles Status.invalid_token r e w k h = invalid_token-Settles r e w h
  outcome-Settles Status.throttled r e w k h =
      let skip = first_non_nil-plain e r.failure "throttled" k.1 k.0 in
      throttled-Settles r.retry_after (first_non_nil e r.failure (other "throttled")) w skip
  outcome-Settles Status.transient_error r e w k h =
      on_transient-Settles _ w (first_non_nil-plain e r.failure _ k.1 k.0) h
  outcome-Settles Status.unknown r e w k h =
      on_transient-Settles _ w (first_non_nil-plain e r.failure _ k.1 k.0) h

  adapter-Settles :
      (c : Bytes) (o : Option Adapter) (w : World)
      → o ≡ w.env.adapters p.provider_type
      → Ready w
      → Settles (with_adapter a p c o w)
  unfolding with_adapter call_adapter
  adapter-Settles c none w k h = abandon-Settles _ _ _ w h
  adapter-Settles c (some ad) w k h =
      outcome-Settles _ _ _ _ (h.plain p.provider_type ad (sym k) c (request p) w.tick)
        (record { up = h.up; there = h.there; plain = h.plain })

  cred-Settles : (c : Result Bytes) (w : World) → Ready w → Settles (with_cred a p c w)
  unfolding with_cred
  cred-Settles (err e) w h = abandon-Settles _ _ _ w h
  cred-Settles (ok c) w h = adapter-Settles c _ w refl h

  row-Settles : (c : Result ProviderCredential) (w : World) → Ready w → Settles (with_row a p c w)
  unfolding with_row
  row-Settles (err e) w h = abandon-Settles _ _ _ w h
  row-Settles (ok c) w h = cred-Settles _ w h

  -- A recipient that can take one more attempt.
  abbrev pub Fresh : World → Type 0
  Fresh w =
      (r : NotificationRecipient) × (find_where (recipient_has_id p.recipient_id) w.recipients
        ≡ some r)
      × (r.attempt_count < max_int)

  get_credential-Ready :
      (w : World)
      → Ready w
      → Ready (get_active_provider_credential p.project_id p.provider_type environment w).1
  unfolding get_active_provider_credential
  get_credential-Ready w h =
      rw (query_runs _ w (h.up w.tick)) (record { up = h.up; there = h.there; plain = h.plain })

  once-Settles : (w : World) → AllRun w → Fresh w → PlainAdapters w → Settles (send_once a p w)
  unfolding send_once mark_recipient_sending mark_sending_found update_recipients
  once-Settles w up (r, h, room) plain =
      rw (query_runs _ w (up w.tick), h, lt→ltb r.attempt_count max_int room)
        (row-Settles _ _ (get_credential-Ready _ marked))
    where
      marked : Ready (update_recipients p.recipient_id to_sending (advance w))
      marked = record {
        up = up;
        there =
            (to_sending r, update_found p.recipient_id to_sending (advance w) r to_sending-keys h);
        plain = plain;
      }

  throttle-Settles : (d : ℤ) (w : World) → Settles (throttle p d w)
  unfolding throttle is_skip_retry is_failure as_throttled
  throttle-Settles d w h = ground arith

  allowed-Settles :
      (w : World) → AllRun w → Fresh w → PlainAdapters w → Settles (send_allowed a p w)
  unfolding send_allowed limiter_allow
  allowed-Settles w up f plain = elim (Option-cases w.env.outbound_limiter) [
    | inl unset ↦ rw (unset, limiter_allow) (once-Settles w up f plain)
    | inr (reply, set) ↦
        rw (set, limiter_allow)
          (elim (Bool-cases
            (allows (reply (limit_key w.env.uuid_text p.project_id p.provider_type) w.tick)).0) [
              | inl go ↦ rw go (once-Settles (advance w) up f plain)
              | inr stop ↦ rw stop (throttle-Settles _ (advance w))
            ])
  ]

  -- With the database up, adapters that make no error of asynq's, and a recipient that is there and
  -- has not reached the largest attempt count: whenever asynq is done with the send task (it
  -- returned nil, an error that skips the retry, or an error that counts on the last attempt), the
  -- recipient is in a terminal state.
  pub handle_send-IsSettled :
      (w : World)
      → AllRun w
      → PlainAdapters w
      → Fresh w
      → IsDone a (handle_send a p w).0
      → IsSettled p.recipient_id (handle_send a p w).1
  unfolding handle_send get_notification_recipient
  handle_send-IsSettled w up plain (r, h, room) =
      rw (query_runs _ w (up w.tick), h)
        (elim (Bool-cases (is_terminal r.status)) [
          | inl t ↦ rw t (λ d. (r, h, t))
          | inr live ↦ rw live (allowed-Settles (advance w) up (r, h, room) plain)
        ])
