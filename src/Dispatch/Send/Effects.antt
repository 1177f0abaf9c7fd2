-- ===== src/Dispatch/Send/Effects.antt =====
-- The changes of rows that HandleSend makes.
use slay_push.Store.Monad.{advance}
use slay_push.Base.Int.{pos, ℤ}
use slay_push.Store.Effects.{
  get_credential-moves, mark_recipient_sent-moves, mark_recipient_sending-moves,
  mark_recipient_failed-moves, mark_device_status-moves, get_notification_recipient-moves,
}
use slay_push.Store.Moves.{Trace-advance, outside, then_move, Trace}
use slay_push.Provider.{Status, SendResult}
use slay_push.Errors.{ok, err, Result, Err}
use slay_push.Crypto.{Bytes}
use slay_push.Base.{true, refl, none, Bool, some, Option, String, ℕ}
use slay_push.Queue.{SendPayload}
use slay_push.Store.Keeps.{Keeps-fail, keeping, Keeps}
use slay_push.Dispatch.Limiter.{limit_key, allows, limiter_allow}
use slay_push.Dispatch.{Attempt, fail_recipient}
use slay_push.Dispatch.Send.{
  with_row, with_cred, with_adapter, send_once, send_allowed, on_transient, on_invalid_token,
  abandon, record_outcome, handle_send, call_adapter,
}
use slay_push.Store.{LimitReply, ProviderCredential, Adapter, World}

module _ {E : ℕ → Type 0} (w : World) (p : SendPayload) (e : E p.recipient_id) where
  fail_recipient-moves : (c t : String) → Keeps (Trace E w) (fail_recipient p.recipient_id c t)
  unfolding fail_recipient
  fail_recipient-moves c t = search (keeping, mark_recipient_failed-moves) depth 9

  on_invalid_token-moves :
      (r : SendResult) (x : Option Err) → Keeps (Trace E w) (on_invalid_token p r x)
  unfolding on_invalid_token
  on_invalid_token-moves r x =
      search (keeping, mark_device_status-moves, fail_recipient-moves) depth 12

  on_transient-moves : (a : Attempt) (x : Err) → Keeps (Trace E w) (on_transient a p x)
  unfolding on_transient
  on_transient-moves a x = search (keeping, fail_recipient-moves) depth 12

  record_outcome-moves :
      (a : Attempt) (s : Status) (r : SendResult) (x : Option Err)
      → Keeps (Trace E w) (record_outcome a p s r x)
  unfolding record_outcome
  record_outcome-moves a Status.sent r x = mark_recipient_sent-moves w p.recipient_id e _
  record_outcome-moves a Status.invalid_token r x = on_invalid_token-moves r x
  record_outcome-moves a Status.throttled r x = Keeps-fail
  record_outcome-moves a Status.transient_error r x = on_transient-moves a _
  record_outcome-moves a Status.unknown r x = on_transient-moves a _

  call_adapter-moves : (c : Bytes) (ad : Adapter) → Keeps (Trace E w) (call_adapter p c ad)
  unfolding call_adapter
  call_adapter-moves c ad = record { keep = λ u t. then_move t (outside refl refl refl refl) }

  abandon-moves : (c t : String) (x : Err) → Keeps (Trace E w) (abandon p c t x)
  unfolding abandon
  abandon-moves c t x = search (keeping, fail_recipient-moves)

  with_adapter-moves :
      (a : Attempt) (c : Bytes) (o : Option Adapter) → Keeps (Trace E w) (with_adapter a p c o)
  unfolding with_adapter
  with_adapter-moves a c none = search (keeping, abandon-moves)
  with_adapter-moves a c (some ad) = search (keeping, call_adapter-moves, record_outcome-moves)

  with_cred-moves : (a : Attempt) (c : Result Bytes) → Keeps (Trace E w) (with_cred a p c)
  unfolding with_cred
  with_cred-moves a (err x) = search (keeping, abandon-moves)
  with_cred-moves a (ok c) = search (keeping, with_adapter-moves)

  with_row-moves :
      (a : Attempt) (c : Result ProviderCredential) → Keeps (Trace E w) (with_row a p c)
  unfolding with_row
  with_row-moves a (err x) = search (keeping, abandon-moves)
  with_row-moves a (ok c) = search (keeping, with_cred-moves)

  send_once-moves : (a : Attempt) → Keeps (Trace E w) (send_once a p)
  unfolding send_once
  send_once-moves a =
      search (keeping, mark_recipient_sending-moves, get_credential-moves, with_row-moves) depth 12

  limiter_allow-moves :
      (project_id : ℕ) (provider_type : String)
      → Keeps (Trace E w) (limiter_allow project_id provider_type)
  unfolding limiter_allow
  limiter_allow-moves project_id provider_type = record {
    keep = λ u t. go u t u.env.outbound_limiter;
  }
    where
      go :
          (u : World)
          → Trace E w u
          → (o : Option (String → ℕ → LimitReply))
          → Trace E w
              (elim o as (λ _. Result (Bool × ℤ) × World) [
                | none ↦ (ok (true, pos 0), u)
                | some reply ↦ (
                  ok (allows (reply (limit_key u.env.uuid_text project_id provider_type) u.tick)),
                  advance u,
                )
              ]).1
      go u t none = t
      go u t (some reply) = Trace-advance w u t

  send_allowed-moves : (a : Attempt) → Keeps (Trace E w) (send_allowed a p)
  unfolding send_allowed
  send_allowed-moves a = search (keeping, limiter_allow-moves, send_once-moves) depth 12

  pub handle_send-moves : (a : Attempt) → Keeps (Trace E w) (handle_send a p)
  unfolding handle_send
  handle_send-moves a =
      search (keeping, get_notification_recipient-moves, send_allowed-moves) depth 12
