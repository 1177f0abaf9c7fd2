-- ===== src/Dispatch/Send/Ended.antt =====
-- A send task comes to an end within its budget of retries.
use slay_push.Dispatch.Send.{handle_send}
use slay_push.Dispatch.Send.Done.{to_sending-keys, update_found, IsSettled, IsDone, PlainAdapters}
use slay_push.Dispatch.Send.Settled.{handle_send-IsSettled, Fresh}
use slay_push.Dispatch.Send.Live.{
  stops, delivers_again, handle-Ends, nth_attempt, Unthrottled, IsRetried, Delivers,
}
use slay_push.Store.Fates.{AllRun}
use slay_push.Store.Recipients.{update_recipients, max_int, recipient_has_id, to_sending}
use slay_push.Store.{NotificationRecipient, World}
use slay_push.Dispatch.{last_of, is_last_attempt, Attempt}
use slay_push.Base.{
  zero, refl, inr, ◌<◌, ◌∙◌, some, inl, false, ◌≢◌, sym, suc, ap, ◌≤◌, update_where, find_where,
  arith, ◌≡◌, ◌+◌, ℕ,
}
use slay_push.Queue.{SendPayload}

-- The recipient is there, and its attempt count has room for so many retries and one more attempt.
abbrev pub HasRoom : ℕ → ℕ → World → Type 0
HasRoom id left w =
    (r : NotificationRecipient) × (find_where (recipient_has_id id) w.recipients ≡ some r)
    × (r.attempt_count + left < max_int)

-- A task that ends within so many retries, with its recipient in a terminal state.
abbrev pub EndsSettled : SendPayload → ℕ → ℕ → ℕ → World → Type 0
EndsSettled p max retried left w =
    (v : World) × (k : ℕ) × Delivers p max retried k w v
    × (k ≤ suc left)
    × IsSettled p.recipient_id v

module _ (p : SendPayload) where
  more_room :
      (left : ℕ) (w v : World)
      → v.recipients ≡ update_where (recipient_has_id p.recipient_id) to_sending w.recipients
      → HasRoom p.recipient_id (suc left) w
      → HasRoom p.recipient_id left v
  unfolding to_sending update_recipients
  more_room left w v e (r, h, room) = (
    to_sending r,
    rw e (update_found p.recipient_id to_sending w r to_sending-keys h),
    omega arith,
  )

  last-not-more :
      (retried max : ℕ) → retried + 0 ≡ max → is_last_attempt (nth_attempt retried max) ≢ false
  unfolding is_last_attempt last_of
  last-not-more retried max e h = ground arith

  room-Fresh : (a : Attempt) (left : ℕ) (w : World) → HasRoom p.recipient_id left w → Fresh a p w
  room-Fresh a left w (r, h, room) = (r, h, omega arith)

  kept_up : (w v : World) → v.env ≡ w.env → AllRun w → AllRun v
  kept_up w v e up n = rw e (up n)

  kept_plain : (w v : World) → v.env ≡ w.env → PlainAdapters w → PlainAdapters v
  kept_plain w v e plain name ad h = plain name ad (sym (ap (λ x. x.adapters name) e) ∙ h)

  kept_free : (w v : World) → v.env ≡ w.env → Unthrottled w → Unthrottled v
  kept_free w v e free = record {
    unlimited = ap (λ x. x.outbound_limiter) e ∙ free.unlimited;
    taken = λ name ad h. free.taken name ad (sym (ap (λ x. x.adapters name) e) ∙ h);
  }

  at_once :
      (retried max left : ℕ) (w : World)
      → AllRun w
      → PlainAdapters w
      → HasRoom p.recipient_id left w
      → IsDone (nth_attempt retried max) (handle_send (nth_attempt retried max) p w).0
      → EndsSettled p max retried left w
  at_once retried max left w up plain room done = (
    (handle_send (nth_attempt retried max) p w).1,
    1,
    stops done refl refl,
    omega arith,
    handle_send-IsSettled (nth_attempt retried max) p w up plain
        (room-Fresh (nth_attempt retried max) left w room) done,
  )

  -- The delivery after one that is retried.
  one_more :
      (retried max left : ℕ) (w : World)
      → IsRetried (nth_attempt retried max) (handle_send (nth_attempt retried max) p w).0
      → EndsSettled p max (suc retried) left (handle_send (nth_attempt retried max) p w).1
      → EndsSettled p max retried (suc left) w
  one_more retried max left w again (v, k, run, few, settled) =
      (v, suc k, delivers_again again refl run refl, omega arith, settled)

  -- With the database up, adapters that make no error of asynq's, nothing that throttles, and room in
  -- the recipient's attempt count: a send task with so many retries left comes to an end within one
  -- delivery more, whatever the providers answer, and its recipient is then in a terminal state.
  pub send_task_ends :
      (left retried max : ℕ) (w : World)
      → retried + left ≡ max
      → AllRun w
      → PlainAdapters w
      → Unthrottled w
      → HasRoom p.recipient_id left w
      → EndsSettled p max retried left w
  send_task_ends zero retried max w budget up plain free room =
      elim (handle-Ends (nth_attempt retried max) p w up plain free
        (room-Fresh (nth_attempt retried max) 0 w room)) [
          | inl done ↦ at_once retried max 0 w up plain room done
          | inr (again, env, rows) ↦ absurd (last-not-more retried max budget again.more)
        ]
  send_task_ends (suc left) retried max w budget up plain free room =
      elim (handle-Ends (nth_attempt retried max) p w up plain free
        (room-Fresh (nth_attempt retried max) (suc left) w room)) [
          | inl done ↦ at_once retried max (suc left) w up plain room done
          | inr (again, env, rows) ↦
              let v = (handle_send (nth_attempt retried max) p w).1 in
              one_more retried max left w again (
                send_task_ends left (suc retried) max v (omega arith) (kept_up w v env up)
                  (kept_plain w v env plain) (kept_free w v env free)
                  (more_room left w v rows room))
        ]
