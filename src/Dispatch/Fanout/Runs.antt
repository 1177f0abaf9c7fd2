-- ===== src/Dispatch/Fanout/Runs.antt =====
-- A fanout that nothing outside stands in the way of runs to its end.
use slay_push.Queue.{send_task, SendPayload, Task, FanoutPayload}
use slay_push.Dispatch.Fanout.{
  fanout_loop, send_payload, Content, or_existing, get_or_create_recipient, fanout_one,
}
use slay_push.Queue.Enqueue.{log_send, send_now, enqueue_send}
use slay_push.Errors.{is_no_rows, no_rows, ok, err}
use slay_push.Store.Monad.{M, advance}
use slay_push.Base.Json.{Data}
use slay_push.Store.Recipients.{
  same_recipient, for_target, get_recipient_by_notification_and_device, max_int, same_target,
  recipient_has_id, new_recipient, insert_recipient, insert_notification_recipient,
}
use slay_push.Store.Fates.{query_runs}
use slay_push.Base.{
  [], inr, any_where-find, ◌∙◌, ==_iff, inl, any_where-congr, Bool-cases, refl, ◌∷◌, ◌+◌, suc, All,
  false, true, arith, ◌<◌, ◌≡◌, any_where, String, List, ◌==◌, ℕ,
}
use slay_push.Store.{
  Notification, QueryFate, Env, Device, EnqueueFate, NotificationRecipient, World,
}

-- Statements run, asynq takes every task, and no UUID is drawn twice.
pub record Calm (e : Env) : Type 0 where
  pub up : (n : ℕ) → e.query_fate n ≡ QueryFate.runs
  pub accepts : (n : ℕ) → e.enqueue_fate n ≡ EnqueueFate.accepted
  pub encodes : (d : Data) → (s : String) × (e.marshal_data d ≡ ok s)
  pub new_ids : (n m : ℕ) → e.gen_random_uuid n ≡ e.gen_random_uuid m → n ≡ m

-- The retries that asynq makes of a send task.
abbrev pub retries : ℕ
retries = 5

-- The recipients have none of the UUIDs that are still to be drawn, and room for the attempts of one
-- more task.
pub record Leaves (e : Env) (tick : ℕ) (rs : List NotificationRecipient) : Type 0 where
  pub unused : (n : ℕ) → tick < n → any_where (recipient_has_id (e.gen_random_uuid n)) rs ≡ false
  pub room : All (λ r. r.attempt_count + retries < max_int) rs

-- The tables that an inserted recipient refers to.
pub record IsBacked (ns : List Notification) (ds : List Device) (nid did : ℕ) : Type 0 where
  pub of_notification : any_where (λ n. n.id == nid) ns ≡ true
  pub of_device : any_where (λ d. d.id == did) ds ≡ true

==_swap : (a b : ℕ) → (a == b) ≡ (b == a)
==_swap a b = ground arith

module _ (nid did : ℕ) (ptype : String) (w : World) (calm : Calm w.env)
    (backed : IsBacked w.notifications w.devices nid did)
    (rows : Leaves w.env w.tick w.recipients) where
  abbrev row : NotificationRecipient
  row = new_recipient nid did ptype (advance w)

  -- The recipient that a round gets, and the rows that it leaves.
  pub record Got : Type 0 where
    pub recipient : NotificationRecipient
    pub tick : ℕ
    pub left : List NotificationRecipient
    pub gets :
        get_or_create_recipient nid did ptype w
        ≡ (ok recipient, record w { tick = tick; recipients = left })
    pub leaves : Leaves w.env tick left

  inserted :
      any_where (same_target row) w.recipients ≡ false
      → insert_notification_recipient nid did ptype w
        ≡ (ok row, record w { tick = suc w.tick; recipients = row ∷ w.recipients })
  unfolding insert_notification_recipient insert_recipient new_recipient
  inserted new =
      let fresh =
        any_where-congr (same_recipient row) (recipient_has_id row.id) w.recipients
          (λ a. ==_swap row.id a.id)
        ∙ rows.unused (suc w.tick) (omega arith) in
      rw (query_runs _ w (calm.up w.tick), new, fresh, backed.of_notification, backed.of_device)
        refl

  taken :
      any_where (same_target row) w.recipients ≡ true
      → insert_notification_recipient nid did ptype w ≡ (err no_rows, advance w)
  unfolding insert_notification_recipient insert_recipient
  taken there = rw (query_runs _ w (calm.up w.tick), there) refl

  found :
      any_where (same_target row) w.recipients ≡ true
      → (r : NotificationRecipient) × (get_recipient_by_notification_and_device nid did (advance w)
          ≡ (ok r, advance (advance w)))
  unfolding get_recipient_by_notification_and_device new_recipient
  found there =
      let swapped =
        any_where-congr (for_target nid did) (same_target row) w.recipients
          (λ a. rw (==_swap a.notification_id nid, ==_swap a.device_id did) refl)
        ∙ there in
      let (r, e) = any_where-find (for_target nid did) w.recipients swapped in
      (r, rw (query_runs _ (advance w) (calm.up (suc w.tick)), e) refl)

  row-Leaves : Leaves w.env (suc w.tick) (row ∷ w.recipients)
  unfolding new_recipient any_where
  row-Leaves = record {
    unused = λ n later. elim (Bool-cases (row.id == w.env.gen_random_uuid n)) [
      | inl same ↦
          let e : w.env.gen_random_uuid (suc w.tick) ≡ w.env.gen_random_uuid n =
            (==_iff row.id (w.env.gen_random_uuid n)).0 same in
          let k = calm.new_ids (suc w.tick) n e in absurd (omega arith)
      | inr other ↦ rw (other, rows.unused n (omega arith)) refl
    ];
    room = (omega arith, rows.room);
  }

  -- A round gets the recipient of its device, a new one or the one that is there.
  pub got : Got
  unfolding get_or_create_recipient or_existing is_no_rows
  got = elim (Bool-cases (any_where (same_target row) w.recipients)) [
    | inr new ↦ record {
      recipient = row;
      tick = suc w.tick;
      left = row ∷ w.recipients;
      gets = rw (get_or_create_recipient, inserted new) refl;
      leaves = row-Leaves;
    }
    | inl there ↦
        let (r, e) = found there in
        record {
          recipient = r;
          tick = suc (suc w.tick);
          left = w.recipients;
          gets = rw (get_or_create_recipient, taken there) e;
          leaves = record { unused = λ n later. rows.unused n (omega arith); room = rows.room };
        }
  ]

enqueue_runs :
    (q : SendPayload) (w : World)
    → Calm w.env
    → enqueue_send q w ≡ (ok tt, log_send (send_task q) (advance w))
unfolding enqueue_send send_now
enqueue_runs q w calm = let (s, e) = calm.encodes q.payload in rw (e, calm.accepts w.tick) refl

-- The world that some rounds of the loop leave.
pub record Ran {A : Type 0} (m : M A) (w : World) : Type 0 where
  pub answer : A
  pub tick : ℕ
  pub left : List NotificationRecipient
  pub queued : List (Task SendPayload)
  pub runs : m w ≡ (ok answer, record w { tick = tick; recipients = left; sends = queued })
  pub leaves : Leaves w.env tick left

one_runs :
    (p : FanoutPayload) (nid : ℕ) (c : Content) (d : Device) (w : World)
    → Calm w.env
    → IsBacked w.notifications w.devices nid d.id
    → Leaves w.env w.tick w.recipients
    → Ran (fanout_one p nid c d) w
unfolding fanout_one
one_runs p nid c d w calm backed rows =
    let g = got nid d.id d.provider_type w calm backed rows in
    let u : World = record w { tick = g.tick; recipients = g.left } in
    record {
      answer = tt;
      tick = suc g.tick;
      left = g.left;
      queued = send_task (send_payload p c g.recipient d) ∷ w.sends;
      runs = rw (g.gets, enqueue_runs (send_payload p c g.recipient d) u calm) refl;
      leaves = record { unused = λ n later. g.leaves.unused n (omega arith); room = g.leaves.room };
    }

pub loop_runs :
    (p : FanoutPayload) (nid : ℕ) (c : Content) (k : ℕ) (ds : List Device) (w : World)
    → Calm w.env
    → All (λ d. IsBacked w.notifications w.devices nid d.id) ds
    → Leaves w.env w.tick w.recipients
    → Ran (fanout_loop p nid c k ds) w
unfolding fanout_loop
loop_runs p nid c k [] w calm backed rows = record {
  answer = k;
  tick = w.tick;
  left = w.recipients;
  queued = w.sends;
  runs = refl;
  leaves = rows;
}
loop_runs p nid c k (d ∷ ds) w calm backed rows =
    let one = one_runs p nid c d w calm backed.0 rows in
    let u : World = record w { tick = one.tick; recipients = one.left; sends = one.queued } in
    let rest = loop_runs p nid c (k + 1) ds u calm backed.1 one.leaves in
    record {
      answer = rest.answer;
      tick = rest.tick;
      left = rest.left;
      queued = rest.queued;
      runs = rw one.runs rest.runs;
      leaves = rest.leaves;
    }
