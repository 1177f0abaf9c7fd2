-- ===== src/Dispatch/Reaches.antt =====
-- From a fanout task to the end of each of its send tasks.
pub mod Created
use slay_push.Dispatch.Create.{has_no_targets}
use slay_push.Store.Moves.{here}
use slay_push.Dispatch.Fanout.Effects.{send_to_devices-moves, handle_fanout-moves}
use mathlib.Core.List.{Memᴰ}
use slay_push.Dispatch.Send.Ended.{EndsSettled, send_task_ends}
use mathlib.Core.Bool.{false≢true}
use slay_push.Dispatch.Fanout.Queued.{NoConflict, IsQueued}
use slay_push.Dispatch.Fanout.Runs.{retries}
use slay_push.Dispatch.Fanout.Tasks.{send_to_devices-IsQueued, decode-env, content_of}
use slay_push.Dispatch.Send.Live.{Unthrottled}
use slay_push.Store.Recipients.{max_int, recipient_has_id, same_recipient, for_target}
use slay_push.Dispatch.Fanout.Finished.{send_to_devices-Finishes, Startable}
use slay_push.Dispatch.Send.Done.{PlainAdapters}
use slay_push.Store.WellFormed.{Trace-WellFormed, WellFormed}
use slay_push.Base.Json.{Data}
use slay_push.Store.Monad.{M, advance}
use slay_push.Errors.{Result, ok}
use slay_push.Store.Notifications.{complete_notification, get_notification, by_id_and_project}
use slay_push.Dispatch.Fanout.{fanout_to, send_payload, Content, send_to_devices, handle_fanout}
use slay_push.Store.Fates.{query_runs, AllRun}
use slay_push.Base.{
  false, All-find, sym, find_where-any_other, ◌∙◌, inr, ==_refl, ◌<◌, inl, arith, Bool-cases, ◌+◌,
  All, Distinct, Bool, select_where, refl, ap, [], ◌∷◌, some, ◌≡◌, find_where, String, List, ℕ,
}
use slay_push.Store.Devices.{
  reached, listed, get_active_devices_by_subscriber_external_ids, get_devices_by_ids,
}
use slay_push.Store.{
  Subscriber, EnqueueFate, Device, NotificationRecipient, World, Spec, Notification,
}
use slay_push.Targeting.{device_ids_of, resolve_group, resolve_explicit, resolve}
use slay_push.Queue.{send_task, FanoutPayload}

devices_run :
    (project_id : ℕ) (ids : List ℕ) (u : World)
    → AllRun u
    → get_devices_by_ids project_id ids u
      ≡ (ok (select_where (listed project_id ids) u.devices), advance u)
unfolding get_devices_by_ids
devices_run project_id ids u up = query_runs _ u (up u.tick)

subscribed_run :
    (project_id : ℕ) (xs : List String) (u : World)
    → AllRun u
    → get_active_devices_by_subscriber_external_ids project_id xs u
      ≡ (ok (select_where (reached project_id xs u.subscribers) u.devices), advance u)
unfolding get_active_devices_by_subscriber_external_ids
subscribed_run project_id xs u up = query_runs _ u (up u.tick)

-- The ids of the devices that a spec names, or, where it names none, of the active devices of the
-- subscribers that it names.
abbrev chosen : ℕ → List ℕ → List String → List Subscriber → List Device → List Device
chosen project_id [] xs ss ds = select_where (reached project_id xs ss) ds
chosen project_id (id ∷ ids) xs ss ds = select_where (listed project_id (id ∷ ids)) ds

abbrev pub audience : ℕ → Spec → World → List ℕ
audience project_id spec w =
    device_ids_of (chosen project_id spec.device_ids spec.external_user_ids w.subscribers w.devices)

resolve_lists :
    (project_id : ℕ) (ds : List ℕ) (xs : List String) (u : World)
    → AllRun u
    → has_no_targets ds xs ≡ false
    → resolve project_id (record { device_ids = ds; external_user_ids = xs }) u
      ≡ (ok (device_ids_of (chosen project_id ds xs u.subscribers u.devices)), advance u)
unfolding resolve resolve_explicit resolve_group has_no_targets
resolve_lists project_id [] [] u up h = cc
resolve_lists project_id [] (x ∷ xs) u up h = rw (subscribed_run project_id (x ∷ xs) u up) refl
resolve_lists project_id (d ∷ ds) xs u up h = rw (devices_run project_id (d ∷ ds) u up) refl

none_listed : (project_id : ℕ) (ds : List Device) → select_where (listed project_id []) ds ≡ []
unfolding select_where listed
none_listed project_id [] = refl
none_listed project_id (d ∷ ds) = ground (arith, none_listed project_id ds)

-- The notification is there, and its spec is read back with some target.
pub record IsTargeted (p : FanoutPayload) (n : Notification) (spec : Spec) (w : World)
    : Type 0 where
  pub found : find_where (by_id_and_project p.notification_id p.project_id) w.notifications ≡ some n
  pub targets : w.env.unmarshal_spec n.target_spec ≡ ok spec
  pub some_target : has_no_targets spec.device_ids spec.external_user_ids ≡ false

fanout_resolves :
    (p : FanoutPayload) (n : Notification) (spec : Spec) (w : World)
    → AllRun w
    → IsTargeted p n spec w
    → handle_fanout p w ≡ fanout_to p n (audience p.project_id spec w) (advance (advance w))
unfolding handle_fanout get_notification
fanout_resolves p n spec w up a =
    let r =
      resolve_lists p.project_id spec.device_ids spec.external_user_ids (advance w) up
        a.some_target in
    rw (query_runs _ w (up w.tick), a.found, a.targets, r) refl

found_by_id :
    (q : NotificationRecipient → Bool) (rs : List NotificationRecipient) (r : NotificationRecipient)
    → Distinct same_recipient rs
    → find_where q rs ≡ some r
    → find_where (recipient_has_id r.id) rs ≡ some r
unfolding find_where
found_by_id q [] r d h = cc
found_by_id q (x ∷ rs) r d h = elim (Bool-cases (q x)) [
  | inl hit ↦
      let found = rw (find_where, hit) at h in let same : x ≡ r = cc in rw (same, ==_refl r.id) refl
  | inr miss ↦
      let found = rw (find_where, miss) at h in
      elim (Bool-cases (recipient_has_id r.id x)) [
        | inr other ↦ rw other (found_by_id q rs r d.1 found)
        | inl clash ↦
            let k = find_where-any_other q (same_recipient x) rs r found clash in
            absurd (false≢true (sym d.0 ∙ k))
      ]
]

module _ (p : FanoutPayload) (n : Notification) (c : Content) where
  -- The device's recipient is there, asynq has a send task for it, and that task ends within its
  -- retries and one delivery more, with the recipient in a terminal state.
  pub record Reached (v : World) (d : Device) : Type 0 where
    pub recipient : NotificationRecipient
    pub found : find_where (for_target n.id d.id) v.recipients ≡ some recipient
    pub queued : Memᴰ (send_task (send_payload p c recipient d)) v.sends
    pub ends :
        let q = send_payload p c recipient d in
        EndsSettled q (send_task q).max_retry 0 (send_task q).max_retry v

  queued_reaches :
      (v : World) (ds : List Device)
      → AllRun v
      → PlainAdapters v
      → Unthrottled v
      → Distinct same_recipient v.recipients
      → All (λ r. r.attempt_count + retries < max_int) v.recipients
      → All (λ d. IsQueued p n.id c d v) ds
      → All (Reached v) ds
  unfolding send_task
  queued_reaches v [] up plain free ids room h = tt
  queued_reaches v (d ∷ ds) up plain free ids room h =
      let (r, there, task) = h.0 in
      (
        record {
          recipient = r;
          found = there;
          queued = task;
          ends = send_task_ends (send_payload p c r d) 5 0 5 v (omega arith) up plain free (
            r,
            found_by_id (for_target n.id d.id) v.recipients r ids there,
            All-find (λ a. a.attempt_count + retries < max_int) (for_target n.id d.id) v.recipients
                r there room,
          );
        },
        queued_reaches v ds up plain free ids room h.1,
      )

module _ (p : FanoutPayload) (n : Notification) (fields : Data) (w : World) where
  abbrev pub Reaches : M (Unit {0}) → List ℕ → Type 0
  Reaches m ids =
      (v : World) × (m w ≡ (ok tt, v))
      × All (Reached p n (content_of n fields) v) (select_where (listed n.project_id ids) w.devices)

  send_to_devices-Reaches :
      (ids : List ℕ)
      → WellFormed w
      → Startable n fields w
      → PlainAdapters w
      → Unthrottled w
      → Reaches (send_to_devices p n ids) ids
  send_to_devices-Reaches ids wf start plain free =
      let done = send_to_devices-Finishes p n ids fields w start in
      let v : World = record w {
        tick = done.tick;
        notifications = done.notes;
        recipients = done.left;
        sends = done.queued;
      } in
      let no_clash : NoConflict w = λ k e. clash (start.calm.accepts k) e in
      let (read, decoded, all, totals) = send_to_devices-IsQueued p n ids w v no_clash done.runs in
      let free' : Unthrottled v = record { unlimited = free.unlimited; taken = free.taken } in
      let as_read : read ≡ fields = same_fields (sym decoded ∙ start.decodes) in
      let kept : WellFormed v =
        rw (sym (ap (λ x. x.1) done.runs)) (
          Trace-WellFormed {E = λ _. Unit {0}} ((send_to_devices-moves w p n ids).keep w here)
            wf) in
      (
        v,
        done.runs,
        queued_reaches p n (content_of n fields) v _ start.calm.up plain free' kept.recipient_ids
            done.room (rw (sym as_read) all),
      )
    where
      clash : {f : EnqueueFate} → f ≡ EnqueueFate.accepted → f ≡ EnqueueFate.conflict → ⊥
      clash a b = let k : EnqueueFate.accepted ≡ EnqueueFate.conflict = sym a ∙ b in cc

      same_fields : {x y : Data} → ◌≡◌ {A = Result Data} (ok x) (ok y) → x ≡ y
      same_fields e = cc

  fanout_to-Reaches :
      (ids : List ℕ)
      → WellFormed w
      → Startable n fields w
      → PlainAdapters w
      → Unthrottled w
      → Reaches (fanout_to p n ids) ids
  unfolding fanout_to complete_notification
  fanout_to-Reaches [] wf start plain free =
      (_, query_runs _ w (start.calm.up w.tick), rw (none_listed n.project_id w.devices) tt)
  fanout_to-Reaches (id ∷ ids) wf start plain free =
      send_to_devices-Reaches (id ∷ ids) wf start plain free

module _ (p : FanoutPayload) (n : Notification) (spec : Spec) (fields : Data) (w : World) where
  -- Under the conditions of the records above: a fanout task of a notification that has some target
  -- returns no error, and each device of its audience has a recipient and a send task, which ends
  -- within its retries and one delivery more with the recipient in a terminal state.
  pub handle_fanout-Reaches :
      WellFormed w
      → Startable n fields w
      → IsTargeted p n spec w
      → PlainAdapters w
      → Unthrottled w
      → Reaches p n fields w (handle_fanout p) (audience p.project_id spec w)
  handle_fanout-Reaches wf start targeted plain free =
      let u = advance (advance w) in
      let later : Startable n fields u = record {
        calm = start.calm;
        rows = record {
          unused = λ k more. start.rows.unused k (omega arith);
          room = start.rows.room;
        };
        there = start.there;
        decodes = decode-env n.payload w u refl ∙ start.decodes;
      } in
      let kept : WellFormed u = record {
        keys = wf.keys;
        ids = wf.ids;
        targets = wf.targets;
        recipient_ids = wf.recipient_ids;
        backed = wf.backed;
      } in
      let free' : Unthrottled u = record { unlimited = free.unlimited; taken = free.taken } in
      let (v, runs, all) =
        fanout_to-Reaches p n fields u (audience p.project_id spec w) kept later plain free' in
      (v, fanout_resolves p n spec w start.calm.up targeted ∙ runs, all)
