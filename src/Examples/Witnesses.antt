-- ===== src/Examples/Witnesses.antt =====
-- The theorems at work on the small world.
use slay_push.Store.Counts.{groups, count_recipient_statuses, recipient_status_counts}
use slay_push.Base.Json.{end}
use slay_push.Store.Tenants.{new_project, insert_project, create_project}
use slay_push.Store.Upserts.{device_at, merge_device, upsert_device, UpsertDeviceParams}
use slay_push.Base.{find_where}
use slay_push.Dispatch.Terminal.{run-terminal, handle_send_terminal}
use slay_push.Store.Projects.{has_project}
use slay_push.Store.WellFormed.{WellFormed}
use slay_push.Dispatch.Send.Done.{PlainAdapters, IsSettled, IsDone}
use slay_push.Dispatch.Send.Settled.{handle_send-IsSettled, Fresh}
use slay_push.Dispatch.Create.Idempotent.{row_of, Encodable}
use slay_push.Store.Devices.{mem_text, listed, get_devices_by_ids}
use slay_push.Targeting.{resolve, resolve_explicit}
use slay_push.Store.Recipients.{
  recipient_has_id, insert_recipient, insert_notification_recipient, get_notification_recipient,
  update_recipients, to_sent, to_sending, mark_sending_found, mark_recipient_sent,
  mark_recipient_sending, get_recipient_by_notification_and_device, new_recipient,
}
use slay_push.Store.Credentials.{is_active_for, get_active_provider_credential}
use slay_push.Queue.{send_type_for, send_task}
use slay_push.Queue.Enqueue.{enqueue_send, send_now}
use slay_push.Dispatch.Limiter.{limiter_allow}
use slay_push.Crypto.{open_with, open_envelope}
use slay_push.Store.Notifications.{
  new_notification, get_notification, update_notifications, set_notification_status,
  set_notification_totals,
}
use slay_push.Dispatch.Retry.{create_orphan, retry_same}
use slay_push.Errors.{other, wrapped, err, is_task_id_conflict, is_no_rows, first_non_nil, ok}
use slay_push.Examples.{
  phone, recipient, accepting, world_at, refusing_world, fresh_world, note, env, noted_world,
}
use slay_push.Examples.Calls.{send, first_attempt, encodable, req, history}
use slay_push.Store.Fates.{AllRun}
use slay_push.Store.Monad.{advance, query}
use slay_push.Dispatch.Send.{record_outcome, call_adapter, handle_send}
use slay_push.Store.{World, RecipientStatus, Adapter, Notification}
use slay_push.Dispatch.Create.{create_notification, has_no_targets}
use slay_push.Dispatch.Fanout.{
  get_or_create_recipient, fanout_one, fanout_loop, send_to_devices, or_existing, decode_data,
  handle_fanout,
}
use slay_push.Base.{
  sym, none, arith, some, ap, [], Option, any_where, select_where, update_where, ◌≡◌, refl,
  find_where,
}
use slay_push.Dispatch.{is_terminal, is_last_attempt, fail_recipient, text_from}
use slay_push.Dispatch.History.{run-WellFormed, step, run}

run_up : AllRun (run history noted_world)
unfolding set_notification_totals update_where open_envelope open_with decode_data or_existing
    limiter_allow call_adapter record_outcome fail_recipient is_last_attempt is_terminal text_from
    first_non_nil is_no_rows is_task_id_conflict send_now send_task send_type_for
    get_active_provider_credential is_active_for new_recipient set_notification_status
    update_notifications get_recipient_by_notification_and_device mark_recipient_sending
    mark_recipient_sent mark_sending_found to_sending to_sent update_recipients resolve_explicit
    get_notification_recipient get_notification find_where resolve get_devices_by_ids select_where
    listed send_to_devices fanout_loop fanout_one get_or_create_recipient
    insert_notification_recipient insert_recipient any_where enqueue_send run step handle_fanout
    handle_send query
run_up n = refl

run_env : (run history noted_world).env ≡ env
unfolding set_notification_totals update_where open_envelope open_with decode_data or_existing
    limiter_allow call_adapter record_outcome fail_recipient is_last_attempt is_terminal text_from
    first_non_nil is_no_rows is_task_id_conflict send_now send_task send_type_for
    get_active_provider_credential is_active_for new_recipient set_notification_status
    update_notifications get_recipient_by_notification_and_device mark_recipient_sending
    mark_recipient_sent mark_sending_found to_sending to_sent update_recipients resolve_explicit
    get_notification_recipient get_notification find_where resolve get_devices_by_ids select_where
    listed send_to_devices fanout_loop fanout_one get_or_create_recipient
    insert_notification_recipient insert_recipient any_where enqueue_send run step handle_fanout
    handle_send query
run_env = refl

retry_same_example :
    (m : Notification) × (create_notification 1 req (run history noted_world)
      ≡ (ok m, advance (advance (run history noted_world))))
    × (m.id ≡ 5)
unfolding text_from find_where has_no_targets
retry_same_example =
    retry_same 1 req "order-1" history noted_world note refl refl refl run_up
      (encodable (run history noted_world) run_env)

refusing_encodable : Encodable req refusing_world
refusing_encodable = record {
  data_json = "{}";
  spec_json = "{}";
  payload = "{}";
  target_spec = "{}";
  data_encodes = refl;
  spec_encodes = refl;
  data_stores = refl;
  spec_stores = refl;
}

create_orphan_example :
    let first = create_notification 1 req refusing_world in
    let second = create_notification 1 req first.1 in
    (first.0 ≡ err (wrapped "enqueue fanout" (other "down")))
    × (second.0 ≡ ok (row_of 1 req refusing_world refusing_encodable))
    × (second.1.fanouts ≡ [])
unfolding any_where has_project text_from has_no_targets new_notification
create_orphan_example =
    create_orphan 1 req "order-1" "down" refusing_world refusing_encodable refl refl (λ n. refl)
      (record { new_key = refl; new_id = refl; in_project = refl }) refl

noted-WellFormed : WellFormed noted_world
unfolding any_where
noted-WellFormed = record {
  keys = (refl, tt);
  ids = (refl, tt);
  targets = tt;
  recipient_ids = tt;
  backed = tt;
}

run-WellFormed_example : WellFormed (run history noted_world)
run-WellFormed_example = run-WellFormed history noted_world noted-WellFormed

run-terminal_example :
    find_where (recipient_has_id 9) (run history (world_at RecipientStatus.sent)).recipients
    ≡ some (recipient RecipientStatus.sent)
unfolding find_where is_terminal
run-terminal_example =
    run-terminal 9 (recipient RecipientStatus.sent) refl history (world_at RecipientStatus.sent)
      refl

handle_send_terminal_example :
    (handle_send first_attempt send (world_at RecipientStatus.failed)).1
    ≡ advance (world_at RecipientStatus.failed)
unfolding find_where is_terminal
handle_send_terminal_example =
    handle_send_terminal first_attempt send (world_at RecipientStatus.failed)
      (recipient RecipientStatus.failed) refl refl

unfoldable pub adapter_or : Option Adapter → Adapter
adapter_or none = accepting
adapter_or (some a) = a

pub accepting_plain : PlainAdapters (world_at RecipientStatus.queued)
unfolding adapter_or
accepting_plain name ad h cred req n =
    let same : accepting ≡ ad = ap adapter_or h in rw (sym same) (refl, refl)

queued-Fresh : Fresh first_attempt send (world_at RecipientStatus.queued)
unfolding find_where
queued-Fresh = (recipient RecipientStatus.queued, refl, omega arith)

queued-IsDone :
    IsDone first_attempt (handle_send first_attempt send (world_at RecipientStatus.queued)).0
unfolding handle_send get_notification_recipient query find_where is_terminal limiter_allow
    mark_recipient_sending mark_sending_found get_active_provider_credential update_recipients
    is_active_for open_envelope open_with call_adapter record_outcome mark_recipient_sent
queued-IsDone = tt

handle_send-IsSettled_example :
    IsSettled 9 (handle_send first_attempt send (world_at RecipientStatus.queued)).1
handle_send-IsSettled_example =
    handle_send-IsSettled first_attempt send (world_at RecipientStatus.queued) (λ n. refl)
      accepting_plain queued-Fresh queued-IsDone

abbrev pub renewal : UpsertDeviceParams
renewal = record {
  project_id = 1;
  token = "ExponentPushToken[7]";
  platform = "android";
  provider_type = "expo";
  metadata = end;
  subscriber_id = none;
}

pub renewed :
    upsert_device renewal noted_world
    ≡ (ok (merge_device renewal 1 phone), (upsert_device renewal noted_world).1)
unfolding upsert_device query mem_text find_where device_at has_project any_where merge_device
renewed = refl

opened : create_project "Shop" "boutique" fresh_world ≡ (
  ok (new_project "Shop" "boutique" (advance fresh_world)),
  (create_project "Shop" "boutique" fresh_world).1,
)
unfolding create_project insert_project query any_where new_project
opened = refl

abbrev queued_world : World
queued_world = world_at RecipientStatus.queued

counted :
    recipient_status_counts 5 queued_world
    ≡ (ok (groups 5 queued_world.recipients), advance queued_world)
unfolding recipient_status_counts count_recipient_statuses query
counted = refl
