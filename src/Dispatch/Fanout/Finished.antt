-- ===== src/Dispatch/Fanout/Finished.antt =====
-- A fanout that nothing outside stands in the way of returns no error.
use slay_push.Store.Recipients.{max_int}
use slay_push.Dispatch.Fanout.Tasks.{content_of, decode-env}
use slay_push.Errors.{ok}
use slay_push.Base.Text.{str_eq}
use slay_push.Queue.{SendPayload, Task, FanoutPayload}
use slay_push.Store.Fates.{query_runs, AllRun}
use slay_push.Dispatch.Fanout.Runs.{loop_runs, retries, IsBacked, Leaves, Calm}
use slay_push.Store.Devices.{listed, get_devices_by_ids}
use slay_push.Base.Json.{Data}
use slay_push.Store.Notifications.{
  has_id, update_notifications, set_notification_status, set_notification_totals,
}
use slay_push.Dispatch.Fanout.{int32, send_to_devices, decode_data}
use slay_push.Store.{NotificationStatus, NotificationRecipient, World, Device, Notification}
use slay_push.Store.Monad.{advance, ◌>>=◌, wrapping, M}
use slay_push.Base.{
  update_where, suc, ◌<◌, ap, ◌∙◌, refl, [], ◌+◌, inr, arith, ==_refl, true, inl, ◌∷◌, Bool-cases,
  ◌==◌, ◌≡◌, ℕ, All, String, Bool, select_where, any_where, List,
}

any_device-cons :
    (x : Device) (xs ys : List Device)
    → All (λ d. any_where (λ a. a.id == d.id) xs ≡ true) ys
    → All (λ d. any_where (λ a. a.id == d.id) (x ∷ xs) ≡ true) ys
unfolding any_where
any_device-cons x xs [] h = tt
any_device-cons x xs (y ∷ ys) h = (ground arith, any_device-cons x xs ys h.1)

each_there : (ds : List Device) → All (λ d. any_where (λ a. a.id == d.id) ds ≡ true) ds
unfolding any_where
each_there [] = tt
each_there (d ∷ ds) = (rw (==_refl d.id) refl, any_device-cons d ds ds (each_there ds))

All-selected :
    {A : Type 0} (P : A → Type 0) (p : A → Bool) (xs : List A)
    → All P xs
    → All P (select_where p xs)
unfolding select_where
All-selected P p [] h = tt
All-selected P p (x ∷ xs) h = elim (Bool-cases (p x)) [
  | inl hit ↦ rw hit (h.0, All-selected P p xs h.1)
  | inr miss ↦ rw miss (All-selected P p xs h.1)
]

all-IsBacked :
    (ns : List Notification) (es ds : List Device) (nid : ℕ)
    → any_where (has_id nid) ns ≡ true
    → All (λ d. any_where (λ a. a.id == d.id) es ≡ true) ds
    → All (λ d. IsBacked ns es nid d.id) ds
all-IsBacked ns es [] nid h there = tt
all-IsBacked ns es (d ∷ ds) nid h there =
    (record { of_notification = h; of_device = there.0 }, all-IsBacked ns es ds nid h there.1)

decode_pure : (text : String) (u : World) → decode_data text u ≡ ((decode_data text u).0, u)
unfolding decode_data
decode_pure text u = elim (Bool-cases (str_eq text "")) [
  | inl empty ↦ rw empty refl
  | inr full ↦ rw full refl
]

-- What the send stage and the handler need of the world's tables.
pub record Startable (n : Notification) (fields : Data) (w : World) : Type 0 where
  pub calm : Calm w.env
  pub rows : Leaves w.env w.tick w.recipients
  pub there : any_where (has_id n.id) w.notifications ≡ true
  pub decodes : (decode_data n.payload w).0 ≡ ok fields

-- A call that returns no error, in a world that differs in its notifications, its recipients and its
-- tasks alone, with room left for the attempts of each recipient.
pub record Finishes (m : M (Unit {0})) (w : World) : Type 0 where
  pub tick : ℕ
  pub notes : List Notification
  pub left : List NotificationRecipient
  pub queued : List (Task SendPayload)
  pub runs :
      m w
      ≡ (ok tt, record w { tick = tick; notifications = notes; recipients = left; sends = queued })
  pub room : All (λ r. r.attempt_count + retries < max_int) left

ends_run :
    (text : String) (nid total : ℕ) (u : World)
    → AllRun u
    → (wrapping text (set_notification_totals nid total) >>= λ _.
          set_notification_status nid NotificationStatus.processing)
        u
      ≡ (
        ok tt,
        update_notifications nid
            (λ n. record n { status = NotificationStatus.processing })
            (advance
              (update_notifications nid (λ n. record n { total_recipients = total }) (advance u))),
      )
unfolding set_notification_totals set_notification_status update_notifications
ends_run text nid total u up =
    let totalled =
      update_notifications nid (λ n. record n { total_recipients = total }) (advance u) in
    rw (query_runs _ u (up u.tick)) (query_runs _ totalled (up (suc u.tick)))

pub send_to_devices-Finishes :
    (p : FanoutPayload) (n : Notification) (ids : List ℕ) (fields : Data) (w : World)
    → Startable n fields w
    → Finishes (send_to_devices p n ids) w
unfolding send_to_devices get_devices_by_ids update_notifications
send_to_devices-Finishes p n ids fields w start =
    let ds = select_where (listed n.project_id ids) w.devices in
    let u = advance w in
    let decoded =
      decode_pure n.payload u ∙ ap (λ x. (x, u)) (decode-env n.payload w u refl ∙ start.decodes) in
    let backed =
      all-IsBacked w.notifications w.devices ds n.id start.there
        (All-selected _ (listed n.project_id ids) w.devices (each_there w.devices)) in
    let later : Leaves w.env u.tick u.recipients = record {
      unused = λ k more. start.rows.unused k (omega arith);
      room = start.rows.room;
    } in
    let loop = loop_runs p n.id (content_of n fields) 0 ds u start.calm backed later in
    let fanned : World = record u {
      tick = loop.tick;
      recipients = loop.left;
      sends = loop.queued;
    } in
    let total = int32 loop.answer in
    record {
      tick = suc (suc loop.tick);
      notes =
          update_where (has_id n.id) (λ n. record n { status = NotificationStatus.processing })
            (update_where (has_id n.id) (λ n. record n { total_recipients = total })
              w.notifications);
      left = loop.left;
      queued = loop.queued;
      runs =
          rw (query_runs _ w (start.calm.up w.tick), decoded, loop.runs)
            (ends_run "set notification totals" n.id total fanned start.calm.up);
      room = loop.leaves.room;
    }
