-- ===== src/Dispatch/Fanout/Tasks.antt =====
-- A fanout whose send stage succeeds has a send task for each of its devices.
use slay_push.Store.Notifications.{set_notification_status, set_notification_totals}
use slay_push.Dispatch.Fanout.Success.{send_to_devices-IsCovered, IsFannedOut, devices_in}
use slay_push.Store.Devices.{listed, get_devices_by_ids}
use slay_push.Base.Json.{Data}
use mathlib.Core.List.{Memᴰ}
use slay_push.Dispatch.Fanout.Coverage.{get_or_create_finds}
use slay_push.Base.Text.{str_eq, ◌<>◌}
use slay_push.Store.Success.{query_ok, wrapping_ok, bind_ok}
use slay_push.Errors.{is_task_id_conflict, Result-cases, Result, ok}
use slay_push.Dispatch.Fanout.Queued.{
  status-Keeps, totals-Keeps, Stable, get_or_create-Keeps, IsQueued-Stable, fanout_loop-Keeps,
  env-Stable, fanout_one-Keeps, IsQueued, NoConflict,
}
use slay_push.Store.Keeps.{keeping, Keeps}
use slay_push.Base.{
  length, ◌∙◌, select_where, Bool-cases, String, inr, inl, [], ◌≢◌, ◌+◌, refl, ◌∷◌, ap, All, sym,
  List, ℕ, ◌≡◌,
}
use slay_push.Queue.{send_task, SendPayload, FanoutPayload}
use slay_push.Dispatch.Fanout.{
  int32, text_or_empty, send_to_devices, decode_data, send_payload, get_or_create_recipient,
  Content, fanout_one, fanout_loop,
}
use slay_push.Queue.Enqueue.{forgive_conflict, log_send, enqueue, send_now, enqueue_send}
use slay_push.Store.{NotificationStatus, Notification, EnqueueFate, Device, Env, World}
use slay_push.Store.Monad.{◌>>=◌, advance, wrapping, M}

enqueue_ok :
    (q : SendPayload) (u v : World)
    → NoConflict u
    → enqueue_send q u ≡ (ok tt, v)
    → (v.recipients ≡ u.recipients) × (v.sends ≡ send_task q ∷ u.sends)
unfolding enqueue_send send_now is_task_id_conflict
enqueue_ok q u v free h = elim (Result-cases (u.env.marshal_data q.payload)) [
  | inl (e, bad) ↦ let k = rw (enqueue_send, bad) at h in cc
  | inr (s, good) ↦
      go (u.env.enqueue_fate u.tick) (free u.tick) (rw (enqueue_send, send_now, good) at h)
]
  where
    go :
        (f : EnqueueFate)
        → f ≢ EnqueueFate.conflict
        → (let x = enqueue f (log_send (send_task q)) (advance u) in
            ◌≡◌ {A = Result (Unit {0}) × World} (forgive_conflict x.0, x.1) (ok tt, v))
        → (v.recipients ≡ u.recipients) × (v.sends ≡ send_task q ∷ u.sends)
    go EnqueueFate.accepted other k =
        (sym (ap (λ z. z.1.recipients) k), sym (ap (λ z. z.1.sends) k))
    go EnqueueFate.conflict other k = absurd (other refl)
    go (EnqueueFate.refused s) other k = cc
    go (EnqueueFate.lost s) other k = cc

same_env :
    {A : Type 0} (m : M A) (w v : World) (a : A)
    → ((e : Env) → Keeps (λ u. u.env ≡ e) m)
    → m w ≡ (ok a, v)
    → v.env ≡ w.env
same_env m w v a k h = rw (sym (ap (λ z. z.1) h)) ((k w.env).keep w refl)

moved_free : (w v : World) → v.env ≡ w.env → NoConflict w → NoConflict v
moved_free w v e free n = rw e (free n)

one_queues :
    (p : FanoutPayload) (nid : ℕ) (c : Content) (d : Device) (w v : World)
    → NoConflict w
    → fanout_one p nid c d w ≡ (ok tt, v)
    → IsQueued p nid c d v
unfolding fanout_one
one_queues p nid c d w v free h =
    let (r, u, got, rest) =
      bind_ok
        (wrapping ("insert recipient for device " <> w.env.uuid_text d.id)
          (get_or_create_recipient nid d.id d.provider_type) w)
        _ tt v h in
    let made = wrapping_ok _ _ r u got in
    let free' =
      moved_free w u
        (same_env _ w u r (λ e. get_or_create-Keeps (env-Stable e) nid d.id d.provider_type) made)
        free in
    let (rows, tasks) = enqueue_ok (send_payload p c r d) u v free' (wrapping_ok _ _ tt v rest) in
    (
      r,
      rw rows (get_or_create_finds nid d.id d.provider_type w u r made),
      rw tasks (Memᴰ.head refl),
    )

loop_queues :
    (p : FanoutPayload) (nid : ℕ) (c : Content) (k : ℕ) (ds : List Device) (w v : World) (m : ℕ)
    → NoConflict w
    → fanout_loop p nid c k ds w ≡ (ok m, v)
    → All (λ d. IsQueued p nid c d v) ds
unfolding fanout_loop
loop_queues p nid c k [] w v m free h = tt
loop_queues p nid c k (d ∷ ds) w v m free h =
    let (a, u, one, rest) =
      bind_ok (fanout_one p nid c d w) (λ _. fanout_loop p nid c (k + 1) ds) m v h in
    let free' =
      moved_free w u (same_env _ w u a (λ e. fanout_one-Keeps (env-Stable e) p nid c d) one) free in
    (
      rw (sym (ap (λ z. z.1) rest)) (
          (fanout_loop-Keeps (IsQueued-Stable p nid c d) p nid c (k + 1) ds).keep u
            (one_queues p nid c d w u free one)),
      loop_queues p nid c (k + 1) ds u v m free' rest,
    )

abbrev pub content_of : Notification → Data → Content
content_of n fields = record {
  title = text_or_empty n.title;
  body = text_or_empty n.body;
  payload = fields;
}

pub decode-env :
    (text : String) (w u : World) → u.env ≡ w.env → (decode_data text u).0 ≡ (decode_data text w).0
unfolding decode_data
decode-env text w u e = elim (Bool-cases (str_eq text "")) [
  | inl empty ↦ rw empty refl
  | inr full ↦ rw (full, e) refl
]

decode-Keeps : (e : Env) (text : String) → Keeps (λ u. u.env ≡ e) (decode_data text)
unfolding decode_data
decode-Keeps e text = search keeping

after-Keeps :
    {P : World → Type 0}
    → Stable P
    → (text : String) (nid total : ℕ)
    → Keeps P (
        wrapping text (set_notification_totals nid total) >>= λ _.
        set_notification_status nid NotificationStatus.processing)
after-Keeps st text nid total = search (keeping, totals-Keeps st, status-Keeps st)

moved-All :
    (p : FanoutPayload) (nid : ℕ) (c : Content) (u v : World) (ds : List Device)
    → ((d : Device) → IsQueued p nid c d u → IsQueued p nid c d v)
    → All (λ d. IsQueued p nid c d u) ds
    → All (λ d. IsQueued p nid c d v) ds
moved-All p nid c u v [] f h = tt
moved-All p nid c u v (d ∷ ds) f h = (f d h.0, moved-All p nid c u v ds f h.1)

pub send_to_devices-IsQueued :
    (p : FanoutPayload) (n : Notification) (ids : List ℕ) (w v : World)
    → NoConflict w
    → send_to_devices p n ids w ≡ (ok tt, v)
    → (fields : Data) × ((decode_data n.payload w).0 ≡ ok fields)
      × All
          (λ d. IsQueued p n.id (content_of n fields) d v)
          (select_where (listed n.project_id ids) w.devices)
      × All
          (IsFannedOut n.id (int32 (length (select_where (listed n.project_id ids) w.devices))))
          v.notifications
unfolding send_to_devices get_devices_by_ids devices_in
send_to_devices-IsQueued p n ids w v free h =
    let (ds, u, got, rest) =
      bind_ok (wrapping "fetch devices" (get_devices_by_ids n.project_id ids) w) _ tt v h in
    let (fields, u1, decoded, rest1) = bind_ok (decode_data n.payload u) _ tt v rest in
    let (m, u2, looped, rest2) =
      bind_ok (fanout_loop p n.id (content_of n fields) 0 ds u1) _ tt v rest1 in
    let read = query_ok _ w ds u (wrapping_ok _ _ ds u got) in
    let listed_all : select_where (listed n.project_id ids) w.devices ≡ ds =
      ap (λ z. devices_in z.0) read in
    let env_u : u.env ≡ w.env = sym (ap (λ z. z.1.env) read) in
    let free' =
      moved_free u u1 (same_env _ u u1 fields (λ e. decode-Keeps e n.payload) decoded)
        (moved_free w u env_u free) in
    let all = loop_queues p n.id (content_of n fields) 0 ds u1 u2 m free' looped in
    (
      fields,
      sym (decode-env n.payload w u env_u) ∙ ap (λ z. z.0) decoded,
      rw listed_all (
          moved-All p n.id (content_of n fields) u2 v ds
            (λ d q. rw (sym (ap (λ z. z.1) rest2)) (
              (after-Keeps (IsQueued-Stable p n.id (content_of n fields) d) _ n.id (int32 m)).keep
                u2 q))
            all),
      (send_to_devices-IsCovered p n ids w v h).1,
    )
