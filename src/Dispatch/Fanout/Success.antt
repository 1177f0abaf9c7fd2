-- ===== src/Dispatch/Fanout/Success.antt =====
-- What a fanout that returns no error has done: the loop of HandleFanout over the devices.
use slay_push.Store.Effects.{set_notification_totals-moves, set_notification_status-moves}
use slay_push.Store.Notifications.{
  update_notifications, has_id, set_notification_status, set_notification_totals,
}
use slay_push.Queue.Enqueue.{enqueue_send}
use slay_push.Base.Text.{◌<>◌}
use slay_push.Store.Devices.{get_devices_by_ids, listed}
use slay_push.Store.Success.{query_ok, wrapping_ok, bind_ok}
use slay_push.Errors.{err, Result, ok}
use slay_push.Store.Moves.{here, Trace}
use slay_push.Store.Keeps.{keeping, Keeps}
use slay_push.Store.{NotificationStatus, Device, World, Notification}
use slay_push.Store.Monad.{◌>>=◌, wrapping, M}
use slay_push.Queue.{SendPayload, FanoutPayload}
use slay_push.Base.{
  refl, inr, inl, Bool-cases, true, update_where, ◌==◌, [], arith, ◌∷◌, String, length,
  select_where, ap, ◌+◌, sym, All, ◌≡◌, List, ℕ,
}
use slay_push.Dispatch.Fanout.{
  int32, text_or_empty, decode_data, send_payload, get_or_create_recipient, Content,
  send_to_devices, fanout_one, fanout_loop,
}
use slay_push.Dispatch.Fanout.Effects.{enqueue_send-moves, fanout_loop-moves}
use slay_push.Dispatch.Fanout.Coverage.{IsCovered, Trace-IsCovered, get_or_create_covers}

-- What a call keeps, at the world it ended in.
module _ {A : Type 0} (nid did : ℕ) where
  kept :
      (m : M A) (u v : World) (a : A)
      → ((w : World) → Keeps (Trace (λ _. ⊥) w) m)
      → m u ≡ (ok a, v)
      → IsCovered nid did u
      → IsCovered nid did v
  kept m u v a k h c = rw (sym (ap (λ z. z.1) h)) (Trace-IsCovered nid did ((k u).keep u here) c)

enqueued-moves :
    (text : String) (p : SendPayload) (w : World)
    → Keeps (Trace (λ _. ⊥) w) (wrapping text (enqueue_send p))
enqueued-moves text p w = search (keeping, enqueue_send-moves)

one_covers :
    (p : FanoutPayload) (nid : ℕ) (c : Content) (d : Device) (w v : World)
    → fanout_one p nid c d w ≡ (ok tt, v)
    → IsCovered nid d.id v
unfolding fanout_one
one_covers p nid c d w v h =
    let (r, u, got, rest) =
      bind_ok
        (wrapping ("insert recipient for device " <> w.env.uuid_text d.id)
          (get_or_create_recipient nid d.id d.provider_type) w)
        _ tt v h in
    kept nid d.id
      (wrapping ("enqueue send for recipient " <> w.env.uuid_text r.id)
        (enqueue_send (send_payload p c r d)))
      u v tt (λ x. enqueued-moves _ _ x) rest
      (get_or_create_covers nid d.id d.provider_type w u r (wrapping_ok _ _ r u got))

ok_or_zero : Result ℕ → ℕ
ok_or_zero (ok n) = n
ok_or_zero (err e) = 0

pub loop_covers :
    (p : FanoutPayload) (nid : ℕ) (c : Content) (k : ℕ) (ds : List Device) (w v : World) (m : ℕ)
    → fanout_loop p nid c k ds w ≡ (ok m, v)
    → All (λ d. IsCovered nid d.id v) ds × (m ≡ k + length ds)
unfolding fanout_loop ok_or_zero
loop_covers p nid c k [] w v m h = (tt, ok_count (ap (λ z. ok_or_zero z.0) h))
  where
    ok_count : k ≡ m → m ≡ k + 0
    ok_count e = omega (arith, e)
loop_covers p nid c k (d ∷ ds) w v m h =
    let (a, u, one, rest) =
      bind_ok (fanout_one p nid c d w) (λ _. fanout_loop p nid c (k + 1) ds) m v h in
    let (all, count) = loop_covers p nid c (k + 1) ds u v m rest in
    (
      (
        kept nid d.id (fanout_loop p nid c (k + 1) ds) u v m
            (λ x. fanout_loop-moves x p nid c (k + 1) ds) rest (one_covers p nid c d w u one),
        all,
      ),
      omega (arith, count),
    )

-- A notification whose fanout has finished, with the number of its sends.
abbrev pub IsFannedOut : ℕ → ℕ → Notification → Type 0
IsFannedOut nid count n =
    (n.id == nid) ≡ true → (n.status ≡ NotificationStatus.processing) × (n.total_recipients ≡ count)

two_updates :
    (nid total : ℕ) (ns : List Notification)
    → All (IsFannedOut nid total) (
        update_where
          (has_id nid)
          (λ n. record n { status = NotificationStatus.processing })
          (update_where (has_id nid) (λ n. record n { total_recipients = total }) ns))
unfolding update_where
two_updates nid total [] = tt
two_updates nid total (n ∷ ns) = (
  elim (Bool-cases (n.id == nid)) [
    | inl hit ↦ rw (hit, hit) (λ _. (refl, refl))
    | inr miss ↦ rw (miss, miss) (λ e. cc)
  ],
  two_updates nid total ns,
)

-- The two statements after the loop.
ends_with :
    (text : String) (nid total : ℕ) (u v : World)
    → (wrapping text (set_notification_totals nid total) >>= λ _.
          set_notification_status nid NotificationStatus.processing)
        u
      ≡ (ok tt, v)
    → ((did : ℕ) → IsCovered nid did u → IsCovered nid did v)
      × All (IsFannedOut nid total) v.notifications
unfolding set_notification_totals set_notification_status update_notifications
ends_with text nid total u v h =
    let (_, x, totalled, set) =
      bind_ok (wrapping text (set_notification_totals nid total) u) _ tt v h in
    let q = wrapping_ok text _ tt x totalled in
    (
      λ did c.
          kept nid did (set_notification_status nid NotificationStatus.processing) x v tt
            (λ y. set_notification_status-moves y nid _) set
            (kept nid did (set_notification_totals nid total) u x tt
              (λ y. set_notification_totals-moves y nid total) q c),
      updated x q set,
    )
  where
    updated :
        (x : World)
        → set_notification_totals nid total u ≡ (ok tt, x)
        → set_notification_status nid NotificationStatus.processing x ≡ (ok tt, v)
        → All (IsFannedOut nid total) v.notifications
    updated x q r =
        rw
          (
            sym (ap (λ z. z.1.notifications) (query_ok _ x tt v r)),
            sym (ap (λ z. z.1.notifications) (query_ok _ u tt x q)),
          )
          (two_updates nid total u.notifications)

map-All :
    {P Q : Device → Type 0} → ((d : Device) → P d → Q d) → (ds : List Device) → All P ds → All Q ds
map-All f [] h = tt
map-All f (d ∷ ds) h = (f d h.0, map-All f ds h.1)

unfoldable pub devices_in : Result (List Device) → List Device
devices_in (ok ds) = ds
devices_in (err e) = []

conclude :
    (nid m : ℕ) (ds es : List Device) (u v : World)
    → es ≡ ds
    → m ≡ 0 + length ds
    → ((did : ℕ) → IsCovered nid did u → IsCovered nid did v)
    → All (λ d. IsCovered nid d.id u) ds
    → All (IsFannedOut nid (int32 m)) v.notifications
    → All (λ d. IsCovered nid d.id v) es × All (IsFannedOut nid (int32 (length es))) v.notifications
conclude nid m ds es u v same count moved all totals =
    let count' : m ≡ length ds = omega (arith, count) in
    rw same (map-All (λ d. moved d.id) ds all, rw (sym count') totals)

-- Once the sends of a fanout have gone out without an error, there is a recipient for each device
-- of its project among the ids, and the notification is processing with their number for total.
pub send_to_devices-IsCovered :
    (p : FanoutPayload) (n : Notification) (ids : List ℕ) (w v : World)
    → send_to_devices p n ids w ≡ (ok tt, v)
    → All (λ d. IsCovered n.id d.id v) (select_where (listed n.project_id ids) w.devices)
      × All
          (IsFannedOut n.id (int32 (length (select_where (listed n.project_id ids) w.devices))))
          v.notifications
unfolding send_to_devices devices_in get_devices_by_ids
send_to_devices-IsCovered p n ids w v h =
    let (ds, u, got, rest) =
      bind_ok (wrapping "fetch devices" (get_devices_by_ids n.project_id ids) w) _ tt v h in
    let (payload, u1, decoded, rest1) = bind_ok (decode_data n.payload u) _ tt v rest in
    let (m, u2, looped, rest2) =
      bind_ok
        (fanout_loop p n.id
          (record { title = text_or_empty n.title; body = text_or_empty n.body; payload = payload })
          0 ds u1)
        _ tt v rest1 in
    let (all, count) = loop_covers p n.id _ 0 ds u1 u2 m looped in
    let fetched = ap (λ z. devices_in z.0) (query_ok _ w ds u (wrapping_ok _ _ ds u got)) in
    let (moved, totals) = ends_with _ n.id (int32 m) u2 v rest2 in
    conclude n.id m ds _ u2 v fetched count moved all totals
