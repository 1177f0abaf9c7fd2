-- ===== src/Store/Upserts/Kept.antt =====
-- The devices that the two upserts of a registration leave as they were.
use mathlib.Core.List.{Memᴰ}
use mathlib.Core.Path.{subst}
use slay_push.Store.Success.{query_ok}
use slay_push.Store.Monad.{advance}
use slay_push.Store.Devices.{same_device, update_devices}
use slay_push.Store.Projects.{has_project}
use slay_push.Store.Upserts.Registered.{put_ok}
use slay_push.Store.Upserts.{
  upsert_subscriber, upsert_subscriber_found, new_subscriber, upsert_found, upsert_device,
  device_at, new_device, UpsertDeviceParams,
}
use slay_push.Store.{World, Device, Subscriber}
use slay_push.Errors.{ok, err, violation, Result}
use slay_push.Base.{
  if◌then◌else◌, ◌==◌, find_where, any_where, mem-update_where, ◌≡◌, false, true, sym, ap, ◌∙◌,
  refl, some, none, inl, inr, Bool-cases, Option, ℕ, String, Bool,
}

found-devices :
    (o : Option Subscriber) (project_id : ℕ) (external_id : String) (w : World)
    → (upsert_subscriber_found o project_id external_id w).1.devices ≡ w.devices
unfolding upsert_subscriber_found
found-devices (some s) project_id external_id w = refl
found-devices none project_id external_id w =
    elim (Bool-cases
      (any_where (λ t. t.id == (new_subscriber project_id external_id w).id) w.subscribers)) [
        | inl clash ↦ rw clash refl
        | inr fresh ↦ elim (Bool-cases (has_project project_id w)) [
          | inl there ↦ rw (fresh, there) refl
          | inr absent ↦ rw (fresh, absent) refl
        ]
      ]

-- UpsertSubscriber does not write to the table of devices.
pub upsert_subscriber-devices :
    (project_id : ℕ) (external_id : String) (w v : World) (s : Subscriber)
    → upsert_subscriber project_id external_id w ≡ (ok s, v)
    → v.devices ≡ w.devices
unfolding upsert_subscriber
upsert_subscriber-devices project_id external_id w v s h =
    ap (λ x. x.1.devices) (sym (query_ok _ w s v h))
    ∙ found-devices _ project_id external_id (advance w)

module _ (p : UpsertDeviceParams) (e : Device)
    (other : device_at p.project_id p.token e ≡ false) where
  found-Memᴰ :
      (o : Option Device) (w v : World) (d : Device)
      → upsert_found o p w ≡ (ok d, v)
      → Memᴰ e w.devices
      → Memᴰ e v.devices
  unfolding upsert_found update_devices
  found-Memᴰ (some x) w v d h is_in =
      let (same, world) = put_ok _ d w _ v h in
      subst (λ u. Memᴰ e u.devices) world (mem-update_where _ _ w.devices e other is_in)
  found-Memᴰ none w v d h is_in =
      elim (Bool-cases (any_where (same_device (new_device p w)) w.devices)) [
        | inl taken ↦ let k = rw (upsert_found, taken) at h in cc
        | inr fresh ↦
            let (same, world) = put_ok _ d w _ v (rw (upsert_found, fresh) at h) in
            subst (λ u. Memᴰ e u.devices) world (Memᴰ.tail is_in)
      ]

  -- UpsertDevice keeps every device but the project's of its token.
  pub upsert_device-Memᴰ :
      (w v : World) (d : Device)
      → upsert_device p w ≡ (ok d, v)
      → Memᴰ e w.devices
      → Memᴰ e v.devices
  unfolding upsert_device
  upsert_device-Memᴰ w v d h is_in = go _ (query_ok _ w d v h)
    where
      go :
          (b : Bool)
          → ◌≡◌ {A = Result Device × World}
              (if b
                then upsert_found
                    (find_where (device_at p.project_id p.token) w.devices)
                    p
                    (advance w)
                else (err (violation "devices_check"), advance w))
              (ok d, v)
          → Memᴰ e v.devices
      go true k = found-Memᴰ _ (advance w) v d k is_in
      go false k = cc
