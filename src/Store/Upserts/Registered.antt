-- ===== src/Store/Upserts/Registered.antt =====
-- What a registration that returns no error leaves in the table of devices.
use slay_push.Store.Success.{query_ok}
use slay_push.Store.Monad.{advance}
use slay_push.Base.Text.{str_eq_refl, str_eq_iff}
use slay_push.Store.Devices.{same_device, update_devices}
use slay_push.Errors.{violation, err, ok, Result}
use slay_push.Base.{
  inr, inl, any_where, Bool-cases, false, none, ap, refl, find_where-update, arith, update_where,
  sym, if◌then◌else◌, find_where_sound, ==_refl, ◌∷◌, true, some, Bool, ◌≡◌, Option, List,
  find_where, String, ℕ,
}
use slay_push.Store.Upserts.{
  known_kind, new_device, upsert_found, upsert_device, merge_device, device_at, put_device,
  UpsertDeviceParams,
}
use slay_push.Store.{DeviceStatus, World, Device}

-- The device of a token in a project is this one, and it can be sent to.
abbrev pub IsRegistered : ℕ → String → Device → World → Type 0
IsRegistered project_id token d w =
    (find_where (device_at project_id token) w.devices ≡ some d)
    × (d.token ≡ token)
    × (d.project_id ≡ project_id)
    × (d.status ≡ DeviceStatus.active)

device_or : Device → Result Device → Device
device_or d (ok e) = e
device_or d (err _) = d

pub put_ok : (d e : Device) (w v u : World) → put_device d w v ≡ (ok e, u) → (d ≡ e) × (v ≡ u)
unfolding put_device device_or
put_ok d e w v u h = go _ h
  where
    go :
        (b : Bool)
        → ◌≡◌ {A = Result Device × World}
            (if b then (ok d, v) else (err (violation "devices_fkey"), w))
            (ok e, u)
        → (d ≡ e) × (v ≡ u)
    go true k = (ap (λ z. device_or d z.0) k, ap (λ z. z.1) k)
    go false k = cc

module _ (p : UpsertDeviceParams) where
  at_key :
      (d : Device)
      → device_at p.project_id p.token d ≡ true
      → (d.token ≡ p.token) × (d.project_id ≡ p.project_id)
  unfolding device_at
  at_key d h = ((str_eq_iff d.token p.token).0 (ground arith), ground arith)

  merged_row :
      (now : ℕ) (ds : List Device) (d : Device)
      → find_where (device_at p.project_id p.token) ds ≡ some d
      → find_where
          (device_at p.project_id p.token)
          (update_where (device_at p.project_id p.token) (merge_device p now) ds)
        ≡ some (merge_device p now d)
  unfolding merge_device device_at
  merged_row now ds d h =
      rw
        (
          find_where-update (device_at p.project_id p.token) (device_at p.project_id p.token)
              (merge_device p now) ds (λ a. refl),
          h,
          find_where_sound (device_at p.project_id p.token) ds d h,
        )
        refl

  merged-IsRegistered :
      (w : World) (d : Device)
      → find_where (device_at p.project_id p.token) w.devices ≡ some d
      → IsRegistered p.project_id p.token
          (merge_device p (w.env.now w.tick) d)
          (update_devices (device_at p.project_id p.token) (merge_device p (w.env.now w.tick)) w)
  unfolding merge_device update_devices
  merged-IsRegistered w d h =
      let k = at_key d (find_where_sound _ w.devices d h) in
      (merged_row (w.env.now w.tick) w.devices d h, k.0, k.1, refl)

  new-IsRegistered :
      (w : World)
      → IsRegistered p.project_id p.token
          (new_device p w)
          (record w { devices = new_device p w ∷ w.devices })
  unfolding find_where new_device device_at
  new-IsRegistered w = (rw (==_refl p.project_id, str_eq_refl p.token) refl, refl, refl, refl)

  found-IsRegistered :
      (o : Option Device) (w v : World) (d : Device)
      → find_where (device_at p.project_id p.token) w.devices ≡ o
      → upsert_found o p w ≡ (ok d, v)
      → IsRegistered p.project_id p.token d v
  unfolding upsert_found
  found-IsRegistered (some e) w v d f h =
      let (same, world) = put_ok _ d w _ v h in rw (sym same, sym world) (merged-IsRegistered w e f)
  found-IsRegistered none w v d f h = go _ h
    where
      go :
          (b : Bool)
          → ◌≡◌ {A = Result Device × World}
              (if b
                then (err (violation "devices_pkey"), w)
                else put_device
                    (new_device p w)
                    w
                    (record w { devices = new_device p w ∷ w.devices }))
              (ok d, v)
          → IsRegistered p.project_id p.token d v
      go true k = cc
      go false k =
          let (same, world) = put_ok _ d w _ v k in rw (sym same, sym world) (new-IsRegistered w)

  -- A device that UpsertDevice returns without an error is the project's device of its token, and
  -- it is active, whatever its row was before.
  pub upsert_device-IsRegistered :
      (w v : World) (d : Device)
      → upsert_device p w ≡ (ok d, v)
      → IsRegistered p.project_id p.token d v
  unfolding upsert_device
  upsert_device-IsRegistered w v d h = go _ (query_ok _ w d v h)
    where
      go :
          (b : Bool)
          → ◌≡◌ {A = Result Device × World}
              (if b
                then upsert_found
                    (find_where (device_at p.project_id p.token) w.devices)
                    p
                    (advance w)
                else (err (violation "devices_check"), advance w))
              (ok d, v)
          → IsRegistered p.project_id p.token d v
      go true k = found-IsRegistered _ (advance w) v d refl k
      go false k = cc

  found-subscriber :
      (o : Option Device) (s : ℕ) (w v : World) (d : Device)
      → p.subscriber_id ≡ some s
      → upsert_found o p w ≡ (ok d, v)
      → d.subscriber_id ≡ some s
  unfolding upsert_found merge_device new_device
  found-subscriber (some e) s w v d b h =
      let (same, world) = put_ok _ d w _ v h in rw (sym same, b) refl
  found-subscriber none s w v d b h =
      elim (Bool-cases (any_where (same_device (new_device p w)) w.devices)) [
        | inl taken ↦ let k = rw (upsert_found, taken) at h in cc
        | inr fresh ↦
            let (same, world) = put_ok _ d w _ v (rw (upsert_found, fresh) at h) in
            rw (sym same, b) refl
      ]

  -- The subscriber that an upsert names is the one of the row that it returns.
  pub upsert_device-subscriber :
      (s : ℕ) (w v : World) (d : Device)
      → p.subscriber_id ≡ some s
      → upsert_device p w ≡ (ok d, v)
      → d.subscriber_id ≡ some s
  unfolding upsert_device
  upsert_device-subscriber s w v d b h =
      let q = query_ok _ w d v h in
      elim (Bool-cases (known_kind p.platform p.provider_type)) [
        | inl fits ↦ found-subscriber _ s (advance w) v d b (rw fits at q)
        | inr unfit ↦ let k = rw unfit at q in cc
      ]

  found-provider :
      (o : Option Device) (w v : World) (d : Device)
      → upsert_found o p w ≡ (ok d, v)
      → d.provider_type ≡ p.provider_type
  unfolding upsert_found merge_device new_device
  found-provider (some e) w v d h = let (same, world) = put_ok _ d w _ v h in rw (sym same) refl
  found-provider none w v d h =
      elim (Bool-cases (any_where (same_device (new_device p w)) w.devices)) [
        | inl taken ↦ let k = rw (upsert_found, taken) at h in cc
        | inr fresh ↦
            let (same, world) = put_ok _ d w _ v (rw (upsert_found, fresh) at h) in
            rw (sym same) refl
      ]

  -- The provider of the row that an upsert returns is the one named, and the schema knows it.
  pub upsert_device-provider :
      (w v : World) (d : Device)
      → upsert_device p w ≡ (ok d, v)
      → (d.provider_type ≡ p.provider_type) × (known_kind p.platform p.provider_type ≡ true)
  unfolding upsert_device
  upsert_device-provider w v d h =
      let q = query_ok _ w d v h in
      elim (Bool-cases (known_kind p.platform p.provider_type)) [
        | inl fits ↦ (found-provider _ (advance w) v d (rw fits at q), fits)
        | inr unfit ↦ let k = rw unfit at q in cc
      ]
