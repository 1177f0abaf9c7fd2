-- ===== src/Api/Devices/Serialized.antt =====
-- What a registration leaves in the table of devices.
use slay_push.Api.Devices.Actives.{IsActiveOf, active-superseded}
use mathlib.Core.List.{Memᴰ}
use slay_push.Base.Text.{str_eq, ◌<>◌}
use mathlib.Core.Path.{subst}
use slay_push.Store.Transaction.Atomic.{in_transaction_err, in_transaction_ok}
use slay_push.Store.Monad.{pure, advance, wrapping}
use slay_push.Store.Upserts.{upsert_subscriber, device_at}
use slay_push.Store.Success.{ok_eq, query_ok, wrapping_ok, bind_ok}
use slay_push.Store.Upserts.Registered.{
  upsert_device-subscriber, upsert_device-IsRegistered, IsRegistered,
}
use slay_push.Errors.{err, Err, ok}
use slay_push.Store.Devices.{
  update_devices, mark_stale_stmt, mark_stale_devices_by_device_uuid, set_status, superseded_by,
}
use slay_push.Store.{DeviceStatus, World, Device}
use slay_push.Base.{
  any_where-none, ◌⊎◌, sym, ◌∙◌, ap, suc, find_where-update, some, find_where, ==_refl, arith, refl,
  [], inr, inl, Bool-cases, ◌∷◌, List, false, ◌≡◌, update_where, any_where, Bool, String, ℕ,
}
use slay_push.Api.Devices.{
  advisory_lock_device_uuid, locked_body, register_device_serialized, supersede, subscriber_of,
  Fields, RegisterRequest, upsert,
}

pub upsert-IsRegistered :
    (project_id : ℕ) (req : RegisterRequest) (metadata : Fields) (w v : World) (d : Device)
    → upsert project_id req metadata w ≡ (ok d, v)
    → IsRegistered project_id req.token d v
unfolding upsert
upsert-IsRegistered project_id req metadata w v d h =
    let (s, u, found, k) = bind_ok (subscriber_of project_id req.external_user_id w) _ d v h in
    upsert_device-IsRegistered _ u v d (wrapping_ok "upsert device" _ d v k)

module _ (project_id : ℕ) (d : Device) (device_uuid : String) where
  abbrev hit : Device → Bool
  hit = superseded_by project_id d.subscriber_id d.id device_uuid

  abbrev IsSpared : World → Type 0
  IsSpared v = any_where hit v.devices ≡ false

  stale-missed : (at : ℕ) (e : Device) → hit (set_status DeviceStatus.stale at e) ≡ false
  unfolding set_status superseded_by
  stale-missed at e = ground arith

  none-hit :
      (at : ℕ) (ds : List Device)
      → any_where hit (update_where hit (set_status DeviceStatus.stale at) ds) ≡ false
  unfolding any_where update_where
  none-hit at [] = refl
  none-hit at (e ∷ ds) = elim (Bool-cases (hit e)) [
    | inl struck ↦ rw (struck, stale-missed at e) (none-hit at ds)
    | inr missed ↦ rw (missed, missed) (none-hit at ds)
  ]

  spared : hit d ≡ false
  unfolding superseded_by
  spared = ground (arith, ==_refl d.id)

  found-spared :
      (token : String) (at : ℕ) (ds : List Device)
      → find_where (device_at project_id token) ds ≡ some d
      → find_where
          (device_at project_id token)
          (update_where hit (set_status DeviceStatus.stale at) ds)
        ≡ some d
  unfolding set_status device_at
  found-spared token at ds h =
      rw
        (
          find_where-update (device_at project_id token) hit (set_status DeviceStatus.stale at) ds
              (λ a. refl),
          h,
          spared,
        )
        refl

  supersede-IsSpared :
      (token : String) (w v : World) (e : Device)
      → IsRegistered project_id token d w
      → supersede project_id device_uuid d w ≡ (ok e, v)
      → (e ≡ d) × IsRegistered project_id token d v × IsSpared v
  unfolding supersede mark_stale_devices_by_device_uuid mark_stale_stmt update_devices
  supersede-IsSpared token w v e r h =
      let (rows, u, marked, k) =
        bind_ok
          (wrapping "supersede rotated devices"
            (mark_stale_devices_by_device_uuid project_id d.subscriber_id d.id device_uuid) w)
          _ e v h in
      let q = query_ok _ w rows u (wrapping_ok "supersede rotated devices" _ rows u marked) in
      let at = w.env.now (suc w.tick) in
      let after : update_devices hit (set_status DeviceStatus.stale at) (advance w) ≡ v =
        ap (λ x. x.1) q ∙ ap (λ x. x.1) k in
      let same : e ≡ d = cc in
      (
        same,
        (
          subst (λ x. find_where (device_at project_id token) x.devices ≡ some d) after
              (found-spared token at w.devices r.0),
          r.1,
          r.2,
          r.3,
        ),
        subst IsSpared after (none-hit at w.devices),
      )

upsert-subscriber :
    (project_id : ℕ) (req : RegisterRequest) (metadata : Fields) (w v : World) (d : Device)
    → str_eq req.external_user_id "" ≡ false
    → upsert project_id req metadata w ≡ (ok d, v)
    → (s : ℕ) × (d.subscriber_id ≡ some s)
unfolding upsert subscriber_of
upsert-subscriber project_id req metadata w v d named h =
    let (o, u, found, k) = bind_ok (subscriber_of project_id req.external_user_id w) _ d v h in
    let step = rw (subscriber_of, named) at found in
    let (s, u', got, done) =
      bind_ok (wrapping "upsert subscriber" (upsert_subscriber project_id req.external_user_id) w)
        (λ s. pure (some s.id)) o u step in
    let same : o ≡ some s.id = sym (ok_eq (some s.id) o u' u done) in
    (s.id, upsert_device-subscriber _ s.id u v d same (wrapping_ok "upsert device" _ d v k))

module _ (project_id : ℕ) (req : RegisterRequest) (device_uuid : String) where
  -- The device is the project's active device of its token; it has a subscriber, and it is the only
  -- active device of the project of that subscriber and with that device_uuid.
  pub record IsRotated (d : Device) (v : World) : Type 0 where
    pub found : IsRegistered project_id req.token d v
    pub subscriber : ℕ
    pub named : d.subscriber_id ≡ some subscriber
    pub sole :
        (e : Device)
        → Memᴰ e v.devices
        → IsActiveOf project_id device_uuid subscriber e
        → e.id ≡ d.id

  spared-sole :
      (d : Device) (subscriber : ℕ) (ds : List Device)
      → d.subscriber_id ≡ some subscriber
      → any_where (hit project_id d device_uuid) ds ≡ false
      → (e : Device) → Memᴰ e ds
      → IsActiveOf project_id device_uuid subscriber e
      → e.id ≡ d.id
  spared-sole d subscriber ds named spares e is_in a =
      let missed =
        subst (λ o. superseded_by project_id o d.id device_uuid e ≡ false) named
          (any_where-none (hit project_id d device_uuid) ds e spares is_in) in
      active-superseded project_id device_uuid subscriber d.id e a missed

  body-IsRotated :
      (metadata : Fields) (w u : World) (d : Device)
      → str_eq req.external_user_id "" ≡ false
      → locked_body project_id req device_uuid metadata (advance w) ≡ (ok d, u)
      → IsRotated d (advance u)
  unfolding locked_body
  body-IsRotated metadata w u d named ran =
      let (_, w1, locked, k1) =
        bind_ok
          (wrapping "acquire device registration lock"
            (advisory_lock_device_uuid
              (w.env.uuid_text project_id <> ":" <> req.external_user_id <> ":" <> device_uuid))
            (advance w))
          _ d u ran in
      let (e, w2, up, k2) = bind_ok (upsert project_id req metadata w1) _ d u k1 in
      let (s, named_so) = upsert-subscriber project_id req metadata w1 w2 e named up in
      let (same, found, spares) =
        supersede-IsSpared project_id e device_uuid req.token w2 u d
          (upsert-IsRegistered project_id req metadata w1 w2 e up) k2 in
      subst (λ x. IsRotated x (advance u)) (sym same)
        (record {
          found = found;
          subscriber = s;
          named = named_so;
          sole = spared-sole e s u.devices named_so spares;
        })

  -- A registration that names a user and a device_uuid, and returns no error, leaves its device as
  -- the project's device of its token, active, and no other device of the project of the same
  -- subscriber and device_uuid active.
  pub register_device_serialized-IsRotated :
      (metadata : Fields) (w v : World) (d : Device)
      → str_eq req.external_user_id "" ≡ false
      → register_device_serialized project_id req device_uuid metadata w ≡ (ok d, v)
      → IsRotated d v
  unfolding register_device_serialized
  register_device_serialized-IsRotated metadata w v d named h =
      let (u, ran, kept) =
        in_transaction_ok _ _ (locked_body project_id req device_uuid metadata) w v d h in
      subst (IsRotated d) (sym kept) (body-IsRotated metadata w u d named ran)

  -- A registration in a transaction, of a request that names a user, that returns an error leaves
  -- every table as it was, but where the commit went through and its reply was lost; then it has done
  -- what a success does.
  pub register_device_serialized_err :
      (metadata : Fields) (w v : World) (e : Err)
      → str_eq req.external_user_id "" ≡ false
      → register_device_serialized project_id req device_uuid metadata w ≡ (err e, v)
      → ((n : ℕ) × (v ≡ record w { tick = n })) ⊎ ((d : Device) × IsRotated d v)
  unfolding register_device_serialized
  register_device_serialized_err metadata w v e named h =
      elim (in_transaction_err _ _ (locked_body project_id req device_uuid metadata) w v e h) [
        | inl same ↦ inl same
        | inr (d, u, ran, kept) ↦
            inr (d, subst (IsRotated d) (sym kept) (body-IsRotated metadata w u d named ran))
      ]
