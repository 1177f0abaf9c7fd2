-- ===== src/Api/Devices/Registers.antt =====
-- What a 200 of POST /devices means.
use mathlib.Core.Path.{subst}
use mathlib.Core.List.{Memᴰ}
use slay_push.Api.Devices.Spared.{
  IsOther, IsSuperseded, upsert-spares, register_device_serialized-spares,
}
use slay_push.Base.Text.{str_eq, str_eq_iff, str_eq-false}
use slay_push.Store.Success.{ok_eq}
use slay_push.Api.Devices.Serialized.{
  register_device_serialized-IsRotated, IsRotated, upsert-IsRegistered,
}
use slay_push.Api.Devices.Info.{DeviceInfo}
use slay_push.Store.Monad.{bind_result, M}
use slay_push.Store.Upserts.Registered.{IsRegistered}
use slay_push.Store.{Device, World}
use slay_push.Base.{
  Bool-cases, ◌||◌, ◌⊎◌, inl, inr, sym, refl, ◌∙◌, ap, false, true, none, some, arith, ◌≡◌, ◌≢◌,
  String, Option, Bool, ℕ,
}
use slay_push.Api.Create.{at_most, reject}
use slay_push.Api.Devices.{
  register_and_reply, Origin, with_metadata, registered_reply, register_device, rotation_of,
  rotation, store_device, RegisterRequest, check_info,
}
use slay_push.Errors.{err, ok, Result}
use slay_push.Api.{registered, in_project, write_error, Server, Fields, Reply}

abbrev IsOkay : Result Reply × World → Reply → World → Type 0
IsOkay x r v = (x ≡ (ok r, v)) × (r.status ≡ 200)

other_status :
    {C : Type 0} (r s : Reply) (u v : World) → (s.status ≡ 200 → ⊥) → IsOkay (ok s, u) r v → C
other_status r s u v bad h = absurd (bad (ap (λ x. x.status) (ok_eq s r u v h.0) ∙ h.1))

reject-IsOkay :
    (b : Bool) (text : String) (next : M Reply) (w v : World) (r : Reply)
    → IsOkay (reject b text next w) r v
    → IsOkay (next w) r v
unfolding reject
reject-IsOkay true text next w v r h =
    other_status r (write_error 422 text) w v (λ e. omega (arith, e)) h
reject-IsOkay false text next w v r h = h

info-IsOkay :
    (o : Option String) (next : M Reply) (w v : World) (r : Reply)
    → IsOkay (check_info o next w) r v
    → IsOkay (next w) r v
unfolding check_info
info-IsOkay none next w v r h = h
info-IsOkay (some text) next w v r h =
    other_status r (write_error 422 text) w v (λ e. omega (arith, e)) h

rotation-named :
    (user device_uuid : String) (o : Option DeviceInfo)
    → rotation_of user o ≡ some device_uuid
    → str_eq user "" ≡ false
unfolding rotation_of
rotation-named user device_uuid none h = ground arith
rotation-named user device_uuid (some info) h = ground arith

module _ (project_id : ℕ) (req : RegisterRequest) where
  -- Where the request names a user and a device_uuid: an active device of the project with the
  -- subscriber and the device_uuid of the one registered.
  abbrev pub IsRotatedOut : Device → Device → Type 0
  IsRotatedOut d e =
      (info : DeviceInfo) × (req.device ≡ some info)
      × (req.external_user_id ≢ "")
      × (info.device_uuid ≢ "")
      × IsSuperseded project_id info.device_uuid d e

  -- The device's row is the project's active one of its token; where the request names a user and a
  -- device_uuid, it is the only active one of the project, of its subscriber and of that device_uuid.
  -- Of the rows before, each of another project or token is there unchanged, or was rotated out.
  pub record IsStored (w : World) (d : Device) (v : World) : Type 0 where
    pub found : IsRegistered project_id req.token d v
    pub rotated :
        (info : DeviceInfo)
        → req.device ≡ some info
        → req.external_user_id ≢ ""
        → info.device_uuid ≢ ""
        → IsRotated project_id req info.device_uuid d v
    pub spared :
        (e : Device)
        → Memᴰ e w.devices
        → IsOther project_id req e
        → Memᴰ e v.devices ⊎ IsRotatedOut d e

  needs_rotation :
      (info : DeviceInfo)
      → req.device ≡ some info
      → req.external_user_id ≢ ""
      → info.device_uuid ≢ ""
      → rotation req ≡ some info.device_uuid
  unfolding rotation_of
  needs_rotation info given user uuid =
      rw (given, str_eq-false _ _ user, str_eq-false _ _ uuid) refl

  rotation-info :
      (uuid : String) (o : Option DeviceInfo)
      → rotation_of req.external_user_id o ≡ some uuid
      → (info : DeviceInfo) × (o ≡ some info)
        × (req.external_user_id ≢ "")
        × (info.device_uuid ≢ "")
        × (uuid ≡ info.device_uuid)
  unfolding rotation_of
  rotation-info uuid none h = cc
  rotation-info uuid (some info) h =
      elim (Bool-cases (str_eq req.external_user_id "" || str_eq info.device_uuid "")) [
        | inl without ↦ let k = rw without at h in cc
        | inr with_both ↦
            let k = rw with_both at h in
            (
              info,
              refl,
              λ e. let nobody = (str_eq_iff _ _).1 e in ground arith,
              λ e. let no_uuid = (str_eq_iff _ _).1 e in ground arith,
              cc,
            )
      ]

  register-IsStored :
      (o : Option String) (metadata : Fields) (w v : World) (d : Device)
      → rotation req ≡ o
      → store_device o project_id req metadata w ≡ (ok d, v)
      → IsStored w d v
  unfolding store_device
  register-IsStored none metadata w v d e h = record {
    found = upsert-IsRegistered project_id req metadata w v d h;
    rotated = λ info given user uuid. let k = needs_rotation info given user uuid in cc;
    spared = λ f is_in other. inl (upsert-spares project_id req f metadata w v d other h is_in);
  }
  register-IsStored (some uuid) metadata w v d e h =
      let named = rotation-named req.external_user_id uuid req.device e in
      let rotated =
        register_device_serialized-IsRotated project_id req uuid metadata w v d named h in
      record {
        found = rotated.found;
        rotated = λ info given user other.
            let k = needs_rotation info given user other in
            let same : uuid ≡ info.device_uuid = cc in
            subst (λ u. IsRotated project_id req u d v) same rotated;
        spared = λ f is_in other.
            elim (register_device_serialized-spares project_id req f uuid metadata w v d other h
              is_in) [
                | inl there ↦ inl there
                | inr gone ↦
                    let (info, given, user, id, same) = rotation-info uuid req.device e in
                    inr
                      (info, given, user, id, subst (λ u. IsSuperseded project_id u d f) same gone)
              ];
      }

  conclude-IsOkay :
      (x : Result Device × World) (r : Reply) (v : World)
      → IsOkay (bind_result (ok x.0, x.1) registered_reply) r v
      → (d : Device) × (x ≡ (ok d, v)) × (r.body ≡ registered (v.env.uuid_text d.id))
  unfolding registered_reply
  conclude-IsOkay (err e, u) r v h =
      other_status r (write_error 500 "failed to register device") u v (λ k. omega (arith, k)) h
  conclude-IsOkay (ok d, u) r v h =
      let same : u ≡ v = ap (λ x. x.1) h.0 in
      (
        d,
        ap (λ z. (ok d, z)) same,
        ap (λ x. x.body) (sym (ok_eq _ r u v h.0))
            ∙ ap (λ z. registered (z.env.uuid_text d.id)) same,
      )

  metadata-IsOkay :
      (e : Result Fields) (w v : World) (r : Reply)
      → IsOkay (with_metadata req (some project_id) e w) r v
      → (d : Device) × (r.body ≡ registered (v.env.uuid_text d.id)) × IsStored w d v
  unfolding with_metadata in_project register_and_reply
  metadata-IsOkay (err e) w v r h =
      other_status r (write_error 500 "failed to encode device metadata") w v
        (λ k. omega (arith, k)) h
  metadata-IsOkay (ok metadata) w v r h =
      let (d, done, body) =
        conclude-IsOkay (store_device (rotation req) project_id req metadata w) r v h in
      (d, body, register-IsStored (rotation req) metadata w v d refl done)

  -- A 200 names the id of a device that is the project's of its token, and active. Where the
  -- request has an external_user_id and a device with a device_uuid, neither empty, the device has a
  -- subscriber, and no device of the project but this one is active, of this subscriber, and has
  -- that device_uuid in its metadata. Every row of another project or with another token stays as it
  -- was, but, in such a request, the active ones of the project with this subscriber and device_uuid.
  pub register_device-IsStored :
      (srv : Server) (origin : Origin) (w v : World) (r : Reply)
      → register_device srv origin (some project_id) req w ≡ (ok r, v)
      → r.status ≡ 200
      → (d : Device) × (r.body ≡ registered (v.env.uuid_text d.id)) × IsStored w d v
  unfolding register_device at_most
  register_device-IsStored srv origin w v r h s = metadata-IsOkay _ w v r (
      info-IsOkay _ _ w v r (
        reject-IsOkay _ _ _ w v r (
          reject-IsOkay _ _ _ w v r (
            reject-IsOkay _ _ _ w v r
              (reject-IsOkay _ _ _ w v r (reject-IsOkay _ _ _ w v r (h, s)))))))
