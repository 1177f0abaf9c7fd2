-- ===== src/Api/Devices/Spared.antt =====
-- The devices that a registration leaves as they were.
use mathlib.Core.List.{Memᴰ}
use mathlib.Core.Path.{subst}
use slay_push.Base.Text.{str_eq, str_eq_iff, str_eq-false, ◌<>◌}
use slay_push.Base.Json.{end, field, str, Value, Fields}
use slay_push.Store.Success.{bind_ok, wrapping_ok, query_ok, ok_eq}
use slay_push.Store.Monad.{advance, pure, wrapping}
use slay_push.Store.Transaction.Atomic.{in_transaction_ok}
use slay_push.Store.Upserts.Kept.{upsert_device-Memᴰ, upsert_subscriber-devices}
use slay_push.Store.Upserts.{upsert_subscriber, device_at}
use slay_push.Store.Devices.{
  is_active, is_text, is_id, same_subscriber, text_field, update_devices, mark_stale_stmt,
  mark_stale_devices_by_device_uuid, superseded_by, set_status,
}
use slay_push.Store.{World, Device, DeviceStatus}
use slay_push.Errors.{ok}
use slay_push.Api.Devices.Actives.{text_field-other, HasText, IsActiveOf}
use slay_push.Api.Devices.Actives.HasText.{here, there}
use slay_push.Api.Devices.{
  advisory_lock_device_uuid, locked_body, register_device_serialized, supersede, subscriber_of,
  upsert, RegisterRequest,
}
use slay_push.Base.{
  Bool, mem-update_where, ==_iff, arith, ◌≢◌, ◌==◌, ◌≡◌, ◌⊎◌, inl, inr, ap, sym, ◌∙◌, refl, some,
  none, true, false, Bool-cases, suc, Option, ℕ, String,
}

text_field-same :
    (k j s : String) (v : Value) (fs : Fields)
    → str_eq j k ≡ true
    → text_field k (field j v fs) ≡ some s
    → v ≡ str s
unfolding text_field
text_field-same k j s (str t) fs hit h =
    let found = rw hit at h in let same : t ≡ s = cc in ap str same
text_field-same k j s v fs hit h = let found = rw hit at h in cc

text_field-HasText : (k s : String) (fs : Fields) → text_field k fs ≡ some s → HasText k s fs
unfolding text_field
text_field-HasText k s end h = cc
text_field-HasText k s (field j v fs) h = elim (Bool-cases (str_eq j k)) [
  | inr miss ↦
      let differ : j ≢ k = λ e. let hit = (str_eq_iff j k).1 e in cc in
      there differ (text_field-HasText k s fs (sym (text_field-other k j v fs miss) ∙ h))
  | inl hit ↦
      let first = text_field-same k j s v fs hit h in
      subst (λ z. HasText k s (field z v fs)) (sym ((str_eq_iff j k).0 hit))
        (subst (λ u. HasText k s (field k u fs)) (sym first) here)
]

same_subscriber-some :
    (o : Option ℕ) (e : Device)
    → same_subscriber o e ≡ true
    → (s : ℕ) × (o ≡ some s) × (e.subscriber_id ≡ some s)
same_subscriber-some none e h = cc
same_subscriber-some (some s) e h = (s, refl, is_id-some s e.subscriber_id h)
  where
    is_id-some : (s : ℕ) (o : Option ℕ) → is_id s o ≡ true → o ≡ some s
    is_id-some s none h = cc
    is_id-some s (some m) h = ap some ((==_iff m s).0 h)

is_text-some : (s : String) (o : Option String) → is_text s o ≡ true → o ≡ some s
is_text-some s none h = cc
is_text-some s (some t) h = ap some ((str_eq_iff t s).0 h)

is_active-active : (x : DeviceStatus) → is_active x ≡ true → x ≡ DeviceStatus.active
is_active-active DeviceStatus.active h = refl
is_active-active _ h = cc

module _ (project_id : ℕ) (device_uuid : String) (d : Device) where
  -- What a registration of the device may supersede.
  abbrev pub IsSuperseded : Device → Type 0
  IsSuperseded e =
      (s : ℕ) × (d.subscriber_id ≡ some s) × IsActiveOf project_id device_uuid s e × (e.id ≢ d.id)

  abbrev hit : Device → Bool
  hit = superseded_by project_id d.subscriber_id d.id device_uuid

  hit-IsSuperseded : (e : Device) → hit e ≡ true → IsSuperseded e
  unfolding superseded_by
  hit-IsSuperseded e h =
      let (s, of_d, of_e) = same_subscriber-some d.subscriber_id e (ground arith) in
      (
        s,
        of_d,
        record {
          of_project = ground arith;
          of_subscriber = of_e;
          of_device =
              text_field-HasText "device_uuid" device_uuid e.metadata
                (is_text-some device_uuid _ (ground arith));
          active = is_active-active e.status (ground arith);
        },
        λ same. let k = (==_iff e.id d.id).1 same in ground arith,
      )

  supersede-spares :
      (w v : World) (x e : Device)
      → supersede project_id device_uuid d w ≡ (ok x, v)
      → Memᴰ e w.devices
      → (d ≡ x) × (Memᴰ e v.devices ⊎ IsSuperseded e)
  unfolding supersede mark_stale_devices_by_device_uuid mark_stale_stmt update_devices
  supersede-spares w v x e h is_in =
      let (rows, u, marked, k) =
        bind_ok
          (wrapping "supersede rotated devices"
            (mark_stale_devices_by_device_uuid project_id d.subscriber_id d.id device_uuid) w)
          _ x v h in
      let q = query_ok _ w rows u (wrapping_ok "supersede rotated devices" _ rows u marked) in
      let stale = set_status DeviceStatus.stale (w.env.now (suc w.tick)) in
      let after : update_devices hit stale (advance w) ≡ v = ap (λ z. z.1) q ∙ ap (λ z. z.1) k in
      (
        ok_eq d x u v k,
        elim (Bool-cases (hit e)) [
          | inl struck ↦ inr (hit-IsSuperseded e struck)
          | inr missed ↦ inl (
              subst (λ z. Memᴰ e z.devices) after
                (mem-update_where hit stale w.devices e missed is_in))
        ],
      )

subscriber_of-devices :
    (project_id : ℕ) (user : String) (w v : World) (o : Option ℕ)
    → subscriber_of project_id user w ≡ (ok o, v)
    → v.devices ≡ w.devices
unfolding subscriber_of
subscriber_of-devices project_id user w v o h = elim (Bool-cases (str_eq user "")) [
  | inl nobody ↦ ap (λ x. x.1.devices) (sym (rw (subscriber_of, nobody) at h))
  | inr named ↦
      let step = rw (subscriber_of, named) at h in
      let (s, u, got, done) =
        bind_ok (wrapping "upsert subscriber" (upsert_subscriber project_id user) w)
          (λ s. pure (some s.id)) o v step in
      ap (λ x. x.1.devices) (sym done)
      ∙ upsert_subscriber-devices project_id user w u s (wrapping_ok "upsert subscriber" _ s u got)
]

module _ (project_id : ℕ) (req : RegisterRequest) (e : Device) where
  -- Another project's device, or one with another token.
  abbrev pub IsOther : Type 0
  IsOther = e.project_id ≡ project_id → e.token ≢ req.token

  other_key : IsOther → device_at project_id req.token e ≡ false
  unfolding device_at
  other_key other = elim (Bool-cases (e.project_id == project_id)) [
    | inr away ↦ rw away refl
    | inl own ↦
        rw (own, str_eq-false e.token req.token (other ((==_iff e.project_id project_id).0 own)))
          refl
  ]

  pub upsert-spares :
      (metadata : Fields) (w v : World) (d : Device)
      → IsOther
      → upsert project_id req metadata w ≡ (ok d, v)
      → Memᴰ e w.devices
      → Memᴰ e v.devices
  unfolding upsert
  upsert-spares metadata w v d other h is_in =
      let (o, u, found, k) = bind_ok (subscriber_of project_id req.external_user_id w) _ d v h in
      let kept = subscriber_of-devices project_id req.external_user_id w u o found in
      upsert_device-Memᴰ _ e (other_key other) u v d (wrapping_ok "upsert device" _ d v k)
        (subst (Memᴰ e) (sym kept) is_in)

  -- A registration that names a user and a device_uuid, and returns no error, leaves each other row
  -- as it was, but those that it supersedes.
  pub register_device_serialized-spares :
      (device_uuid : String) (metadata : Fields) (w v : World) (d : Device)
      → IsOther
      → register_device_serialized project_id req device_uuid metadata w ≡ (ok d, v)
      → Memᴰ e w.devices
      → Memᴰ e v.devices ⊎ IsSuperseded project_id device_uuid d e
  unfolding register_device_serialized locked_body
  register_device_serialized-spares device_uuid metadata w v d other h is_in =
      let (u, ran, kept) =
        in_transaction_ok _ _ (locked_body project_id req device_uuid metadata) w v d h in
      let (_, w1, locked, k1) =
        bind_ok
          (wrapping "acquire device registration lock"
            (advisory_lock_device_uuid
              (w.env.uuid_text project_id <> ":" <> req.external_user_id <> ":" <> device_uuid))
            (advance w))
          _ d u ran in
      let lock =
        query_ok _ (advance w) tt w1
          (wrapping_ok "acquire device registration lock" _ _ w1 locked) in
      let (x, w2, up, k2) = bind_ok (upsert project_id req metadata w1) _ d u k1 in
      let start = subst (λ z. Memᴰ e z.devices) (ap (λ z. z.1) lock) is_in in
      let put = upsert-spares metadata w1 w2 x other up start in
      let (same, told) = supersede-spares project_id device_uuid x w2 u d e k2 put in
      subst (λ z. Memᴰ e z.devices ⊎ IsSuperseded project_id device_uuid d e) (sym kept)
        (subst (λ z. Memᴰ e u.devices ⊎ IsSuperseded project_id device_uuid z e) same told)
