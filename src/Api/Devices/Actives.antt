-- ===== src/Api/Devices/Actives.antt =====
-- The active devices of a subscriber that have a device_uuid.
use slay_push.Base.Json.{end, str, field, Value, Fields}
use slay_push.Base.Text.{str_eq, str_eq_refl, str_eq-false}
use slay_push.Store.Devices.{superseded_by, text_field}
use slay_push.Store.{DeviceStatus, Device}
use slay_push.Base.{==_iff, ==_refl, arith, false, some, refl, ◌≡◌, ◌≢◌, ◌∙◌, String, ℕ}

-- The object's first field of the name is this text.
pub data HasText (k s : String) : Fields → Type 0 where
  here : {fs : Fields} → HasText k s (field k (str s) fs)
  there :
      {j : String} {v : Value} {fs : Fields} → j ≢ k → HasText k s fs → HasText k s (field j v fs)

pub text_field-other :
    (k j : String) (v : Value) (fs : Fields)
    → str_eq j k ≡ false
    → text_field k (field j v fs) ≡ text_field k fs
unfolding text_field
text_field-other k j (str t) fs miss = rw miss refl
text_field-other k j v fs miss = rw miss refl

pub HasText-text_field : (k s : String) (fs : Fields) → HasText k s fs → text_field k fs ≡ some s
unfolding text_field
HasText-text_field k s end is_in = elim is_in [ ]
HasText-text_field k s (field j v fs) here = rw (str_eq_refl k) refl
HasText-text_field k s (field j v fs) (there ne more) =
    text_field-other k j v fs (str_eq-false j k ne) ∙ HasText-text_field k s fs more

module _ (project_id : ℕ) (device_uuid : String) where
  -- An active device of the project, of a subscriber and with a device_uuid.
  pub record IsActiveOf (subscriber : ℕ) (e : Device) : Type 0 where
    pub of_project : e.project_id ≡ project_id
    pub of_subscriber : e.subscriber_id ≡ some subscriber
    pub of_device : HasText "device_uuid" device_uuid e.metadata
    pub active : e.status ≡ DeviceStatus.active

  pub active-superseded :
      (subscriber id : ℕ) (e : Device)
      → IsActiveOf subscriber e
      → superseded_by project_id (some subscriber) id device_uuid e ≡ false
      → e.id ≡ id
  unfolding superseded_by
  active-superseded subscriber id e a h =
      let text = HasText-text_field "device_uuid" device_uuid e.metadata a.of_device in
      let kept =
        rw
          (
            a.of_project,
            ==_refl project_id,
            a.of_subscriber,
            ==_refl subscriber,
            a.active,
            text,
            str_eq_refl device_uuid,
          )
          at h in
      (==_iff e.id id).0 (ground (arith, kept))
