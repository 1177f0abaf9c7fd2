-- ===== src/Store/Listings.antt =====
-- The listings that the dashboard shows: ListDevicesByProject of devices.sql.go,
-- ListNotificationsByProject of notifications.sql.go and ListProviderCredentialsByProject of
-- provider_credentials.sql.go, in internal/store/postgres.
pub mod Pages
use Prim.Native.Char.{code}
use slay_push.Base.Text.{str_eq}
use slay_push.Errors.{ok}
use slay_push.Base.Take.{drop, take}
use slay_push.Store.Monad.{query, M}
use slay_push.Store.{Subscriber, ProviderCredential, Notification, DeviceStatus, Device}
use slay_push.Base.{
  ◌||◌, ltb, select_where, none, map, find_where, ◌&&◌, some, if◌then◌else◌, false, [], ◌==◌, ◌∷◌,
  ◌∷◌, true, leb, ℕ, String, Option, List, Bool,
}

-- How Postgres orders lower-case ASCII: by code points.
unfoldable pub text_leb : String → String → Bool
text_leb String.[] t = true
text_leb (String.◌∷◌ c s) String.[] = false
text_leb (String.◌∷◌ c s) (String.◌∷◌ d t) =
    if code c == code d then text_leb s t else ltb (code c) (code d)

module _ {A : Type 0} (before : A → A → Bool) where
  -- Rows that come at the same place are in any order in Postgres; here they keep the table's.
  unfoldable pub insert_sorted : A → List A → List A
  insert_sorted a [] = a ∷ []
  insert_sorted a (b ∷ bs) = if before a b then a ∷ b ∷ bs else b ∷ insert_sorted a bs

  -- `order by`
  unfoldable pub order_by : List A → List A
  order_by [] = []
  order_by (a ∷ as') = insert_sorted a (order_by as')

-- `limit … offset …`
unfoldable pub page_of : {A : Type 0} → ℕ → ℕ → List A → List A
page_of page_offset page_limit rows = take page_limit (drop page_offset rows)

abbrev pub device_status_text : DeviceStatus → String
device_status_text DeviceStatus.active = "active"
device_status_text DeviceStatus.stale = "stale"
device_status_text DeviceStatus.invalid = "invalid"

pub record ListDevicesByProjectParams : Type 0 where
  pub project_id : ℕ
  pub external_id : String
  pub status : String
  pub page_offset : ℕ
  pub page_limit : ℕ

pub record ListDevicesByProjectRow : Type 0 where
  pub device : Device
  pub external_id : String

-- The subscriber that the left join finds.
unfoldable pub joined : List Subscriber → Option ℕ → Option Subscriber
joined ss none = none
joined ss (some id) = find_where (λ s. s.id == id) ss

-- `s.external_id = $2`, where a null is not equal to any text.
abbrev pub named : String → Option Subscriber → Bool
named t none = false
named t (some s) = str_eq s.external_id t

-- `coalesce(s.external_id, '')`
abbrev pub external_id_or : Option Subscriber → String
external_id_or none = ""
external_id_or (some s) = s.external_id

unfoldable pub device_listed : ListDevicesByProjectParams → List Subscriber → Device → Bool
device_listed p ss d =
    d.project_id == p.project_id
    && ((str_eq p.external_id "" || named p.external_id (joined ss d.subscriber_id))
        && (str_eq p.status "" || str_eq (device_status_text d.status) p.status))

abbrev pub device_row : List Subscriber → Device → ListDevicesByProjectRow
device_row ss d = record { device = d; external_id = external_id_or (joined ss d.subscriber_id) }

abbrev pub later_device : Device → Device → Bool
later_device d e = leb e.created_at d.created_at

unfoldable pub list_devices_by_project :
    ListDevicesByProjectParams → M (List ListDevicesByProjectRow)
list_devices_by_project p = query λ w. (
  ok (
      map (device_row w.subscribers) (
        page_of p.page_offset p.page_limit
          (order_by later_device (select_where (device_listed p w.subscribers) w.devices)))),
  w,
)

abbrev pub later_notification : Notification → Notification → Bool
later_notification m n = leb n.created_at m.created_at

unfoldable pub list_notifications_by_project : ℕ → ℕ → ℕ → M (List Notification)
list_notifications_by_project project_id page_offset page_limit = query λ w. (
  ok (
      page_of page_offset page_limit (
        order_by later_notification
          (select_where (λ n. n.project_id == project_id) w.notifications))),
  w,
)

-- Neither the ciphertext nor the wrapped key is selected.
pub record ListProviderCredentialsByProjectRow : Type 0 where
  pub id : ℕ
  pub project_id : ℕ
  pub provider_type : String
  pub environment : String
  pub is_active : Bool
  pub created_at : ℕ
  pub updated_at : ℕ

unfoldable pub credential_row : ProviderCredential → ListProviderCredentialsByProjectRow
credential_row c = record {
  id = c.id;
  project_id = c.project_id;
  provider_type = c.provider_type;
  environment = c.environment;
  is_active = c.is_active;
  created_at = c.created_at;
  updated_at = c.updated_at;
}

abbrev pub by_provider : ProviderCredential → ProviderCredential → Bool
by_provider c d = text_leb c.provider_type d.provider_type

unfoldable pub list_provider_credentials_by_project :
    ℕ → M (List ListProviderCredentialsByProjectRow)
list_provider_credentials_by_project project_id = query λ w. (
  ok (
      map credential_row
        (order_by by_provider (select_where (λ c. c.project_id == project_id) w.credentials))),
  w,
)
