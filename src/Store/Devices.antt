-- ===== src/Store/Devices.antt =====
-- internal/store/postgres/devices.sql.go and subscribers.sql.go.
use slay_push.Base.Text.{str_eq}
use slay_push.Errors.{ok, Result}
use slay_push.Store.Monad.{query, M}
use slay_push.Base.Json.{end, str, field, Fields}
use slay_push.Base.{
  if◌then◌else◌, some, [], ◌||◌, select_where, not, map, ◌∷◌, any_where, ◌&&◌, update_where, true,
  none, false, ◌==◌, List, Bool, ℕ, String, Option,
}
use slay_push.Store.{Subscriber, World, SubscriberStatus, DeviceStatus, Device}

abbrev pub same_device_token : Device → Device → Bool
same_device_token a b = a.project_id == b.project_id && str_eq a.token b.token

abbrev pub same_device : Device → Device → Bool
same_device a b = a.id == b.id

mem_id : ℕ → List ℕ → Bool
mem_id id [] = false
mem_id id (j ∷ ids) = j == id || mem_id id ids

unfoldable pub listed : ℕ → List ℕ → Device → Bool
unfolding mem_id
listed project_id ids d = d.project_id == project_id && mem_id d.id ids

-- `:many` statements return the rows in the order of the table.
unfoldable pub get_devices_by_ids : ℕ → List ℕ → M (List Device)
get_devices_by_ids project_id ids =
    query λ w. (ok (select_where (listed project_id ids) w.devices), w)

abbrev pub device_has_id : ℕ → Device → Bool
device_has_id id d = d.id == id

unfoldable pub set_status : DeviceStatus → ℕ → Device → Device
set_status status at d = record d { status = status; updated_at = at }

unfoldable pub update_devices : (Device → Bool) → (Device → Device) → World → World
update_devices p f w = record w { devices = update_where p f w.devices }

unfoldable pub mark_device_status : ℕ → DeviceStatus → M (Unit {0})
mark_device_status id status =
    query λ w. (ok tt, update_devices (device_has_id id) (set_status status (w.env.now w.tick)) w)

-- `metadata ->> 'device_uuid'`: the text of a field, none where there is no such field or it is
-- null. Of a number, a list or an object `->>` gives the JSON text; the program stores a string.
unfoldable pub text_field : String → Fields → Option String
text_field k end = none
text_field k (field j (str s) fs) = if str_eq j k then some s else text_field k fs
text_field k (field j v fs) = if str_eq j k then none else text_field k fs

abbrev pub is_active : DeviceStatus → Bool
is_active DeviceStatus.active = true
is_active _ = false

abbrev pub is_id : ℕ → Option ℕ → Bool
is_id n (some m) = m == n
is_id n none = false

-- `subscriber_id = $2`: with a null on either side the row is not selected.
abbrev pub same_subscriber : Option ℕ → Device → Bool
same_subscriber (some s) d = is_id s d.subscriber_id
same_subscriber none d = false

abbrev pub is_text : String → Option String → Bool
is_text s (some t) = str_eq t s
is_text s none = false

-- The rows that MarkStaleDevicesByDeviceUUID supersedes.
unfoldable pub superseded_by : ℕ → Option ℕ → ℕ → String → Device → Bool
superseded_by project_id subscriber id device_uuid d =
    d.project_id == project_id
    && (same_subscriber subscriber d
        && (not (d.id == id)
            && (is_active d.status && is_text device_uuid (text_field "device_uuid" d.metadata))))

unfoldable pub mark_stale_stmt : ℕ → Option ℕ → ℕ → String → World → Result (List Device) × World
mark_stale_stmt project_id subscriber id device_uuid w =
    let hit = superseded_by project_id subscriber id device_uuid in
    let stale = set_status DeviceStatus.stale (w.env.now w.tick) in
    (ok (map stale (select_where hit w.devices)), update_devices hit stale w)

unfoldable pub mark_stale_devices_by_device_uuid : ℕ → Option ℕ → ℕ → String → M (List Device)
mark_stale_devices_by_device_uuid project_id subscriber id device_uuid =
    query (mark_stale_stmt project_id subscriber id device_uuid)

unfoldable pub mem_text : String → List String → Bool
mem_text s [] = false
mem_text s (t ∷ ts) = str_eq t s || mem_text s ts

abbrev pub is_subscribed : SubscriberStatus → Bool
is_subscribed SubscriberStatus.subscribed = true
is_subscribed SubscriberStatus.opted_out = false

-- The join condition and the `where` clause, for a subscriber and a device.
unfoldable pub reaches : ℕ → List String → Subscriber → Device → Bool
unfolding mem_text
reaches project_id external_ids s d =
    is_id s.id d.subscriber_id
    && (s.project_id == project_id
        && (mem_text s.external_id external_ids && (is_subscribed s.status && is_active d.status)))

unfoldable pub reached : ℕ → List String → List Subscriber → Device → Bool
reached project_id external_ids subscribers d =
    any_where (λ s. reaches project_id external_ids s d) subscribers

-- A device joins at most one subscriber, since `subscribers.id` is a primary key: the join has a
-- row for each device that some subscriber reaches.
unfoldable pub get_active_devices_by_subscriber_external_ids : ℕ → List String → M (List Device)
get_active_devices_by_subscriber_external_ids project_id external_ids =
    query λ w. (ok (select_where (reached project_id external_ids w.subscribers) w.devices), w)
