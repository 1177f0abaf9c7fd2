-- ===== src/Store/Upserts.antt =====
-- The upserts of devices.sql.go, subscribers.sql.go and provider_credentials.sql.go in
-- internal/store/postgres: `insert ... on conflict ... do update`.
pub mod Registered
pub mod Kept
use slay_push.Base.Text.{str_eq}
use slay_push.Store.Projects.{has_project}
use slay_push.Store.Devices.{same_device, update_devices, mem_text}
use slay_push.Errors.{violation, err, ok, Result}
use slay_push.Base.{
  [], ◌∷◌, update_where, any_where, ◌&&◌, true, none, if◌then◌else◌, find_where, ◌==◌, some, Bool,
  ℕ, String, Option,
}
use slay_push.Store.Monad.{query, M}
use slay_push.Store.{Fields, SubscriberStatus, Subscriber, DeviceStatus, World, Device}

pub record UpsertDeviceParams : Type 0 where
  pub project_id : ℕ
  pub token : String
  pub platform : String
  pub provider_type : String
  pub metadata : Fields
  pub subscriber_id : Option ℕ

abbrev coalesce : Option ℕ → Option ℕ → Option ℕ
coalesce (some a) b = some a
coalesce none b = b

unfoldable pub device_at : ℕ → String → Device → Bool
device_at project_id token d = d.project_id == project_id && str_eq d.token token

-- The CHECK constraints on the platform and the provider.
abbrev pub known_kind : String → String → Bool
known_kind platform provider_type =
    mem_text platform ("ios" ∷ "android" ∷ "web" ∷ [])
    && mem_text provider_type ("expo" ∷ "fcm" ∷ "apns" ∷ "hms" ∷ [])

subscriber_there : ℕ → Option ℕ → World → Bool
subscriber_there project_id none w = true
subscriber_there project_id (some id) w =
    any_where (λ s. s.project_id == project_id && s.id == id) w.subscribers

unfoldable pub new_device : UpsertDeviceParams → World → Device
new_device p w = record {
  id = w.env.gen_random_uuid w.tick;
  project_id = p.project_id;
  subscriber_id = p.subscriber_id;
  token = p.token;
  platform = p.platform;
  provider_type = p.provider_type;
  status = DeviceStatus.active;
  metadata = p.metadata;
  created_at = w.env.now w.tick;
  updated_at = w.env.now w.tick;
}

-- The columns of the key and the time of creation stay.
unfoldable pub merge_device : UpsertDeviceParams → ℕ → Device → Device
merge_device p now d = record d {
  platform = p.platform;
  provider_type = p.provider_type;
  metadata = p.metadata;
  subscriber_id = coalesce p.subscriber_id d.subscriber_id;
  status = DeviceStatus.active;
  updated_at = now;
}

-- A row goes in if its project and its subscriber are there.
pub put_device : Device → World → World → Result Device × World
unfolding subscriber_there
put_device d w v =
    if has_project d.project_id w && subscriber_there d.project_id d.subscriber_id w
    then (ok d, v)
    else (err (violation "devices_fkey"), w)

upsert_found : Option Device → UpsertDeviceParams → World → Result Device × World
unfolding put_device
upsert_found (some d) p w =
    put_device (merge_device p (w.env.now w.tick) d) w
      (update_devices (device_at p.project_id p.token) (merge_device p (w.env.now w.tick)) w)
upsert_found none p w =
    if any_where (same_device (new_device p w)) w.devices
    then (err (violation "devices_pkey"), w)
    else put_device (new_device p w) w (record w { devices = new_device p w ∷ w.devices })

unfoldable pub upsert_device : UpsertDeviceParams → M Device
unfolding upsert_found
upsert_device p = query λ w.
    if known_kind p.platform p.provider_type
    then upsert_found (find_where (device_at p.project_id p.token) w.devices) p w
    else (err (violation "devices_check"), w)

unfoldable pub subscriber_at : ℕ → String → Subscriber → Bool
subscriber_at project_id external_id s =
    s.project_id == project_id && str_eq s.external_id external_id

new_subscriber : ℕ → String → World → Subscriber
new_subscriber project_id external_id w = record {
  id = w.env.gen_random_uuid w.tick;
  project_id = project_id;
  external_id = external_id;
  status = SubscriberStatus.subscribed;
  created_at = w.env.now w.tick;
  last_seen_at = w.env.now w.tick;
}

seen : ℕ → Subscriber → Subscriber
seen now s = record s { last_seen_at = now }

upsert_subscriber_found : Option Subscriber → ℕ → String → World → Result Subscriber × World
unfolding new_subscriber seen
upsert_subscriber_found (some s) project_id external_id w = (
  ok (seen (w.env.now w.tick) s),
  record w {
    subscribers =
        update_where (subscriber_at project_id external_id) (seen (w.env.now w.tick)) w.subscribers;
  },
)
upsert_subscriber_found none project_id external_id w =
    let s = new_subscriber project_id external_id w in
    if any_where (λ t. t.id == s.id) w.subscribers
    then (err (violation "subscribers_pkey"), w)
    else if has_project project_id w
    then (ok s, record w { subscribers = s ∷ w.subscribers })
    else (err (violation "subscribers_project_id_fkey"), w)

unfoldable pub upsert_subscriber : ℕ → String → M Subscriber
unfolding upsert_subscriber_found
upsert_subscriber project_id external_id = query λ w.
    upsert_subscriber_found (find_where (subscriber_at project_id external_id) w.subscribers)
      project_id external_id w
