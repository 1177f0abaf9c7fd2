-- ===== src/Dashboard/Views.antt =====
-- internal/dashboard/templates/types.go: what the pages of a project show, and how the handlers make
-- it of the rows (providers.go, devices.go and notifications.go of internal/dashboard).
use slay_push.Store.Counts.{count_at, CountRecipientStatusesRow}
use slay_push.Store.{
  NotificationStatus, NotificationRecipient, Notification, DeviceStatus, RecipientStatus,
}
use slay_push.Store.Listings.{ListDevicesByProjectRow, ListProviderCredentialsByProjectRow}
use slay_push.Base.{◌+◌, none, leb, some, Bool, ℕ, String, Option, List}

pub data MessageKind : Type 0 where
  neutral success error : MessageKind

-- `Message`
pub record Message : Type 0 where
  pub text : String
  pub kind : MessageKind

abbrev pub no_message : Message
no_message = record { text = ""; kind = neutral }

abbrev pub err_msg : String → Message
err_msg text = record { text = text; kind = error }

abbrev pub ok_msg : String → Message
ok_msg text = record { text = text; kind = success }

-- `ProviderCredential` of the templates.
pub record CredentialView : Type 0 where
  pub provider_type : String
  pub environment : String
  pub is_active : Bool
  pub updated_at : ℕ

-- `toProviderCredentialView`
abbrev pub to_credential_view : ListProviderCredentialsByProjectRow → CredentialView
to_credential_view c = record {
  provider_type = c.provider_type;
  environment = c.environment;
  is_active = c.is_active;
  updated_at = c.updated_at;
}

-- `Device` of the templates.
pub record DeviceView : Type 0 where
  pub id : String
  pub external_id : String
  pub platform : String
  pub provider_type : String
  pub status : DeviceStatus
  pub created_at : ℕ

-- `toDeviceView`
abbrev pub to_device_view : (ℕ → String) → ListDevicesByProjectRow → DeviceView
to_device_view uuid_text row = record {
  id = uuid_text row.device.id;
  external_id = row.external_id;
  platform = row.device.platform;
  provider_type = row.device.provider_type;
  status = row.device.status;
  created_at = row.device.created_at;
}

-- `Notification` of the templates.
pub record NotificationView : Type 0 where
  pub id : String
  pub status : NotificationStatus
  pub total_recipients : ℕ
  pub created_at : ℕ

-- `toNotificationView`
abbrev pub to_notification_view : (ℕ → String) → Notification → NotificationView
to_notification_view uuid_text n = record {
  id = uuid_text n.id;
  status = n.status;
  total_recipients = n.total_recipients;
  created_at = n.created_at;
}

-- `Recipient` of the templates.
pub record RecipientView : Type 0 where
  pub id : String
  pub device_id : String
  pub provider_type : String
  pub status : RecipientStatus
  pub provider_message_id : String
  pub error_message : String
  pub attempt_count : ℕ

abbrev text_or_empty : Option String → String
text_or_empty none = ""
text_or_empty (some s) = s

-- `toRecipientView`
abbrev pub to_recipient_view : (ℕ → String) → NotificationRecipient → RecipientView
to_recipient_view uuid_text r = record {
  id = uuid_text r.id;
  device_id = uuid_text r.device_id;
  provider_type = r.provider_type;
  status = r.status;
  provider_message_id = text_or_empty r.provider_message_id;
  error_message = text_or_empty r.error_message;
  attempt_count = r.attempt_count;
}

pub record RecipientCounts : Type 0 where
  pub queued : ℕ
  pub sending : ℕ
  pub sent : ℕ
  pub delivered : ℕ
  pub failed : ℕ

-- `toRecipientCounts`
unfoldable pub to_recipient_counts : List CountRecipientStatusesRow → RecipientCounts
to_recipient_counts rows = record {
  queued = count_at RecipientStatus.queued rows;
  sending = count_at RecipientStatus.sending rows;
  sent = count_at RecipientStatus.sent rows;
  delivered = count_at RecipientStatus.delivered rows;
  failed = count_at RecipientStatus.failed rows;
}

-- `RecipientCounts.Terminal`
unfoldable pub terminal : RecipientCounts → ℕ → Bool
terminal c total = leb total (c.sent + c.delivered + c.failed)

pub record ProjectStats : Type 0 where
  pub device_count : ℕ
  pub active_provider_count : ℕ
  pub provider_count : ℕ
  pub active_api_key_count : ℕ
  pub api_key_count : ℕ
  pub recent_notifications : List NotificationView

-- What `NotificationDetail` is given beside the user, the project and the projects.
pub record NotificationDetail : Type 0 where
  pub id : String
  pub status : NotificationStatus
  pub total_recipients : ℕ
  pub counts : RecipientCounts
  pub recipients : List RecipientView
  pub done : Bool
