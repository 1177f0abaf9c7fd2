-- ===== src/Dashboard/Tabs.antt =====
-- internal/dashboard: the home page (home_handler.go), a project's overview (projects.go), and the
-- tabs of its devices (devices.go) and notifications (notifications.go).
use slay_push.Store.ApiKeys.{list_api_keys_by_project, is_null}
use slay_push.Store.Users.{get_user_by_id}
use slay_push.Store.Tenants.{list_projects, count_devices_by_project}
use slay_push.Dashboard.Projects.{current_user_email, or_internal}
use slay_push.Dashboard.Keys.{on_project}
use slay_push.Dashboard.Views.{to_device_view, to_notification_view, ProjectStats}
use slay_push.Dashboard.{overview_page, notifications_page, home_page, devices_page, answer, Answer}
use slay_push.Store.Monad.{pure, asks, ◌>>=◌, M}
use slay_push.Store.Listings.{
  list_provider_credentials_by_project, list_notifications_by_project, list_devices_by_project,
  ListProviderCredentialsByProjectRow, ListDevicesByProjectParams,
}
use slay_push.Store.{ApiKey, Project}
use slay_push.Base.{map, select_where, length, Option, ℕ, String, List}

-- `handleHome`, behind requireSession.
home_of : ℕ → M Answer
home_of user_id = do
  user ← get_user_by_id user_id
  projects ← list_projects
  pure (answer (home_page user.email projects))

unfoldable pub handle_home : ℕ → M Answer
unfolding home_of
handle_home user_id w = or_internal (home_of user_id w)

abbrev pub device_browser_page_size : ℕ
device_browser_page_size = 50

pub record DeviceFilter : Type 0 where
  pub external_id : String
  pub status : String

abbrev pub device_params : ℕ → DeviceFilter → ListDevicesByProjectParams
device_params project_id f = record {
  project_id = project_id;
  external_id = f.external_id;
  status = f.status;
  page_offset = 0;
  page_limit = device_browser_page_size;
}

unfoldable pub devices_of : ℕ → DeviceFilter → Project → M Answer
devices_of user_id f project = do
  devices ← list_devices_by_project (device_params project.id f)
  email ← current_user_email user_id
  projects ← list_projects
  uuid_text ← asks (λ w. w.env.uuid_text)
  pure (
      answer (
        devices_page email project projects (map (to_device_view uuid_text) devices) f.external_id
          f.status))

unfoldable pub devices_tab : ℕ → DeviceFilter → Project → M Answer
devices_tab user_id f project w = or_internal (devices_of user_id f project w)

-- `handleDevicesTab`
unfoldable pub handle_devices_tab : ℕ → Option ℕ → DeviceFilter → M Answer
handle_devices_tab user_id project_id f = on_project project_id (devices_tab user_id f)

abbrev pub notification_history_page_size : ℕ
notification_history_page_size = 50

notifications_of : ℕ → Project → M Answer
notifications_of user_id project = do
  notifications ← list_notifications_by_project project.id 0 notification_history_page_size
  email ← current_user_email user_id
  projects ← list_projects
  uuid_text ← asks (λ w. w.env.uuid_text)
  pure (
      answer (
        notifications_page email project projects
          (map (to_notification_view uuid_text) notifications)))

notifications_tab : ℕ → Project → M Answer
unfolding notifications_of
notifications_tab user_id project w = or_internal (notifications_of user_id project w)

-- `handleNotificationsTab`
unfoldable pub handle_notifications_tab : ℕ → Option ℕ → M Answer
unfolding notifications_tab
handle_notifications_tab user_id project_id = on_project project_id (notifications_tab user_id)

abbrev pub recent_notifications_page_size : ℕ
recent_notifications_page_size = 5

-- The counts of the rows, as the two loops keep them.
abbrev pub active_credentials : List ListProviderCredentialsByProjectRow → ℕ
active_credentials rows = length (select_where (λ c. c.is_active) rows)

abbrev pub active_keys : List ApiKey → ℕ
active_keys keys = length (select_where (λ k. is_null k.revoked_at) keys)

-- `projectStats`
unfoldable pub project_stats : Project → M ProjectStats
project_stats project = do
  devices ← count_devices_by_project project.id
  credentials ← list_provider_credentials_by_project project.id
  keys ← list_api_keys_by_project project.id
  notifications ← list_notifications_by_project project.id 0 recent_notifications_page_size
  uuid_text ← asks (λ w. w.env.uuid_text)
  pure (record {
    device_count = devices;
    active_provider_count = active_credentials credentials;
    provider_count = length credentials;
    active_api_key_count = active_keys keys;
    api_key_count = length keys;
    recent_notifications = map (to_notification_view uuid_text) notifications;
  })

overview_of : ℕ → Project → M Answer
overview_of user_id project = do
  email ← current_user_email user_id
  projects ← list_projects
  stats ← project_stats project
  pure (answer (overview_page email project projects stats))

overview : ℕ → Project → M Answer
unfolding overview_of
overview user_id project w = or_internal (overview_of user_id project w)

-- `handleProjectOverview`
unfoldable pub handle_project_overview : ℕ → Option ℕ → M Answer
unfolding overview
handle_project_overview user_id project_id = on_project project_id (overview user_id)
