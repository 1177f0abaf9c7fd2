-- ===== src/Dashboard/Router.antt =====
-- internal/dashboard/server.go: the routes, behind the set-up gate and, most of them, behind a
-- session. chi has matched the route and parsed its parameters.
pub mod Protected
use slay_push.Dashboard.Notifications.{handle_recipients_fragment, handle_notification_detail}
use slay_push.Dashboard.Keys.{
  handle_revoke_api_key, handle_create_api_key, handle_api_keys_tab, KeyForm,
}
use slay_push.Dashboard.Tabs.{
  handle_notifications_tab, handle_devices_tab, handle_project_overview, DeviceFilter, handle_home,
}
use slay_push.Dashboard.Providers.{
  handle_test_provider_credential, handle_upsert_provider_credential, handle_providers_tab,
  CredentialForm, ProviderCodec,
}
use slay_push.Dashboard.Projects.{handle_create_project, render_projects_list, ProjectForm}
use slay_push.Base.{ℕ, String, Option}
use slay_push.Store.Monad.{pure, M}
use slay_push.Dashboard.{
  handle_logout, handle_login, handle_setup, rendered, answer, setup_gate, require_session, Form,
  Answer, Page, AuthCodec,
}

pub data OpenRoute : Type 0 where
  -- The file server's, whose answer is a parameter.
  static_file : Page → OpenRoute
  setup_page_route : OpenRoute
  setup_route : Option Form → OpenRoute
  login_page_route : OpenRoute
  login_route : Option Form → OpenRoute
  logout_route : OpenRoute

pub data PageRoute : Type 0 where
  home_route list_projects_route : PageRoute
  create_project_route : Option ProjectForm → PageRoute
  overview_route providers_route api_keys_route notifications_route : Option ℕ → PageRoute
  save_credential_route : Option ℕ → Option CredentialForm → PageRoute
  test_credential_route : Option ℕ → Option String → PageRoute
  create_api_key_route : Option ℕ → Option KeyForm → PageRoute
  revoke_api_key_route : Option ℕ → Option ℕ → PageRoute
  devices_route : Option ℕ → DeviceFilter → PageRoute
  detail_route fragment_route : Option ℕ → PageRoute

pub data Route : Type 0 where
  open_route : OpenRoute → Route
  page_route : PageRoute → Route

pub record Request : Type 0 where
  pub path : String
  pub route : Route
  pub cookie : Option String

-- The server's codecs.
pub record Server : Type 0 where
  pub auth : AuthCodec
  pub providers : ProviderCodec

-- `handleSetupPage` and `handleLoginPage` render their template with no message.
unfoldable pub serve_open : AuthCodec → Option String → OpenRoute → M Answer
serve_open c cookie (static_file page) = pure (answer page)
serve_open c cookie setup_page_route = pure (answer (rendered "Setup" ""))
serve_open c cookie (setup_route form) = handle_setup c form
serve_open c cookie login_page_route = pure (answer (rendered "Login" ""))
serve_open c cookie (login_route form) = handle_login c form
serve_open c cookie logout_route = handle_logout c cookie

unfoldable pub serve_page : Server → PageRoute → ℕ → M Answer
serve_page s home_route user_id = handle_home user_id
serve_page s list_projects_route user_id = render_projects_list user_id ""
serve_page s (create_project_route form) user_id = handle_create_project user_id form
serve_page s (overview_route id) user_id = handle_project_overview user_id id
serve_page s (providers_route id) user_id = handle_providers_tab user_id id
serve_page s (save_credential_route id form) user_id =
    handle_upsert_provider_credential s.providers user_id id form
serve_page s (test_credential_route id form) user_id =
    handle_test_provider_credential s.providers user_id id form
serve_page s (api_keys_route id) user_id = handle_api_keys_tab user_id id
serve_page s (create_api_key_route id form) user_id =
    handle_create_api_key s.auth.tokens user_id id form
serve_page s (revoke_api_key_route id key_id) user_id = handle_revoke_api_key id key_id
serve_page s (devices_route id f) user_id = handle_devices_tab user_id id f
serve_page s (notifications_route id) user_id = handle_notifications_tab user_id id
serve_page s (detail_route id) user_id = handle_notification_detail user_id id
serve_page s (fragment_route id) user_id = handle_recipients_fragment id

unfoldable pub serve_route : Server → Option String → Route → M Answer
serve_route s cookie (open_route r) = serve_open s.auth cookie r
serve_route s cookie (page_route r) = require_session s.auth cookie (serve_page s r)

-- `NewRouter`
unfoldable pub serve : Server → Request → M Answer
serve s q = setup_gate q.path (serve_route s q.cookie q.route)
