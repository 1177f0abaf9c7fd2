-- ===== src/Store/Credentials.antt =====
-- internal/store/postgres/provider_credentials.sql.go, as the worker reads it.
use slay_push.Base.Text.{str_eq}
use slay_push.Store.Notifications.{one_row}
use slay_push.Store.{ProviderCredential}
use slay_push.Store.Monad.{query, M}
use slay_push.Base.{find_where, ◌&&◌, ◌==◌, Bool, String, ℕ}

unfoldable pub is_active_for : ℕ → String → String → ProviderCredential → Bool
is_active_for project_id provider_type environment c =
    c.project_id == project_id
    && (str_eq c.provider_type provider_type && (str_eq c.environment environment && c.is_active))

unfoldable pub get_active_provider_credential : ℕ → String → String → M ProviderCredential
get_active_provider_credential project_id provider_type environment = query λ w.
    (one_row (find_where (is_active_for project_id provider_type environment) w.credentials), w)
