-- ===== src/Store/ApiKeys.antt =====
-- internal/store/postgres/api_keys.sql.go.
use slay_push.Store.Projects.{has_project}
use slay_push.Base.Text.{str_eq}
use slay_push.Store.Notifications.{one_row}
use slay_push.Errors.{violation, err, ok, Result}
use slay_push.Store.Monad.{query, M}
use slay_push.Base.{
  ◌||◌, update_where, select_where, not, ltb, leb, find_where, false, true, if◌then◌else◌,
  any_where, [], ◌==◌, ◌&&◌, ◌∷◌, ◌∷◌, some, none, Bool, ℕ, String, Option, List,
}
use slay_push.Store.{World, ApiKey}

pub record CreateApiKeyParams : Type 0 where
  pub project_id : ℕ
  pub name : String
  pub key_prefix : String
  pub key_hash : String
  pub scope : String

abbrev pub key_has_id : ℕ → ApiKey → Bool
key_has_id id k = k.id == id

abbrev pub has_key_hash : String → ApiKey → Bool
has_key_hash h k = str_eq k.key_hash h

unfoldable pub new_api_key : CreateApiKeyParams → World → ApiKey
new_api_key p w = record {
  id = w.env.gen_random_uuid w.tick;
  project_id = p.project_id;
  name = p.name;
  key_prefix = p.key_prefix;
  key_hash = p.key_hash;
  scope = p.scope;
  created_at = w.env.now w.tick;
  last_used_at = none;
  revoked_at = none;
  expires_at = none;
}

unfoldable pub insert_api_key : ApiKey → World → Result ApiKey × World
insert_api_key k w =
    if not (str_eq k.scope "read" || str_eq k.scope "send")
    then (err (violation "api_keys_scope_check"), w)
    else if any_where (key_has_id k.id) w.api_keys
    then (err (violation "api_keys_pkey"), w)
    else if any_where (has_key_hash k.key_hash) w.api_keys
    then (err (violation "api_keys_key_hash_key"), w)
    else if has_project k.project_id w
    then (ok k, record w { api_keys = k ∷ w.api_keys })
    else (err (violation "api_keys_project_id_fkey"), w)

unfoldable pub create_api_key : CreateApiKeyParams → M ApiKey
create_api_key p = query λ w. insert_api_key (new_api_key p w) w

-- `expires_at is null or expires_at > now()`
abbrev pub unexpired : Option ℕ → ℕ → Bool
unexpired none now = true
unexpired (some t) now = ltb now t

abbrev pub is_null : Option ℕ → Bool
is_null none = true
is_null (some t) = false

abbrev pub is_active_project : ℕ → World → Bool
is_active_project id w = any_where (λ p. p.id == id && str_eq p.status "active") w.projects

-- The row of a hash that is neither revoked nor expired, in an active project.
unfoldable pub is_live_key : String → World → ApiKey → Bool
is_live_key h w k =
    has_key_hash h k
    && (is_null k.revoked_at
        && (unexpired k.expires_at (w.env.now w.tick) && is_active_project k.project_id w))

unfoldable pub get_active_api_key_by_hash : String → M ApiKey
get_active_api_key_by_hash h = query λ w. (one_row (find_where (is_live_key h w) w.api_keys), w)

-- `order by created_at desc`
insert_newest : ApiKey → List ApiKey → List ApiKey
insert_newest k [] = k ∷ []
insert_newest k (j ∷ ks) =
    if leb j.created_at k.created_at then k ∷ j ∷ ks else j ∷ insert_newest k ks

newest_first : List ApiKey → List ApiKey
unfolding insert_newest
newest_first [] = []
newest_first (k ∷ ks) = insert_newest k (newest_first ks)

unfoldable pub list_api_keys_by_project : ℕ → M (List ApiKey)
unfolding newest_first
list_api_keys_by_project project_id =
    query λ w. (ok (newest_first (select_where (λ k. k.project_id == project_id) w.api_keys)), w)

unfoldable pub revoked : ℕ → ApiKey → ApiKey
revoked at k = record k { revoked_at = some at }

abbrev pub key_of_project : ℕ → ℕ → ApiKey → Bool
key_of_project id project_id k = k.id == id && k.project_id == project_id

unfoldable pub revoke_api_key : ℕ → ℕ → M (Unit {0})
revoke_api_key id project_id = query λ w. (
  ok tt,
  record w {
    api_keys = update_where (key_of_project id project_id) (revoked (w.env.now w.tick)) w.api_keys;
  },
)

unfoldable pub touched : ℕ → ApiKey → ApiKey
touched at k = record k { last_used_at = some at }

unfoldable pub touch_api_key_last_used : ℕ → M (Unit {0})
touch_api_key_last_used id = query λ w. (
  ok tt,
  record w { api_keys = update_where (key_has_id id) (touched (w.env.now w.tick)) w.api_keys },
)
