-- ===== src/Store/Sessions.antt =====
-- internal/store/postgres/sessions.sql.go.
use slay_push.Store.Users.{user_has_id}
use slay_push.Store.Notifications.{one_row}
use slay_push.Store.ApiKeys.{is_null}
use slay_push.Base.Text.{str_eq}
use slay_push.Errors.{violation, err, ok, Result}
use slay_push.Store.Monad.{query, M}
use slay_push.Base.{
  ◌∷◌, update_where, ltb, find_where, any_where, if◌then◌else◌, none, ◌==◌, ◌&&◌, some, Bool, ℕ,
  String,
}
use slay_push.Store.{World, Session}

abbrev pub session_has_id : ℕ → Session → Bool
session_has_id id s = s.id == id

abbrev pub has_token_hash : String → Session → Bool
has_token_hash h s = str_eq s.token_hash h

unfoldable pub new_session : ℕ → String → ℕ → World → Session
new_session user_id token_hash expires_at w = record {
  id = w.env.gen_random_uuid w.tick;
  user_id = user_id;
  token_hash = token_hash;
  created_at = w.env.now w.tick;
  last_used_at = none;
  expires_at = expires_at;
  revoked_at = none;
}

unfoldable pub insert_session : Session → World → Result Session × World
insert_session s w =
    if any_where (session_has_id s.id) w.sessions
    then (err (violation "sessions_pkey"), w)
    else if any_where (has_token_hash s.token_hash) w.sessions
    then (err (violation "sessions_token_hash_key"), w)
    else if any_where (user_has_id s.user_id) w.users
    then (ok s, record w { sessions = s ∷ w.sessions })
    else (err (violation "sessions_user_id_fkey"), w)

unfoldable pub create_session : ℕ → String → ℕ → M Session
create_session user_id token_hash expires_at =
    query λ w. insert_session (new_session user_id token_hash expires_at w) w

-- `revoked_at is null and expires_at > now()`
unfoldable pub is_live_session : String → ℕ → Session → Bool
is_live_session h now s = has_token_hash h s && (is_null s.revoked_at && ltb now s.expires_at)

unfoldable pub get_active_session_by_hash : String → M Session
get_active_session_by_hash h =
    query λ w. (one_row (find_where (is_live_session h (w.env.now w.tick)) w.sessions), w)

unfoldable pub ended : ℕ → Session → Session
ended at s = record s { revoked_at = some at }

unfoldable pub revoke_session : ℕ → M (Unit {0})
revoke_session id = query λ w. (
  ok tt,
  record w { sessions = update_where (session_has_id id) (ended (w.env.now w.tick)) w.sessions },
)

unfoldable pub used_at : ℕ → Session → Session
used_at at s = record s { last_used_at = some at }

unfoldable pub touch_session_last_used : ℕ → M (Unit {0})
touch_session_last_used id = query λ w. (
  ok tt,
  record w { sessions = update_where (session_has_id id) (used_at (w.env.now w.tick)) w.sessions },
)
