-- ===== src/Dashboard.antt =====
-- internal/dashboard: who may use it (middleware.go, auth_handlers.go, setup_handlers.go). Templates
-- are named, not drawn; the attributes of a cookie beside its value are fixed.
pub mod Views
pub mod Sound
pub mod Login
pub mod Entry
pub mod Logout
pub mod Keys
pub mod Projects
pub mod Tabs
pub mod Providers
pub mod Notifications
pub mod Router
use slay_push.Dashboard.Views.{
  RecipientView, NotificationDetail, NotificationView, DeviceView, Message, CredentialView,
  ProjectStats,
}
use slay_push.Store.Sessions.{
  touch_session_last_used, revoke_session, get_active_session_by_hash, create_session,
}
use slay_push.Store.Users.{get_user_by_email, create_user, count_users}
use slay_push.Base.Text.{◌<>◌, str_eq}
use slay_push.Base.Strings.{byte_len, contains_char, after_prefix}
use slay_push.Store.{Project, User, Session}
use slay_push.Auth.{
  hash_password, session_ttl, hash_session_token, verify_password, generate_session_token,
  PasswordCodec,
}
use slay_push.Store.Monad.{attempt, asks, ◌>>=◌, pure, M}
use slay_push.Errors.{ok, err, Result}
use slay_push.Base.{
  List, ◌+◌, not, ◌||◌, ltb, true, if◌then◌else◌, false, some, Bool, ℕ, none, String, Option,
}
use slay_push.Apikey.{KeyCodec}
use Prim.Native.String.{char_at}

-- templates.APIKey
pub record ApiKeyView : Type 0 where
  pub id : String
  pub name : String
  pub key_prefix : String
  pub scope : String
  pub created_at : ℕ
  pub last_used_at : Option ℕ
  pub revoked : Bool

pub data Page : Type 0 where
  -- A template, with its message.
  rendered : String → String → Page
  redirect : String → Page
  internal_error : Page
  bad_request not_found : String → Page
  -- The page of a project's keys: the user's email, the project, all projects, the keys, the key
  -- that it reveals and its message.
  keys_page : String → Project → List Project → List ApiKeyView → String → String → Page
  -- The page of all projects, with the user's email and its message.
  projects_page : String → List Project → String → Page
  home_page : String → List Project → Page
  -- The tabs of a project: the user's email, the project, all projects, and what the tab shows.
  overview_page : String → Project → List Project → ProjectStats → Page
  providers_page : String → Project → List Project → List CredentialView → Message → Page
  devices_page : String → Project → List Project → List DeviceView → String → String → Page
  notifications_page : String → Project → List Project → List NotificationView → Page
  notification_page : String → Project → List Project → NotificationDetail → Page
  -- A notification's id, its recipients, and whether every recipient is in a terminal state.
  recipients_fragment : String → List RecipientView → Bool → Page

pub record Answer : Type 0 where
  pub page : Page
  -- The session cookie that it sets; the empty value deletes it.
  pub set_cookie : Option String

abbrev pub answer : Page → Answer
answer page = record { page = page; set_cookie = none }

pub record AuthCodec : Type 0 where
  pub tokens : KeyCodec
  pub passwords : PasswordCodec

pub record Form : Type 0 where
  pub email : String
  pub password : String

unfoldable pub gate_on : String → M Answer → Result ℕ → M Answer
gate_on path next (err e) = pure (answer internal_error)
gate_on path next (ok count) =
    if str_eq path "/setup"
    then (if ltb 0 count then pure (answer (redirect "/login")) else next)
    else (if ltb 0 count then next else pure (answer (redirect "/setup")))

is_static : Option String → Bool
is_static none = false
is_static (some rest) = true

-- `setupGate`
unfoldable pub setup_gate : String → M Answer → M Answer
unfolding is_static
setup_gate path next =
    if is_static (after_prefix path "/static/")
    then next
    else do count ← attempt count_users; gate_on path next count

-- The update runs apart from the request; it changes last_used_at alone, and its error is logged.
unfoldable pub touch_session : ℕ → M (Unit {0})
touch_session id = do _ ← attempt (touch_session_last_used id); pure tt

unfoldable pub with_session : (ℕ → M Answer) → Result Session → M Answer
with_session next (err e) = pure (answer (redirect "/login"))
with_session next (ok s) = do _ ← touch_session s.id; next s.user_id

-- The cookie's value, where the request has one that is not empty.
unfoldable pub cookie_value : Option String → Option String
cookie_value none = none
cookie_value (some v) = if str_eq v "" then none else some v

-- `requireSession`: the handler behind it is given the session's user.
unfoldable pub require_session : AuthCodec → Option String → (ℕ → M Answer) → M Answer
require_session c cookie next = elim (cookie_value cookie) [
  | none ↦ pure (answer (redirect "/login"))
  | some raw ↦ do
    found ← attempt (get_active_session_by_hash (hash_session_token c.tokens raw))
    with_session next found
]

login_page : String → M Answer
login_page text = pure (answer (rendered "Login" text))

logged_in : String → Result Session → M Answer
logged_in raw (err e) = pure (answer internal_error)
logged_in raw (ok s) = pure (record { page = redirect "/"; set_cookie = some raw })

start_session : AuthCodec → ℕ → Result String → M Answer
unfolding logged_in
start_session c user_id (err e) = pure (answer internal_error)
start_session c user_id (ok raw) = do
  now ← asks (λ w. w.env.now w.tick)
  made ← attempt (create_session user_id (hash_session_token c.tokens raw) (now + session_ttl))
  logged_in raw made

on_verified : AuthCodec → ℕ → Result Bool → M Answer
unfolding start_session login_page
on_verified c user_id (ok true) = start_session c user_id (generate_session_token c.tokens)
on_verified c user_id _ = login_page "invalid email or password"

on_user : AuthCodec → String → Result User → M Answer
unfolding on_verified login_page
on_user c password (err e) = login_page "invalid email or password"
on_user c password (ok u) =
    on_verified c u.id (verify_password c.passwords u.password_hash password)

-- `handleLogin`; ParseForm has failed where there is no form.
unfoldable pub handle_login : AuthCodec → Option Form → M Answer
unfolding on_user login_page
handle_login c none = login_page "invalid form submission"
handle_login c (some form) = do
  user ← attempt (get_user_by_email form.email)
  on_user c form.password user

end_session : Result Session → M (Unit {0})
end_session (err e) = pure tt
end_session (ok s) = do _ ← attempt (revoke_session s.id); pure tt

end_cookie : AuthCodec → Option String → M (Unit {0})
unfolding end_session
end_cookie c none = pure tt
end_cookie c (some raw) = do
  found ← attempt (get_active_session_by_hash (hash_session_token c.tokens raw))
  end_session found

-- `handleLogout`
unfoldable pub handle_logout : AuthCodec → Option String → M Answer
unfolding end_cookie
handle_logout c cookie = do
  _ ← end_cookie c (cookie_value cookie)
  pure (record { page = redirect "/login"; set_cookie = some "" })

setup_page : String → M Answer
setup_page text = pure (answer (rendered "Setup" text))

created_admin : Result User → M Answer
unfolding setup_page
created_admin (err e) = setup_page "failed to create admin account (email may already be in use)"
created_admin (ok u) = pure (answer (redirect "/login"))

create_admin : String → Result String → M Answer
unfolding created_admin
create_admin email (err e) = pure (answer internal_error)
create_admin email (ok hash) = do made ← attempt (create_user email hash); created_admin made

-- `handleSetup`
unfoldable pub handle_setup : AuthCodec → Option Form → M Answer
unfolding create_admin setup_page
handle_setup c none = setup_page "invalid form submission"
handle_setup c (some form) =
    if str_eq form.email "" || not (contains_char (char_at "@" 0) form.email)
    then setup_page "a valid email is required"
    else if ltb (byte_len form.password) 8
    then setup_page ("password must be at least " <> c.passwords.itoa 8 <> " characters")
    else create_admin form.email (hash_password c.passwords form.password)
