-- ===== src/Examples/SignIns.antt =====
-- The theorems on the dashboard at work.
use slay_push.Base.Text.{str_eq_iff}
use mathlib.Core.Bool.{false≢true}
use slay_push.Dashboard.Keys.Reveals.{handle_create_api_key-IsRevealed, IsRevealed}
use slay_push.Store.Projects.{has_project}
use slay_push.Store.ApiKeys.{new_api_key, list_api_keys_by_project, insert_api_key, create_api_key}
use slay_push.Store.Tenants.{list_projects, get_project_by_id}
use slay_push.Dashboard.Keys.{
  keys_of, render_keys_tab, created_key, create_key, with_scope, with_key_form, with_project,
  on_project, handle_create_api_key, KeyForm,
}
use slay_push.Apikey.{generate, parse_scope, hex}
use slay_push.Dashboard.Logout.{logout-IsTurnedAway}
use slay_push.Dashboard.Login.{handle_login-IsSignedIn, IsSignedIn}
use slay_push.Provider.Cache.{same_bytes}
use slay_push.Store.Sessions.{is_live_session, new_session, insert_session, create_session}
use slay_push.Base.Strings.{split}
use slay_push.Auth.{hash_session_token, generate_session_token, verify_password}
use slay_push.Store.Users.{get_user_by_id, get_user_by_email}
use slay_push.Examples.{fresh_world}
use slay_push.Store.Monad.{query, pure, M}
use slay_push.Base.{select_where, none, refl, any_where, ◌⊎◌, ◌∷◌, find_where, some, [], ℕ}
use slay_push.Errors.{ok}
use slay_push.Store.{World, User}
use slay_push.Dashboard.Sound.{require_session_sound, IsTurnedAway, IsEntry}
use slay_push.Dashboard.{
  handle_logout, cookie_value, redirect, rendered, answer, Answer, handle_login, Form, AuthCodec,
}

-- Every password has the same digest.
abbrev codec : AuthCodec
codec = record {
  tokens = record { random = λ n. ok []; encode_raw_url = λ b. "k"; sum256 = λ s. [] };
  passwords = record {
    random = λ n. ok [];
    id_key = λ plain salt p n. 1 ∷ [];
    version = 19;
    encode = λ b. "x";
    decode = λ s. ok (1 ∷ []);
    itoa = λ n. "1";
    scan_version = λ s. ok 19;
    scan_params = λ s. ok (record { memory = 1; iterations = 1; threads = 1 });
  };
}

abbrev ann : User
ann = record {
  id = 8;
  email = "ann@shop";
  password_hash = "$argon2id$v=19$m=1,t=1,p=1$x$x";
  role = "admin";
  created_at = 0;
}

abbrev staffed : World
staffed = record fresh_world { users = ann ∷ [] }

abbrev form : Form
form = record { email = "ann@shop"; password = "secret12" }

handle_login-IsSignedIn_example :
    IsSignedIn codec form "sd_k" staffed (handle_login codec (some form) staffed).1
unfolding handle_login get_user_by_email find_where verify_password split generate_session_token
    create_session query insert_session new_session any_where same_bytes
handle_login-IsSignedIn_example =
    handle_login-IsSignedIn codec form staffed (handle_login codec (some form) staffed).1
      (record { page = redirect "/"; set_cookie = some "sd_k" }) "sd_k" refl refl

abbrev whoami : ℕ → M Answer
whoami user_id = pure (answer (rendered "Home" ""))

abbrev signed_in : World
signed_in = record staffed {
  sessions =
      record {
        id = 4;
        user_id = 8;
        token_hash = "";
        created_at = 0;
        last_used_at = none;
        expires_at = 100;
        revoked_at = none;
      }
      ∷ [];
}

require_session_sound_example :
    IsEntry codec (some "sd_k") whoami signed_in ⊎ IsTurnedAway codec (some "sd_k") whoami signed_in
require_session_sound_example = require_session_sound codec (some "sd_k") whoami signed_in

logout-IsTurnedAway_example :
    IsTurnedAway codec (some "sd_k") whoami (handle_logout codec (some "sd_k") signed_in).1
unfolding cookie_value find_where is_live_session hash_session_token hex
logout-IsTurnedAway_example =
    logout-IsTurnedAway codec "sd_k" signed_in _ whoami refl (λ n. refl) refl (λ h. refl, tt)

abbrev key_form : KeyForm
key_form = record { name = "ci"; scope = "send" }

handle_create_api_key-IsRevealed_example :
    IsRevealed codec.tokens 1 key_form "sp_live_k" staffed
      (handle_create_api_key codec.tokens 8 (some 1) (some key_form) staffed).1
unfolding handle_create_api_key on_project with_project with_key_form get_project_by_id find_where
    query parse_scope with_scope generate create_key create_api_key insert_api_key any_where
    has_project created_key render_keys_tab keys_of get_user_by_id list_api_keys_by_project
    list_projects select_where new_api_key
handle_create_api_key-IsRevealed_example =
    handle_create_api_key-IsRevealed codec.tokens 8 1 key_form staffed _ _ "sp_live_k" refl refl
      (λ e. false≢true ((str_eq_iff "sp_live_k" "").1 e))
