-- ===== src/Server/Commands/SignIns.antt =====
-- A login after reset-password.
use slay_push.Server.Commands.Passwords.{reset_password-Verifies}
use slay_push.Store.Users.{has_email}
use slay_push.Dashboard.Entry.{fresh_enters, login_signs, signed_in, IsNew}
use slay_push.Auth.{session_ttl, generate_session_token}
use slay_push.Store.Fates.{AllRun}
use slay_push.Errors.{ok}
use slay_push.Store.Monad.{M}
use slay_push.Base.Strings.{trim_line_end}
use slay_push.Store.{Session, User, World}
use slay_push.Base.{List, some, find_where, ◌+◌, ◌<◌, suc, ◌≡◌, ℕ, String}
use slay_push.Auth.RoundTrip.{IsFaithful}
use slay_push.Dashboard.{require_session, redirect, handle_login, Answer, Form, AuthCodec}
use slay_push.Server.Commands.{run_reset_password, Cli}

module _ (cli : Cli) (c : AuthCodec) (f : IsFaithful c.passwords) (email line raw : String) where
  -- The login form with the password of the line.
  abbrev pub form : Form
  form = record { email = email; password = trim_line_end line }

  -- A login from this world sets a session cookie, and the next request with that cookie reaches its
  -- page, for the user of the email.
  pub record Admits (next : ℕ → M Answer) (v : World) : Type 0 where
    pub user : User
    pub world : World
    pub contacts : ℕ
    pub sessions : List Session
    pub found : find_where (has_email email) v.users ≡ some user
    pub signs :
        handle_login c (some form) v
        ≡ (ok (record { page = redirect "/"; set_cookie = some raw }), world)
    pub enters :
        require_session c (some raw) next world
        ≡ next user.id (record world { tick = contacts; sessions = sessions })

  -- Where reset-password has returned no error, a login with the email and the password that was
  -- read, without the line's end, with the database up and a session token, id and hash that are new,
  -- sets a session cookie; and the next request with that cookie, made before the session ends,
  -- reaches its page for the user of the email. Under fmt, base64 and argon2 that behave as
  -- documented.
  pub reset_password-Admits :
      (w v : World) (next : ℕ → M Answer)
      → run_reset_password cli c.passwords email (ok line) w ≡ (ok tt, v)
      → AllRun v
      → generate_session_token c.tokens ≡ ok raw
      → IsNew c form raw v
      → v.env.now (suc (suc (suc v.tick))) < v.env.now (suc v.tick) + session_ttl
      → Admits next v
  reset_password-Admits w v next done up token new early =
      let reset = reset_password-Verifies cli c.passwords f email line w v done in
      let entered = fresh_enters c form raw v reset.user.id next up token early in
      record {
        user = reset.user;
        world = signed_in c form raw v reset.user.id;
        contacts = entered.0;
        sessions = entered.1;
        found = reset.found;
        signs = login_signs c form raw v reset.user up reset.found reset.verified token new;
        enters = entered.2;
      }
