-- ===== src/Dashboard/Router/Protected.antt =====
-- Who is let into the dashboard's pages.
use slay_push.Store.Fates.{read_cases}
use slay_push.Base.Text.{str_eq}
use slay_push.Base.Strings.{after_prefix}
use slay_push.Dashboard.Sound.{require_session_sound}
use slay_push.Auth.{hash_session_token}
use slay_push.Store.ApiKeys.{is_null}
use slay_push.Store.Users.{count_users}
use slay_push.Store.Monad.{M}
use slay_push.Errors.{ok, err, Result}
use slay_push.Store.Sessions.{has_token_hash, is_live_session}
use slay_push.Store.{Session, World}
use slay_push.Base.{
  arith, length, All-find, suc, ltb, find_where_sound, refl, inr, inl, false, Bool-cases, ◌⊎◌, All,
  true, some, ◌≡◌, ℕ, Option, String,
}
use slay_push.Dashboard.Router.{serve_page, page_route, serve_route, serve, PageRoute, Server}
use slay_push.Dashboard.{
  is_static, internal_error, answer, setup_gate, require_session, redirect, gate_on, Page,
  cookie_value, Answer, AuthCodec,
}

-- A session with the hash is revoked.
abbrev pub IsRevokedFor : String → Session → Type 0
IsRevokedFor h s = has_token_hash h s ≡ true → is_null s.revoked_at ≡ false

-- No cookie, or one whose sessions are revoked.
abbrev pub HasNoSession : AuthCodec → Option String → World → Type 0
HasNoSession c cookie w =
    (raw : String)
    → cookie_value cookie ≡ some raw
    → All (IsRevokedFor (hash_session_token c.tokens raw)) w.sessions

-- A redirect to the login page or to the set-up, or an internal error, with nothing but contacts
-- made.
pub record IsShutOut (w : World) (x : Result Answer × World) : Type 0 where
  pub page : Page
  pub contacts : ℕ
  pub kind : (page ≡ redirect "/login") ⊎ (page ≡ redirect "/setup") ⊎ (page ≡ internal_error)
  pub answered : x ≡ (ok (answer page), record w { tick = contacts })

turned_away :
    (c : AuthCodec) (cookie : Option String) (next : ℕ → M Answer) (w : World)
    → HasNoSession c cookie w
    → (n : ℕ) × (require_session c cookie next w
        ≡ (ok (answer (redirect "/login")), record w { tick = n }))
unfolding is_live_session
turned_away c cookie next w none_live = elim (require_session_sound c cookie next w) [
  | inr away ↦ away
  | inl entry ↦
      let live =
        find_where_sound
          (is_live_session (hash_session_token c.tokens entry.raw) (w.env.now (suc w.tick)))
          w.sessions entry.session entry.live in
      let revoked =
        All-find (IsRevokedFor (hash_session_token c.tokens entry.raw))
          (is_live_session (hash_session_token c.tokens entry.raw) (w.env.now (suc w.tick)))
          w.sessions entry.session entry.live (none_live entry.raw entry.bears) in
      absurd (ground arith)
]

module _ (s : Server) (cookie : Option String) (r : PageRoute) where
  next_shuts_out :
      (w : World) (n : ℕ)
      → HasNoSession s.auth cookie w
      → IsShutOut w (serve_route s cookie (page_route r) (record w { tick = n }))
  unfolding serve_route
  next_shuts_out w n h =
      let (m, e) = turned_away s.auth cookie (serve_page s r) (record w { tick = n }) h in
      record { page = redirect "/login"; contacts = m; kind = inl refl; answered = e }

  gate_shuts_out :
      (path : String) (count : Result ℕ) (w : World) (n : ℕ)
      → HasNoSession s.auth cookie w
      → IsShutOut w
          (gate_on path (serve_route s cookie (page_route r)) count (record w { tick = n }))
  unfolding gate_on
  gate_shuts_out path (err e) w n h = record {
    page = internal_error;
    contacts = n;
    kind = inr (inr refl);
    answered = refl;
  }
  gate_shuts_out path (ok count) w n h = elim (Bool-cases (str_eq path "/setup")) [
    | inl at_setup ↦ elim (Bool-cases (ltb 0 count)) [
      | inl done ↦ record {
        page = redirect "/login";
        contacts = n;
        kind = inl refl;
        answered = rw (gate_on, at_setup, done) refl;
      }
      | inr vacant ↦ rw (gate_on, at_setup, vacant) (next_shuts_out w n h)
    ]
    | inr elsewhere ↦ elim (Bool-cases (ltb 0 count)) [
      | inl done ↦ rw (gate_on, elsewhere, done) (next_shuts_out w n h)
      | inr vacant ↦ record {
        page = redirect "/setup";
        contacts = n;
        kind = inr (inl refl);
        answered = rw (gate_on, elsewhere, vacant) refl;
      }
    ]
  ]

  -- A request for one of the dashboard's pages, with no cookie or one whose sessions are revoked, is
  -- redirected to the login page or to the set-up, or answered by 500, and changes no table.
  pub serve_protected :
      (path : String) (w : World)
      → HasNoSession s.auth cookie w
      → IsShutOut w (serve s (record { path = path; route = page_route r; cookie = cookie }) w)
  unfolding serve setup_gate count_users
  serve_protected path w h = elim (Bool-cases (is_static (after_prefix path "/static/"))) [
    | inl static ↦ rw (setup_gate, static) (next_shuts_out w w.tick h)
    | inr gated ↦ elim (read_cases (λ u. ok (length u.users)) w) [
      | inl q ↦ rw (setup_gate, gated, q) (gate_shuts_out path _ w (suc w.tick) h)
      | inr (e, q) ↦ rw (setup_gate, gated, q) (gate_shuts_out path _ w (suc w.tick) h)
    ]
  ]
