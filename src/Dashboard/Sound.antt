-- ===== src/Dashboard/Sound.antt =====
-- Which requests requireSession lets through to a page.
use slay_push.Store.Notifications.{one_row}
use slay_push.Store.Fates.{fate-cases, read_cases}
use slay_push.Auth.{hash_session_token}
use slay_push.Store.Sessions.{
  used_at, session_has_id, is_live_session, touch_session_last_used, get_active_session_by_hash,
}
use slay_push.Errors.{ok, Result}
use slay_push.Store.{Session, World}
use slay_push.Store.Monad.{attempt, advance, bind_result, query, M}
use slay_push.Base.{
  ap, ◌∙◌, refl, suc, inr, update_where, inl, find_where, some, Option-cases, ◌⊎◌, List, Bool, ◌≡◌,
  ℕ, String, Option,
}
use slay_push.Dashboard.{
  redirect, answer, cookie_value, with_session, touch_session, require_session, Answer, AuthCodec,
}

module _ (c : AuthCodec) (cookie : Option String) (next : ℕ → M Answer) (w : World) where
  abbrev reply : Result Answer × World
  reply = require_session c cookie next w

  abbrev live_now : String → Session → Bool
  live_now raw = is_live_session (hash_session_token c.tokens raw) (w.env.now (suc w.tick))

  -- The page's own run, for the user of a live session that has the cookie's hash; before it, only
  -- the sessions' times of use and the count of contacts change.
  pub record IsEntry : Type 0 where
    pub raw : String
    pub session : Session
    pub contacts : ℕ
    pub sessions : List Session
    pub bears : cookie_value cookie ≡ some raw
    pub live : find_where (live_now raw) w.sessions ≡ some session
    pub runs : reply ≡ next session.user_id (record w { tick = contacts; sessions = sessions })

  -- A redirect to the login page, with nothing but contacts made.
  abbrev pub IsTurnedAway : Type 0
  IsTurnedAway = (n : ℕ) × (reply ≡ (ok (answer (redirect "/login")), record w { tick = n }))

  pub session_touch :
      (id : ℕ) (u : World)
      → (n : ℕ) × (ss : List Session) × (touch_session id u
          ≡ (ok tt, record u { tick = n; sessions = ss }))
  unfolding touch_session touch_session_last_used query
  session_touch id u =
      let ss = update_where (session_has_id id) (used_at (u.env.now (suc u.tick))) u.sessions in
      elim (fate-cases (u.env.query_fate u.tick)) [
        | inl e ↦ (suc u.tick, ss, rw e refl)
        | inr (inl (s, e)) ↦ (suc u.tick, u.sessions, rw e refl)
        | inr (inr (s, e)) ↦ (suc u.tick, ss, rw e refl)
      ]

  entry_cases :
      (raw : String) (s : Session)
      → cookie_value cookie ≡ some raw
      → find_where (live_now raw) w.sessions ≡ some s
      → reply ≡ with_session next (ok s) (advance w)
      → IsEntry
  unfolding with_session
  entry_cases raw s b l e =
      let (n, ss, t) = session_touch s.id (advance w) in
      record {
        raw = raw;
        session = s;
        contacts = n;
        sessions = ss;
        bears = b;
        live = l;
        runs = e ∙ ap (λ x. bind_result x λ _. next s.user_id) t;
      }

  cookie_cases :
      (raw : String)
      → cookie_value cookie ≡ some raw
      → reply
        ≡ bind_result
            (attempt (get_active_session_by_hash (hash_session_token c.tokens raw)) w)
            (with_session next)
      → IsEntry ⊎ IsTurnedAway
  unfolding get_active_session_by_hash with_session
  cookie_cases raw b e =
      let live =
        λ (u : World). is_live_session (hash_session_token c.tokens raw) (u.env.now u.tick) in
      elim (read_cases (λ u. one_row (find_where (live u) u.sessions)) w) [
        | inr (s, q) ↦ inr (suc w.tick, rw (e, q) refl)
        | inl q ↦ elim (Option-cases (find_where (live_now raw) w.sessions)) [
          | inl gone ↦ inr (suc w.tick, rw (e, q, gone) refl)
          | inr (s, l) ↦ inl (entry_cases raw s b l (rw (e, q, l) refl))
        ]
      ]

  -- A request reaches its page only for the user of a live session that has the hash of its cookie;
  -- any other is redirected to the login page, and changes no table.
  pub require_session_sound : IsEntry ⊎ IsTurnedAway
  unfolding require_session
  require_session_sound = elim (Option-cases (cookie_value cookie)) [
    | inl b ↦ inr (w.tick, rw (require_session, b) refl)
    | inr (raw, b) ↦ cookie_cases raw b (rw (require_session, b) refl)
  ]
