-- ===== src/Dashboard/Logout.antt =====
-- A session after its logout.
use slay_push.Store.Notifications.{one_row}
use slay_push.Errors.{ok}
use mathlib.Core.Path.{subst}
use slay_push.Dashboard.Sound.{require_session_sound, IsTurnedAway}
use slay_push.Store.Fates.{query_runs, AllRun}
use slay_push.Auth.{hash_session_token}
use slay_push.Store.Monad.{attempt, bind_result, pure, advance, M}
use slay_push.Store.Sessions.{
  revoke_session, session_has_id, get_active_session_by_hash, has_token_hash, ended,
  is_live_session,
}
use slay_push.Store.{Session, World}
use slay_push.Base.{
  ◌∙◌, ap, refl, [], inr, arith, sym, inl, Bool-cases, ◌∷◌, suc, none, true, All, ◌≡◌, some, List,
  ℕ, update_where, find_where, String,
}
use slay_push.Dashboard.{
  redirect, end_session, cookie_value, end_cookie, Answer, handle_logout, AuthCodec,
}

-- Every session with this hash is the one of this id.
abbrev pub IsSessionOf : String → ℕ → Session → Type 0
IsSessionOf h id s = has_token_hash h s ≡ true → session_has_id id s ≡ true

none-live :
    (h : String) (id at now : ℕ) (ss : List Session)
    → All (IsSessionOf h id) ss
    → find_where (is_live_session h now) (update_where (session_has_id id) (ended at) ss) ≡ none
unfolding find_where update_where is_live_session ended
none-live h id at now [] a = refl
none-live h id at now (s ∷ ss) a = elim (Bool-cases (session_has_id id s)) [
  | inl hit ↦ ground (arith, none-live h id at now ss a.1)
  | inr miss ↦ ground (arith, a.0, none-live h id at now ss a.1)
]

module _ (c : AuthCodec) (raw : String) (w : World) (s : Session) where
  abbrev h : String
  h = hash_session_token c.tokens raw

  abbrev pub logged_out : World
  logged_out = (handle_logout c (some raw) w).1

  abbrev ending : World → World
  ending u = record u {
    tick = suc (suc u.tick);
    sessions = update_where (session_has_id s.id) (ended (u.env.now (suc (suc u.tick)))) u.sessions;
  }

  revoke-ends : AllRun w → end_session (ok s) (advance w) ≡ (ok tt, ending w)
  unfolding end_session revoke_session
  revoke-ends up = rw (query_runs _ (advance w) (up (suc w.tick))) refl

  cookie-ends :
      AllRun w
      → find_where (is_live_session h (w.env.now (suc w.tick))) w.sessions ≡ some s
      → end_cookie c (some raw) w ≡ (ok tt, ending w)
  unfolding end_cookie get_active_session_by_hash
  cookie-ends up live =
      ap (λ x. bind_result (attempt (λ u. x) w) end_session)
        (query_runs
          (λ u. (one_row (find_where (is_live_session h (u.env.now u.tick)) u.sessions), u)) w
          (up w.tick))
      ∙ ap (λ o. end_session (one_row o) (advance w)) live
      ∙ revoke-ends up

  logout-ends :
      cookie_value (some raw) ≡ some raw
      → AllRun w
      → find_where (is_live_session h (w.env.now (suc w.tick))) w.sessions ≡ some s
      → logged_out ≡ ending w
  unfolding handle_logout
  logout-ends b up live =
      let finish : M Answer = pure (record { page = redirect "/login"; set_cookie = some "" }) in
      ap (λ o. (bind_result (end_cookie c o w) (λ _. finish)).1) b
      ∙ ap (λ x. (bind_result x (λ _. finish)).1) (cookie-ends up live)

  -- Once a logout has run, with the database up, the cookie's session opens no page again: every
  -- request with that cookie is redirected to the login page.
  pub logout-IsTurnedAway :
      (next : ℕ → M Answer)
      → cookie_value (some raw) ≡ some raw
      → AllRun w
      → find_where (is_live_session h (w.env.now (suc w.tick))) w.sessions ≡ some s
      → All (IsSessionOf h s.id) w.sessions
      → IsTurnedAway c (some raw) next logged_out
  logout-IsTurnedAway next b up live own =
      let now = logged_out.env.now (suc logged_out.tick) in
      let gone =
        subst (λ (u : World). find_where (is_live_session h now) u.sessions ≡ none)
          (sym (logout-ends b up live))
          (none-live h s.id (w.env.now (suc (suc w.tick))) now w.sessions own) in
      elim (require_session_sound c (some raw) next logged_out) [
        | inr turned ↦ turned
        | inl entry ↦ let bears = entry.bears in let found = entry.live in cc
      ]
