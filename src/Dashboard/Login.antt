-- ===== src/Dashboard/Login.antt =====
-- What a session cookie stands for.
use slay_push.Base.Text.{str_eq_refl}
use slay_push.Store.Notifications.{one_row}
use slay_push.Store.Fates.{read_cases}
use slay_push.Store.Monad.{advance}
use slay_push.Auth.{session_ttl, hash_session_token, verify_password}
use slay_push.Store.Success.{query_ok, ok_eq}
use slay_push.Store.Users.{user_has_id, has_email, get_user_by_email}
use slay_push.Base.{
  sym, Option-cases, ◌+◌, suc, ◌∙◌, refl, inr, inl, false, ap, true, none, any_where, Bool-cases,
  Bool, ◌∷◌, ℕ, some, find_where, ◌≡◌, String,
}
use slay_push.Store.{User, World, Session}
use slay_push.Store.Sessions.{
  session_has_id, create_session, has_token_hash, new_session, insert_session,
}
use slay_push.Errors.{err, ok, Result}
use slay_push.Dashboard.{
  rendered, redirect, internal_error, on_user, login_page, answer, start_session, on_verified,
  logged_in, handle_login, Form, Answer, Page, AuthCodec,
}

-- The cookie is set for a user whose email and password are the form's, and names a session of that
-- user's that is in the table and not revoked.
pub record IsSignedIn (c : AuthCodec) (form : Form) (raw : String) (w v : World) : Type 0 where
  pub user : User
  pub session : Session
  pub found : find_where (has_email form.email) w.users ≡ some user
  pub verified : verify_password c.passwords user.password_hash form.password ≡ ok true
  pub held : find_where (has_token_hash (hash_session_token c.tokens raw)) v.sessions ≡ some session
  pub owner : session.user_id ≡ user.id
  pub unrevoked : session.revoked_at ≡ none

abbrev SetsCookie : Result Answer × World → String → World → Type 0
SetsCookie x raw v = (a : Answer) × (x ≡ (ok a, v)) × (a.set_cookie ≡ some raw)

no-cookie :
    {C : Type 0} (page : Page) (u v : World) (raw : String)
    → SetsCookie (ok (answer page), u) raw v
    → C
no-cookie page u v raw (a, e, s) =
    let same = ok_eq (answer page) a u v e in
    let k : none ≡ some raw = ap (λ x. x.set_cookie) same ∙ s in cc

inserted :
    (s t : Session) (w v : World) → insert_session s w ≡ (ok t, v) → v.sessions ≡ s ∷ w.sessions
unfolding insert_session
inserted s t w v h = elim (Bool-cases (any_where (session_has_id s.id) w.sessions)) [
  | inl taken ↦ let k = rw (insert_session, taken) at h in cc
  | inr a ↦ elim (Bool-cases (any_where (has_token_hash s.token_hash) w.sessions)) [
    | inl taken ↦ let k = rw (insert_session, a, taken) at h in cc
    | inr b ↦ elim (Bool-cases (any_where (user_has_id s.user_id) w.users)) [
      | inr gone ↦ let k = rw (insert_session, a, b, gone) at h in cc
      | inl there ↦ let k = rw (insert_session, a, b, there) at h in ap (λ x. x.1.sessions) (sym k)
    ]
  ]
]

module _ (c : AuthCodec) (form : Form) (raw : String) (w v : World) where
  held_first :
      (id : ℕ) (h : String) (expires_at : ℕ)
      → find_where
          (has_token_hash h)
          (new_session id h expires_at (advance (advance w)) ∷ w.sessions)
        ≡ some (new_session id h expires_at (advance (advance w)))
  unfolding find_where new_session
  held_first id h expires_at = rw (str_eq_refl h) refl

  made_signs :
      (u : User) (token : String) (expires_at : ℕ) (x : Result Session × World)
      → find_where (has_email form.email) w.users ≡ some u
      → verify_password c.passwords u.password_hash form.password ≡ ok true
      → create_session u.id (hash_session_token c.tokens token) expires_at (advance w) ≡ x
      → SetsCookie (logged_in token x.0 x.1) raw v
      → IsSignedIn c form raw w v
  unfolding logged_in create_session new_session
  made_signs u token expires_at (err e, y) found verified made k =
      no-cookie internal_error y v raw k
  made_signs u token expires_at (ok s, y) found verified made (a, e, set) =
      let same = ok_eq (record { page = redirect "/"; set_cookie = some token }) a y v e in
      let named : some token ≡ some raw = ap (λ x. x.set_cookie) same ∙ set in
      let fresh =
        new_session u.id (hash_session_token c.tokens token) expires_at (advance (advance w)) in
      let stored = inserted fresh s (advance (advance w)) y (query_ok _ (advance w) s y made) in
      let after : v.sessions ≡ fresh ∷ w.sessions =
        ap (λ x. x.sessions) (sym (ap (λ x. x.1) e)) ∙ stored in
      let kept : token ≡ raw = cc in
      record {
        user = u;
        session = fresh;
        found = found;
        verified = verified;
        held =
            rw (after, sym kept) (held_first u.id (hash_session_token c.tokens token) expires_at);
        owner = refl;
        unrevoked = refl;
      }

  started_signs :
      (u : User) (x : Result String)
      → find_where (has_email form.email) w.users ≡ some u
      → verify_password c.passwords u.password_hash form.password ≡ ok true
      → SetsCookie (start_session c u.id x (advance w)) raw v
      → IsSignedIn c form raw w v
  unfolding start_session
  started_signs u (err e) found verified k = no-cookie internal_error (advance w) v raw k
  started_signs u (ok token) found verified k =
      made_signs u token (w.env.now (suc w.tick) + session_ttl) _ found verified refl k

  verified_signs :
      (u : User) (x : Result Bool)
      → find_where (has_email form.email) w.users ≡ some u
      → verify_password c.passwords u.password_hash form.password ≡ x
      → SetsCookie (on_verified c u.id x (advance w)) raw v
      → IsSignedIn c form raw w v
  unfolding on_verified login_page
  verified_signs u (err e) found verified k = no-cookie _ (advance w) v raw k
  verified_signs u (ok false) found verified k = no-cookie _ (advance w) v raw k
  verified_signs u (ok true) found verified k = started_signs u _ found verified k

  form_signs : SetsCookie (handle_login c (some form) w) raw v → IsSignedIn c form raw w v
  unfolding handle_login get_user_by_email on_user login_page
  form_signs k = elim (read_cases (λ u. one_row (find_where (has_email form.email) u.users)) w) [
    | inr (s, q) ↦
        no-cookie (rendered "Login" "invalid email or password") (advance w) v raw
          (rw (handle_login, q) at k)
    | inl q ↦ elim (Option-cases (find_where (has_email form.email) w.users)) [
      | inl gone ↦
          no-cookie (rendered "Login" "invalid email or password") (advance w) v raw
            (rw (handle_login, q, gone) at k)
      | inr (u, found) ↦ verified_signs u _ found refl (rw (handle_login, q, found) at k)
    ]
  ]

-- A login sets a session cookie only for a user whose email is the form's and whose password
-- verifies; the cookie names a session of that user's, in the table and not revoked.
pub handle_login-IsSignedIn :
    (c : AuthCodec) (form : Form) (w v : World) (a : Answer) (raw : String)
    → handle_login c (some form) w ≡ (ok a, v)
    → a.set_cookie ≡ some raw
    → IsSignedIn c form raw w v
handle_login-IsSignedIn c form w v a raw h s = form_signs c form raw w v (a, h, s)
